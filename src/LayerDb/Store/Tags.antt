-- ===== src/LayerDb/Store/Tags.antt =====
-- What `Manifest` finds after `index`, `Copy`, `annotation` and `unlink` have rewritten the index.
use apack.Base.{
  String, ◌≡◌, refl, ◌≢◌, ◌∙◌, not, none, some, List, ok, arith, str_eq, if◌then◌else◌, keep_if,
}
use apack.LayerDb.Layout.{Descriptor, Manifest, Index, ref_name}
use apack.LayerDb.Engine.{Engine, IsLawful}
use apack.LayerDb.Entries.{
  tagged, Action, add, del, index_entries, annotate_first, unlink_entries, drops, last_named,
  find_manifest,
}
use apack.LayerDb.Entries.Lookup.{first_named, Readable, Readable-imp, find_manifest-present}
use apack.LayerDb.Entries.Rewrite.{
  first_named-index_entries, first_named-copy_entries, or_else, renamed,
}
use apack.LayerDb.Entries.Annotate.{marked, mark_found, first_named-annotate_first}
use apack.LayerDb.Entries.Unlink.{unlink_entries-eq-keep_if}
use apack.LayerDb.Store.{
  read_index, write_index, fetch, fetch_valid, index, copy, manifest, annotation, unlink,
}
use apack.LayerDb.Store.Reads.{
  Readable-index_entries, Readable-copy_entries, Readable-annotate_first,
}
use apack.LayerDb.Store.Laws.{read_index-write_index, fetch_valid-write_index, rewrite-eq-ok}

module _ (e : Engine) (lawful : IsLawful e) where
  manifest-eq-find_manifest :
      (s : e.Bolt) (i : Index) (r : String)
      → read_index e s ≡ ok i
      → manifest e s r ≡ find_manifest (fetch e s) r i.manifests
  unfolding manifest find_manifest
  manifest-eq-find_manifest s i r h = rw h

  -- what an index operation that succeeded has written
  index-eq-ok :
      (s t : e.Bolt) (i : Index) (r : String) (d : Descriptor)
      → read_index e s ≡ ok i
      → index e s r d ≡ ok t
      → write_index e s (record i { manifests = index_entries r d i.manifests }) ≡ ok t
  unfolding index
  index-eq-ok s t i r d p h = rw p at h

  -- A store whose index was written has the same manifests to read, and finds by the new entries.
  manifest-write_index :
      (s t : e.Bolt) (i : Index) (q : String) (c : Descriptor) (n : Manifest)
      → write_index e s i ≡ ok t
      → Readable (fetch_valid e s) i.manifests
      → first_named q i.manifests ≡ some c
      → fetch_valid e s c ≡ ok n
      → manifest e t q ≡ ok (n, c)
  manifest-write_index s t i q c n w readable named_q g =
      rw (manifest-eq-find_manifest t i q (read_index-write_index e lawful s t i w)) (
        find_manifest-present (fetch e t) q i.manifests c n
          (Readable-imp (fetch_valid e s) (fetch e t) i.manifests
            (λ d m. fetch_valid-write_index e lawful s t i d m w) readable)
          named_q (fetch_valid-write_index e lawful s t i c n w g))

  -- After Index of a descriptor under a reference has succeeded, Manifest returns for that
  -- reference that descriptor, and for every other reference of the index what it named before,
  -- each with the manifest of its blob, provided that the digests of the index and of the new
  -- descriptor are valid and their manifests can be read.
  pub manifest-index :
      (s t : e.Bolt) (i : Index) (r q : String) (d c : Descriptor) (m n : Manifest)
      → read_index e s ≡ ok i
      → Readable (fetch_valid e s) i.manifests
      → fetch_valid e s (tagged r d) ≡ ok m
      → index e s r d ≡ ok t
      → (if str_eq r q then some (tagged r d) else first_named q i.manifests) ≡ some c
      → fetch_valid e s c ≡ ok n
      → manifest e t q ≡ ok (n, c)
  manifest-index s t i r q d c m n p readable g h names k =
      manifest-write_index s t (record i { manifests = index_entries r d i.manifests }) q c n
        (index-eq-ok s t i r d p h)
        (Readable-index_entries (fetch_valid e s) r d m i.manifests g readable)
        (first_named-index_entries r q d i.manifests ∙ names) k

  fetch-renamed :
      (s : e.Bolt) (r : String) (d : Descriptor) → fetch_valid e s (renamed r d) ≡ fetch_valid e s d
  unfolding fetch_valid
  fetch-renamed s r d = refl

  fetch-marked :
      (s : e.Bolt) (a : Action) (k v : String) (d : Descriptor)
      → fetch_valid e s (marked a k v d) ≡ fetch_valid e s d
  unfolding fetch_valid
  fetch-marked s add k v d = refl
  fetch-marked s del k v d = refl

  -- After Copy has succeeded, Manifest of the target returns the manifest of the entry that was
  -- copied if the target was not in the index before; a reference that was there, the target
  -- included, still has what it had. All digests of the index are valid, and their manifests can
  -- be read.
  pub manifest-copy :
      (s t : e.Bolt) (i : Index) (r1 r2 q : String) (d c : Descriptor) (n : Manifest)
      → read_index e s ≡ ok i
      → Readable (fetch_valid e s) i.manifests
      → last_named r1 none i.manifests ≡ some d
      → copy e s r1 r2 ≡ ok t
      → or_else (first_named q i.manifests) (if str_eq r2 q then some (renamed r2 d) else none)
        ≡ some c
      → fetch_valid e s c ≡ ok n
      → manifest e t q ≡ ok (n, c)
  unfolding copy
  manifest-copy s t i r1 r2 q d c n p readable from h names k =
      let (ms', done, found) = first_named-copy_entries r1 r2 q i.manifests d from in
      let written : write_index e s (record i { manifests = ms' }) ≡ ok t =
        ground (arith, h, p, done) in
      manifest-write_index s t (record i { manifests = ms' }) q c n written
        (Readable-copy_entries (fetch_valid e s) r1 r2 i.manifests ms' d (fetch-renamed s r2) from
          done readable)
        (found ∙ names) k

  -- After annotation, for a reference that is not empty and a key other than the reference's
  -- own, every reference still has its manifest, and the descriptor of its own reference has the
  -- annotation set or taken out, if the annotation succeeds and all manifests of the index can
  -- be read.
  pub manifest-annotation :
      (s t : e.Bolt) (i : Index) (a : Action) (r k v q : String) (c : Descriptor) (n : Manifest)
      → r ≢ ""
      → k ≢ ref_name
      → read_index e s ≡ ok i
      → Readable (fetch_valid e s) i.manifests
      → annotation e s r k v a ≡ ok t
      → (if str_eq r q
          then mark_found a k v (first_named q i.manifests)
          else first_named q i.manifests)
        ≡ some c
      → fetch_valid e s c ≡ ok n
      → manifest e t q ≡ ok (n, c)
  unfolding annotation
  manifest-annotation s t i a r k v q c n nonempty other p readable h names g =
      let (ms, done, written) = rewrite-eq-ok e lawful s t i (annotate_first a r k v) p h in
      let (ms', done', found) = first_named-annotate_first a r k v q i.manifests nonempty other in
      let same : ms' ≡ ms = ground (arith, done, done') in
      manifest-write_index s t (record i { manifests = ms }) q c n written
        (Readable-annotate_first (fetch_valid e s) a r k v i.manifests ms (fetch-marked s a k v)
          done readable)
        (rw (← same) (found ∙ names)) g

  -- unlink leaves the index without the entries of the references that it is given, whatever
  -- their order and number, and with all others in their order.
  pub read_index-unlink :
      (s t : e.Bolt) (i : Index) (refs : List String)
      → read_index e s ≡ ok i
      → unlink e s refs ≡ ok t
      → read_index e t ≡ ok (record i { manifests = keep_if (λ d. not (drops refs d)) i.manifests })
  unfolding unlink
  read_index-unlink s t i refs p h =
      let (ms, done, written) =
        rewrite-eq-ok e lawful s t i (λ ms. ok (unlink_entries refs ms)) p h in
      let same : keep_if (λ d. not (drops refs d)) i.manifests ≡ ms =
        ground (arith, done, unlink_entries-eq-keep_if refs i.manifests) in
      rw same (read_index-write_index e lawful s t (record i { manifests = ms }) written)
