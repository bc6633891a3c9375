-- ===== src/Repo/Layers/FromDb.antt =====
-- The store of layers of pkg/layerdb meets what the local repository asks for.
use apack.Base.{
  String, ◌≡◌, refl, ◌∙◌, Bool, true, false, Option, none, some, List, map, Result, ok, err,
  >>=-eq-ok, arith, str_eq, str_iff, str_refl, Result-cases, Bool-cases, inl, inr,
}
use apack.LayerDb.Layout.{Descriptor, Manifest, Index, index_file}
use apack.LayerDb.Engine.{Engine, IsLawful, Error, blob_key}
use apack.LayerDb.Kv
use apack.LayerDb.Entries.{tagged, Entry, index_entries}
use apack.LayerDb.Entries.Lookup.{Readable, Readable-imp}
use apack.LayerDb.Store
use apack.LayerDb.Store.Laws.{fetch_valid-eq-ok, fetch_valid-intro}
use apack.LayerDb.Store.Tags.{manifest-index}
use apack.LayerDb.Gc.{Db}
use apack.LayerDb.Blobs
use apack.Repo.Layers.{LayerStore, IsLayerStore}

module _ (e : Engine) (is_tar : String → Bool) where
  -- a step of the bucket alone
  abbrev on_bolt : Db e → Result Error e.Bolt → Result Error (Db e)
  on_bolt s (ok t) = ok (record s { bolt = t })
  on_bolt s (err x) = err x

  abbrev entries : Result Error (List Entry) → Result Error (List (Manifest × String))
  entries (ok es) = ok (map (λ x. (x.manifest, x.ref)) es)
  entries (err x) = err x

  abbrev pub from_db : LayerStore
  from_db = record {
    State = Db e;
    Blob = e.Bytes;
    exists = λ s d. Store.exists e s.bolt s.objects d;
    set = Blobs.set e is_tar;
    write = Blobs.write e is_tar;
    read = Blobs.read e is_tar;
    index = λ s r d. on_bolt s (Store.index e s.bolt r d);
    copy = λ s a b. on_bolt s (Store.copy e s.bolt a b);
    snap = λ s r. on_bolt s (Store.snap e s.bolt r);
    manifest = λ s r. Store.manifest e s.bolt r;
    manifests = λ s. entries (Store.manifests e s.bolt "");
    is_digest = e.is_digest;
    decode = λ v. e.unmarshal_manifest (some v);
    stored = λ s d. Store.fetch e s.bolt d;
    IsReadable = λ s.
        (i : Index) × (Store.read_index e s.bolt ≡ ok i)
        × Readable (Store.fetch_valid e s.bolt) i.manifests;
  }

  module _ (lawful : IsLawful e) where
    set-eq-ok :
        (s t : Db e) (d : Descriptor) (v : e.Bytes)
        → Blobs.set e is_tar s d v ≡ ok t
        → (Kv.put e s.bolt (blob_key e d) v ≡ ok t.bolt) × (t.objects ≡ s.objects)
    unfolding Blobs.set
    set-eq-ok s t d v h =
        let (b, p, q) =
          >>=-eq-ok (Kv.put e s.bolt (blob_key e d) v) (λ b. ok (record s { bolt = b })) h in
        (ground (arith, p, q), ground (arith, q))

    exists-set :
        (s t : Db e) (d : Descriptor) (v : e.Bytes)
        → Blobs.set e is_tar s d v ≡ ok t
        → Store.exists e t.bolt t.objects d ≡ ok true
    unfolding Store.exists
    exists-set s t d v h =
        let (p, _) = set-eq-ok s t d v h in
        let there = Kv.exists-put e lawful s.bolt t.bolt (blob_key e d) (blob_key e d) v p in
        ground (arith, there, str_refl (blob_key e d))

    -- A blob under another key is there after a write just if it was there before.
    pub exists-set_apart :
        (s t : Db e) (c d : Descriptor) (v : e.Bytes)
        → str_eq (blob_key e c) (blob_key e d) ≡ false
        → Blobs.set e is_tar s c v ≡ ok t
        → Store.exists e t.bolt t.objects d ≡ Store.exists e s.bolt s.objects d
    unfolding Store.exists
    exists-set_apart s t c d v differ h =
        let (p, o) = set-eq-ok s t c v h in
        let there = Kv.exists-put e lawful s.bolt t.bolt (blob_key e c) (blob_key e d) v p in
        ground (arith, there, differ, o)

    -- A write of the bucket removes nothing.
    exists-put :
        (s t : e.Bolt) (o : e.Objects) (k : String) (v : e.Bytes) (c : Descriptor)
        → Kv.put e s k v ≡ ok t
        → Store.exists e s o c ≡ ok true
        → Store.exists e t o c ≡ ok true
    unfolding Store.exists
    exists-put s t o k v c p h = ground (arith, h, Kv.exists-put e lawful s t k (blob_key e c) v p)

    stored-set :
        (s t : Db e) (d : Descriptor) (v : e.Bytes)
        → Blobs.set e is_tar s d v ≡ ok t
        → Store.fetch e t.bolt d ≡ e.unmarshal_manifest (some v)
    unfolding Store.fetch
    stored-set s t d v h =
        let (p, _) = set-eq-ok s t d v h in
        let there = Kv.get-put e lawful s.bolt t.bolt (blob_key e d) (blob_key e d) v p in
        ground (arith, there, str_refl (blob_key e d))

    -- What is absent for `Exists` has no bytes in the bucket.
    get_absent :
        (s : e.Bolt) (o : e.Objects) (d : Descriptor)
        → Store.exists e s o d ≡ ok false
        → (v : Option e.Bytes) → Kv.get e s (blob_key e d) ≡ ok v
        → v ≡ none
    unfolding Store.exists
    get_absent s o d h none g = refl
    get_absent s o d h (some v) g =
        let there : Kv.exists e s (blob_key e d) ≡ ok true = Kv.exists-get e s (blob_key e d) v g in
        absurd (ground (arith, h, there))

    stored-set_other :
        (s t : Db e) (c d : Descriptor) (v : e.Bytes) (m : Manifest)
        → Store.exists e s.bolt s.objects d ≡ ok false
        → Blobs.set e is_tar s d v ≡ ok t
        → Store.fetch e s.bolt c ≡ ok m
        → Store.fetch e t.bolt c ≡ ok m
    unfolding Store.fetch
    stored-set_other s t c d v m absent h f =
        let (p, _) = set-eq-ok s t d v h in
        let other = Kv.get-put e lawful s.bolt t.bolt (blob_key e d) (blob_key e c) v p in
        elim (Bool-cases (str_eq (blob_key e d) (blob_key e c))) [
          | inr differ ↦ ground (arith, other, differ, f)
          | inl same ↦
              let key = (str_iff (blob_key e d) (blob_key e c)).0 same in
              let (w, g, u) = >>=-eq-ok (Kv.get e s.bolt (blob_key e c)) e.unmarshal_manifest f in
              let empty : w ≡ none = get_absent s.bolt s.objects d absent w (rw key g) in
              absurd (lawful.unmarshal_none m (rw empty at u))
        ]

    read_index-set :
        (s t : Db e) (d : Descriptor) (v : e.Bytes)
        → e.is_digest d.digest ≡ true
        → Blobs.set e is_tar s d v ≡ ok t
        → Store.read_index e t.bolt ≡ Store.read_index e s.bolt
    unfolding Store.read_index
    read_index-set s t d v valid h =
        let (p, _) = set-eq-ok s t d v h in
        ground (
          arith,
          Kv.get-put e lawful s.bolt t.bolt (blob_key e d) index_file v p,
          str_iff (blob_key e d) index_file,
          lawful.blob_path d.digest valid,
        )

    index-eq-ok :
        (s t : Db e) (r : String) (d : Descriptor)
        → on_bolt s (Store.index e s.bolt r d) ≡ ok t
        → (Store.index e s.bolt r d ≡ ok t.bolt) × (t.objects ≡ s.objects)
    index-eq-ok s t r d h = elim (Result-cases (Store.index e s.bolt r d)) [
      | inl (b, p) ↦ (ground (arith, h, p), ground (arith, h, p))
      | inr (x, p) ↦ absurd (ground (arith, h, p))
    ]

    exists-index :
        (s t : e.Bolt) (o : e.Objects) (r : String) (c d : Descriptor)
        → Store.index e s r d ≡ ok t
        → Store.exists e s o c ≡ ok true
        → Store.exists e t o c ≡ ok true
    unfolding Store.index Store.write_index
    exists-index s t o r c d h there =
        let (i, p, q) = >>=-eq-ok (Store.read_index e s) _ h in
        let (v, u, w) =
          >>=-eq-ok (e.marshal_index (record i { manifests = index_entries r d i.manifests }))
            (Kv.put e s index_file) q in
        exists-put s t o index_file v c w there

    -- The store of layers of pkg/layerdb, over an engine that behaves as documented, keeps the
    -- laws that the local repository relies on: what is set is there and is what was set, a set
    -- of an absent blob takes nothing away, and leaves the manifests readable if its digest is
    -- valid, a new entry of the index takes nothing away, and a reference that was indexed with
    -- a valid digest names its manifest. Readable manifests are those of an index with valid
    -- digests only.
    pub from_db-IsLayerStore : IsLayerStore from_db
    unfolding Store.exists Store.fetch
    from_db-IsLayerStore = record {
      exists-digest = λ s c d h. rw h refl;
      stored-digest = λ s c d h. rw h refl;
      exists-set = exists-set;
      exists-set_other = λ s t c d v h there.
          let (p, o) = set-eq-ok s t d v h in
          rw o (exists-put s.bolt t.bolt s.objects (blob_key e d) v c p there);
      stored-set = stored-set;
      stored-set_other = stored-set_other;
      set-IsReadable = λ s t d v valid absent h (i, p, readable). (
        i,
        read_index-set s t d v valid h ∙ p,
        Readable-imp (Store.fetch_valid e s.bolt) (Store.fetch_valid e t.bolt) i.manifests
            (λ c m k.
              let (ok_c, q) = fetch_valid-eq-ok e lawful s.bolt c m k in
              fetch_valid-intro e lawful t.bolt c m ok_c (stored-set_other s t c d v m absent h q))
            readable,
      );
      exists-index = λ s t r c d h there.
          let (p, o) = index-eq-ok s t r d h in
          rw o (exists-index s.bolt t.bolt s.objects r c d p there);
      manifest-index = λ s t r d m (i, p, readable) valid f h.
          let (q, o) = index-eq-ok s t r d h in
          manifest-index e lawful s.bolt t.bolt i r r d (tagged r d) m m p readable
            (fetch_valid-intro e lawful s.bolt (tagged r d) m valid f) q
            (ground (arith, str_refl r)) (fetch_valid-intro e lawful s.bolt (tagged r d) m valid f);
    }
