-- ===== src/LayerDb/Store/Laws.antt =====
-- Reads of the index and of blobs after a write of the index.
use apack.Base.{
  ◌≡◌, sym, ◌∙◌, Option, none, some, List, Result, ok, ◌>>=◌, >>=-eq-ok, arith, str_iff, Bool-cases,
  inl, inr, true,
}
use apack.LayerDb.Layout.{Descriptor, Manifest, Index, index_file}
use apack.LayerDb.Engine.{Engine, IsLawful, Error, blob_key}
use apack.LayerDb.Kv
use apack.LayerDb.Store.{read_index, write_index, rewrite, fetch, fetch_valid}

module _ (e : Engine) (lawful : IsLawful e) where
  pub read_index-write_index :
      (s t : e.Bolt) (i : Index) → write_index e s i ≡ ok t → read_index e t ≡ ok i
  unfolding read_index write_index
  read_index-write_index s t i h =
      let (v, p, q) = >>=-eq-ok (e.marshal_index i) (Kv.put e s index_file) h in
      ground (
        arith,
        Kv.get-put e lawful s t index_file index_file v q,
        str_iff index_file index_file,
        lawful.unmarshal-marshal i v p,
      )

  -- the index is no blob, so its writes leave every manifest readable as before
  fetch-write_index :
      (s t : e.Bolt) (i : Index) (d : Descriptor)
      → e.is_digest d.digest ≡ true
      → write_index e s i ≡ ok t
      → fetch e t d ≡ fetch e s d
  unfolding fetch write_index
  fetch-write_index s t i d valid h =
      let (v, p, q) = >>=-eq-ok (e.marshal_index i) (Kv.put e s index_file) h in
      ground (
        arith,
        Kv.get-put e lawful s t index_file (blob_key e d) v q,
        str_iff index_file (blob_key e d),
        lawful.blob_path d.digest valid,
      )

  pub fetch_valid-eq-ok :
      (s : e.Bolt) (d : Descriptor) (m : Manifest)
      → fetch_valid e s d ≡ ok m
      → (e.is_digest d.digest ≡ true) × (fetch e s d ≡ ok m)
  unfolding fetch_valid
  fetch_valid-eq-ok s d m h = elim (Bool-cases (e.is_digest d.digest)) [
    | inl valid ↦ (valid, ground (arith, h, valid))
    | inr other ↦ absurd (ground (arith, h, other))
  ]

  pub fetch_valid-intro :
      (s : e.Bolt) (d : Descriptor) (m : Manifest)
      → e.is_digest d.digest ≡ true
      → fetch e s d ≡ ok m
      → fetch_valid e s d ≡ ok m
  unfolding fetch_valid
  fetch_valid-intro s d m valid h = ground (arith, h, valid)

  -- A manifest with a valid digest that could be read can be read after a write of the index.
  pub fetch_valid-write_index :
      (s t : e.Bolt) (i : Index) (d : Descriptor) (m : Manifest)
      → write_index e s i ≡ ok t
      → fetch_valid e s d ≡ ok m
      → fetch e t d ≡ ok m
  fetch_valid-write_index s t i d m w h =
      let (valid, k) = fetch_valid-eq-ok s d m h in fetch-write_index s t i d valid w ∙ k

  -- What a rewrite of the entries that succeeded has read and written.
  pub rewrite-eq-ok :
      (s t : e.Bolt) (i : Index) (f : List Descriptor → Result Error (List Descriptor))
      → read_index e s ≡ ok i
      → Kv.update_in_place e s index_file (rewrite e f) ≡ ok t
      → (ms : List Descriptor) × (f i.manifests ≡ ok ms)
        × (write_index e s (record i { manifests = ms }) ≡ ok t)
  unfolding read_index write_index rewrite
  rewrite-eq-ok s t i f p h =
      let (old, q, u) =
        >>=-eq-ok (Kv.get e s index_file) (λ old. rewrite e f old >>= Kv.put e s index_file)
          (sym (Kv.update_in_place-eq-put e s index_file (rewrite e f)) ∙ h) in
      go old q u
    where
      go :
          (old : Option e.Bytes)
          → Kv.get e s index_file ≡ ok old
          → (rewrite e f old >>= Kv.put e s index_file) ≡ ok t
          → (ms : List Descriptor) × (f i.manifests ≡ ok ms)
            × (write_index e s (record i { manifests = ms }) ≡ ok t)
      go none q u = absurd (ground (arith, u))
      go (some v) q u =
          let read : e.unmarshal_index (some v) ≡ ok i = ground (arith, p, q) in
          let rest = rw read at u in
          let (w, mid, last) = >>=-eq-ok _ (Kv.put e s index_file) rest in
          let (ms, x, y) = >>=-eq-ok (f i.manifests) _ mid in (ms, x, ground (arith, y, last))
