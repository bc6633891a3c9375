-- ===== src/LayerDb/Store/Begin.antt =====
-- What `init` leaves in a store.
use apack.Base.{◌∙◌, ◌≡◌, true, false, [], ok, ◌>>=◌, >>=-eq-ok, arith, Result-cases, inl, inr}
use apack.LayerDb.Layout.{Index, index_file, layout_file}
use apack.LayerDb.Engine.{Engine, IsLawful}
use apack.LayerDb.Kv
use apack.LayerDb.Store.{init, write_layout, fresh_index, write_index, index_media_type}

module _ (e : Engine) (lawful : IsLawful e) where
  HasFiles : e.Bolt → Type 0
  HasFiles s = (Kv.exists e s layout_file ≡ ok true) × (Kv.exists e s index_file ≡ ok true)

  fresh_index-HasFiles :
      (s t : e.Bolt) → fresh_index e s ≡ ok t → Kv.exists e s layout_file ≡ ok true → HasFiles t
  unfolding fresh_index write_index HasFiles
  fresh_index-HasFiles s t h there = elim (Result-cases (Kv.exists e s index_file)) [
    | inr (x, failed) ↦ absurd (ground (arith, h, failed))
    | inl (true, has) ↦ let same : s ≡ t = ground (arith, h, has) in rw (← same) (there, has)
    | inl (false, missing) ↦
        let i : Index = record { media_type = index_media_type; manifests = [] } in
        let written : write_index e s i ≡ ok t = ground (arith, h, missing) in
        let (v, p, q) = >>=-eq-ok (e.marshal_index i) (Kv.put e s index_file) written in
        (
          Kv.exists-put e lawful s t index_file layout_file v q ∙ there,
          Kv.exists-put e lawful s t index_file index_file v q,
        )
  ]

  write_layout-HasFiles : (s t : e.Bolt) → write_layout e s ≡ ok t → HasFiles t
  unfolding write_layout
  write_layout-HasFiles s t h =
      let (v, p, q) =
        >>=-eq-ok (e.marshal_layout "application/vnd.oci.layout.header.v1+json")
          (λ v. Kv.put e s layout_file v >>= fresh_index e) h in
      let (u, r, w) = >>=-eq-ok (Kv.put e s layout_file v) (fresh_index e) q in
      fresh_index-HasFiles u t w (Kv.exists-put e lawful s u layout_file layout_file v r)

  -- After init has succeeded, on any store, the layout file and the index are there.
  pub init-exists :
      (s t : e.Bolt)
      → init e s ≡ ok t
      → (Kv.exists e t layout_file ≡ ok true) × (Kv.exists e t index_file ≡ ok true)
  unfolding init HasFiles
  init-exists s t h = elim (Result-cases (Kv.exists e s layout_file)) [
    | inr (x, failed) ↦ absurd (ground (arith, h, failed))
    | inl (false, missing) ↦ write_layout-HasFiles s t (ground (arith, h, missing))
    | inl (true, there) ↦ elim (Result-cases (Kv.exists e s index_file)) [
      | inr (x, failed) ↦ absurd (ground (arith, h, there, failed))
      | inl (false, missing) ↦ write_layout-HasFiles s t (ground (arith, h, there, missing))
      | inl (true, has) ↦
          let same : s ≡ t = ground (arith, h, there, has) in rw (← same) (there, has)
    ]
  ]

  -- On a store that init has left, init succeeds and changes nothing.
  pub init_idempotent : (s t : e.Bolt) → init e s ≡ ok t → init e t ≡ ok t
  unfolding init
  init_idempotent s t h = let (a, b) = init-exists s t h in ground (arith, a, b)
