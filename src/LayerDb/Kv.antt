-- ===== src/LayerDb/Kv.antt =====
-- The `kv` type of pkg/layerdb/layerdb.go: one bolt bucket. A failed transaction writes nothing, so
-- a method that writes returns the new store or the error.
use apack.Base.{
  String, ◌≡◌, Bool, true, false, Option, none, some, List, [], ◌∷◌, Result, ok, ◌>>=◌, arith,
  str_eq, if◌then◌else◌, >>=-eq-ok,
}
use apack.LayerDb.Engine.{Engine, IsLawful, Error}

module _ (e : Engine) where
  -- `db.View` and `db.Update` around a function of the bucket.
  view : {A : Type 0} → (e.Bucket → Result Error A) → e.Bolt → Result Error A
  view f s = do b ← e.begin s; f b

  update : (e.Bucket → Result Error e.Bucket) → e.Bolt → Result Error e.Bolt
  update f s = do b ← e.begin s; c ← f b; e.commit s c

  unfoldable pub get : e.Bolt → String → Result Error (Option e.Bytes)
  unfolding view
  get s k = view (λ b. ok (e.get b k)) s

  unfoldable pub put : e.Bolt → String → e.Bytes → Result Error e.Bolt
  unfolding update
  put s k v = update (λ b. e.put b k v) s

  unfoldable pub update_in_place :
      e.Bolt → String → (Option e.Bytes → Result Error e.Bytes) → Result Error e.Bolt
  unfolding update
  update_in_place s k f = update (λ b. do v ← f (e.get b k); e.put b k v) s

  unfoldable pub delete : e.Bolt → String → Result Error e.Bolt
  unfolding update
  delete s k = update (λ b. e.remove b k) s

  unfoldable pub delete_if_exists : e.Bolt → String → Result Error e.Bolt
  unfolding update
  delete_if_exists s k = update (λ b. elim (e.get b k) [ none ↦ ok b | some _ ↦ e.remove b k ]) s

  is_some : Option e.Bytes → Bool
  is_some none = false
  is_some (some _) = true

  unfoldable pub exists : e.Bolt → String → Result Error Bool
  unfolding view is_some
  exists s k = view (λ b. ok (is_some (e.get b k))) s

  -- The cursor's loop: the callback threads a state of its own and may stop with an error.
  for_entries :
      {A : Type 0}
      → (String → e.Bytes → A → Result Error A)
      → List (String × e.Bytes)
      → A
      → Result Error A
  for_entries f [] a = ok a
  for_entries f ((k, v) ∷ rest) a = f k v a >>= for_entries f rest

  unfoldable pub for_each :
      {A : Type 0} → e.Bolt → (String → e.Bytes → A → Result Error A) → A → Result Error A
  unfolding view for_entries
  for_each s f a = view (λ b. if e.is_nil b then ok a else for_entries f (e.entries b) a) s

  -- UpdateInPlace is a read, the function, and a write of its result, with the errors of each.
  pub update_in_place-eq-put :
      (s : e.Bolt) (k : String) (f : Option e.Bytes → Result Error e.Bytes)
      → update_in_place s k f ≡ (do old ← get s k; v ← f old; put s k v)
  unfolding update_in_place get put
  update_in_place-eq-put s k f = ground arith

  pub exists-get :
      (s : e.Bolt) (k : String) (v : e.Bytes) → get s k ≡ ok (some v) → exists s k ≡ ok true
  unfolding exists get
  exists-get s k v h =
      let (b, p, q) = >>=-eq-ok (e.begin s) (λ b. ok (e.get b k)) h in ground (arith, p, q)

  module _ (lawful : IsLawful e) where
    -- What a transaction that committed has read and left behind.
    update-eq-ok :
        (f : e.Bucket → Result Error e.Bucket) (s t : e.Bolt)
        → update f s ≡ ok t
        → (b c : e.Bucket) × (e.begin s ≡ ok b) × (f b ≡ ok c) × (e.begin t ≡ ok c)
    unfolding update
    update-eq-ok f s t h =
        let (b, p, q) = >>=-eq-ok (e.begin s) (λ b. f b >>= e.commit s) h in
        let (c, r, u) = >>=-eq-ok (f b) (e.commit s) q in (b, c, p, r, lawful.begin-commit s c t u)

    -- A read of a key after a write that succeeded gives the value written if the keys are the
    -- same, and otherwise what it gave before.
    pub get-put :
        (s t : e.Bolt) (k j : String) (v : e.Bytes)
        → put s k v ≡ ok t
        → get t j ≡ (if str_eq k j then ok (some v) else get s j)
    unfolding get put
    get-put s t k j v h =
        let (b, c, p, q, r) = update-eq-ok (λ b. e.put b k v) s t h in
        rw (r, p, lawful.get-put b c k j v q) (ground arith)

    pub exists-put :
        (s t : e.Bolt) (k j : String) (v : e.Bytes)
        → put s k v ≡ ok t
        → exists t j ≡ (if str_eq k j then ok true else exists s j)
    unfolding exists put
    exists-put s t k j v h =
        let (b, c, p, q, r) = update-eq-ok (λ b. e.put b k v) s t h in
        rw (r, p, lawful.get-put b c k j v q) (ground arith)

    -- A read of a key after a deletion that succeeded finds nothing if the keys are the same,
    -- and otherwise what it found before.
    pub get-delete :
        (s t : e.Bolt) (k j : String)
        → delete s k ≡ ok t
        → get t j ≡ (if str_eq k j then ok none else get s j)
    unfolding get delete
    get-delete s t k j h =
        let (b, c, p, q, r) = update-eq-ok (λ b. e.remove b k) s t h in
        rw (r, p, lawful.get-remove b c k j q) (ground arith)
