-- ===== src/LayerDb/Gc/Sweep.antt =====
-- What the sweep returns: the candidates that no live node shares, one for each key.
use apack.Base.{
  String, ◌≡◌, refl, Bool, true, false, not, ◌&&◌, ◌||◌, none, some, List, [], ◌∷◌, ◌++◌, arith,
  Dict, lookup, insert, lookup-insert, str_eq, str_iff, any_of, any_of-append, Option-cases, inl,
  inr,
}
use apack.LayerDb.Layout.{Descriptor}
use apack.LayerDb.Gc.{Color, white, gray, black, blacken, whiten, sweep}

module _ (key : Descriptor → String) where
  -- a descriptor of that key is in the list
  abbrev pub has_key : String → List Descriptor → Bool
  has_key k ds = any_of (λ d. str_eq (key d) k) ds

  abbrev in_pool : String → Dict Color → Bool
  in_pool k pool = elim (lookup k pool) [ none ↦ false | some _ ↦ true ]

  in_pool-blacken :
      (k : String) (ds : List Descriptor) (pool : Dict Color)
      → in_pool k (blacken key ds pool) ≡ (has_key k ds || in_pool k pool)
  unfolding blacken
  in_pool-blacken k [] pool = refl
  in_pool-blacken k (d ∷ ds) pool =
      ground (
        arith,
        in_pool-blacken k ds (insert (key d) black pool),
        lookup-insert (key d) k black pool,
      )

  -- no key twice
  abbrev pub Distinct : List Descriptor → Type 0
  Distinct [] = Unit {0}
  Distinct (d ∷ ds) = (has_key (key d) ds ≡ false) × Distinct ds

  whiten-keys :
      (k : String) (ds : List Descriptor) (pool : Dict Color) (out : List Descriptor)
      → has_key k (whiten key ds pool out).0
        ≡ (has_key k out || (has_key k ds && not (in_pool k pool)))
  unfolding whiten
  whiten-keys k [] pool out = ground arith
  whiten-keys k (d ∷ ds) pool out = elim (Option-cases (lookup (key d) pool)) [
    | inl fresh ↦ ground (
      arith,
      fresh,
      str_iff (key d) k,
      lookup-insert (key d) k white pool,
      any_of-append (λ d. str_eq (key d) k) out (d ∷ []),
      whiten-keys k ds (insert (key d) white pool) (out ++ d ∷ []),
    )
    | inr (c, seen) ↦ ground (
      arith,
      seen,
      str_iff (key d) k,
      lookup-insert (key d) k gray pool,
      whiten-keys k ds (insert (key d) gray pool) out,
    )
  ]

  Distinct-append :
      (ds : List Descriptor) (d : Descriptor)
      → Distinct ds
      → has_key (key d) ds ≡ false
      → Distinct (ds ++ d ∷ [])
  Distinct-append [] d h n = (refl, tt)
  Distinct-append (x ∷ ds) d (h, hs) n = (
    ground (
      arith,
      any_of-append (λ y. str_eq (key y) (key x)) ds (d ∷ []),
      str_iff (key d) (key x),
      str_iff (key x) (key d),
    ),
    Distinct-append ds d hs (ground arith),
  )

  whiten-Distinct :
      (ds : List Descriptor) (pool : Dict Color) (out : List Descriptor)
      → Distinct out
      → ((k : String) → has_key k out ≡ true → in_pool k pool ≡ true)
      → Distinct (whiten key ds pool out).0
  unfolding whiten
  whiten-Distinct [] pool out h sub = h
  whiten-Distinct (d ∷ ds) pool out h sub = elim (Option-cases (lookup (key d) pool)) [
    | inl fresh ↦
        rw (fresh, Distinct)
          (whiten-Distinct ds (insert (key d) white pool) (out ++ d ∷ [])
            (Distinct-append out d h (ground (arith, fresh, sub (key d))))
            (λ k u. ground (
              arith,
              u,
              sub k,
              any_of-append (λ y. str_eq (key y) k) out (d ∷ []),
              lookup-insert (key d) k white pool,
            )))
    | inr (c, seen) ↦
        rw (seen, Distinct)
          (whiten-Distinct ds (insert (key d) gray pool) out h
            (λ k u. ground (arith, u, sub k, lookup-insert (key d) k gray pool)))
  ]

  -- The descriptors that the sweep returns are one for each key that a candidate has and no live
  -- node has.
  pub sweep-exact :
      (live candidates : List Descriptor)
      → Distinct (sweep key live candidates).0
        × ((k : String)
            → has_key k (sweep key live candidates).0
              ≡ (has_key k candidates && not (has_key k live)))
  unfolding sweep lookup
  sweep-exact live candidates = (
    whiten-Distinct candidates (blacken key live []) [] tt (λ k h. cc),
    λ k.
        ground
          (arith, whiten-keys k candidates (blacken key live []) [], in_pool-blacken k live []),
  )
