-- ===== src/Diff/Compared.antt =====
-- Which digests the lists of a comparison have.
use apack.Base.{
  ℕ, suc, String, ◌≡◌, refl, ◌∙◌, Bool, true, false, ◌&&◌, ◌||◌, not, Option, none, some, List, [],
  ◌∷◌, Dict, insert, lookup, erase, lookup-insert, lookup-erase, any_of, Every, str_eq, str_iff,
  leb, if◌then◌else◌, arith, Bool-cases, Option-cases, inl, inr,
}
use apack.LayerDb.Layout.{Descriptor, Manifest}
use apack.Diff.{layer_map, find_layers, compare_manifests}

abbrev pub has : String → List Descriptor → Bool
has x ds = any_of (λ d. str_eq d.digest x) ds

abbrev pub count : String → List Descriptor → ℕ
count x [] = 0
count x (d ∷ ds) = if str_eq d.digest x then suc (count x ds) else count x ds

abbrev present : {A : Type 0} → Option A → Bool
present none = false
present (some _) = true

-- every layer stands under its own digest
abbrev IsKeyed : Dict Descriptor → Type 0
IsKeyed m = Every (λ e. e.1.digest ≡ e.0) m

insert-IsKeyed : (d : Descriptor) (m : Dict Descriptor) → IsKeyed m → IsKeyed (insert d.digest d m)
unfolding insert
insert-IsKeyed d [] k = (refl, tt)
insert-IsKeyed d ((j, v) ∷ m) (h, k) = elim (Bool-cases (str_eq j d.digest)) [
  | inl p ↦ rw (p, insert) (refl, k)
  | inr p ↦ rw (p, insert) (h, insert-IsKeyed d m k)
]

erase-IsKeyed : (x : String) (m : Dict Descriptor) → IsKeyed m → IsKeyed (erase x m)
unfolding erase
erase-IsKeyed x [] k = tt
erase-IsKeyed x ((j, v) ∷ m) (h, k) = elim (Bool-cases (str_eq j x)) [
  | inl p ↦ rw (p, erase) (erase-IsKeyed x m k)
  | inr p ↦ rw (p, erase) (h, erase-IsKeyed x m k)
]

lookup-any_of :
    (x : String) (m : Dict Descriptor)
    → IsKeyed m
    → any_of (λ e. str_eq e.1.digest x) m ≡ present (lookup x m)
unfolding lookup
lookup-any_of x [] k = refl
lookup-any_of x ((j, v) ∷ m) (h, k) = ground (arith, h, lookup-any_of x m k)

layer_map-IsKeyed :
    (ds : List Descriptor) (m : Dict Descriptor) → IsKeyed m → IsKeyed (layer_map ds m)
unfolding layer_map
layer_map-IsKeyed [] m k = k
layer_map-IsKeyed (d ∷ ds) m k = layer_map-IsKeyed ds (insert d.digest d m) (insert-IsKeyed d m k)

layer_map-lookup :
    (x : String) (ds : List Descriptor) (m : Dict Descriptor)
    → present (lookup x (layer_map ds m)) ≡ (has x ds || present (lookup x m))
unfolding layer_map
layer_map-lookup x [] m = refl
layer_map-lookup x (d ∷ ds) m =
    ground (arith, layer_map-lookup x ds (insert d.digest d m), lookup-insert d.digest x d m)

layer_map-has :
    (x : String) (ds : List Descriptor) → present (lookup x (layer_map ds [])) ≡ has x ds
unfolding lookup
layer_map-has x ds = ground (arith, layer_map-lookup x ds [])

find_layers-IsKeyed :
    (ds : List Descriptor) (m : Dict Descriptor) → IsKeyed m → IsKeyed (find_layers ds m).left
unfolding find_layers
find_layers-IsKeyed [] m k = k
find_layers-IsKeyed (d ∷ ds) m k = elim (Option-cases (lookup d.digest m)) [
  | inl p ↦ rw (p, find_layers) (find_layers-IsKeyed ds m k)
  | inr (v, p) ↦
      rw (p, find_layers) (find_layers-IsKeyed ds (erase d.digest m) (erase-IsKeyed d.digest m k))
]

has-count : (x : String) (ds : List Descriptor) → has x ds ≡ leb 1 (count x ds)
has-count x [] = refl
has-count x (d ∷ ds) = ground (arith, has-count x ds)

-- What the loop finds for one digest: it is shared once, and what comes again is the second's own.
find_layers-has :
    (x : String) (ds : List Descriptor) (m : Dict Descriptor)
    → let f = find_layers ds m in
      let there = present (lookup x m) in
      (has x f.shared ≡ (there && has x ds))
      × (present (lookup x f.left) ≡ (there && not (has x ds)))
      × (has x f.own ≡ (has x ds && (not there || leb 2 (count x ds))))
unfolding find_layers
find_layers-has x [] m = (ground arith, ground arith, refl)
find_layers-has x (d ∷ ds) m =
    let same = str_iff d.digest x in
    elim (Option-cases (lookup d.digest m)) [
      | inl p ↦
          let (a, b, c) = find_layers-has x ds m in
          (
            ground (arith, p, a, same),
            ground (arith, p, b, same),
            ground (arith, p, c, same, has-count x ds),
          )
      | inr (v, p) ↦
          let (a, b, c) = find_layers-has x ds (erase d.digest m) in
          let gone = lookup-erase d.digest x m in
          (
            ground (arith, p, a, gone, same),
            ground (arith, p, b, gone, same),
            ground (arith, p, c, gone, same, has-count x ds),
          )
    ]

module _ (sort : List Descriptor → List Descriptor)
    (values : Dict Descriptor → List Descriptor) where
  -- Let the sort and the run through a map keep what they are given. Then a digest is among the
  -- shared layers just if both manifests have it, among the first's own just if the first has it
  -- and the second has not, and among the second's own just if the second has it and the first
  -- has not, or the second has it twice.
  pub compare_manifests-has :
      ((q : Descriptor → Bool) (ds : List Descriptor) → any_of q (sort ds) ≡ any_of q ds)
      → ((q : Descriptor → Bool) (m : Dict Descriptor)
          → any_of q (values m) ≡ any_of (λ e. q e.1) m)
      → (a b : Manifest) (x : String)
      → let r = compare_manifests sort values a b in
        (has x r.shared_layers ≡ (has x a.layers && has x b.layers))
        × (has x r.unique_layers_a ≡ (has x a.layers && not (has x b.layers)))
        × (has x r.unique_layers_b
            ≡ (has x b.layers && (not (has x a.layers) || leb 2 (count x b.layers))))
  unfolding compare_manifests
  compare_manifests-has sorted ordered a b x =
      let m = layer_map a.layers [] in
      let f = find_layers b.layers m in
      let (p, q, o) = find_layers-has x b.layers m in
      let from = layer_map-has x a.layers in
      let keyed = find_layers-IsKeyed b.layers m (layer_map-IsKeyed a.layers [] tt) in
      (
        sorted (λ d. str_eq d.digest x) f.shared ∙ ground (arith, p, from),
        sorted (λ d. str_eq d.digest x) (values f.left)
            ∙ (ordered (λ d. str_eq d.digest x) f.left
                ∙ ground (arith, lookup-any_of x f.left keyed, q, from)),
        sorted (λ d. str_eq d.digest x) f.own ∙ ground (arith, o, from),
      )
