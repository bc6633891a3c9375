-- ===== src/LayerDb/Entries/Annotate.antt =====
-- `annotation`, the loop behind `Delete`, `Snap` and `Purge`: what it does to the named entries.
use apack.Base.{
  String, ◌≡◌, refl, ◌≢◌, true, Option, none, some, List, [], ◌∷◌, ok, arith, str_eq, str_iff,
  if◌then◌else◌, lookup, insert, erase, lookup-insert, lookup-erase, Option-cases, Bool-cases, inl,
  inr,
}
use apack.LayerDb.Layout.{Descriptor, ref_of, ref_name}
use apack.LayerDb.Entries.{named, Action, add, del, annotate, ref_or_empty, annotate_first}
use apack.LayerDb.Entries.Lookup.{first_named}

-- The entry with its annotation set or taken out.
abbrev pub marked : Action → String → String → Descriptor → Descriptor
marked add k v d = record d { annotations = insert k v d.annotations }
marked del k v d = record d { annotations = erase k d.annotations }

abbrev pub mark_found : Action → String → String → Option Descriptor → Option Descriptor
mark_found a k v none = none
mark_found a k v (some d) = some (marked a k v d)

-- a text that is not empty is no missing reference
ref_or_empty-eq-named :
    (r : String) (d : Descriptor) → r ≢ "" → str_eq (ref_or_empty d) r ≡ named r d
ref_or_empty-eq-named r d h = ground (arith, str_iff "" r)

named-marked :
    (a : Action) (k v q : String) (d : Descriptor)
    → k ≢ ref_name
    → named q (marked a k v d) ≡ named q d
named-marked add k v q d h =
    ground (arith, lookup-insert k ref_name v d.annotations, str_iff k ref_name)
named-marked del k v q d h =
    ground (arith, lookup-erase k ref_name d.annotations, str_iff k ref_name)

-- a named entry has annotations, so the write meets no nil map
annotate-named :
    (a : Action) (k v r : String) (d : Descriptor)
    → named r d ≡ true
    → annotate a k v d ≡ ok (marked a k v d)
unfolding annotate lookup
annotate-named add k v r d h = ground arith
annotate-named del k v r d h = refl

named_unique : (r q : String) (d : Descriptor) → named r d ≡ true → named q d ≡ str_eq r q
named_unique r q d h = elim (Option-cases (ref_of d)) [
  | inl p ↦ cc (p, h)
  | inr (v, p) ↦ ground (arith, p, str_iff v r, str_iff v q, str_iff r q)
]

-- For a reference that is not empty and a key that is not the reference's own, the first entry of
-- that name gets or loses the annotation, every other reference keeps its entry as it was, and a
-- reference that is not in the index is no error and changes nothing.
pub first_named-annotate_first :
    (a : Action) (r k v q : String) (ms : List Descriptor)
    → r ≢ ""
    → k ≢ ref_name
    → (ms' : List Descriptor) × (annotate_first a r k v ms ≡ ok ms')
      × (first_named q ms'
          ≡ (if str_eq r q then mark_found a k v (first_named q ms) else first_named q ms))
unfolding annotate_first first_named
first_named-annotate_first a r k v q [] nonempty other = ([], refl, ground arith)
first_named-annotate_first a r k v q (x ∷ xs) nonempty other = elim (Bool-cases (named r x)) [
  | inl hit ↦ (
    marked a k v x ∷ xs,
    ground (arith, ref_or_empty-eq-named r x nonempty, annotate-named a k v r x hit),
    ground (arith, named-marked a k v q x other, named_unique r q x hit),
  )
  | inr miss ↦
      let (ms', p, e) = first_named-annotate_first a r k v q xs nonempty other in
      (
        x ∷ ms',
        ground (arith, ref_or_empty-eq-named r x nonempty, p),
        ground (arith, e, str_iff r q),
      )
]
