-- ===== src/LayerDb/Entries/Rewrite.antt =====
-- What the operations on the index do to the entries that references name.
use apack.Base.{
  String, ◌≡◌, refl, ◌≢◌, true, false, Option, none, some, List, [], ◌∷◌, ◌++◌, ok, err, arith,
  str_eq, str_iff, str_refl, if◌then◌else◌, lookup, insert, Option-cases, Bool-cases, inl, inr,
  lookup-insert,
}
use apack.LayerDb.Layout.{Descriptor, ref_of, ref_name}
use apack.LayerDb.Engine.{reference_missing}
use apack.LayerDb.Entries.{named, tagged, replace_named, index_entries, last_named, copy_entries}
use apack.LayerDb.Entries.Lookup.{first_named}

named-tagged : (r q : String) (d : Descriptor) → named q (tagged r d) ≡ str_eq r q
unfolding lookup
named-tagged r q d = refl

first_named-append :
    (r : String) (xs ys : List Descriptor)
    → first_named r (xs ++ ys) ≡ elim (first_named r xs) as (λ _. Option Descriptor) [
      | none ↦ first_named r ys
      | some d ↦ some d
    ]
unfolding first_named
first_named-append r [] ys = refl
first_named-append r (x ∷ xs) ys = ground (arith, first_named-append r xs ys)

first_named-single :
    (r : String) (d : Descriptor) → first_named r (d ∷ []) ≡ (if named r d then some d else none)
unfolding first_named
first_named-single r d = refl

-- The loop of `index` writes the entry exactly where the reference stood.
replace_named_self :
    (r : String) (d : Descriptor) (ms : List Descriptor)
    → named r d ≡ true
    → (replace_named r d ms).1 ≡ true
    → first_named r (replace_named r d ms).0 ≡ some d
unfolding first_named replace_named
replace_named_self r d [] n h = cc
replace_named_self r d (x ∷ xs) n h = ground (arith, replace_named_self r d xs n)

replace_named-missing :
    (r : String) (d : Descriptor) (ms : List Descriptor)
    → (replace_named r d ms).1 ≡ false
    → ((replace_named r d ms).0 ≡ ms) × (first_named r ms ≡ none)
unfolding first_named replace_named
replace_named-missing r d [] h = (refl, refl)
replace_named-missing r d (x ∷ xs) h = ground (arith, replace_named-missing r d xs)

replace_named-ne :
    (r q : String) (d : Descriptor) (ms : List Descriptor)
    → r ≢ q
    → named q d ≡ false
    → first_named q (replace_named r d ms).0 ≡ first_named q ms
unfolding first_named replace_named
replace_named-ne r q d [] h n = refl
replace_named-ne r q d (x ∷ xs) h n = elim (Option-cases (ref_of x)) [
  | inl p ↦ ground (arith, p, replace_named-ne r q d xs h n)
  | inr (v, p) ↦ ground (arith, p, str_iff v r, str_iff v q, replace_named-ne r q d xs h n)
]

-- After `index`, a reference names the descriptor that was indexed if it is the reference
-- of the call, and what it named before if it is another.
pub first_named-index_entries :
    (r q : String) (d : Descriptor) (ms : List Descriptor)
    → first_named q (index_entries r d ms)
      ≡ (if str_eq r q then some (tagged r d) else first_named q ms)
unfolding index_entries
first_named-index_entries r q d ms = ground (
  arith,
  str_iff r q,
  named-tagged r q d,
  named-tagged r r d,
  str_refl r,
  first_named-single q (tagged r d),
  first_named-append q ms (tagged r d ∷ []),
  replace_named_self r (tagged r d) ms,
  replace_named-ne r q (tagged r d) ms,
  replace_named-missing r (tagged r d) ms,
)

abbrev pub or_else : Option Descriptor → Option Descriptor → Option Descriptor
or_else none y = y
or_else (some x) y = some x

abbrev pub renamed : String → Descriptor → Descriptor
renamed r d = record d { annotations = insert ref_name r d.annotations }

named-renamed : (r q : String) (d : Descriptor) → named q (renamed r d) ≡ str_eq r q
named-renamed r q d =
    ground (arith, lookup-insert ref_name ref_name r d.annotations, str_refl ref_name)

last_named-missing :
    (r : String) (kept : Option Descriptor) (ms : List Descriptor)
    → first_named r ms ≡ none
    → last_named r kept ms ≡ kept
unfolding first_named last_named
last_named-missing r kept [] h = refl
last_named-missing r kept (x ∷ xs) h = ground (arith, last_named-missing r kept xs)

last_named-present :
    (r : String) (d : Descriptor) (ms : List Descriptor)
    → (x : Descriptor) × (last_named r (some d) ms ≡ some x)
unfolding last_named
last_named-present r d [] = (d, refl)
last_named-present r d (x ∷ xs) = elim (Bool-cases (named r x)) [
  | inl h ↦ rw h (last_named-present r x xs)
  | inr h ↦ rw h (last_named-present r d xs)
]

-- `Copy` fails exactly on a reference that is not in the index. Otherwise it appends one entry, so
-- that every reference that was in the index, the target among them, still names what it named,
-- and the target names the copy only if it was not there before.
pub copy_entries-missing :
    (r1 r2 : String) (ms : List Descriptor)
    → first_named r1 ms ≡ none
    → copy_entries r1 r2 ms ≡ err (reference_missing r1)
unfolding copy_entries
copy_entries-missing r1 r2 ms h = ground (arith, last_named-missing r1 none ms h)

pub first_named-copy_entries :
    (r1 r2 q : String) (ms : List Descriptor) (d : Descriptor)
    → last_named r1 none ms ≡ some d
    → (ms' : List Descriptor) × (copy_entries r1 r2 ms ≡ ok ms')
      × (first_named q ms'
          ≡ or_else (first_named q ms) (if str_eq r2 q then some (renamed r2 d) else none))
unfolding copy_entries
first_named-copy_entries r1 r2 q ms d h = (
  ms ++ renamed r2 d ∷ [],
  ground (arith, h),
  ground (
    arith,
    first_named-append q ms (renamed r2 d ∷ []),
    first_named-single q (renamed r2 d),
    named-renamed r2 q d,
  ),
)
