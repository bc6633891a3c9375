-- ===== src/LayerDb/Entries.antt =====
-- The loops of pkg/layerdb/layerdb.go over the entries of the index: those of `index`, `Copy`,
-- `annotation`, `unlink` and `manifests`, as functions of the list.
pub mod Lookup
pub mod Rewrite
pub mod Annotate
pub mod Unlink
use apack.Base.{
  ℕ, zero, suc, ◌+◌, take, get_elem?, set, String, ◌≡◌, Bool, true, false, ◌&&◌, not, Option, none,
  some, List, [], ◌∷◌, ◌++◌, Result, ok, err, ◌>>=◌, length, ltb, str_eq, if◌then◌else◌, lookup,
  insert, erase, any_of,
}
use apack.LayerDb.Layout.{
  Descriptor, Manifest, Index, index_file, layout_file, ref_name, deleted_name, snapshot_name,
  ref_of,
}
use apack.LayerDb.Engine.{
  Engine, Error, no_index, no_manifest, many_manifests, reference_missing, nil_map, blob_key,
}
use apack.LayerDb.Kv

-- `v, ok := item.Annotations[ref]; ok && v == reference`
abbrev pub named : String → Descriptor → Bool
named r d = elim (ref_of d) [ none ↦ false | some v ↦ str_eq v r ]

-- The entry that `index` writes: its annotations are the reference alone.
abbrev pub tagged : String → Descriptor → Descriptor
tagged r d = record d { annotations = (ref_name, r) ∷ [] }

-- The loop of `index`, and whether it found the reference.
unfoldable pub replace_named : String → Descriptor → List Descriptor → List Descriptor × Bool
replace_named r d [] = ([], false)
replace_named r d (x ∷ xs) =
    let (ys, found) = replace_named r d xs in if named r x then (d ∷ ys, true) else (x ∷ ys, found)

unfoldable pub index_entries : String → Descriptor → List Descriptor → List Descriptor
unfolding replace_named
index_entries r d ms =
    let (ys, found) = replace_named r (tagged r d) ms in if found then ys else ys ++ tagged r d ∷ []

-- The loop of `Copy`: the last entry of that name, kept in `manifest`.
unfoldable pub last_named : String → Option Descriptor → List Descriptor → Option Descriptor
last_named r kept [] = kept
last_named r kept (x ∷ xs) = last_named r (if named r x then some x else kept) xs

unfoldable pub copy_entries : String → String → List Descriptor → Result Error (List Descriptor)
unfolding last_named
copy_entries r1 r2 ms = elim (last_named r1 none ms) [
  | none ↦ err (reference_missing r1)
  | some d ↦ ok (ms ++ record d { annotations = insert ref_name r2 d.annotations } ∷ [])
]

pub data Action : Type 0 where
  add del : Action

-- The loop of `annotation`: the first entry of that name. Its test reads a missing reference as "",
-- and an entry with no annotations at all has a nil map.
abbrev pub ref_or_empty : Descriptor → String
ref_or_empty d = elim (ref_of d) [ none ↦ "" | some v ↦ v ]

unfoldable pub annotate : Action → String → String → Descriptor → Result Error Descriptor
annotate add k v d = elim d.annotations [
  | [] ↦ err nil_map
  | _ ∷ _ ↦ ok (record d { annotations = insert k v d.annotations })
]
annotate del k v d = ok (record d { annotations = erase k d.annotations })

unfoldable pub annotate_first :
    Action → String → String → String → List Descriptor → Result Error (List Descriptor)
unfolding annotate
annotate_first a r k v [] = ok []
annotate_first a r k v (x ∷ xs) =
    let rest = annotate_first a r k v xs in
    if str_eq (ref_or_empty x) r
    then (do y ← annotate a k v x; ok (y ∷ xs))
    else (do ys ← rest; ok (x ∷ ys))

-- `unlink`: the entries that stay are moved to the front of the slice, which is then cut. `i` is the
-- loop's index and `j` the next free place; the loop makes one round for each entry.
unfoldable pub drops : List String → Descriptor → Bool
drops refs d = elim (ref_of d) [ none ↦ false | some r ↦ any_of (λ x. str_eq x r) refs ]

compact : (Descriptor → Bool) → ℕ → ℕ → ℕ → List Descriptor → List Descriptor × ℕ
compact drop? zero i j ms = (ms, j)
compact drop? (suc n) i j ms = elim (get_elem? ms i) [
  | none ↦ (ms, j)
  | some x ↦
      if drop? x then compact drop? n (i + 1) j ms else compact drop? n (i + 1) (j + 1) (set ms j x)
]

unfoldable pub unlink_entries : List String → List Descriptor → List Descriptor
unfolding compact drops
unlink_entries refs ms = let (moved, j) = compact (drops refs) (length ms) 0 0 ms in take j moved

-- What `manifests` returns for one entry: an element of each of its three slices.
pub record Entry : Type 0 where
  pub manifest : Manifest
  pub desc : Descriptor
  pub ref : String

-- The loop of `manifests`: it reads the blob of every entry on its way, also of one with no
-- reference, collects the named ones, and returns at once with the one that is asked for.
unfoldable pub collect :
    (Descriptor → Result Error Manifest)
    → String
    → List Entry
    → List Descriptor
    → Result Error (List Entry)
collect fetch r acc [] = ok acc
collect fetch r acc (d ∷ ds) = do
  m ← fetch d
  elim (ref_of d) [
    | none ↦ collect fetch r acc ds
    | some ref ↦
        let entry : Entry = record { manifest = m; desc = d; ref = ref } in
        let rest = collect fetch r (acc ++ entry ∷ []) ds in
        if str_eq ref r then ok (entry ∷ []) else rest
  ]

-- What `manifest` makes of that.
unfoldable pub pick : String → List Entry → Result Error (Manifest × Descriptor)
pick r [] = err (no_manifest r)
pick r (x ∷ xs) =
    if ltb 1 (length (x ∷ xs)) && not (str_eq r "")
    then err (many_manifests r)
    else ok (x.manifest, x.desc)

unfoldable pub find_manifest :
    (Descriptor → Result Error Manifest)
    → String
    → List Descriptor
    → Result Error (Manifest × Descriptor)
unfolding pick
find_manifest fetch r ms = do found ← collect fetch r [] ms; pick r found
