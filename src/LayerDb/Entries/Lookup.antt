-- ===== src/LayerDb/Entries/Lookup.antt =====
-- What `manifests` and `manifest` of pkg/layerdb/layerdb.go find for a reference.
use apack.Base.{
  String, ◌≡◌, refl, ◌≢◌, Bool, true, false, Option, none, some, List, [], ◌∷◌, ◌++◌, Result, ok,
  err, Result-cases, append-nil, append_assoc, ◌>>=◌, arith, str_iff, if◌then◌else◌, Option-cases,
  inl, inr, keep_if,
}
use apack.LayerDb.Layout.{Descriptor, Manifest, ref_of}
use apack.LayerDb.Engine.{Error, many_manifests}
use apack.LayerDb.Entries.{Entry, named, collect, find_manifest, pick}

-- The entry that a reference names: the first one.
unfoldable pub first_named : String → List Descriptor → Option Descriptor
first_named r [] = none
first_named r (x ∷ xs) = if named r x then some x else first_named r xs

abbrev pub has_ref : Descriptor → Bool
has_ref d = elim (ref_of d) [ none ↦ false | some _ ↦ true ]

module _ (fetch : Descriptor → Result Error Manifest) where
  -- Every entry's manifest can be read.
  abbrev pub Readable : List Descriptor → Type 0
  Readable [] = Unit {0}
  Readable (d ∷ ds) = ((m : Manifest) × (fetch d ≡ ok m)) × Readable ds

  collect-present :
      (r : String) (acc : List Entry) (ms : List Descriptor) (d : Descriptor) (m : Manifest)
      → Readable ms
      → first_named r ms ≡ some d
      → fetch d ≡ ok m
      → collect fetch r acc ms ≡ ok (record { manifest = m; desc = d; ref = r } ∷ [])
  unfolding collect first_named
  collect-present r acc [] d m h e f = cc
  collect-present r acc (x ∷ xs) d m ((n, g), h) e f = elim (Option-cases (ref_of x)) [
    | inl p ↦ ground (arith, p, g, collect-present r acc xs d m h)
    | inr (ref, p) ↦
        let acc' = acc ++ record { manifest = n; desc = x; ref = ref } ∷ [] in
        ground (arith, p, g, str_iff ref r, collect-present r acc' xs d m h)
  ]

  -- When every manifest can be read, a reference that is in the index is found, whatever else is
  -- there, and its manifest comes with its own descriptor.
  pub find_manifest-present :
      (r : String) (ms : List Descriptor) (d : Descriptor) (m : Manifest)
      → Readable ms
      → first_named r ms ≡ some d
      → fetch d ≡ ok m
      → find_manifest fetch r ms ≡ ok (m, d)
  unfolding find_manifest
  find_manifest-present r ms d m h e f = rw (collect-present r [] ms d m h e f) (ground arith)

  -- Every entry that has a reference, with its manifest, in order.
  with_entry : Manifest → Descriptor → List Entry → List Entry
  with_entry m d es = elim (ref_of d) [
    | none ↦ es
    | some ref ↦ record { manifest = m; desc = d; ref = ref } ∷ es
  ]

  pub listing : List Descriptor → Result Error (List Entry)
  unfolding with_entry
  listing [] = ok []
  listing (d ∷ ds) = do m ← fetch d; es ← listing ds; ok (with_entry m d es)

  collect-absent :
      (r : String) (acc : List Entry) (ms : List Descriptor)
      → first_named r ms ≡ none
      → collect fetch r acc ms ≡ (do es ← listing ms; ok (acc ++ es))
  unfolding collect first_named listing
  collect-absent r acc [] e = simp append-nil
  collect-absent r acc (x ∷ xs) e = elim (Result-cases (fetch x)) [
    | inr (_, bad) ↦ ground (arith, bad)
    | inl (n, g) ↦ elim (Option-cases (ref_of x)) [
      | inl p ↦ ground (arith, p, g, collect-absent r acc xs)
      | inr (ref, p) ↦
          let entry : Entry = record { manifest = n; desc = x; ref = ref } in
          elim (Result-cases (listing xs)) [
            | inl (es, q) ↦ ground (
              arith,
              p,
              g,
              collect-absent r (acc ++ entry ∷ []) xs,
              append_assoc acc (entry ∷ []) es,
            )
            | inr (_, q) ↦ ground (arith, p, g, collect-absent r (acc ++ entry ∷ []) xs)
          ]
    ]
  ]

  -- The entries and the descriptors that they were read from.
  abbrev pub ReadFrom : List Descriptor → List Entry → Type 0
  ReadFrom [] [] = Unit {0}
  ReadFrom (d ∷ ds) (x ∷ es) = (x.desc ≡ d) × (fetch d ≡ ok x.manifest) × ReadFrom ds es
  ReadFrom _ _ = ⊥

  pub listing-ReadFrom :
      (ms : List Descriptor)
      → Readable ms
      → (es : List Entry) × (listing ms ≡ ok es) × ReadFrom (keep_if has_ref ms) es
  unfolding listing
  listing-ReadFrom [] h = ([], refl, tt)
  listing-ReadFrom (x ∷ xs) ((n, g), h) =
      let (es, p, q) = listing-ReadFrom xs h in
      elim (Option-cases (ref_of x)) [
        | inl none_here ↦
            let k : keep_if has_ref (x ∷ xs) ≡ keep_if has_ref xs = ground (arith, none_here) in
            (es, ground (arith, g, p, none_here), rw k q)
        | inr (ref, here) ↦
            let k : keep_if has_ref (x ∷ xs) ≡ x ∷ keep_if has_ref xs = ground (arith, here) in
            (
              record { manifest = n; desc = x; ref = ref } ∷ es,
              ground (arith, g, p, here),
              rw k (refl, g, q),
            )
      ]

  find_manifest-absent :
      (r : String) (ms : List Descriptor) (es : List Entry)
      → first_named r ms ≡ none
      → listing ms ≡ ok es
      → find_manifest fetch r ms ≡ pick r es
  unfolding find_manifest
  find_manifest-absent r ms es e p = rw (collect-absent r [] ms e, p)

  -- When every manifest can be read, the reference is not in the index and exactly one entry has
  -- a reference, that entry is returned for it.
  pub find_manifest-absent_single :
      (r : String) (ms : List Descriptor) (d : Descriptor) (m : Manifest)
      → Readable ms
      → first_named r ms ≡ none
      → keep_if has_ref ms ≡ d ∷ []
      → fetch d ≡ ok m
      → find_manifest fetch r ms ≡ ok (m, d)
  unfolding pick
  find_manifest-absent_single r ms d m h e one f =
      let (es, p, q) = listing-ReadFrom ms h in
      rw (find_manifest-absent r ms es e p) (single es (rw one at q))
    where
      single : (es : List Entry) → ReadFrom (d ∷ []) es → pick r es ≡ ok (m, d)
      single [] q = absurd q
      single (x ∷ []) q = ground (arith, q.0, q.1, f)
      single (x ∷ y ∷ es) q = absurd q.2

  -- When every manifest can be read, the reference is not empty and not in the index, and two or
  -- more entries have a reference, the answer is the error that names several manifests.
  pub find_manifest-absent_many :
      (r : String) (ms : List Descriptor) (c d : Descriptor) (ds : List Descriptor)
      → Readable ms
      → r ≢ ""
      → first_named r ms ≡ none
      → keep_if has_ref ms ≡ c ∷ d ∷ ds
      → find_manifest fetch r ms ≡ err (many_manifests r)
  unfolding pick
  find_manifest-absent_many r ms c d ds h nonempty e two =
      let (es, p, q) = listing-ReadFrom ms h in
      rw (find_manifest-absent r ms es e p) (several es (rw two at q))
    where
      several : (es : List Entry) → ReadFrom (c ∷ d ∷ ds) es → pick r es ≡ err (many_manifests r)
      several [] q = absurd q
      several (x ∷ []) q = absurd q.2
      several (x ∷ y ∷ es) q = ground (arith, str_iff r "")

pub Readable-imp :
    (f g : Descriptor → Result Error Manifest) (ds : List Descriptor)
    → ((c : Descriptor) (m : Manifest) → f c ≡ ok m → g c ≡ ok m)
    → Readable f ds
    → Readable g ds
Readable-imp f g [] k h = tt
Readable-imp f g (d ∷ ds) k ((m, p), h) = ((m, k d m p), Readable-imp f g ds k h)
