-- ===== src/LayerDb/Store/Reads.antt =====
-- The operations on the index keep every manifest readable.
use apack.Base.{
  String, ◌≡◌, ◌∙◌, Option, none, some, List, [], ◌∷◌, ◌++◌, Result, ok, Result-cases, arith,
  str_eq, inl, inr, Bool-cases,
}
use apack.LayerDb.Layout.{Descriptor, Manifest}
use apack.LayerDb.Engine.{Error}
use apack.LayerDb.Entries.{
  tagged, named, Action, add, del, annotate, annotate_first, ref_or_empty, replace_named,
  index_entries, last_named, copy_entries,
}
use apack.LayerDb.Entries.Lookup.{Readable}
use apack.LayerDb.Entries.Rewrite.{renamed}
use apack.LayerDb.Entries.Annotate.{marked}

module _ (f : Descriptor → Result Error Manifest) where
  Readable-append :
      (xs ys : List Descriptor) → Readable f xs → Readable f ys → Readable f (xs ++ ys)
  Readable-append [] ys h k = k
  Readable-append (x ∷ xs) ys (h, hs) k = (h, Readable-append xs ys hs k)

  Readable-replace_named :
      (r : String) (d : Descriptor) (m : Manifest) (ms : List Descriptor)
      → f d ≡ ok m
      → Readable f ms
      → Readable f (replace_named r d ms).0
  unfolding replace_named
  Readable-replace_named r d m [] g h = tt
  Readable-replace_named r d m (x ∷ xs) g (h, hs) =
      let rest = Readable-replace_named r d m xs g hs in
      elim (Bool-cases (named r x)) [
        | inl hit ↦ rw hit ((m, g), rest)
        | inr miss ↦ rw miss (h, rest)
      ]

  pub Readable-index_entries :
      (r : String) (d : Descriptor) (m : Manifest) (ms : List Descriptor)
      → f (tagged r d) ≡ ok m
      → Readable f ms
      → Readable f (index_entries r d ms)
  unfolding index_entries
  Readable-index_entries r d m ms g h =
      let put = Readable-replace_named r (tagged r d) m ms g h in
      elim (Bool-cases (replace_named r (tagged r d) ms).1) [
        | inl found ↦ rw found put
        | inr missing ↦ rw missing (Readable-append _ (tagged r d ∷ []) put ((m, g), tt))
      ]

  abbrev ReadableOption : Option Descriptor → Type 0
  ReadableOption none = Unit {0}
  ReadableOption (some d) = (m : Manifest) × (f d ≡ ok m)

  Readable-last_named :
      (r : String) (kept : Option Descriptor) (ms : List Descriptor)
      → ReadableOption kept
      → Readable f ms
      → ReadableOption (last_named r kept ms)
  unfolding last_named
  Readable-last_named r kept [] k h = k
  Readable-last_named r kept (x ∷ xs) k (h, hs) = elim (Bool-cases (named r x)) [
    | inl hit ↦ rw hit (Readable-last_named r (some x) xs h hs)
    | inr miss ↦ rw miss (Readable-last_named r kept xs k hs)
  ]

  -- `f` reads by the digest, which neither a new name nor another annotation changes
  pub Readable-copy_entries :
      (r1 r2 : String) (ms ms' : List Descriptor) (d : Descriptor)
      → ((x : Descriptor) → f (renamed r2 x) ≡ f x)
      → last_named r1 none ms ≡ some d
      → copy_entries r1 r2 ms ≡ ok ms'
      → Readable f ms
      → Readable f ms'
  unfolding copy_entries
  Readable-copy_entries r1 r2 ms ms' d same from h readable =
      let (m, g) : ReadableOption (some d) =
        rw from at (Readable-last_named r1 none ms tt readable) in
      let e : ms ++ renamed r2 d ∷ [] ≡ ms' = ground (arith, h, from) in
      rw (← e) (Readable-append ms (renamed r2 d ∷ []) readable ((m, same d ∙ g), tt))

  annotate-eq-ok :
      (a : Action) (k v : String) (x y : Descriptor) → annotate a k v x ≡ ok y → y ≡ marked a k v x
  unfolding annotate
  annotate-eq-ok add k v x y h = ground arith
  annotate-eq-ok del k v x y h = ground arith

  pub Readable-annotate_first :
      (a : Action) (r k v : String) (ms ms' : List Descriptor)
      → ((x : Descriptor) → f (marked a k v x) ≡ f x)
      → annotate_first a r k v ms ≡ ok ms'
      → Readable f ms
      → Readable f ms'
  unfolding annotate_first
  Readable-annotate_first a r k v [] ms' same h readable =
      let e : [] ≡ ms' = ground (arith, h) in rw (← e) tt
  Readable-annotate_first a r k v (x ∷ xs) ms' same h ((m, g), gs) =
      elim (Bool-cases (str_eq (ref_or_empty x) r)) [
        | inl hit ↦ elim (Result-cases (annotate a k v x)) [
          | inl (y, p) ↦
              let e : marked a k v x ∷ xs ≡ ms' =
                ground (arith, h, hit, p, annotate-eq-ok a k v x y p) in
              rw (← e) ((m, same x ∙ g), gs)
          | inr (_, p) ↦ absurd (ground (arith, h, hit, p))
        ]
        | inr miss ↦ elim (Result-cases (annotate_first a r k v xs)) [
          | inl (ys, p) ↦
              let e : x ∷ ys ≡ ms' = ground (arith, h, miss, p) in
              rw (← e) ((m, g), Readable-annotate_first a r k v xs ys same p gs)
          | inr (_, p) ↦ absurd (ground (arith, h, miss, p))
        ]
      ]
