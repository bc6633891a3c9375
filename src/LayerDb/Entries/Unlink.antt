-- ===== src/LayerDb/Entries/Unlink.antt =====
-- `unlink` moves the surviving entries inside their slice; the result is a plain filter.
use apack.Base.{
  some, ℕ, ◌+◌, String, ◌≡◌, refl, Bool, not, List, [], ◌∷◌, ◌++◌, arith, append-nil, append_assoc,
  keep_if, length, take, get_elem?, set, length-append, get_elem?-append, set-append, take-append,
  Bool-cases, inl, inr, ◌∙◌,
}
use apack.LayerDb.Layout.{Descriptor}
use apack.LayerDb.Entries.{drops, compact, unlink_entries}

module _ (drop? : Descriptor → Bool) where
  abbrev stays : Descriptor → Bool
  stays d = not (drop? d)

  -- what the loop leaves, cut at its last free place
  abbrev cut : List Descriptor × ℕ → List Descriptor
  cut (moved, j) = take j moved

  -- The slice after some rounds: the entries kept so far, stale ones, and those still to be seen.
  record Progress (i j : ℕ) (ms kept stale rest : List Descriptor) : Type 0 where
    seen : i ≡ length kept + length stale
    free : j ≡ length kept
    slice : ms ≡ kept ++ (stale ++ rest)

  next :
      {i j : ℕ} {ms : List Descriptor} (kept stale rest : List Descriptor) (x : Descriptor)
      → Progress i j ms kept stale (x ∷ rest)
      → get_elem? ms i ≡ some x
  next kept stale rest x h =
      rw (h.slice, h.seen, ← length-append kept stale, ← append_assoc kept stale (x ∷ rest))
        (get_elem?-append (kept ++ stale) x rest)

  skip :
      {i j : ℕ} {ms : List Descriptor} (kept stale rest : List Descriptor) (x : Descriptor)
      → Progress i j ms kept stale (x ∷ rest)
      → Progress (i + 1) j ms kept (stale ++ x ∷ []) rest
  skip kept stale rest x h = record {
    seen = omega (arith, h.seen, length-append stale (x ∷ []));
    free = h.free;
    slice = rw (append_assoc stale (x ∷ []) rest) h.slice;
  }

  -- The entry moves to the free place; a stale one that it overwrites leaves the slice.
  keep :
      {i j : ℕ} {ms : List Descriptor} (kept stale rest : List Descriptor) (x : Descriptor)
      → Progress i j ms kept stale (x ∷ rest)
      → (stale' : List Descriptor) × Progress
          (i + 1)
          (j + 1)
          (set ms j x)
          (kept ++ x ∷ [])
          stale'
          rest
  keep kept [] rest x h = (
    [],
    record {
      seen = omega (arith, h.seen, length-append kept (x ∷ []));
      free = omega (arith, h.free, length-append kept (x ∷ []));
      slice = rw (h.slice, h.free, set-append kept x x rest, append_assoc kept (x ∷ []) rest);
    },
  )
  keep kept (y ∷ stale) rest x h = (
    stale ++ x ∷ [],
    record {
      seen = omega (arith, h.seen, length-append kept (x ∷ []), length-append stale (x ∷ []));
      free = omega (arith, h.free, length-append kept (x ∷ []));
      slice = rw (
        h.slice,
        h.free,
        set-append kept y x (stale ++ x ∷ rest),
        append_assoc kept (x ∷ []) ((stale ++ x ∷ []) ++ rest),
        append_assoc stale (x ∷ []) rest,
      );
    },
  )

  compact-eq-keep_if :
      (i j : ℕ) (ms kept stale rest : List Descriptor)
      → Progress i j ms kept stale rest
      → cut (compact drop? (length rest) i j ms) ≡ kept ++ keep_if stays rest
  unfolding compact
  compact-eq-keep_if i j ms kept stale [] h =
      rw (h.slice, h.free, take-append kept (stale ++ []), append-nil kept)
  compact-eq-keep_if i j ms kept stale (x ∷ rest) h = elim (Bool-cases (drop? x)) [
    | inl gone ↦
        rw (next kept stale rest x h, compact, gone)
          (compact-eq-keep_if (i + 1) j ms kept (stale ++ x ∷ []) rest (skip kept stale rest x h))
    | inr stay ↦
        let (stale', h') = keep kept stale rest x h in
        rw (next kept stale rest x h, compact, stay)
          (compact-eq-keep_if (i + 1) (j + 1) (set ms j x) (kept ++ x ∷ []) stale' rest h'
            ∙ append_assoc kept (x ∷ []) (keep_if stays rest))
  ]

-- The loop of unlink, which moves entries to the front of the slice and cuts it, is the filter
-- that keeps the entries that are not of the given references.
pub unlink_entries-eq-keep_if :
    (refs : List String) (ms : List Descriptor)
    → unlink_entries refs ms ≡ keep_if (λ d. not (drops refs d)) ms
unfolding unlink_entries
unlink_entries-eq-keep_if refs ms =
    compact-eq-keep_if (drops refs) 0 0 ms [] [] ms
      (record { seen = omega arith; free = omega arith; slice = refl })
