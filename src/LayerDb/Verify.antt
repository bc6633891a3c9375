-- ===== src/LayerDb/Verify.antt =====
-- `verifyingReader` of pkg/layerdb/layerdb.go: a reader that checks the digest of what went through
-- it when its source ends. `sum` is the digest of the bytes, by go-digest.
use apack.Base.{
  ℕ, String, ◌≡◌, refl, Bool, true, false, not, List, [], ◌∷◌, ◌++◌, str_eq, if◌then◌else◌, arith,
  append-nil, append_assoc,
}

-- How a read ends: with more to come, at the end of the source, with an error of the source, or with
-- the reader's own error.
pub data ReadEnd : Type 0 where
  more eof : ReadEnd
  read_fault : ℕ → ReadEnd
  checksum_mismatch : ReadEnd

pub record VerifyingReader : Type 0 where
  pub diffid : String
  pub seen : List ℕ
  pub verified : Bool

module _ (sum : List ℕ → String) where
  -- What the check at the end of the source returns.
  at_end : VerifyingReader → VerifyingReader × ReadEnd
  at_end v =
      if not v.verified
      then (if str_eq (sum v.seen) v.diffid
          then (record v { verified = true }, eof)
          else (v, checksum_mismatch))
      else (v, eof)

  -- `Read`, given what the source's own read returns.
  unfoldable pub read : List ℕ × ReadEnd → VerifyingReader → VerifyingReader × (List ℕ × ReadEnd)
  unfolding at_end
  read (bytes, eof) v =
      let (w, end) = at_end (record v { seen = v.seen ++ bytes }) in (w, (bytes, end))
  read (bytes, end) v = (record v { seen = v.seen ++ bytes }, (bytes, end))

  -- A caller that reads until something other than more to come is returned, and what it gets.
  unfoldable pub read_all : List (List ℕ × ReadEnd) → VerifyingReader → List ℕ → List ℕ × ReadEnd
  read_all [] v out = (out, more)
  read_all (r ∷ rs) v out =
      let (w, got) = read r v in
      let rest = read_all rs w (out ++ got.0) in
      elim got.1 [ more ↦ rest | end ↦ (out ++ got.0, end) ]

  -- what the source holds up to its first end, and that end
  abbrev pub source : List (List ℕ × ReadEnd) → List ℕ × ReadEnd
  source [] = ([], more)
  source ((bytes, more) ∷ rs) = let (rest, end) = source rs in (bytes ++ rest, end)
  source ((bytes, eof) ∷ rs) = (bytes, eof)
  source ((bytes, read_fault x) ∷ rs) = (bytes, read_fault x)
  source ((bytes, checksum_mismatch) ∷ rs) = (bytes, checksum_mismatch)

  -- the end that the check makes of the source's
  abbrev pub checked : String → List ℕ → ReadEnd → ReadEnd
  checked diffid bytes eof = if str_eq (sum bytes) diffid then eof else checksum_mismatch
  checked diffid bytes end = end

  read_all-checked :
      (rs : List (List ℕ × ReadEnd)) (v : VerifyingReader) (out : List ℕ)
      → v.verified ≡ false
      → v.seen ≡ out
      → read_all rs v out
        ≡ (out ++ (source rs).0, checked v.diffid (out ++ (source rs).0) (source rs).1)
  unfolding read_all read
  read_all-checked [] v out h e = rw (append-nil out) refl
  read_all-checked ((bytes, more) ∷ rs) v out h e =
      let w : VerifyingReader = record v { seen = v.seen ++ bytes } in
      rw (← append_assoc out bytes (source rs).0)
        (read_all-checked rs w (out ++ bytes) h (rw e refl))
  read_all-checked ((bytes, eof) ∷ rs) v out h e = ground (arith, h, e)
  read_all-checked ((bytes, read_fault x) ∷ rs) v out h e = refl
  read_all-checked ((bytes, checksum_mismatch) ∷ rs) v out h e = refl

  -- A caller that reads a fresh reader to its end gets the bytes of the source, with the
  -- source's end, but the end of the source is reported only if the digest of all the bytes is
  -- the one that was asked for, and as a mismatch if not.
  pub read_all-source :
      (diffid : String) (rs : List (List ℕ × ReadEnd))
      → read_all rs (record { diffid = diffid; seen = []; verified = false }) []
        ≡ ((source rs).0, checked diffid (source rs).0 (source rs).1)
  read_all-source diffid rs =
      read_all-checked rs (record { diffid = diffid; seen = []; verified = false }) [] refl refl
