-- ===== src/LayerDb/Tests/Verify.antt =====
-- The theorem about the verifying reader applied to a source whose digest is not the expected one.
use apack.Base.{ℕ, String, ◌≡◌, false, List, [], ◌∷◌, length, ◌==◌, if◌then◌else◌}
use apack.LayerDb.Verify.{more, eof, checksum_mismatch, ReadEnd, read_all, read_all-source}

-- a digest that knows lengths alone
abbrev sum : List ℕ → String
sum bytes = if length bytes == 3 then "three" else "other"

abbrev reads : List (List ℕ × ReadEnd)
reads = (1 ∷ 2 ∷ [], more) ∷ (3 ∷ 4 ∷ [], eof) ∷ []

read_all-source_example :
    read_all sum reads (record { diffid = "three"; seen = []; verified = false }) []
    ≡ (1 ∷ 2 ∷ 3 ∷ 4 ∷ [], checksum_mismatch)
read_all-source_example = read_all-source sum "three" reads
