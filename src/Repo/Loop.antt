-- ===== src/Repo/Loop.antt =====
-- The loop in which `Pull` and `Push` of internal/repo/local.go start a goroutine for each layer.
pub mod Covered
use Prim.Native.String.{len, slice}
use apack.Base.{
  ℕ, zero, suc, ◌≡◌, refl, arith, String, Bool, true, false, Option, none, some, List, [], ◌∷◌,
  length, any_of, str_eq, ltb, if◌then◌else◌,
}
use apack.LayerDb.Layout.{Descriptor}
use apack.Progress.Writers.{new_writer, Progress, add}
use apack.Repo.World.{Failure, index_out_of_range, System}

-- A goroutine of a layer: its place in the list, and that of its progress writer.
pub record Job : Type 0 where
  pub desc : Descriptor
  pub index : ℕ
  pub writer : ℕ

-- the first twelve characters of a digest, which a shorter one has not
unfoldable pub short : System → String → Option String
short os digest = let s = os.encoded digest in if ltb (len s) 12 then none else some (slice s 0 12)

abbrev pub by_digest : System → Descriptor → Option String
by_digest os d = short os d.digest

-- the error that a group of goroutines returns
abbrev pub first_failure : Option Failure → Option Failure → Option Failure
first_failure none f = f
first_failure (some x) f = some x

pub first_failure-none : (e f : Option Failure) → first_failure e f ≡ none → (e ≡ none) × (f ≡ none)
first_failure-none none f h = (refl, h)
first_failure-none (some x) f h = absurd (ground (arith, h))

-- `acquire` is how taking a place among the goroutines fails, and `name` the name of a writer.
module _ (acquire : Descriptor → Option Failure) (name : Descriptor → Option String)
    (action : String) where
  -- A digest that was met before is passed over; `i` counts the descriptors.
  unfoldable pub schedule :
      List Descriptor → ℕ → List String → Progress → List Job × (Progress × Option Failure)
  unfolding add
  schedule [] i pulled p = ([], (p, none))
  schedule (d ∷ ds) i pulled p = elim (any_of (λ x. str_eq x d.digest) pulled) [
    | true ↦ schedule ds (suc i) pulled p
    | false ↦ elim (acquire d) [
      | some x ↦ ([], (p, some x))
      | none ↦ elim (name d) [
        | none ↦ ([], (p, some index_out_of_range))
        | some id ↦
            let (js, q) =
              schedule ds (suc i) (d.digest ∷ pulled) (add (new_writer action id d.size) p) in
            (record { desc = d; index = i; writer = length p.heap } ∷ js, q)
      ]
    ]
  ]
