-- ===== src/Repo/Loop/Covered.antt =====
-- Every descriptor has a goroutine for its digest.
use apack.Base.{
  ℕ, suc, String, ◌≡◌, ◌≢◌, ◌⊎◌, refl, sym, true, Option, none, some, List, [], ◌∷◌, length, any_of,
  str_eq, str_refl, Every, Every-imp, arith, Bool-cases, Option-cases, inl, inr,
}
use apack.LayerDb.Layout.{Descriptor}
use apack.Progress.Writers.{Progress, new_writer, add}
use apack.Repo.World.{Failure, index_out_of_range}
use apack.Repo.Loop.{Job, schedule}

none≢some : (f : Failure) → none ≢ some f
none≢some f h = ground (arith, h)

-- Goroutines may run in any order: what holds of all of them does not depend on it.
abbrev pub IsOrder : (List Job → List Job) → Type 1
IsOrder order =
    (X : Job → Type 0) (js : List Job)
    → (Every X js → Every X (order js)) × (Every X (order js) → Every X js)

module _ (acquire : Descriptor → Option Failure) (name : Descriptor → Option String)
    (action : String) where
  -- What the loop does with the next descriptor.
  abbrev pub plan_of :
      List Descriptor → ℕ → List String → Progress → List Job × (Progress × Option Failure)
  plan_of ds i pulled p = schedule acquire name action ds i pulled p

  abbrev job_at : Descriptor → ℕ → Progress → Job
  job_at d i p = record { desc = d; index = i; writer = length p.heap }

  abbrev pub IsPassed : Descriptor → List Descriptor → ℕ → List String → Progress → Type 0
  IsPassed d ds i pulled p =
      (any_of (λ x. str_eq x d.digest) pulled ≡ true)
      × (plan_of (d ∷ ds) i pulled p ≡ plan_of ds (suc i) pulled p)

  abbrev pub IsLeft : Descriptor → List Descriptor → ℕ → List String → Progress → Type 0
  IsLeft d ds i pulled p = (x : Failure) × (plan_of (d ∷ ds) i pulled p ≡ ([], (p, some x)))

  abbrev pub IsStarted : Descriptor → List Descriptor → ℕ → List String → Progress → Type 0
  IsStarted d ds i pulled p =
      (id : String) × (plan_of (d ∷ ds) i pulled p ≡ (
        let (js, q) =
          plan_of ds (suc i) (d.digest ∷ pulled) (add (new_writer action id d.size) p) in
        (job_at d i p ∷ js, q)))

  pub schedule-cases :
      (d : Descriptor) (ds : List Descriptor) (i : ℕ) (pulled : List String) (p : Progress)
      → IsPassed d ds i pulled p ⊎ (IsLeft d ds i pulled p ⊎ IsStarted d ds i pulled p)
  unfolding schedule
  schedule-cases d ds i pulled p = elim (Bool-cases (any_of (λ x. str_eq x d.digest) pulled)) [
    | inl met ↦ inl (met, rw (met, schedule) refl)
    | inr new ↦ elim (Option-cases (acquire d)) [
      | inr (f, e) ↦ inr (inl (f, rw (new, schedule, e) refl))
      | inl e ↦ elim (Option-cases (name d)) [
        | inl g ↦ inr (inl (index_out_of_range, rw (new, schedule, e, g) refl))
        | inr (id, g) ↦ inr (inr (id, rw (new, schedule, e, g) refl))
      ]
    ]
  ]

  -- A descriptor has a job of its digest, or its digest was met before.
  abbrev pub IsCovered : List String → List Job → Descriptor → Type 0
  IsCovered pulled js d =
      (any_of (λ x. str_eq x d.digest) pulled ≡ true)
      ⊎ (any_of (λ j. str_eq j.desc.digest d.digest) js ≡ true)

  IsCovered-cons :
      (pulled : List String) (j : Job) (js : List Job) (d : Descriptor)
      → IsCovered (j.desc.digest ∷ pulled) js d
      → IsCovered pulled (j ∷ js) d
  IsCovered-cons pulled j js d (inr h) = inr (ground (arith, h))
  IsCovered-cons pulled j js d (inl h) = elim (Bool-cases (str_eq j.desc.digest d.digest)) [
    | inl same ↦ inr (ground (arith, same))
    | inr other ↦ inl (ground (arith, h, other))
  ]

  pub schedule-IsCovered :
      (ds : List Descriptor) (i : ℕ) (pulled : List String) (p : Progress)
      → (plan_of ds i pulled p).1.1 ≡ none
      → Every (IsCovered pulled (plan_of ds i pulled p).0) ds
  schedule-IsCovered [] i pulled p h = tt
  schedule-IsCovered (d ∷ ds) i pulled p h = elim (schedule-cases d ds i pulled p) [
    | inl (met, e) ↦ (
      inl met,
      Every-imp ds (λ c covered. rw e covered) (schedule-IsCovered ds (suc i) pulled p (rw e at h)),
    )
    | inr (inl (x, e)) ↦ absurd (none≢some x (sym (rw e at h)))
    | inr (inr (id, e)) ↦
        let q = add (new_writer action id d.size) p in
        let later = plan_of ds (suc i) (d.digest ∷ pulled) q in
        (
          inr (rw e (ground (arith, str_refl d.digest))),
          Every-imp ds (λ c covered. rw e (IsCovered-cons pulled (job_at d i p) later.0 c covered))
              (schedule-IsCovered ds (suc i) (d.digest ∷ pulled) q (rw e at h)),
        )
  ]

  pub schedule-Every :
      (X : Descriptor → Type 0) (ds : List Descriptor) (i : ℕ) (pulled : List String) (p : Progress)
      → Every X ds
      → Every (λ j. X j.desc) (plan_of ds i pulled p).0
  unfolding schedule
  schedule-Every X [] i pulled p h = tt
  schedule-Every X (d ∷ ds) i pulled p (x, h) = elim (schedule-cases d ds i pulled p) [
    | inl (met, e) ↦ rw e (schedule-Every X ds (suc i) pulled p h)
    | inr (inl (f, e)) ↦ rw e tt
    | inr (inr (id, e)) ↦
        rw e (
          x,
          schedule-Every X ds (suc i) (d.digest ∷ pulled) (add (new_writer action id d.size) p) h,
        )
  ]
