-- ===== src/Repo/Pull/Run.antt =====
-- The goroutines of `Pull` one after the other: what every effect preserves holds at the end, and so
-- does what a goroutine without an error establishes.
use apack.Base.{ℕ, String, ◌≡◌, Bool, Option, none, List, [], ◌∷◌, Every}
use apack.Task.Manager.{Manager}
use apack.Repo.Layers.{LayerStore}
use apack.Repo.World.{Failure, Local, Remote, System}
use apack.Repo.Pull.{Plan, Session, run_job, run_jobs}
use apack.Repo.Loop.{Job, first_failure-none}
use apack.Repo.Pull.Effect.{Effect, run_job-Effect}

-- what an invariant needs of the effects
pub record IsKept (l : LayerStore) (r : Remote l) (os : System) (is_tar : String → Bool)
    (dir : String) (p : Plan) (Q : Job → Type 0) (P : Local l → Type 0) (D : Job → Local l → Type 0)
    : Type 0 where
  pub keep :
      (j : Job) (s t : Local l) (e : Option Failure)
      → Q j
      → P s
      → Effect l r os is_tar dir p.artifact j s t e
      → P t
  pub done :
      (j : Job) (s t : Local l) → Q j → P s → Effect l r os is_tar dir p.artifact j s t none → D j t
  pub stay :
      (i j : Job) (s t : Local l) (e : Option Failure)
      → Q j
      → P s
      → Effect l r os is_tar dir p.artifact j s t e
      → D i s
      → D i t

module _ (l : LayerStore) (r : Remote l) (os : System) (is_tar : String → Bool) (task_id : String)
    (m : Manager) (now : ℕ) (dir : String) (p : Plan) (Q : Job → Type 0) (P : Local l → Type 0)
    (D : Job → Local l → Type 0) (kept : IsKept l r os is_tar dir p Q P D) where
  abbrev ran : List Job → Session l r os is_tar → Session l r os is_tar × Option Failure
  ran js s = run_jobs l r os is_tar task_id m now dir p js s

  pub run_jobs-keep :
      (js : List Job) (s : Session l r os is_tar) → Every Q js → P s.local → P (ran js s).0.local
  unfolding run_jobs
  run_jobs-keep [] s q h = h
  run_jobs-keep (j ∷ js) s (q, qs) h =
      let (t, e) = run_job l r os is_tar task_id m now dir p j s in
      run_jobs-keep js t qs
        (kept.keep j s.local t.local e q h (run_job-Effect l r os is_tar task_id m now dir p j s))

  run_jobs-stay :
      (i : Job) (js : List Job) (s : Session l r os is_tar)
      → Every Q js
      → P s.local
      → D i s.local
      → D i (ran js s).0.local
  unfolding run_jobs
  run_jobs-stay i [] s q h d = d
  run_jobs-stay i (j ∷ js) s (q, qs) h d =
      let (t, e) = run_job l r os is_tar task_id m now dir p j s in
      let effect = run_job-Effect l r os is_tar task_id m now dir p j s in
      run_jobs-stay i js t qs (kept.keep j s.local t.local e q h effect)
        (kept.stay i j s.local t.local e q h effect d)

  pub run_jobs-done :
      (js : List Job) (s : Session l r os is_tar)
      → Every Q js
      → P s.local
      → (ran js s).1 ≡ none
      → Every (λ j. D j (ran js s).0.local) js
  unfolding run_jobs
  run_jobs-done [] s q h d = tt
  run_jobs-done (j ∷ js) s (q, qs) h d =
      let (t, e) = run_job l r os is_tar task_id m now dir p j s in
      let effect = run_job-Effect l r os is_tar task_id m now dir p j s in
      let (first, rest) = first_failure-none e (ran js t).1 d in
      let h' = kept.keep j s.local t.local e q h effect in
      (
        run_jobs-stay j js t qs h' (kept.done j s.local t.local q h (rw first at effect)),
        run_jobs-done js t qs h' rest,
      )
