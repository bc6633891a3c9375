-- ===== src/Repo/Pull/Success.antt =====
-- What a pull that succeeds went through.
use apack.Base.{
  ℕ, String, ◌≡◌, Bool, Option, none, List, Result, ok, err, >>=-eq-ok, Dict, insert, arith,
  Bool-cases, Option-cases, Result-cases, inl, inr,
}
use apack.LayerDb.Layout.{Descriptor}
use apack.Spec.Types.{Artifact}
use apack.Task.Manager.{Manager}
use apack.Progress.Writers.{Log, Progress, check_all_completed}
use apack.Repo.Layers.{LayerStore}
use apack.Repo.World.{
  marshal_to_path, Failure, Local, Remote, System, with_store, unless, artifact_name,
}
use apack.Repo.Pull.{Plan, Session, plan, start, run_jobs, diff_dir, record_pull, pull_plan, pull}
use apack.Repo.Loop.{Job}

with_store-eq-ok {ℓ} : {A : Type ℓ} (x : Result _ A) {a : A} → with_store x ≡ ok a → x ≡ ok a
with_store-eq-ok (ok b) h = ground (arith, h)
with_store-eq-ok (err e) h = absurd (ground (arith, h))

module _ (l : LayerStore) (r : Remote l) (os : System) (is_tar : String → Bool) (task_id : String)
    (m : Manager) (now : ℕ) (snap_path : String) (order : List Job → List Job) where
  abbrev pub pulled : String → String → Local l → Log → (Local l × Log) × Result Failure Descriptor
  pulled reference refs s log =
      pull l r os is_tar task_id m now snap_path order reference refs s log

  abbrev pub dir : String
  dir = diff_dir l r os is_tar task_id m now snap_path order

  abbrev pub jobs : Plan → List Job × (Progress × Option Failure)
  jobs p = start l r os is_tar task_id m now snap_path order p

  abbrev pub first : Plan → Local l → Log → Session l r os is_tar
  first p s log = record { local = s; heap = (jobs p).1.0.heap; log = log }

  abbrev pub run : Plan → Local l → Log → Session l r os is_tar × Option Failure
  run p s log = run_jobs l r os is_tar task_id m now dir p (order (jobs p).0) (first p s log)

  marshal_to_path-eq-ok :
      (path : String) (a : Artifact) (files out : Dict (List ℕ))
      → marshal_to_path os path a files ≡ ok out
      → (b : List ℕ) × (out ≡ insert (os.join path artifact_name) b files)
  unfolding marshal_to_path
  marshal_to_path-eq-ok path a files out h =
      let (_, _, h1) = >>=-eq-ok (unless (os.make_dir path)) _ h in
      let (b, _, h2) = >>=-eq-ok (os.marshal_yaml a) _ h1 in
      let (_, _, h3) = >>=-eq-ok (unless (os.open_file (os.join path artifact_name))) _ h2 in
      (b, ground (arith, h3))

  record_pull-eq-ok :
      (path refs : String) (p : Plan) (s t : Local l) (d : Descriptor)
      → record_pull l r os is_tar path refs p s ≡ (t, ok d)
      → (d ≡ p.desc)
        × (l.index s.db refs p.desc ≡ ok t.db)
        × ((b : List ℕ) × (t.files ≡ insert (os.join path artifact_name) b s.files))
  unfolding record_pull
  record_pull-eq-ok path refs p s t d h =
      elim (Result-cases (marshal_to_path os path p.artifact s.files)) [
        | inr (x, e) ↦ absurd (ground (arith, h, e))
        | inl (files, e) ↦ elim (Result-cases (l.index s.db refs p.desc)) [
          | inr (x, f) ↦ absurd (ground (arith, h, e, f))
          | inl (db, f) ↦
              let (b, g) = marshal_to_path-eq-ok path p.artifact s.files files e in
              (ground (arith, h, e, f), ground (arith, h, e, f), (b, ground (arith, h, e, f, g)))
        ]
      ]

  -- What stands before a pull's success.
  pub record IsRun (reference refs : String) (s t : Local l) (log : Log) (d : Descriptor)
      : Type 0 where
    pub p : Plan
    pub planned : plan l r os is_tar reference ≡ ok p
    pub desc : d ≡ p.desc
    pub ran : (run p s log).1 ≡ none
    pub left : (jobs p).1.1 ≡ none
    pub indexed : l.index (run p s log).0.local.db refs p.desc ≡ ok t.db
    pub bytes : List ℕ
    pub files :
        t.files
        ≡ insert (os.join (os.join snap_path refs) artifact_name) bytes (run p s log).0.local.files

  pub pull-IsRun :
      (reference refs : String) (s t : Local l) (log k : Log) (d : Descriptor)
      → pulled reference refs s log ≡ ((t, k), ok d)
      → IsRun reference refs s t log d
  unfolding pull pull_plan
  pull-IsRun reference refs s t log k d h = elim (Result-cases (plan l r os is_tar reference)) [
    | inr (x, e) ↦ absurd (ground (arith, h, e))
    | inl (p, e) ↦ elim (Option-cases (os.make_dir dir)) [
      | inr (x, f) ↦ absurd (ground (arith, h, e, f))
      | inl f ↦ elim (Option-cases (run p s log).1) [
        | inr (x, g) ↦ absurd (ground (arith, h, e, f, g))
        | inl g ↦ elim (Option-cases (jobs p).1.1) [
          | inr (x, i) ↦ absurd (ground (arith, h, e, f, g, i))
          | inl i ↦
              let q = record (jobs p).1.0 { heap = (run p s log).0.heap } in
              elim (Bool-cases (check_all_completed q)) [
                | inr c ↦ absurd (ground (arith, h, e, f, g, i, c))
                | inl c ↦
                    let path = os.join snap_path refs in
                    let (x, y, (b, z)) =
                      record_pull-eq-ok path refs p (run p s log).0.local t d
                        (ground (arith, h, e, f, g, i, c)) in
                    record {
                      p = p;
                      planned = e;
                      desc = x;
                      ran = g;
                      left = i;
                      indexed = y;
                      bytes = b;
                      files = z;
                    }
              ]
        ]
      ]
    ]
  ]
