-- ===== src/Repo/Pull/Brought.antt =====
-- What a pull that succeeds has brought into the repository.
use apack.Base.{
  ℕ, String, ◌≡◌, Bool, true, List, [], ◌∷◌, ok, insert, any_of, Every, Every-imp, arith,
  Bool-cases, inl, inr,
}
use apack.LayerDb.Layout.{Descriptor}
use apack.Spec.Types.{Artifact}
use apack.Task.Manager.{Manager}
use apack.Progress.Writers.{Log, new_progress}
use apack.Repo.Layers.{LayerStore, IsLayerStore}
use apack.Repo.World.{Local, Remote, System, artifact_name}
use apack.Repo.Pull.{Plan, target, plan, to_pull}
use apack.Repo.Loop.{by_digest, Job}
use apack.Repo.Pull.Complete.{
  IsAmong, Every-IsAmong, IsPulled, IsDone, IsListedJob, IsDone-IsKept, IsDone-IsPulled,
  has_file-insert, extracted_for,
}
use apack.Repo.Loop.Covered.{IsOrder, schedule-IsCovered, schedule-Every}
use apack.Repo.Pull.Run.{run_jobs-done}
use apack.Repo.Pull.Success.{pull-IsRun, pulled, jobs, first, run}

module _ (l : LayerStore) (r : Remote l) (os : System) (is_tar : String → Bool) (task_id : String)
    (m : Manager) (now : ℕ) (snap_path : String) (order : List Job → List Job) where
  abbrev pub diff : String
  diff = os.join snap_path "diff"

  extracted_for-insert :
      (a : Artifact) (s t : Local l) (c d : Descriptor) (path : String) (b : List ℕ)
      → t.files ≡ insert path b s.files
      → extracted_for l r os is_tar diff a s d c ≡ true
      → extracted_for l r os is_tar diff a t d c ≡ true
  extracted_for-insert a s t c d path b e h =
      rw e (ground (arith, h, has_file-insert (target l r os is_tar diff a c) path b s.files))

  any_of-imp :
      (p q : Descriptor → Bool) (cs : List Descriptor)
      → ((c : Descriptor) → p c ≡ true → q c ≡ true)
      → any_of p cs ≡ true
      → any_of q cs ≡ true
  any_of-imp p q [] f h = h
  any_of-imp p q (c ∷ cs) f h = elim (Bool-cases (p c)) [
    | inl found ↦ ground (arith, f c found)
    | inr not_here ↦ ground (arith, any_of-imp p q cs f (ground (arith, h, not_here)))
  ]

  -- The end of a pull takes nothing away.
  IsPulled-indexed :
      IsLayerStore l
      → (refs path : String) (a : Artifact) (ds : List Descriptor) (s t : Local l)
        (m d : Descriptor) (b : List ℕ)
      → l.index s.db refs m ≡ ok t.db
      → t.files ≡ insert path b s.files
      → IsPulled l r os is_tar diff a ds s d
      → IsPulled l r os is_tar diff a ds t d
  IsPulled-indexed lawful refs path a ds s t m d b i e (inl there) =
      inl (lawful.exists-index s.db t.db refs d m i there)
  IsPulled-indexed lawful refs path a ds s t m d b i e (inr file) = inr (
      any_of-imp (extracted_for l r os is_tar diff a s d) (extracted_for l r os is_tar diff a t d)
        ds (λ c. extracted_for-insert a s t c d path b e) file)

  -- Over a lawful store of layers and with the goroutines in any order, a pull that succeeds
  -- returns the remote's descriptor for the reference. Afterwards, for each descriptor to pull,
  -- either the store has its blob, or the file of a tar layer to pull with the same digest is in
  -- the directory of the snapshots' files. The loop passes over digests that come again.
  pub pull-IsPulled :
      IsLayerStore l
      → IsOrder order
      → (reference refs : String) (s t : Local l) (log k : Log) (d : Descriptor)
      → pulled l r os is_tar task_id m now snap_path order reference refs s log ≡ ((t, k), ok d)
      → (p : Plan) × (plan l r os is_tar reference ≡ ok p)
        × (d ≡ p.desc)
        × Every
            (IsPulled l r os is_tar diff p.artifact (to_pull l r os is_tar p) t)
            (to_pull l r os is_tar p)
  pull-IsPulled lawful ordered reference refs s t log k d h =
      let ran =
        pull-IsRun l r os is_tar task_id m now snap_path order reference refs s t log k d h in
      let p = ran.p in
      let ds = to_pull l r os is_tar p in
      let js = (jobs l r os is_tar task_id m now snap_path order p).0 in
      let u = (run l r os is_tar task_id m now snap_path order p s log).0.local in
      let among =
        schedule-Every r.acquire (by_digest os) "pull" (IsAmong ds) ds 0 [] new_progress
          (Every-IsAmong ds) in
      let back : Every (λ j. IsDone l r os is_tar diff p.artifact j u) js =
        (ordered (λ j. IsDone l r os is_tar diff p.artifact j u) js).1 (
          run_jobs-done l r os is_tar task_id m now diff p (IsListedJob l r os is_tar ds)
            (λ _. Unit {0}) (IsDone l r os is_tar diff p.artifact)
            (IsDone-IsKept l r os is_tar lawful diff p ds) (order js)
            (first l r os is_tar task_id m now snap_path order p s log)
            ((ordered (IsListedJob l r os is_tar ds) js).0 among) tt ran.ran) in
      (
        p,
        ran.planned,
        ran.desc,
        Every-imp ds
            (λ c covered.
              IsPulled-indexed lawful refs (os.join (os.join snap_path refs) artifact_name)
                p.artifact ds u t p.desc c ran.bytes ran.indexed ran.files
                (elim covered [
                  | inl met ↦ absurd (ground (arith, met))
                  | inr has ↦ IsDone-IsPulled l r os is_tar lawful diff p ds js u c among back has
                ]))
            (schedule-IsCovered r.acquire (by_digest os) "pull" ds 0 [] new_progress ran.left),
      )
