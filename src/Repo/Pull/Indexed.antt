-- ===== src/Repo/Pull/Indexed.antt =====
-- After a pull that succeeds, the reference names the manifest that was pulled.
use apack.Base.{
  ℕ, String, ◌≡◌, ◌≢◌, sym, ◌∙◌, Bool, true, false, Option, none, List, [], ◌∷◌, ◌++◌, ok, any_of,
  str_eq, str_iff, Every, arith, Bool-cases, inl, inr,
}
use apack.LayerDb.Layout.{Descriptor, Manifest}
use apack.LayerDb.Entries.{tagged}
use apack.Task.Manager.{Manager}
use apack.Progress.Writers.{Log, new_progress}
use apack.Repo.Layers.{LayerStore, IsLayerStore}
use apack.Repo.World.{Failure, Local, Remote, System}
use apack.Repo.Pull.{Plan, plan, to_pull}
use apack.Repo.Loop.{by_digest, Job}
use apack.Repo.Pull.Effect.{Effect, failed, present, extracted, stored}
use apack.Repo.Loop.Covered.{IsOrder, IsCovered, schedule-IsCovered, schedule-Every}
use apack.Repo.Pull.Run.{IsKept, run_jobs-keep, run_jobs-done}
use apack.Repo.Pull.Success.{IsRun, pull-IsRun, pulled, jobs, first, run}

Every-last :
    {A : Type 0} (X : A → Type 0) (xs : List A) (c d : A) → Every X (xs ++ (c ∷ d ∷ [])) → X d
Every-last X [] c d (_, (x, _)) = x
Every-last X (y ∷ xs) c d (_, e) = Every-last X xs c d e

-- What a descriptor to pull must be, for the descriptor `d` of the manifest `m`: its digest is
-- valid; with the same
-- digest, its content is the manifest's; with another one, its blob is kept in another place.
pub record IsGenuine (l : LayerStore) (r : Remote l) (is_tar : String → Bool) (d : Descriptor)
    (m : Manifest) (c : Descriptor) : Type 0 where
  pub valid : l.is_digest c.digest ≡ true
  pub no_tar : c.digest ≡ d.digest → is_tar c.media_type ≡ false
  pub content :
      (x : r.Content) (v : l.Blob)
      → c.digest ≡ d.digest
      → r.fetch c ≡ ok x
      → r.drain x ≡ ok v
      → l.decode v ≡ ok m
  pub apart :
      (s t : l.State) (v : l.Blob)
      → c.digest ≢ d.digest
      → l.set s c v ≡ ok t
      → l.exists t d ≡ ok true
      → l.exists s d ≡ ok true

module _ (l : LayerStore) (r : Remote l) (os : System) (is_tar : String → Bool)
    (lawful : IsLayerStore l) where
  abbrev pub IsSafe : Descriptor → Manifest → Local l → Type 0
  IsSafe d m s = l.IsReadable s.db × (l.exists s.db d ≡ ok true → l.stored s.db d ≡ ok m)

  abbrev IsJob : Descriptor → Manifest → Job → Type 0
  IsJob d m j = IsGenuine l r is_tar d m j.desc

  abbrev IsStored : Descriptor → Manifest → Job → Local l → Type 0
  IsStored d m j s = j.desc.digest ≡ d.digest → l.stored s.db d ≡ ok m

  module _ (dir : String) (p : Plan) (d : Descriptor) (m : Manifest) where
    set-stored :
        (j : Job) (s db : l.State) (c : r.Content) (v : l.Blob)
        → IsJob d m j
        → r.fetch j.desc ≡ ok c
        → r.drain c ≡ ok v
        → l.set s j.desc v ≡ ok db
        → j.desc.digest ≡ d.digest
        → l.stored db d ≡ ok m
    set-stored j s db c v g f e w same =
        sym (lawful.stored-digest db j.desc d same)
        ∙ (lawful.stored-set s db j.desc v w ∙ g.content c v same f e)

    IsSafe-Effect :
        (j : Job) (s t : Local l) (e : Option Failure)
        → IsJob d m j
        → IsSafe d m s
        → Effect l r os is_tar dir p.artifact j s t e
        → IsSafe d m t
    IsSafe-Effect j s t e g h (failed x _ q) = rw q h
    IsSafe-Effect j s t e g h (present _ q) = rw q h
    IsSafe-Effect j s t e g h (extracted b _ _ q) = rw q h
    IsSafe-Effect j s t e g (readable, known) (stored c v db absent tar f o w q) = (
      rw q (lawful.set-IsReadable s.db db j.desc v g.valid absent w readable),
      λ there. rw q (elim (Bool-cases (str_eq j.desc.digest d.digest)) [
        | inl same ↦ set-stored j s.db db c v g f o w ((str_iff j.desc.digest d.digest).0 same)
        | inr other ↦ lawful.stored-set_other s.db db d j.desc v m absent w (
            known (
              g.apart s.db db v
                (λ same. ground (arith, other, (str_iff j.desc.digest d.digest).1 same)) w
                (rw q at there)))
      ]),
    )

    Effect-IsStored :
        (j : Job) (s t : Local l)
        → IsJob d m j
        → IsSafe d m s
        → Effect l r os is_tar dir p.artifact j s t none
        → IsStored d m j t
    Effect-IsStored j s t g h (failed x e q) same = absurd (ground (arith, e))
    Effect-IsStored j s t g (_, known) (present there q) same =
        rw q (known (sym (lawful.exists-digest s.db j.desc d same) ∙ there))
    Effect-IsStored j s t g h (extracted b _ tar q) same =
        absurd (ground (arith, tar, g.no_tar same))
    Effect-IsStored j s t g h (stored c v db _ _ f o w q) same =
        rw q (set-stored j s.db db c v g f o w same)

    IsStored-Effect :
        (i j : Job) (s t : Local l) (e : Option Failure)
        → Effect l r os is_tar dir p.artifact j s t e
        → IsStored d m i s
        → IsStored d m i t
    IsStored-Effect i j s t e (failed x _ q) h same = rw q (h same)
    IsStored-Effect i j s t e (present _ q) h same = rw q (h same)
    IsStored-Effect i j s t e (extracted b _ _ q) h same = rw q (h same)
    IsStored-Effect i j s t e (stored c v db absent _ _ _ w q) h same =
        rw q (lawful.stored-set_other s.db db d j.desc v m absent w (h same))

    IsStored-IsKept : IsKept l r os is_tar dir p (IsJob d m) (IsSafe d m) (IsStored d m)
    IsStored-IsKept = record {
      keep = IsSafe-Effect;
      done = Effect-IsStored;
      stay = λ i j s t e _ _ effect. IsStored-Effect i j s t e effect;
    }

    stored_by :
        (js : List Job) (s : Local l)
        → any_of (λ j. str_eq j.desc.digest d.digest) js ≡ true
        → Every (λ j. IsStored d m j s) js
        → l.stored s.db d ≡ ok m
    stored_by [] s h e = absurd (ground (arith, h))
    stored_by (j ∷ js) s h (e, es) = elim (Bool-cases (str_eq j.desc.digest d.digest)) [
      | inl same ↦ e ((str_iff j.desc.digest d.digest).0 same)
      | inr other ↦ stored_by js s (ground (arith, h, other)) es
    ]

  module _ (task_id : String) (now : ℕ) (manager : Manager) (snap_path : String)
      (order : List Job → List Job) where
    run-manifest :
        IsOrder order
        → (reference refs : String) (s t : Local l) (log : Log) (d : Descriptor)
          (did : IsRun l r os is_tar task_id manager now snap_path order reference refs s t log d)
        → IsSafe did.p.desc did.p.manifest s
        → Every (IsGenuine l r is_tar did.p.desc did.p.manifest) (to_pull l r os is_tar did.p)
        → l.manifest t.db refs ≡ ok (did.p.manifest, tagged refs did.p.desc)
    run-manifest ordered reference refs s t log d did safe genuine =
        let p = did.p in
        let c = p.desc in
        let dir = os.join snap_path "diff" in
        let js = (jobs l r os is_tar task_id manager now snap_path order p).0 in
        let start = first l r os is_tar task_id manager now snap_path order p s log in
        let u = (run l r os is_tar task_id manager now snap_path order p s log).0.local in
        let all =
          schedule-Every r.acquire (by_digest os) "pull" (IsGenuine l r is_tar c p.manifest)
            (to_pull l r os is_tar p) 0 [] new_progress genuine in
        let queue = (ordered (IsJob c p.manifest) js).0 all in
        let kept = IsStored-IsKept dir p c p.manifest in
        let (readable, _) =
          run_jobs-keep l r os is_tar task_id manager now dir p (IsJob c p.manifest)
            (IsSafe c p.manifest) (IsStored c p.manifest) kept (order js) start queue safe in
        let back : Every (λ j. IsStored c p.manifest j u) js =
          (ordered (λ j. IsStored c p.manifest j u) js).1 (
            run_jobs-done l r os is_tar task_id manager now dir p (IsJob c p.manifest)
              (IsSafe c p.manifest) (IsStored c p.manifest) kept (order js) start queue safe
              did.ran) in
        let covered =
          Every-last (IsCovered r.acquire (by_digest os) "pull" [] js) p.manifest.layers
            p.manifest.config c
            (schedule-IsCovered r.acquire (by_digest os) "pull" (to_pull l r os is_tar p) 0 []
              new_progress did.left) in
        lawful.manifest-index u.db t.db refs c p.manifest readable
          (Every-last (IsGenuine l r is_tar c p.manifest) p.manifest.layers p.manifest.config c
            genuine).valid
          (elim covered [
            | inl met ↦ absurd (ground (arith, met))
            | inr has ↦ stored_by dir p c p.manifest js u has back
          ])
          did.indexed

    -- Over a lawful store of layers and with the goroutines in any order, let a pull succeed
    -- that started from a store whose index has valid digests and can be read and in which the
    -- blob of the manifest's descriptor, if it is there, is the remote's manifest. If every
    -- descriptor that was to be pulled has a valid digest, every one with the manifest's digest
    -- is no tar and has the manifest for its content, and every other one keeps its blob in
    -- another place, then the store afterwards finds, for the reference, the remote's manifest
    -- and its descriptor with the reference as its name.
    pub pull-manifest :
        IsOrder order
        → (reference refs : String) (s t : Local l) (log k : Log) (d : Descriptor) (p : Plan)
        → plan l r os is_tar reference ≡ ok p
        → IsSafe p.desc p.manifest s
        → Every (IsGenuine l r is_tar p.desc p.manifest) (to_pull l r os is_tar p)
        → pulled l r os is_tar task_id manager now snap_path order reference refs s log
          ≡ ((t, k), ok d)
        → l.manifest t.db refs ≡ ok (p.manifest, tagged refs p.desc)
    pull-manifest ordered reference refs s t log k d p planned safe genuine h =
        let did =
          pull-IsRun l r os is_tar task_id manager now snap_path order reference refs s t log k d
            h in
        let same : did.p ≡ p = ground (arith, planned, did.planned) in
        rw (sym same)
          (run-manifest ordered reference refs s t log d did (rw same safe) (rw same genuine))
