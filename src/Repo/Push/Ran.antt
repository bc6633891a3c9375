-- ===== src/Repo/Push/Ran.antt =====
-- What a push that succeeds has brought into the registry.
use apack.Base.{
  ℕ, String, ◌≡◌, refl, sym, ap, ◌∙◌, true, false, Option, none, some, List, [], ◌∷◌, ok, get_elem?,
  any_of, str_eq, str_iff, Every, Every-imp, arith, Bool-cases, Option-cases, Result-cases, inl,
  inr,
}
use apack.LayerDb.Layout.{Descriptor, Manifest}
use apack.Task.Manager.{Manager}
use apack.Progress.Writers.{
  Writer, Log, Progress, new_progress, mark_completed, write_all, check_all_completed,
}
use apack.Repo.Layers.{LayerStore}
use apack.Repo.World.{Failure, Local, System}
use apack.Repo.Loop.{by_digest, Job, first_failure-none}
use apack.Repo.Loop.Covered.{IsOrder, IsCovered, schedule-IsCovered}
use apack.Repo.Push.{
  Registry, IsRegistry, Session, layer_content, on_writer, copy_to, pushed_content, push_layer,
  push_jobs, start, push_manifest, push,
}

-- From the registry `s` to `t`, with the error `e`: nothing; nothing, as the blob is there; the blob
-- is pushed.
pub data Effect (l : LayerStore) (r : Registry l) (j : Job) (s t : r.State) (e : Option Failure)
    : Type 0 where
  failed : (x : Failure) → e ≡ some x → t ≡ s → Effect l r j s t e
  present : r.exists s j.desc ≡ ok true → t ≡ s → Effect l r j s t e
  sent : (v : r.Content) → (r.push s j.desc v).1 ≡ ok t → Effect l r j s t e

module _ (l : LayerStore) (r : Registry l) (os : System) (snap_path refs : String) (s : Local l)
    (task_id : String) (m : Manager) (now : ℕ) where
  on_writer-remote :
      (i : ℕ) (f : Writer × Log → Writer × Log) (t : Session l r os)
      → (on_writer l r os snap_path refs s task_id m now i f t).remote ≡ t.remote
  on_writer-remote i f t = elim (Option-cases (get_elem? t.heap i)) [
    | inl p ↦ ground (arith, p)
    | inr (w, p) ↦ ground (arith, p)
  ]

  pushed_content-Effect :
      (j : Job) (v : r.Content) (t : Session l r os)
      → let (u, e) = pushed_content l r os snap_path refs s task_id m now j v t in
        Effect l r j t.remote u.remote e
  pushed_content-Effect j v t =
      let copied =
        on_writer-remote j.writer (write_all task_id m now (r.push t.remote j.desc v).0) t in
      elim (Result-cases (r.push t.remote j.desc v).1) [
        | inr (x, p) ↦ rw (p, pushed_content) (failed x refl copied)
        | inl (u, p) ↦
            let w =
              record (copy_to l r os snap_path refs s task_id m now j.writer
                (r.push t.remote j.desc v).0 t) { remote = u } in
            let marked = on_writer-remote j.writer (mark_completed task_id m now) w in
            rw (p, pushed_content) (sent v (rw marked p))
      ]

  push_layer-Effect :
      (j : Job) (t : Session l r os)
      → let (u, e) = push_layer l r os snap_path refs s task_id m now j t in
        Effect l r j t.remote u.remote e
  unfolding push_layer
  push_layer-Effect j t = elim (Result-cases (r.exists t.remote j.desc)) [
    | inr (x, p) ↦ rw (p, push_layer) (failed x refl refl)
    | inl (true, p) ↦
        rw (p, push_layer) (present p (on_writer-remote j.writer (mark_completed task_id m now) t))
    | inl (false, p) ↦ elim (Result-cases (layer_content l r os snap_path refs s j.desc)) [
      | inr (x, q) ↦ rw (p, push_layer, q) (failed x refl refl)
      | inl (v, q) ↦ rw (p, push_layer, q) (pushed_content-Effect j v t)
    ]
  ]

  module _ (lawful : IsRegistry l r) where
    Effect-exists : (j : Job) (a b : r.State) → Effect l r j a b none → r.exists b j.desc ≡ ok true
    Effect-exists j a b (failed x e h) = absurd (ground (arith, e))
    Effect-exists j a b (present e h) = rw h e
    Effect-exists j a b (sent v h) = lawful.exists-push a b j.desc v h

    Effect-keep :
        (j : Job) (a b : r.State) (e : Option Failure) (c : Descriptor)
        → Effect l r j a b e
        → r.exists a c ≡ ok true
        → r.exists b c ≡ ok true
    Effect-keep j a b e c (failed x _ h) there = rw h there
    Effect-keep j a b e c (present _ h) there = rw h there
    Effect-keep j a b e c (sent v h) there = lawful.exists-push_other a b c j.desc v h there

    abbrev ran : List Job → Session l r os → Session l r os × Option Failure
    ran js t = push_jobs l r os snap_path refs s task_id m now js t

    push_jobs-keep :
        (js : List Job) (t : Session l r os) (c : Descriptor)
        → r.exists t.remote c ≡ ok true
        → r.exists (ran js t).0.remote c ≡ ok true
    unfolding push_jobs
    push_jobs-keep [] t c h = h
    push_jobs-keep (j ∷ js) t c h =
        let (u, e) = push_layer l r os snap_path refs s task_id m now j t in
        push_jobs-keep js u c (Effect-keep j t.remote u.remote e c (push_layer-Effect j t) h)

    push_jobs-exists :
        (js : List Job) (t : Session l r os)
        → (ran js t).1 ≡ none
        → Every (λ j. r.exists (ran js t).0.remote j.desc ≡ ok true) js
    unfolding push_jobs
    push_jobs-exists [] t h = tt
    push_jobs-exists (j ∷ js) t h =
        let (u, e) = push_layer l r os snap_path refs s task_id m now j t in
        let effect : Effect l r j t.remote u.remote e = push_layer-Effect j t in
        let (first, rest) = first_failure-none e (ran js u).1 h in
        (
          push_jobs-keep js u j.desc (Effect-exists j t.remote u.remote (rw first at effect)),
          push_jobs-exists js u rest,
        )

    covered_exists :
        (js : List Job) (a : r.State) (c : Descriptor)
        → any_of (λ j. str_eq j.desc.digest c.digest) js ≡ true
        → Every (λ j. r.exists a j.desc ≡ ok true) js
        → r.exists a c ≡ ok true
    covered_exists [] a c h e = absurd (ground (arith, h))
    covered_exists (j ∷ js) a c h (e, es) = elim (Bool-cases (str_eq j.desc.digest c.digest)) [
      | inl same ↦
          sym (lawful.exists-digest a j.desc c ((str_iff j.desc.digest c.digest).0 same)) ∙ e
      | inr other ↦ covered_exists js a c (ground (arith, h, other)) es
    ]

    met_exists :
        (a : r.State) (js : List Job) (c : Descriptor)
        → Every (λ j. r.exists a j.desc ≡ ok true) js
        → IsCovered r.acquire (by_digest os) "push" [] js c
        → r.exists a c ≡ ok true
    met_exists a js c all (inl met) = absurd (ground (arith, met))
    met_exists a js c all (inr has) = covered_exists js a c has all

    module _ (order : List Job → List Job) (ordered : IsOrder order) where
      abbrev begun : Manifest → r.State → Log → Session l r os
      begun mf a log = record {
        remote = a;
        heap = (start l r os snap_path refs s task_id m now order mf).1.0.heap;
        log = log;
      }

      abbrev jobs : Manifest → List Job × (Progress × Option Failure)
      jobs mf = start l r os snap_path refs s task_id m now order mf

      push_manifest-exists :
          (mf : Manifest) (desc d : Descriptor) (a : r.State) (log : Log) (t : Session l r os)
          → push_manifest l r os snap_path refs s task_id m now order mf desc a log ≡ (t, ok d)
          → (d ≡ desc)
            × (u : r.State) × (r.push_reference u desc mf refs ≡ ok t.remote)
            × Every (λ c. r.exists u c ≡ ok true) (mf.config ∷ mf.layers)
            × Every (λ c. r.exists t.remote c ≡ ok true) (mf.config ∷ mf.layers)
      unfolding push_manifest
      push_manifest-exists mf desc d a log t h =
          let (js, (q, left)) = jobs mf in
          let (u, e) = ran (order js) (begun mf a log) in
          elim (Option-cases e) [
            | inr (x, f) ↦ absurd (ground (arith, h, f))
            | inl f ↦ elim (Option-cases left) [
              | inr (x, g) ↦ absurd (ground (arith, h, f, g))
              | inl g ↦ elim (Bool-cases (check_all_completed (record q { heap = u.heap }))) [
                | inr i ↦ absurd (ground (arith, h, f, g, i))
                | inl i ↦ elim (Result-cases (r.push_reference u.remote desc mf refs)) [
                  | inr (x, k) ↦ absurd (ground (arith, h, f, g, i, k))
                  | inl (b, k) ↦
                      let last : b ≡ t.remote = ground (arith, h, f, g, i, k) in
                      let all =
                        (ordered (λ j. r.exists u.remote j.desc ≡ ok true) js).1
                          (push_jobs-exists (order js) (begun mf a log) f) in
                      let there : Every (λ c. r.exists u.remote c ≡ ok true)
                          (mf.config ∷ mf.layers) =
                        Every-imp (mf.config ∷ mf.layers)
                          (λ c covered. met_exists u.remote js c all covered)
                          (schedule-IsCovered r.acquire (by_digest os) "push"
                            (mf.config ∷ mf.layers) 0 [] new_progress g) in
                      (
                        ground (arith, h, f, g, i, k),
                        u.remote,
                        k ∙ ap ok last,
                        there,
                        Every-imp (mf.config ∷ mf.layers)
                            (λ c held.
                              rw (sym last)
                                (lawful.exists-push_reference u.remote b c desc mf refs k held))
                            there,
                      )
                ]
              ]
            ]
          ]

      -- With the goroutines in any order and a registry that behaves as documented, a push that
      -- succeeds returns the descriptor that the store has for the reference; the manifest was
      -- pushed under the reference last, to a registry that had the configuration and every
      -- layer of it by then, and has them still.
      pub push-exists :
          (remote t : r.State) (log k : Log) (d : Descriptor)
          → push l r os snap_path refs s task_id m now order remote log ≡ ((t, k), ok d)
          → (mf : Manifest) × (l.manifest s.db refs ≡ ok (mf, d))
            × (u : r.State) × (r.push_reference u d mf refs ≡ ok t)
            × Every (λ c. r.exists u c ≡ ok true) (mf.config ∷ mf.layers)
            × Every (λ c. r.exists t c ≡ ok true) (mf.config ∷ mf.layers)
      unfolding push
      push-exists remote t log k d h = elim (Result-cases (l.manifest s.db refs)) [
        | inr (x, p) ↦ absurd (ground (arith, h, p))
        | inl ((mf, desc), p) ↦
            let (u, e) =
              push_manifest l r os snap_path refs s task_id m now order mf desc remote log in
            let same : u.remote ≡ t = ground (arith, h, p) in
            let done : e ≡ ok d = ground (arith, h, p) in
            let (q, v, last, first, all) =
              push_manifest-exists mf desc d remote log u (ap (λ x. (u, x)) done) in
            (
              mf,
              p ∙ rw q refl,
              v,
              rw q (last ∙ ap ok same),
              first,
              Every-imp (mf.config ∷ mf.layers) (λ c there. rw (sym same) there) all,
            )
      ]
