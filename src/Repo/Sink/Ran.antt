-- ===== src/Repo/Sink/Ran.antt =====
-- What a sink that succeeds has brought into the directory.
use apack.Base.{
  ℕ, String, ◌≡◌, refl, sym, ap, true, Option, none, some, List, [], ◌∷◌, ok, Dict, any_of, str_eq,
  str_iff, Every, Every-imp, arith, Bool-cases, Option-cases, inl, inr,
}
use apack.LayerDb.Layout.{Descriptor}
use apack.Spec.Types.{Artifact}
use apack.Task.Manager.{Manager}
use apack.Progress.Writers.{Log, new_progress, check_all_completed}
use apack.Repo.Layers.{LayerStore}
use apack.Repo.World.{Failure, Local, System}
use apack.Repo.Loop.{Job}
use apack.Repo.Loop.Covered.{IsOrder, schedule-IsCovered, schedule-Every}
use apack.Repo.Pull.Complete.{IsAmong, Every-IsAmong}
use apack.Repo.Sink.{Sunk, file_name, sink_jobs, layer_jobs, sink_layers, prepare, sink}
use apack.Repo.Sink.Copied.{is_clear, IsCopied, sink_jobs-IsCopied}

module _ (os : System) (acquire : Descriptor → Option Failure) (reads : List ℕ → List ℕ)
    (copy_fault : String → List ℕ → Option (List ℕ × Failure)) (task_id : String) (m : Manager)
    (now : ℕ) (order : List Job → List Job) where
  -- A layer of the list with the digest of `d` has the bytes of its file at its place.
  abbrev pub IsSunk :
      String
      → String
      → Artifact
      → List Descriptor
      → Dict (List ℕ)
      → Dict (List ℕ)
      → Descriptor
      → Type 0
  IsSunk diff dir a ds files t d =
      (c : Descriptor) × IsAmong ds c
      × (c.digest ≡ d.digest)
      × IsCopied os acquire reads copy_fault task_id m now diff dir a ds files t c

  abbrev name : Descriptor → Option String
  name d = some (file_name d)

  IsCopied-IsSunk :
      (diff dir : String) (a : Artifact) (ds : List Descriptor) (files t : Dict (List ℕ))
      (js : List Job) (d : Descriptor)
      → Every (λ j. IsAmong ds j.desc) js
      → Every
          (λ j. IsCopied os acquire reads copy_fault task_id m now diff dir a ds files t j.desc)
          js
      → any_of (λ j. str_eq j.desc.digest d.digest) js ≡ true
      → IsSunk diff dir a ds files t d
  IsCopied-IsSunk diff dir a ds files t [] d among all h = absurd (ground (arith, h))
  IsCopied-IsSunk diff dir a ds files t (j ∷ js) d (in_j, among) (k, all) h =
      elim (Bool-cases (str_eq j.desc.digest d.digest)) [
        | inl same ↦ (j.desc, in_j, (str_iff j.desc.digest d.digest).0 same, k)
        | inr other ↦
            IsCopied-IsSunk diff dir a ds files t js d among all (ground (arith, h, other))
      ]

  module _ (ordered : IsOrder order) where
    sink_layers-IsSunk :
        (diff dir : String) (a : Artifact) (ds : List Descriptor) (files : Dict (List ℕ))
        (log : Log) (t : Sunk)
        → is_clear os acquire reads copy_fault task_id m now diff dir a ds ≡ true
        → sink_layers os acquire reads copy_fault task_id m now order diff dir a ds files log
          ≡ (t, none)
        → Every (IsSunk diff dir a ds files t.files) ds
    unfolding sink_layers
    sink_layers-IsSunk diff dir a ds files log t clear h =
        let (js, (q, sem)) = layer_jobs os acquire reads copy_fault task_id m now order ds in
        let start : Sunk = record { files = files; heap = q.heap; log = log } in
        let (u, e) =
          sink_jobs os acquire reads copy_fault task_id m now diff dir a (order js) start in
        elim (Option-cases e) [
          | inr (x, p) ↦ absurd (ground (arith, h, p))
          | inl p ↦ elim (Option-cases sem) [
            | inr (x, g) ↦ absurd (ground (arith, h, p, g))
            | inl g ↦ elim (Bool-cases (check_all_completed (record q { heap = u.heap }))) [
              | inr i ↦ absurd (ground (arith, h, p, g, i))
              | inl i ↦
                  let same : u ≡ t = ground (arith, h, p, g, i) in
                  let among : Every (λ j. IsAmong ds j.desc) js =
                    schedule-Every acquire name "extract" (IsAmong ds) ds 0 [] new_progress
                      (Every-IsAmong ds) in
                  let (_, all) =
                    sink_jobs-IsCopied os acquire reads copy_fault task_id m now diff dir a ds files
                      clear (order js) start ((ordered (λ j. IsAmong ds j.desc) js).0 among)
                      (λ c _. refl) p in
                  let back =
                    (ordered
                        (λ j.
                          IsCopied os acquire reads copy_fault task_id m now diff dir a ds files
                            u.files j.desc)
                        js).1
                      all in
                  Every-imp ds
                    (λ d covered. rw (sym same) (elim covered [
                      | inl met ↦ absurd (ground (arith, met))
                      | inr has ↦ IsCopied-IsSunk diff dir a ds files u.files js d among back has
                    ]))
                    (schedule-IsCovered acquire name "extract" ds 0 [] new_progress g)
            ]
          ]
        ]

    -- With the goroutines in any order, let a sink succeed whose layers are copied onto no file
    -- that is to be copied, and whose layers with one place have one file. Then for each layer,
    -- one of the layers with its digest has at its place in the directory the bytes that its
    -- file had in the snapshots' directory.
    pub sink-IsSunk :
        (l : LayerStore) (snap_path dir reference diff : String) (s t : Local l) (log k : Log)
        (a : Artifact) (ds : List Descriptor) (files : Dict (List ℕ))
        → prepare os acquire reads copy_fault task_id m now order l snap_path dir reference s
          ≡ ok (ds, (a, (diff, files)))
        → is_clear os acquire reads copy_fault task_id m now diff dir a ds ≡ true
        → sink os acquire reads copy_fault task_id m now order l snap_path dir reference s log
          ≡ ((t, k), none)
        → Every (IsSunk diff dir a ds files t.files) ds
    unfolding sink
    sink-IsSunk l snap_path dir reference diff s t log k a ds files p clear h =
        let (u, e) =
          sink_layers os acquire reads copy_fault task_id m now order diff dir a ds files log in
        let done : e ≡ none = ground (arith, h, p) in
        let same : u.files ≡ t.files = ground (arith, h, p) in
        Every-imp ds (λ d sunk. rw (sym same) sunk)
          (sink_layers-IsSunk diff dir a ds files log u clear (ap (λ x. (u, x)) done))
