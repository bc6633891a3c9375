-- ===== src/Repo/Sink.antt =====
-- `Sink` of internal/repo/local.go, with `sinkLayers`: the files of an artifact's layers are copied
-- from the snapshots' directory. The goroutines run one after the other in any order.
pub mod Copied
pub mod Ran
use apack.Base.{
  ℕ, zero, String, Bool, true, false, Option, none, some, List, [], ◌∷◌, Result, ok, err, ◌>>=◌,
  Dict, insert, lookup, get_elem?, set, length, str_eq, if◌then◌else◌,
}
use apack.LayerDb.Layout.{Descriptor, Manifest}
use apack.Spec.Types.{Artifact}
use apack.Spec.Diffids.{find_diffid}
use apack.Task.Manager.{Manager}
use apack.Progress.Writers.{
  Writer, Log, mark_completed, write_all, Progress, new_progress, check_all_completed,
}
use apack.Repo.Layers.{LayerStore}
use apack.Repo.World.{
  Failure, of_store, no_file, not_all_layers, empty_workspace, Local, System, with_store, unless,
  file_path, artifact_name, marshal_to_path,
}
use apack.Repo.Loop.{Job, first_failure, schedule}
use apack.Repo.Links.{snaplink, snapdir}
use apack.Repo.Pull.{annotation}

-- the files, the writers, and the log
pub record Sunk : Type 0 where
  pub files : Dict (List ℕ)
  pub heap : List Writer
  pub log : Log

abbrev pub file_name : Descriptor → String
file_name d = annotation file_path d

abbrev pub read_at : String → Dict (List ℕ) → Result Failure (List ℕ)
read_at path files = elim (lookup path files) [ none ↦ err (no_file path) | some b ↦ ok b ]

-- `acquire` is how taking a place among the goroutines fails, `reads` how a file is read, and
-- `copy_fault` how a copy onto a path fails: the bytes that it wrote until then, and its error.
module _ (os : System) (acquire : Descriptor → Option Failure) (reads : List ℕ → List ℕ)
    (copy_fault : String → List ℕ → Option (List ℕ × Failure)) where
  module _ (task_id : String) (m : Manager) (now : ℕ) where
    abbrev pub on_writer : ℕ → (Writer × Log → Writer × Log) → Sunk → Sunk
    on_writer i f s = elim (get_elem? s.heap i) [
      | none ↦ s
      | some w ↦ let (v, k) = f (w, s.log) in record s { heap = set s.heap i v; log = k }
    ]

    abbrev pub source : String → Artifact → Descriptor → String
    source diff a d = os.join diff (find_diffid (file_name d) a)

    abbrev pub target : String → Descriptor → String
    target dir d = os.join dir (file_name d)

    -- the bytes that go through the writer to the file
    abbrev pub written : String → List ℕ → Job → Sunk → Sunk
    written path b j s =
        let t = on_writer j.writer (write_all task_id m now (reads b)) s in
        record t { files = insert path b t.files }

    abbrev pub copied : String → List ℕ → Job → Sunk → Sunk
    copied path b j s = on_writer j.writer (mark_completed task_id m now) (written path b j s)

    -- A copy that fails leaves what it wrote in the file.
    unfoldable pub sink_layer : String → String → Artifact → Job → Sunk → Sunk × Option Failure
    sink_layer diff dir a j s = elim (read_at (source diff a j.desc) s.files) [
      | err x ↦ (s, some x)
      | ok b ↦ elim (os.open_file (target dir j.desc)) [
        | some x ↦ (s, some x)
        | none ↦ elim (copy_fault (target dir j.desc) b) [
          | some (part, x) ↦ (written (target dir j.desc) part j s, some x)
          | none ↦ (copied (target dir j.desc) b j s, none)
        ]
      ]
    ]

    unfoldable pub sink_jobs : String → String → Artifact → List Job → Sunk → Sunk × Option Failure
    unfolding sink_layer
    sink_jobs diff dir a [] s = (s, none)
    sink_jobs diff dir a (j ∷ js) s =
        let (t, e) = sink_layer diff dir a j s in
        let (u, f) = sink_jobs diff dir a js t in (u, first_failure e f)

    module _ (order : List Job → List Job) where
      abbrev pub layer_jobs : List Descriptor → List Job × (Progress × Option Failure)
      layer_jobs ds = schedule acquire (λ d. some (file_name d)) "extract" ds 0 [] new_progress

      unfoldable pub sink_layers :
          String → String → Artifact → List Descriptor → Dict (List ℕ) → Log → Sunk × Option Failure
      unfolding schedule sink_jobs check_all_completed
      sink_layers diff dir a ds files log =
          let (js, (q, sem)) = layer_jobs ds in
          let (t, e) =
            sink_jobs diff dir a (order js) (record { files = files; heap = q.heap; log = log }) in
          elim e [
            | some x ↦ (t, some x)
            | none ↦ elim sem [
              | some x ↦ (t, some x)
              | none ↦ elim (check_all_completed (record q { heap = t.heap })) [
                | false ↦ (t, some not_all_layers)
                | true ↦ (t, none)
              ]
            ]
          ]

      module _ (l : LayerStore) (snap_path : String) where
        -- `MarshalYAMLToWorkspace`
        abbrev to_workspace : String → Artifact → Dict (List ℕ) → Result Failure (Dict (List ℕ))
        to_workspace dir a files =
            if str_eq dir "" then err empty_workspace else marshal_to_path os dir a files

        -- what `Sink` does before its loop: the layers, the description, and the files
        unfoldable pub prepare :
            String
            → String
            → Local l
            → Result Failure (List Descriptor × (Artifact × (String × Dict (List ℕ))))
        unfolding snaplink snapdir marshal_to_path
        prepare dir reference s = do
          found ← with_store (l.manifest s.db reference)
          diff ← snapdir l os snap_path "diff"
          snapref ← snaplink l os snap_path reference s
          _ ← unless (os.make_dir dir)
          yaml ← read_at (os.join snapref artifact_name) s.files
          a ← os.unmarshal_yaml yaml
          files ← to_workspace dir (record a { pack = record a.pack { workspace = dir } }) s.files
          ok (
            found.0.layers,
            (record a { pack = record a.pack { workspace = dir } }, (diff, files)),
          )

        unfoldable pub sink : String → String → Local l → Log → (Local l × Log) × Option Failure
        unfolding prepare sink_layers
        sink dir reference s log = elim (prepare dir reference s) [
          | err x ↦ ((s, log), some x)
          | ok (ds, (a, (diff, files))) ↦
              let (t, e) = sink_layers diff dir a ds files log in
              ((record s { files = t.files }, t.log), e)
        ]
