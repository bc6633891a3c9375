-- ===== src/Repo/Extract.antt =====
-- `Extract` of internal/repo/local.go. The goroutines run one after the other in any order; a panic is
-- a failure.
pub mod Fails
use apack.Base.{
  ℕ, zero, String, Bool, true, false, Option, none, some, List, [], ◌∷◌, Result, ok, err, ◌>>=◌,
  get_elem?, length,
}
use apack.LayerDb.Layout.{Descriptor, Manifest}
use apack.Spec.Types.{Artifact}
use apack.Spec.Diffids.{find_diffid}
use apack.Progress.Writers.{Writer, Progress, new_progress, check_all_completed}
use apack.Repo.Layers.{LayerStore}
use apack.Repo.World.{
  Failure, of_store, index_out_of_range, not_all_layers, nil_artifact, Local, System, with_store,
  file_path,
}
use apack.Repo.Loop.{by_digest, Job, first_failure, schedule}
use apack.Repo.Pull.{annotation}

-- What comes from outside: the reading of a configuration, the stream that `Content` opens for a
-- layer of the object store, and what `extractLayer` does with it at a path.
pub record Streams (l : LayerStore) : Type 1 where
  pub Stream : Type 0
  pub diff_ids : Option l.Blob → Result Failure (List String)
  pub content : Descriptor → String → Result Failure Stream
  pub extract_layer : String → Stream → List Writer → List Writer × Option Failure
  pub acquire : Descriptor → Option Failure

module _ (l : LayerStore) (st : Streams l) (os : System) where
  -- `FindDiffid` of an artifact that is behind a pointer
  abbrev pub diffid_of : String → Option Artifact → Result Failure String
  diffid_of filename none = err nil_artifact
  diffid_of filename (some a) = ok (find_diffid filename a)

  unfoldable pub extract_to :
      String → Option Artifact → Descriptor → String → List Writer → List Writer × Option Failure
  extract_to dir a d diffid heap = elim (st.content d diffid) [
    | err x ↦ (heap, some x)
    | ok content ↦ elim (diffid_of (annotation file_path d) a) [
      | err x ↦ (heap, some x)
      | ok name ↦ st.extract_layer (os.join dir name) content heap
    ]
  ]

  -- The goroutine of `Extract`, which hands on no artifact.
  unfoldable pub extract_job :
      String → List String → Job → List Writer → List Writer × Option Failure
  unfolding extract_to
  extract_job dir diff_ids j heap = elim (get_elem? diff_ids j.index) [
    | none ↦ (heap, some index_out_of_range)
    | some diffid ↦ extract_to dir none j.desc diffid heap
  ]

  unfoldable pub extract_jobs :
      String → List String → List Job → List Writer → List Writer × Option Failure
  unfolding extract_job
  extract_jobs dir diff_ids [] heap = (heap, none)
  extract_jobs dir diff_ids (j ∷ js) heap =
      let (h, e) = extract_job dir diff_ids j heap in
      let (k, f) = extract_jobs dir diff_ids js h in (k, first_failure e f)

  module _ (order : List Job → List Job) where
    abbrev pub layer_jobs : Manifest → List Job × (Progress × Option Failure)
    layer_jobs m = schedule st.acquire (by_digest os) "extract" m.layers 0 [] new_progress

    unfoldable pub extract_layers : String → Manifest → List String → Option Failure
    unfolding schedule extract_jobs check_all_completed
    extract_layers dir m diff_ids =
        let (js, (q, sem)) = layer_jobs m in
        let (heap, e) = extract_jobs dir diff_ids (order js) q.heap in
        elim e [
          | some x ↦ some x
          | none ↦ elim sem [
            | some x ↦ some x
            | none ↦ elim (check_all_completed (record q { heap = heap })) [
              | false ↦ some not_all_layers
              | true ↦ none
            ]
          ]
        ]

    unfoldable pub extract : String → String → Local l → Option Failure
    unfolding extract_layers
    extract dir reference s = elim (l.manifest s.db reference) [
      | err x ↦ some (of_store x)
      | ok (m, _) ↦ elim (with_store (l.read s.db m.config) >>= st.diff_ids) [
        | err x ↦ some x
        | ok diff_ids ↦ extract_layers dir m diff_ids
      ]
    ]
