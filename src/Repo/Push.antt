-- ===== src/Repo/Push.antt =====
-- `Push` of internal/repo/local.go, with `pushLayer`. The goroutines of the layers run one after the
-- other in any order; those after one that failed run too. A panic is a failure.
pub mod Ran
use apack.Base.{
  ℕ, zero, String, ◌≡◌, Bool, true, false, Option, none, some, List, [], ◌∷◌, Result, ok, err,
  ◌>>=◌, lookup, get_elem?, set, length, any_of, str_eq, if◌then◌else◌,
}
use apack.LayerDb.Layout.{Descriptor, Manifest}
use apack.Spec.Types.{Artifact}
use apack.Spec.Diffids.{find_diffid, missing}
use apack.Task.Manager.{Manager}
use apack.Progress.Writers.{
  Writer, Log, new_writer, mark_completed, write_all, Progress, new_progress, add,
  check_all_completed,
}
use apack.Repo.Layers.{LayerStore}
use apack.Repo.World.{
  Failure, fault, of_store, index_out_of_range, not_all_layers, no_diffid, no_file, Local, System,
  with_store, file_path, artifact_name,
}
use apack.Repo.Loop.{by_digest, Job, schedule, first_failure}
use apack.Repo.Links.{snaplink, snapdir}

-- The remote repository that is pushed to. `of_blob` is a blob's content, and `of_file` the tar
-- stream that `Contenting` makes of a file under a name for a media type. A push says what it read.
pub record Registry (l : LayerStore) : Type 1 where
  pub State : Type 0
  pub Content : Type 0
  pub exists : State → Descriptor → Result Failure Bool
  pub push : State → Descriptor → Content → List ℕ × Result Failure State
  pub push_reference : State → Descriptor → Manifest → String → Result Failure State
  pub of_blob : Option l.Blob → Content
  pub of_file : String → String → List ℕ → Content
  pub acquire : Descriptor → Option Failure

-- The documented behaviour of a registry that the theorems rely on.
pub record IsRegistry (l : LayerStore) (r : Registry l) : Type 0 where
  pub exists-digest :
      (s : r.State) (c d : Descriptor) → c.digest ≡ d.digest → r.exists s c ≡ r.exists s d
  pub exists-push :
      (s t : r.State) (d : Descriptor) (v : r.Content)
      → (r.push s d v).1 ≡ ok t
      → r.exists t d ≡ ok true
  pub exists-push_other :
      (s t : r.State) (c d : Descriptor) (v : r.Content)
      → (r.push s d v).1 ≡ ok t
      → r.exists s c ≡ ok true
      → r.exists t c ≡ ok true
  pub exists-push_reference :
      (s t : r.State) (c d : Descriptor) (m : Manifest) (ref : String)
      → r.push_reference s d m ref ≡ ok t
      → r.exists s c ≡ ok true
      → r.exists t c ≡ ok true

module _ (l : LayerStore) (r : Registry l) (os : System) where
  pub record Session : Type 0 where
    pub remote : r.State
    pub heap : List Writer
    pub log : Log

  module _ (snap_path refs : String) (s : Local l) where
    abbrev read_file : String → Result Failure (List ℕ)
    read_file path = elim (lookup path s.files) [ none ↦ err (no_file path) | some b ↦ ok b ]

    abbrev the_diffid : String → Artifact → Result Failure String
    the_diffid filename a =
        let id = find_diffid filename a in
        if str_eq id missing then err (no_diffid filename) else ok id

    -- A layer of a file is made from the file that the snapshot's description names.
    unfoldable pub file_content : String → Descriptor → Result Failure r.Content
    unfolding snaplink snapdir
    file_content filename d = do
      snapref ← snaplink l os snap_path refs s
      yaml ← read_file (os.join snapref artifact_name)
      a ← os.unmarshal_yaml yaml
      diffid ← the_diffid filename a
      diff ← snapdir l os snap_path "diff"
      b ← read_file (os.join diff diffid)
      ok (r.of_file d.media_type filename b)

    unfoldable pub layer_content : Descriptor → Result Failure r.Content
    unfolding file_content
    layer_content d = elim (lookup file_path d.annotations) [
      | some filename ↦ file_content filename d
      | none ↦ with_store (l.read s.db d) >>= λ v. ok (r.of_blob v)
    ]

    module _ (task_id : String) (m : Manager) (now : ℕ) where
      abbrev pub on_writer : ℕ → (Writer × Log → Writer × Log) → Session → Session
      on_writer i f t = elim (get_elem? t.heap i) [
        | none ↦ t
        | some w ↦ let (v, k) = f (w, t.log) in record t { heap = set t.heap i v; log = k }
      ]

      abbrev pub mark : ℕ → Session → Session
      mark i t = on_writer i (mark_completed task_id m now) t

      abbrev pub copy_to : ℕ → List ℕ → Session → Session
      copy_to i ns t = on_writer i (write_all task_id m now ns) t

      abbrev pub pushed_content : Job → r.Content → Session → Session × Option Failure
      pushed_content j v t =
          let (reads, result) = r.push t.remote j.desc v in
          let u = copy_to j.writer reads t in
          elim result [
            | err x ↦ (u, some x)
            | ok remote ↦ (mark j.writer (record u { remote = remote }), none)
          ]

      unfoldable pub push_layer : Job → Session → Session × Option Failure
      unfolding layer_content
      push_layer j t = elim (r.exists t.remote j.desc) [
        | err x ↦ (t, some x)
        | ok true ↦ (mark j.writer t, none)
        | ok false ↦ elim (layer_content j.desc) [
          | err x ↦ (t, some x)
          | ok v ↦ pushed_content j v t
        ]
      ]

      unfoldable pub push_jobs : List Job → Session → Session × Option Failure
      unfolding push_layer
      push_jobs [] t = (t, none)
      push_jobs (j ∷ js) t =
          let (u, e) = push_layer j t in let (v, f) = push_jobs js u in (v, first_failure e f)

      module _ (order : List Job → List Job) where
        abbrev pub to_push : Manifest → List Descriptor
        to_push mf = mf.config ∷ mf.layers

        abbrev pub start : Manifest → List Job × (Progress × Option Failure)
        start mf = schedule r.acquire (by_digest os) "push" (to_push mf) 0 [] new_progress

        unfoldable pub push_manifest :
            Manifest → Descriptor → r.State → Log → Session × Result Failure Descriptor
        unfolding schedule push_jobs check_all_completed
        push_manifest mf desc remote log =
            let (js, (q, sem)) = start mf in
            let (t, e) =
              push_jobs (order js) (record { remote = remote; heap = q.heap; log = log }) in
            elim e [
              | some x ↦ (t, err x)
              | none ↦ elim sem [
                | some x ↦ (t, err x)
                | none ↦ elim (check_all_completed (record q { heap = t.heap })) [
                  | false ↦ (t, err not_all_layers)
                  | true ↦ elim (r.push_reference t.remote desc mf refs) [
                    | err x ↦ (t, err x)
                    | ok last ↦ (record t { remote = last }, ok desc)
                  ]
                ]
              ]
            ]

        unfoldable pub push : r.State → Log → (r.State × Log) × Result Failure Descriptor
        unfolding push_manifest
        push remote log = elim (l.manifest s.db refs) [
          | err x ↦ ((remote, log), err (of_store x))
          | ok (mf, desc) ↦ let (t, d) = push_manifest mf desc remote log in ((t.remote, t.log), d)
        ]
