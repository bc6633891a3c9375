-- ===== src/Repo/Pull.antt =====
-- `Pull` of internal/repo/local.go, with `pullLayer`, `extract` and `extractLayer`, and `GetManifest`
-- and `GetConfig` of internal/repo/utils.go. The goroutines of the layers run one after the other in
-- any order; those after one that failed run too. A panic is a failure.
pub mod Complete
pub mod Effect
pub mod Run
pub mod Success
pub mod Brought
pub mod Indexed
use apack.Base.{
  ℕ, zero, suc, String, Bool, true, false, Option, none, some, List, [], ◌∷◌, ◌++◌, Result, ok, err,
  ◌>>=◌, Dict, insert, lookup, get_elem?, set, length, any_of, str_eq, ltb, if◌then◌else◌,
}
use apack.LayerDb.Layout.{Descriptor, Manifest}
use apack.Spec.Types.{Artifact}
use apack.Spec.Diffids.{find_diffid}
use apack.Task.Manager.{Manager}
use apack.Progress.Writers.{
  Writer, Log, new_writer, mark_completed, write_all, Progress, new_progress, add,
  check_all_completed,
}
use apack.Repo.Layers.{LayerStore}
use apack.Repo.Loop.{by_digest, Job, first_failure, schedule}
use apack.Repo.World.{
  marshal_to_path, Failure, fault, of_store, unsupported_manifest, unsupported_config,
  index_out_of_range, not_all_layers, Local, Unpacked, Remote, System, with_store, unless,
  file_path, artifact_name,
}

pub record Plan : Type 0 where
  pub desc : Descriptor
  pub manifest : Manifest
  pub diff_ids : List String
  pub artifact : Artifact

abbrev pub annotation : String → Descriptor → String
annotation k d = elim (lookup k d.annotations) [ none ↦ "" | some v ↦ v ]

module _ (l : LayerStore) (r : Remote l) (os : System) (is_tar : String → Bool) where
  abbrev supported : Manifest → Result Failure Manifest
  supported m =
      if r.is_manifest_type m.media_type
      then (if r.is_config_type m.config.media_type
          then ok m
          else err (unsupported_config m.config.media_type))
      else err (unsupported_manifest m.media_type)

  unfoldable pub get_manifest : Descriptor → Result Failure Manifest
  get_manifest d = do v ← r.fetch_all d; m ← with_store (l.decode v); supported m

  unfoldable pub get_config : Descriptor → Result Failure (List String)
  get_config d = do v ← r.fetch_all d; r.diff_ids v

  -- what `Pull` asks the remote repository before it pulls a layer
  unfoldable pub plan : String → Result Failure Plan
  unfolding get_manifest get_config
  plan reference = do
    d ← r.resolve reference
    m ← get_manifest d
    c ← get_config m.config
    a ← os.unmarshal_json m.config.payload
    ok (record { desc = d; manifest = m; diff_ids = c; artifact = a })

  abbrev pub to_pull : Plan → List Descriptor
  to_pull p = p.manifest.layers ++ (p.manifest.config ∷ p.desc ∷ [])

  pub record Session : Type 0 where
    pub local : Local l
    pub heap : List Writer
    pub log : Log

  abbrev pub put_file : String → List ℕ → Session → Session
  put_file path bytes s = record s {
    local = record s.local { files = insert path bytes s.local.files };
  }

  abbrev pub target : String → Artifact → Descriptor → String
  target dir a d = os.join dir (find_diffid (annotation file_path d) a)

  -- What follows the goroutines: the snapshot's description, and the index.
  unfoldable pub record_pull :
      String → String → Plan → Local l → Local l × Result Failure Descriptor
  unfolding marshal_to_path
  record_pull path refs p s = elim (marshal_to_path os path p.artifact s.files) [
    | err x ↦ (s, err x)
    | ok files ↦ elim (with_store (l.index s.db refs p.desc)) [
      | err x ↦ (record s { files = files }, err x)
      | ok db ↦ (record s { files = files; db = db }, ok p.desc)
    ]
  ]

  module _ (task_id : String) (m : Manager) (now : ℕ) where
    -- a method of a writer, called through its pointer
    abbrev pub on_writer : ℕ → (Writer × Log → Writer × Log) → Session → Session
    on_writer i f s = elim (get_elem? s.heap i) [
      | none ↦ s
      | some w ↦ let (v, k) = f (w, s.log) in record s { heap = set s.heap i v; log = k }
    ]

    abbrev pub mark : ℕ → Session → Session
    mark i s = on_writer i (mark_completed task_id m now) s

    abbrev pub copy_to : ℕ → List ℕ → Session → Session
    copy_to i ns s = on_writer i (write_all task_id m now ns) s

    abbrev pub entry_copied : String → Unpacked → ℕ → Session → Session × Option Failure
    entry_copied path u i s =
        let t = put_file path u.bytes (copy_to i u.entry_reads s) in
        elim (u.end) [ some x ↦ (t, some x) | none ↦ (mark i t, none) ]

    -- `extractLayer`: the file is there from the moment it is opened, with what was copied so far.
    unfoldable pub extract_layer : String → Unpacked → ℕ → Session → Session × Option Failure
    extract_layer path u i s = elim (u.header) [
      | some x ↦ (copy_to i u.header_reads s, some x)
      | none ↦ elim (os.make_dir (os.dir_of path)) [
        | some x ↦ (copy_to i u.header_reads s, some x)
        | none ↦ elim (os.open_file path) [
          | some x ↦ (copy_to i u.header_reads s, some x)
          | none ↦ entry_copied path u i (copy_to i u.header_reads s)
        ]
      ]
    ]

    unfoldable pub extract :
        String → Artifact → String → r.Content → Job → Session → Session × Option Failure
    unfolding extract_layer
    extract dir a diffid content j s = elim (r.unpack j.desc diffid content) [
      | err x ↦ (s, some x)
      | ok u ↦ extract_layer (target dir a j.desc) u j.writer s
    ]

    -- what follows `extract` in `pullLayer`
    abbrev pub marked : Job → Session × Option Failure → Session × Option Failure
    marked j (s, some x) = (s, some x)
    marked j (s, none) = (mark j.writer s, none)

    abbrev pub stored_blob : Job → Result Failure l.State → Session → Session × Option Failure
    stored_blob j (ok db) s =
        (mark j.writer (record s { local = record s.local { db = db } }), none)
    stored_blob j (err x) s = (s, some x)

    unfoldable pub pull_layer :
        String → Artifact → String → Job → Session → Session × Option Failure
    unfolding extract
    pull_layer dir a diffid j s = elim (l.exists s.local.db j.desc) [
      | err x ↦ (s, some (of_store x))
      | ok true ↦ (mark j.writer s, none)
      | ok false ↦ elim (r.fetch j.desc) [
        | err x ↦ (s, some x)
        | ok content ↦ elim (is_tar j.desc.media_type) [
          | true ↦ marked j (extract dir a diffid content j s)
          | false ↦
              stored_blob j (r.drain content >>= λ v. with_store (l.set s.local.db j.desc v)) s
        ]
      ]
    ]

    -- The goroutine: the layers of the manifest have their entry in the configuration's list.
    unfoldable pub run_job : String → Plan → Job → Session → Session × Option Failure
    unfolding pull_layer
    run_job dir p j s = elim (ltb j.index (length p.manifest.layers)) [
      | false ↦ pull_layer dir p.artifact "" j s
      | true ↦ elim (get_elem? p.diff_ids j.index) [
        | none ↦ (s, some index_out_of_range)
        | some diffid ↦ pull_layer dir p.artifact diffid j s
      ]
    ]

    unfoldable pub run_jobs : String → Plan → List Job → Session → Session × Option Failure
    unfolding run_job
    run_jobs dir p [] s = (s, none)
    run_jobs dir p (j ∷ js) s =
        let (t, e) = run_job dir p j s in let (u, f) = run_jobs dir p js t in (u, first_failure e f)

    module _ (snap_path : String) (order : List Job → List Job) where
      abbrev pub start : Plan → List Job × (Progress × Option Failure)
      start p = schedule r.acquire (by_digest os) "pull" (to_pull p) 0 [] new_progress

      abbrev pub diff_dir : String
      diff_dir = os.join snap_path "diff"

      unfoldable pub pull_plan : String → Plan → Local l → Log → Session × Result Failure Descriptor
      unfolding schedule run_jobs record_pull check_all_completed
      pull_plan refs p s log =
          let (js, (q, sem)) = start p in
          let (t, e) =
            run_jobs diff_dir p (order js) (record { local = s; heap = q.heap; log = log }) in
          elim e [
            | some x ↦ (t, err x)
            | none ↦ elim sem [
              | some x ↦ (t, err x)
              | none ↦ elim (check_all_completed (record q { heap = t.heap })) [
                | false ↦ (t, err not_all_layers)
                | true ↦
                    let (u, d) = record_pull (os.join snap_path refs) refs p t.local in
                    (record t { local = u }, d)
              ]
            ]
          ]

      unfoldable pub pull :
          String → String → Local l → Log → (Local l × Log) × Result Failure Descriptor
      unfolding plan pull_plan
      pull reference refs s log = elim (plan reference) [
        | err x ↦ ((s, log), err x)
        | ok p ↦ elim (os.make_dir diff_dir) [
          | some x ↦ ((s, log), err x)
          | none ↦ let (t, d) = pull_plan refs p s log in ((t.local, t.log), d)
        ]
      ]
