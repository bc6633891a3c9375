-- ===== src/Repo/Bundle.antt =====
-- `Bundle` of internal/repo/local.go, with `bundleLayer`, and `ManifestDesc` of
-- pkg/layerdb/layerdb.go. The goroutines run one after the other in any order, after the loop that
-- starts them; those after one that failed run too.
pub mod Aligned
pub mod Ran
use apack.Base.{
  ℕ, zero, String, Bool, true, false, Option, none, some, List, [], ◌∷◌, ◌++◌, Result, ok, err,
  ◌>>=◌, Dict, insert, erase, lookup, get_elem?, set, length, str_eq, if◌then◌else◌,
}
use apack.LayerDb.Layout.{Descriptor, Manifest}
use apack.Spec.Types.{Artifact}
use apack.Task.Manager.{Manager}
use apack.Progress.Writers.{
  Writer, Log, new_writer, mark_completed, write_all, Progress, new_progress, add,
  check_all_completed,
}
use apack.Repo.Layers.{LayerStore}
use apack.Repo.World.{
  Failure, of_store, not_all_layers, Local, System, with_store, file_path, marshal_to_path,
}
use apack.Repo.Loop.{first_failure}
use apack.Repo.Links.{snapdir, snapshot}

-- `Content` of pkg/distribution/distribution.go, with the name and the size of its metadata
pub record Content : Type 0 where
  pub id : String
  pub path : String
  pub media_type : String
  pub artifact_type : String
  pub name : String
  pub size : ℕ

-- What `Layering` makes of a content: the sizes of its reads, the layer with its digest, and the
-- bytes that it copies to the snapshot.
pub record Layered : Type 0 where
  pub reads : List ℕ
  pub result : Result Failure (Descriptor × String)
  pub bytes : List ℕ

-- `Makefile`, and what comes from outside: the encodings, the digests and the failures.
pub record Makefile (l : LayerStore) : Type 0 where
  pub contents : Result Failure (List Content)
  pub reference : String
  pub artifact : Artifact
  pub config_media_type : String
  pub artifact_config_type : String
  pub manifest_media_type : String
  pub artifact_manifest_type : String
  pub acquire : Content → Option Failure
  pub layering : Content → Layered
  pub base : String → String
  pub rename : String → String → Option Failure
  pub marshal_config : List String → Result Failure (List ℕ)
  pub marshal_manifest : Manifest → Result Failure (List ℕ)
  pub marshal_json : Artifact → Result Failure (List ℕ)
  pub digest_of : List ℕ → String
  pub blob_of : List ℕ → l.Blob

pub record Job : Type 0 where
  pub content : Content
  -- the directory of the snapshot's files, for a content that has no file there
  pub snap : Option String
  pub writer : ℕ

-- the repository, the writers and the log, and the layers with their digests
pub record Bundled (l : LayerStore) : Type 0 where
  pub local : Local l
  pub heap : List Writer
  pub log : Log
  pub layers : List Descriptor
  pub diff_ids : List String

module _ (l : LayerStore) (mf : Makefile l) (os : System) where
  abbrev pub has_file : String → Dict (List ℕ) → Bool
  has_file path files = elim (lookup path files) [ none ↦ false | some _ ↦ true ]

  abbrev pub snap_for : String → Content → Dict (List ℕ) → Option String
  snap_for diff c files = if has_file (os.join diff c.id) files then none else some diff

  -- A content without a path is passed over.
  unfoldable pub start_jobs :
      String → Dict (List ℕ) → List Content → Progress → List Job × (Progress × Option Failure)
  unfolding add
  start_jobs diff files [] p = ([], (p, none))
  start_jobs diff files (c ∷ cs) p = elim (str_eq c.path "") [
    | true ↦ start_jobs diff files cs p
    | false ↦ elim (mf.acquire c) [
      | some x ↦ ([], (p, some x))
      | none ↦
          let (js, q) = start_jobs diff files cs (add (new_writer "bundle" c.name c.size) p) in
          (record { content = c; snap = snap_for diff c files; writer = length p.heap } ∷ js, q)
    ]
  ]

  -- the layer with the type of the artifact and the path of the content
  abbrev pub dressed : Content → Descriptor → Descriptor
  dressed c d = record d {
    artifact_type = c.artifact_type;
    annotations = insert file_path c.path d.annotations;
  }

  module _ (task_id : String) (m : Manager) (now : ℕ) where
    abbrev pub on_writer : ℕ → (Writer × Log → Writer × Log) → Bundled l → Bundled l
    on_writer i f s = elim (get_elem? s.heap i) [
      | none ↦ s
      | some w ↦ let (v, k) = f (w, s.log) in record s { heap = set s.heap i v; log = k }
    ]

    -- The layer is added to the list; its blob in the store is empty, since the name of the snapshot
    -- is declared anew where it is known.
    abbrev pub add_layer : Job → Descriptor → String → Bundled l → Bundled l × Option Failure
    add_layer j d dgst s =
        let layer = dressed j.content d in
        let t = record s { layers = s.layers ++ layer ∷ []; diff_ids = s.diff_ids ++ dgst ∷ [] } in
        elim (l.set t.local.db layer (mf.blob_of [])) [
          | err x ↦ (t, some (of_store x))
          | ok db ↦ (
            on_writer j.writer (mark_completed task_id m now)
                (record t { local = record t.local { db = db } }),
            none,
          )
        ]

    abbrev pub with_files : Dict (List ℕ) → Bundled l → Bundled l
    with_files files s = record s { local = record s.local { files = files } }

    abbrev pub layered : Job → Bundled l → Bundled l
    layered j s = on_writer j.writer (write_all task_id m now ((mf.layering j.content).reads)) s

    -- The snapshot is written under the content's base name and renamed to its identifier.
    unfoldable pub bundle_layer : Job → Bundled l → Bundled l × Option Failure
    bundle_layer j s = elim (j.snap) [
      | none ↦ elim ((mf.layering j.content).result) [
        | err x ↦ (layered j s, some x)
        | ok (d, dgst) ↦ add_layer j d dgst (layered j s)
      ]
      | some dir ↦
          let temporary = os.join dir (mf.base j.content.path) in
          elim (os.open_file temporary) [
            | some x ↦ (s, some x)
            | none ↦
                let t =
                  with_files (insert temporary ((mf.layering j.content).bytes) s.local.files)
                    (layered j s) in
                elim ((mf.layering j.content).result) [
                  | err x ↦ (t, some x)
                  | ok (d, dgst) ↦ elim (mf.rename temporary (os.join dir j.content.id)) [
                    | some x ↦ (t, some x)
                    | none ↦ add_layer j d dgst (
                        with_files
                          (insert (os.join dir j.content.id) ((mf.layering j.content).bytes)
                            (erase temporary t.local.files))
                          t)
                  ]
                ]
          ]
    ]

    unfoldable pub bundle_jobs : List Job → Bundled l → Bundled l × Option Failure
    unfolding bundle_layer
    bundle_jobs [] s = (s, none)
    bundle_jobs (j ∷ js) s =
        let (t, e) = bundle_layer j s in let (u, f) = bundle_jobs js t in (u, first_failure e f)

    abbrev pub manifest_of : Descriptor → List Descriptor → Manifest
    manifest_of config layers = record {
      media_type = mf.manifest_media_type;
      config = config;
      layers = layers;
      annotations = [];
    }

    abbrev pub described : String → String → List ℕ → List ℕ → Descriptor
    described media_type artifact_type bytes payload = record {
      media_type = media_type;
      digest = mf.digest_of bytes;
      size = length bytes;
      artifact_type = artifact_type;
      annotations = [];
      payload = payload;
    }

    abbrev pub reference_or : String → String
    reference_or digest = if str_eq mf.reference "" then os.encoded digest else mf.reference

    -- What follows the goroutines: the configuration, the description, the manifest and the index. A
    -- failure tells nothing of what was written before it.
    unfoldable pub record_bundle : String → Bundled l → Result Failure (Descriptor × Local l)
    unfolding marshal_to_path
    record_bundle snapref s = do
      config ← mf.marshal_config s.diff_ids
      files ← marshal_to_path os snapref mf.artifact s.local.files
      data_ ← mf.marshal_json mf.artifact
      a ← with_store (
          l.write s.local.db (described mf.config_media_type mf.artifact_config_type config data_)
            (mf.blob_of config))
      b ← mf.marshal_manifest (
          manifest_of (described mf.config_media_type mf.artifact_config_type config data_)
            s.layers)
      c ← with_store (
          l.write a (described mf.manifest_media_type mf.artifact_manifest_type b [])
            (mf.blob_of b))
      d ← with_store (
          l.index c (reference_or (mf.digest_of b))
            (described mf.manifest_media_type mf.artifact_manifest_type b []))
      ok (
        described mf.manifest_media_type mf.artifact_manifest_type b [],
        record s.local { db = d; files = files },
      )

    module _ (snap_path : String) (order : List Job → List Job) where
      unfoldable pub bundle_contents :
          String → String → List Content → Local l → Log → Bundled l × Result Failure Descriptor
      unfolding start_jobs bundle_jobs check_all_completed record_bundle
      bundle_contents diff snapref cs s log =
          let (js, (q, sem)) = start_jobs diff s.files cs new_progress in
          let (t, e) =
            bundle_jobs (order js)
              (record { local = s; heap = q.heap; log = log; layers = []; diff_ids = [] }) in
          elim e [
            | some x ↦ (t, err x)
            | none ↦ elim sem [
              | some x ↦ (t, err x)
              | none ↦ elim (check_all_completed (record q { heap = t.heap })) [
                | false ↦ (t, err not_all_layers)
                | true ↦ elim (record_bundle snapref t) [
                  | err x ↦ (t, err x)
                  | ok (d, u) ↦ (record t { local = u }, ok d)
                ]
              ]
            ]
          ]

      unfoldable pub bundle : Local l → Log → Bundled l × Result Failure Descriptor
      unfolding snapdir snapshot bundle_contents
      bundle s log =
          let still : Bundled l = record {
            local = s;
            heap = [];
            log = log;
            layers = [];
            diff_ids = [];
          } in
          elim (mf.contents) [
            | err x ↦ (still, err x)
            | ok cs ↦ elim (snapdir l os snap_path "diff") [
              | err x ↦ (still, err x)
              | ok diff ↦ elim (snapshot l os snap_path mf.reference s) [
                | err x ↦ (still, err x)
                | ok (snapref, t) ↦ bundle_contents diff snapref cs t log
              ]
            ]
          ]
