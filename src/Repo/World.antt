-- ===== src/Repo/World.antt =====
-- What internal/repo/local.go works on and with: the state of the `local` repository, the remote
-- repository, the file system, and the two encodings of an artifact. The code of the three last is
-- not of this repository, or is generated, and is a parameter.
use apack.Base.{◌>>=◌, insert, ℕ, String, Bool, Option, none, some, List, Result, ok, err, Dict}
use apack.LayerDb.Layout.{Descriptor}
use apack.LayerDb.Engine.{Error}
use apack.Spec.Types.{Artifact}
use apack.Repo.Layers.{LayerStore}

-- `fault n` is an error of a library, handed on as it is.
pub data Failure : Type 0 where
  fault : ℕ → Failure
  of_store : Error → Failure
  unsupported_manifest : String → Failure
  unsupported_config : String → Failure
  index_out_of_range : Failure
  not_all_layers : Failure
  no_diffid : String → Failure
  no_file : String → Failure
  no_artifact : String → Failure
  nil_artifact : Failure
  empty_workspace : Failure

-- `local`: the store of layers, the files by their paths, and the texts of the link files. The
-- directory `snap_path` is a parameter.
pub record Local (l : LayerStore) : Type 0 where
  pub db : l.State
  pub files : Dict (List ℕ)
  pub links : Dict String

-- What the tar reader makes of a layer's content: the sizes of the reads before and after the first
-- header, the header's error, the bytes of the entry, and the error that ended them.
pub record Unpacked : Type 0 where
  pub header_reads : List ℕ
  pub header : Option Failure
  pub entry_reads : List ℕ
  pub bytes : List ℕ
  pub end : Option Failure

-- `Content` is what `Fetch` returns, and `drain` what reading it to its end gives.
pub record Remote (l : LayerStore) : Type 1 where
  pub Content : Type 0
  pub resolve : String → Result Failure Descriptor
  pub fetch_all : Descriptor → Result Failure l.Blob
  pub fetch : Descriptor → Result Failure Content
  pub drain : Content → Result Failure l.Blob
  pub unpack : Descriptor → String → Content → Result Failure Unpacked
  pub acquire : Descriptor → Option Failure
  pub is_manifest_type : String → Bool
  pub is_config_type : String → Bool
  pub diff_ids : l.Blob → Result Failure (List String)

-- The operations of the file system say how they fail.
pub record System : Type 0 where
  pub join : String → String → String
  pub dir_of : String → String
  pub make_dir : String → Option Failure
  pub open_file : String → Option Failure
  -- the error of a link file's status and of reading it, other than that it is not there
  pub link_error : String → Option Failure
  pub encoded : String → String
  pub marshal_yaml : Artifact → Result Failure (List ℕ)
  pub unmarshal_yaml : List ℕ → Result Failure Artifact
  pub unmarshal_json : List ℕ → Result Failure Artifact

abbrev pub with_store {ℓ} : {A : Type ℓ} → Result Error A → Result Failure A
with_store (ok a) = ok a
with_store (err x) = err (of_store x)

-- an operation that only may fail
abbrev pub unless : Option Failure → Result Failure (Unit {0})
unless none = ok tt
unless (some x) = err x

-- `AnnotationFilepath` of the model specification
abbrev pub file_path : String
file_path = "org.cncf.model.filepath"

abbrev pub artifact_name : String
artifact_name = "Apackfile"

-- `MarshalYAMLToPath` of internal/spec/spec.go
unfoldable pub marshal_to_path :
    System → String → Artifact → Dict (List ℕ) → Result Failure (Dict (List ℕ))
marshal_to_path os path a files = do
  _ ← unless (os.make_dir path)
  b ← os.marshal_yaml a
  _ ← unless (os.open_file (os.join path artifact_name))
  ok (insert (os.join path artifact_name) b files)
