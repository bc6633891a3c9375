-- ===== src/Spec/Kinds.antt =====
-- The kind of a file by its name: `determineFileType` and the suffix lists of internal/spec/gen.go.
use Prim.Native.String.{len, slice}
use apack.Base.{◌-◌, String, Bool, ◌&&◌, List, [], ◌∷◌, leb, str_eq, if◌then◌else◌, any_of}

pub data FileType : Type 0 where
  weight dataset code docs config unknown : FileType

abbrev pub weights_suffixes : List String
weights_suffixes =
    ".safetensors" ∷ ".pkl" ∷ ".joblib" ∷ ".bin" ∷ ".pth" ∷ ".pt" ∷ ".mar" ∷ ".pt2" ∷ ".ptl" ∷ ".pb"
    ∷ ".ckpt" ∷ ".tflite" ∷ ".tfrecords" ∷ ".npy" ∷ ".npz" ∷ ".keras" ∷ ".h5" ∷ ".caffemodel"
    ∷ ".pmml" ∷ ".coreml" ∷ ".gguf" ∷ ".ggml" ∷ ".ggmf" ∷ ".llamafile" ∷ ".onnx" ∷ []

abbrev pub docs_suffixes : List String
docs_suffixes = ".md" ∷ ".adoc" ∷ ".html" ∷ ".pdf" ∷ []

abbrev pub config_suffixes : List String
config_suffixes = ".json" ∷ ".yaml" ∷ ".xml" ∷ ".txt" ∷ "params" ∷ []

abbrev pub dataset_suffixes : List String
dataset_suffixes = ".tar" ∷ ".zip" ∷ ".parquet" ∷ ".csv" ∷ []

-- `strings.HasSuffix`
abbrev pub has_suffix : String → String → Bool
has_suffix s t = leb (len t) (len s) && str_eq (slice s (len s - len t) (len s)) t

abbrev pub any_suffix : String → List String → Bool
any_suffix query suffixes = any_of (λ t. has_suffix query t) suffixes

unfoldable pub determine_file_type : String → FileType
determine_file_type filename =
    if any_suffix filename weights_suffixes
    then weight
    else if any_suffix filename config_suffixes
    then config
    else if any_suffix filename docs_suffixes
    then docs
    else if any_suffix filename dataset_suffixes
    then dataset
    else unknown

abbrev pub default_artifact_names : List String
default_artifact_names = "Apackfile" ∷ "apackfile" ∷ ".apackfile" ∷ []

unfoldable pub is_default_artifact_name : String → Bool
is_default_artifact_name filename = any_of (λ name. str_eq name filename) default_artifact_names
