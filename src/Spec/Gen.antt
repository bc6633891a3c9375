-- ===== src/Spec/Gen.antt =====
-- `Gen` and `addDirToArtifact` of internal/spec/gen.go: which files of a directory go into which
-- section of the artifact.
pub mod Listed
mod Files
pub mod Overall
mod Dirs
mod Sections
pub mod Covers
use text.Mathlib.Text
use apack.Base.{
  ℕ, String, Bool, true, false, ◌&&◌, ◌||◌, not, Option, none, some, List, [], ◌∷◌, ◌++◌, map, ltb,
  str_eq, length, ◌==◌, if◌then◌else◌, any_of,
}
use apack.Spec.Types.{
  Model, Code, DataSet, Doc, Package, Artifact, File, Directory, Directories, no_more, also,
  directory, name_of, path_of, files_of, subdirs_of, model_of, dataset_of, doc_of, path_code,
  path_dataset, path_doc,
}
use apack.Spec.Kinds.{
  FileType, weight, dataset, code, docs, config, unknown, determine_file_type,
  is_default_artifact_name,
}

-- `strings.ToLower`, `os.ReadFile` and `licensecheck.Scan`, the last with the IDs of its matches.
pub record Tools : Type 0 where
  pub to_lower : String → String
  pub read_file : String → Option (List ℕ)
  pub scan : List ℕ → List String

-- `none` for each of its three errors
unfoldable pub detect_license : Tools → String → Option String
detect_license tools path = elim (tools.read_file path) [
  | none ↦ none
  | some text ↦ elim (tools.scan text) [
    | [] ↦ none
    | id ∷ others ↦ elim others [ [] ↦ some id | _ ∷ _ ↦ none ]
  ]
]

-- What the loops of `Gen` keep.
pub record Scan : Type 0 where
  pub pack : Package
  pub catch_all : Bool
  pub model_files : List File
  pub config_files : List File
  pub license : String
  pub unprocessed : List String

abbrev pub add_doc : Doc → Package → Package
add_doc d p = record p { docs = p.docs ++ d ∷ [] }

abbrev pub named_doc : File → String → Doc
named_doc f text = record { id = f.id; path = f.name; size = f.size; description = text }

abbrev detected : Option String → String
detected none = ""
detected (some id) = id

-- the `switch` of the first loop
sort_file : FileType → File → Scan → Scan
sort_file weight f s = record s { model_files = s.model_files ++ f ∷ [] }
sort_file config f s = record s { config_files = s.config_files ++ f ∷ [] }
sort_file docs f s = record s { pack = add_doc (doc_of f) s.pack }
sort_file dataset f s = record s {
  pack = record s.pack { datasets = s.pack.datasets ++ dataset_of f ∷ [] };
}
sort_file code f s = record s { catch_all = true }
sort_file unknown f s = record s { catch_all = true }

unfoldable pub scan_file : Tools → File → Scan → Scan
unfolding sort_file
scan_file tools f s =
    if is_default_artifact_name f.name
    then s
    else if Text.starts_with (tools.to_lower f.name) "readme"
    then record s { pack = add_doc (named_doc f "Readme file") s.pack }
    else if Text.starts_with (tools.to_lower f.name) "license"
    then record s {
      pack = add_doc (named_doc f "License file") s.pack;
      license = detected (detect_license tools f.path);
    }
    else sort_file (determine_file_type f.path) f s

unfoldable pub scan_files : Tools → List File → Scan → Scan
scan_files tools [] s = s
scan_files tools (f ∷ fs) s = scan_files tools fs (scan_file tools f s)

-- The array of `addDirToArtifact`: the paths in a directory by their kind, where a subdirectory is
-- of unknown kind.
abbrev pub same_kind : FileType → FileType → Bool
same_kind weight weight = true
same_kind dataset dataset = true
same_kind code code = true
same_kind docs docs = true
same_kind config config = true
same_kind unknown unknown = true
same_kind _ _ = false

subdir_paths : Directories → List String
subdir_paths no_more = []
subdir_paths (also d ds) = path_of d ∷ subdir_paths ds

unfoldable pub files_of_kind : FileType → List File → List File
files_of_kind t [] = []
files_of_kind t (f ∷ fs) =
    let rest = files_of_kind t fs in
    if same_kind (determine_file_type f.name) t then f ∷ rest else rest

unfoldable pub directory_contents : Directory → FileType → List String
unfolding subdir_paths
directory_contents d t =
    (if same_kind t unknown then subdir_paths (subdirs_of d) else [])
    ++ map (λ f. f.path) (files_of_kind t (files_of d))

abbrev pub is_empty {ℓ} : {A : Type ℓ} → List A → Bool
is_empty [] = true
is_empty (_ ∷ _) = false

-- The loop over that array: the kind found last, and whether a kind was found before it.
unfoldable pub overall :
    (FileType → List String) → List FileType → FileType → Bool → FileType × Bool
overall contents [] kind mixed = (kind, mixed)
overall contents (t ∷ ts) kind mixed =
    let next = overall contents ts t (mixed || not (same_kind kind unknown)) in
    let skip = overall contents ts kind mixed in
    if not (is_empty (contents t)) && not (same_kind t config) then next else skip

abbrev pub all_kinds : List FileType
all_kinds = weight ∷ dataset ∷ code ∷ docs ∷ config ∷ unknown ∷ []

-- The artifact's package, the model files, and whether an error was returned with them.
add_by_kind : FileType × Bool → Package → Directory → Package × List File × Bool
add_by_kind (_, true) p d = (p, files_of_kind weight (files_of d), true)
add_by_kind (weight, false) p d =
    (p, files_of_kind weight (files_of d) ++ files_of_kind config (files_of d), false)
add_by_kind (dataset, false) p d = (
  record p { datasets = p.datasets ++ path_dataset (path_of d) ∷ [] },
  files_of_kind weight (files_of d),
  false,
)
add_by_kind (docs, false) p d =
    (add_doc (path_doc (path_of d)) p, files_of_kind weight (files_of d), false)
add_by_kind (_, false) p d = (p, files_of_kind weight (files_of d), true)

abbrev code_names : List String
code_names = "src" ∷ "pkg" ∷ "lib" ∷ "build" ∷ []

unfoldable pub add_dir_to_artifact : Package → Directory → Package × List File × Bool
unfolding add_by_kind
add_dir_to_artifact p d =
    if str_eq (name_of d) "docs"
    then (add_doc (path_doc (path_of d)) p, [], false)
    else if any_of (λ name. str_eq name (name_of d)) code_names
    then (record p { codes = p.codes ++ path_code (path_of d) ∷ [] }, [], false)
    else add_by_kind (overall (directory_contents d) all_kinds unknown false) p d

unfoldable pub scan_dir : Directory → Scan → Scan
scan_dir d s =
    let (p, models, failed) = add_dir_to_artifact s.pack d in
    record s {
      pack = p;
      model_files = s.model_files ++ models;
      unprocessed = if failed then s.unprocessed ++ path_of d ∷ [] else s.unprocessed;
    }

unfoldable pub scan_dirs : Directories → Scan → Scan
scan_dirs no_more s = s
scan_dirs (also d ds) s = scan_dirs ds (scan_dir d s)

-- The config files are parts of the model, or datasets where there is none.
unfoldable pub add_models : Scan → Package
add_models s =
    let p = s.pack in
    if not (is_empty s.model_files)
    then record p {
      models = (p.models ++ map model_of s.model_files) ++ map model_of s.config_files;
    }
    else record p { datasets = p.datasets ++ map dataset_of s.config_files }

unfoldable pub add_codes : Scan → Package → Package
add_codes s p =
    if s.catch_all || ltb 5 (length s.unprocessed)
    then record p { codes = p.codes ++ path_code "." ∷ [] }
    else record p { codes = p.codes ++ map path_code s.unprocessed }

-- `Models[0].License = license`, and so for the others
abbrev license_model : String → List Model → List Model
license_model l [] = []
license_model l (m ∷ ms) = record m { license = l } ∷ ms

abbrev license_dataset : String → List DataSet → List DataSet
license_dataset l [] = []
license_dataset l (d ∷ ds) = record d { license = l } ∷ ds

abbrev license_code : String → List Code → List Code
license_code l [] = []
license_code l (c ∷ cs) = record c { license = l } ∷ cs

-- The license goes to the only model, the only dataset or the only code, and else to the artifact.
unfoldable pub add_license : String → Artifact → Artifact
add_license l a =
    let p = a.pack in
    if length p.models == 1 && not (str_eq l "")
    then record a { pack = record p { models = license_model l p.models } }
    else if length p.datasets == 1 && not (str_eq l "")
    then record a { pack = record p { datasets = license_dataset l p.datasets } }
    else if length p.codes == 1 && not (str_eq l "")
    then record a { pack = record p { codes = license_code l p.codes } }
    else if not (str_eq l "")
    then record a { licenses = a.licenses ++ l ∷ [] }
    else a

unfoldable pub gen : Tools → Directory → Artifact → Artifact
gen tools d a =
    let begin : Scan = record {
      pack = a.pack;
      catch_all = false;
      model_files = [];
      config_files = [];
      license = "";
      unprocessed = [];
    } in
    let s = scan_dirs (subdirs_of d) (scan_files tools (files_of d) begin) in
    add_license s.license
      (record { oci_version = "1.0.1"; pack = add_codes s (add_models s); licenses = a.licenses })
