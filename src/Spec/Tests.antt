-- ===== src/Spec/Tests.antt =====
-- The theorems about the generation of an artifact applied to a directory with a model, a readme
-- and three subdirectories.
use apack.Base.{refl, String, ◌≡◌, true, ◌&&◌, ◌||◌, some, [], ◌∷◌, all_of}
use apack.Spec.Types.{
  Artifact, File, Directory, directory, no_more, also, path_of, files_of, subdirs_of,
}
use apack.Spec.Kinds.{weight, config, determine_file_type, is_default_artifact_name}
use apack.Spec.Gen.{Tools, gen}
use apack.Spec.Gen.Listed.{all_dirs, no_dirs, covered}
use apack.Spec.Gen.Covers.{gen_files, gen_dirs}

abbrev tools : Tools
tools = record { to_lower = λ s. s; read_file = λ _. some (1 ∷ []); scan = λ _. "MIT" ∷ [] }

abbrev file : String → String → File
file name path = record { id = ""; name = name; path = path; size = 1 }

abbrev mixed_dir : Directory
mixed_dir =
    directory "weights" "weights" (file "a.bin" "weights/a.bin" ∷ file "b.csv" "weights/b.csv" ∷ [])
      no_more

-- weights beside a subdirectory
abbrev nested_dir : Directory
nested_dir =
    directory "deep" "deep" (file "c.gguf" "deep/c.gguf" ∷ [])
      (also (directory "more" "deep/more" [] no_more) no_more)

abbrev sample_dir : Directory
sample_dir =
    directory "." "."
      (file "readme.md" "readme.md"
        ∷ file "model.gguf" "model.gguf"
        ∷ file "Apackfile" "Apackfile"
        ∷ [])
      (also mixed_dir (also nested_dir (also (directory "docs" "docs" [] no_more) no_more)))

abbrev blank : Artifact
blank = record {
  oci_version = "";
  pack = record {
    name = "m";
    workspace = "";
    reference = "";
    size = 0;
    digest = "";
    models = [];
    datasets = [];
    codes = [];
    docs = [];
  };
  licenses = [];
}

gen_files_example :
    all_of
      (λ f.
        is_default_artifact_name f.name
        || covered f.name (gen tools sample_dir blank).pack
        || covered f.path (gen tools sample_dir blank).pack)
      (files_of sample_dir)
    ≡ true
gen_files_example = gen_files tools sample_dir blank

gen_dirs_example :
    all_dirs
      (λ x.
        covered (path_of x) (gen tools sample_dir blank).pack
        || no_dirs (subdirs_of x)
          && all_of (λ f. covered f.path (gen tools sample_dir blank).pack) (files_of x))
      (subdirs_of sample_dir)
    ≡ true
gen_dirs_example = gen_dirs tools sample_dir blank

determine_file_type_weight : determine_file_type "a/model.gguf" ≡ weight
unfolding determine_file_type
determine_file_type_weight = refl

determine_file_type_config : determine_file_type "params" ≡ config
unfolding determine_file_type
determine_file_type_config = refl
