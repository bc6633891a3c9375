-- ===== src/Spec/Gen/Dirs.antt =====
-- The second loop of `Gen` and `addDirToArtifact`: no subdirectory is lost.
use apack.Base.{
  String, ◌≡◌, refl, Bool, true, false, ◌&&◌, ◌||◌, List, [], ◌∷◌, arith, str_eq, str_refl, all_of,
  any_of-append,
}
use apack.Spec.Types.{
  Package, File, Directory, Directories, no_more, also, path_of, files_of, subdirs_of, path_code,
  path_dataset, path_doc,
}
use apack.Spec.Kinds.{FileType, weight, dataset, code, docs, config, unknown}
use apack.Spec.Gen.{
  Scan, directory_contents, overall, all_kinds, add_by_kind, add_dir_to_artifact, scan_dir,
  scan_dirs,
}
use apack.Spec.Gen.Listed.{listed, has_file, kept, all_of_imp, all_dirs, no_dirs}
use apack.Spec.Gen.Overall.{is_part, all_parts, overall-is_part, overall-no_dirs}

-- The directory has no subdirectories, and its files are among the model files.
abbrev all_in : Directory → List File → Bool
all_in d models = no_dirs (subdirs_of d) && all_of (λ f. has_file f.path models) (files_of d)

add_by_kind-listed :
    (k : FileType × Bool) (p : Package) (d : Directory) (q : String)
    → listed q p ≡ true
    → listed q (add_by_kind k p d).0 ≡ true
unfolding add_by_kind
add_by_kind-listed (weight, false) p d q h = h
add_by_kind-listed (dataset, false) p d q h =
    ground
      (arith, h, any_of-append (λ x. str_eq x.path q) p.datasets (path_dataset (path_of d) ∷ []))
add_by_kind-listed (docs, false) p d q h =
    ground (arith, h, any_of-append (λ x. str_eq x.path q) p.docs (path_doc (path_of d) ∷ []))
add_by_kind-listed (code, false) p d q h = h
add_by_kind-listed (config, false) p d q h = h
add_by_kind-listed (unknown, false) p d q h = h
add_by_kind-listed (_, true) p d q h = h

-- Of the directory the path is listed, or all that it holds is among the model files, or it is left
-- over.
add_by_kind-taken :
    (k : FileType × Bool) (p : Package) (d : Directory)
    → (k ≡ (weight, false) → all_of is_part (files_of d) ≡ true)
    → (k ≡ (weight, false) → no_dirs (subdirs_of d) ≡ true)
    → (listed (path_of d) (add_by_kind k p d).0
        || (add_by_kind k p d).2
        || all_in d (add_by_kind k p d).1)
      ≡ true
unfolding add_by_kind
add_by_kind-taken (weight, false) p d h k = ground (arith, all_parts (files_of d) (h refl), k refl)
add_by_kind-taken (dataset, false) p d h k = ground (
  arith,
  str_refl (path_of d),
  any_of-append (λ x. str_eq x.path (path_of d)) p.datasets (path_dataset (path_of d) ∷ []),
)
add_by_kind-taken (docs, false) p d h k = ground (
  arith,
  str_refl (path_of d),
  any_of-append (λ x. str_eq x.path (path_of d)) p.docs (path_doc (path_of d) ∷ []),
)
add_by_kind-taken (code, false) p d h k = ground arith
add_by_kind-taken (config, false) p d h k = ground arith
add_by_kind-taken (unknown, false) p d h k = ground arith
add_by_kind-taken (_, true) p d h k = ground arith

add_dir_to_artifact-listed :
    (p : Package) (d : Directory) (q : String)
    → listed q p ≡ true
    → listed q (add_dir_to_artifact p d).0 ≡ true
unfolding add_dir_to_artifact
add_dir_to_artifact-listed p d q h = ground (
  arith,
  h,
  any_of-append (λ x. str_eq x.path q) p.docs (path_doc (path_of d) ∷ []),
  any_of-append (λ x. str_eq x.path q) p.codes (path_code (path_of d) ∷ []),
  add_by_kind-listed (overall (directory_contents d) all_kinds unknown false) p d q h,
)

add_dir_to_artifact-taken :
    (p : Package) (d : Directory)
    → (listed (path_of d) (add_dir_to_artifact p d).0
        || (add_dir_to_artifact p d).2
        || all_in d (add_dir_to_artifact p d).1)
      ≡ true
unfolding add_dir_to_artifact
add_dir_to_artifact-taken p d = ground (
  arith,
  str_refl (path_of d),
  any_of-append (λ x. str_eq x.path (path_of d)) p.docs (path_doc (path_of d) ∷ []),
  any_of-append (λ x. str_eq x.path (path_of d)) p.codes (path_code (path_of d) ∷ []),
  add_by_kind-taken (overall (directory_contents d) all_kinds unknown false) p d (overall-is_part d)
      (overall-no_dirs d),
)

scan_dir-kept :
    (d : Directory) (q : String) (s : Scan) → kept q s ≡ true → kept q (scan_dir d s) ≡ true
unfolding scan_dir
scan_dir-kept d q s h = ground (
  arith,
  h,
  add_dir_to_artifact-listed s.pack d q,
  any_of-append (λ g. str_eq g.path q) s.model_files (add_dir_to_artifact s.pack d).1,
  any_of-append (λ x. str_eq x q) s.unprocessed (path_of d ∷ []),
)

-- a subdirectory that is listed itself, or that holds only files and of which each will be
abbrev pub dir_taken : Scan → Directory → Bool
dir_taken s d =
    kept (path_of d) s || no_dirs (subdirs_of d) && all_of (λ f. kept f.path s) (files_of d)

scan_dir-taken : (d : Directory) (s : Scan) → dir_taken (scan_dir d s) d ≡ true
unfolding scan_dir
scan_dir-taken d s =
    let models = (add_dir_to_artifact s.pack d).1 in
    let files =
      all_of_imp (λ f. has_file f.path models) (λ f. kept f.path (scan_dir d s)) (files_of d)
        (λ f h.
          ground (arith, h, any_of-append (λ g. str_eq g.path f.path) s.model_files models)) in
    ground (
      arith,
      add_dir_to_artifact-taken s.pack d,
      files,
      str_refl (path_of d),
      any_of-append (λ x. str_eq x (path_of d)) s.unprocessed (path_of d ∷ []),
    )

pub scan_dirs-kept :
    (ds : Directories) (q : String) (s : Scan) → kept q s ≡ true → kept q (scan_dirs ds s) ≡ true
unfolding scan_dirs
scan_dirs-kept no_more q s h = h
scan_dirs-kept (also d ds) q s h = scan_dirs-kept ds q (scan_dir d s) (scan_dir-kept d q s h)

dir_taken-scan_dirs :
    (ds : Directories) (d : Directory) (s : Scan)
    → dir_taken s d ≡ true
    → dir_taken (scan_dirs ds s) d ≡ true
dir_taken-scan_dirs ds d s h = ground (
  arith,
  h,
  scan_dirs-kept ds (path_of d) s,
  all_of_imp (λ f. kept f.path s) (λ f. kept f.path (scan_dirs ds s)) (files_of d)
      (λ f. scan_dirs-kept ds f.path s),
)

pub scan_dirs-taken :
    (ds : Directories) (s : Scan) → all_dirs (dir_taken (scan_dirs ds s)) ds ≡ true
unfolding scan_dirs
scan_dirs-taken no_more s = refl
scan_dirs-taken (also d ds) s = ground (
  arith,
  dir_taken-scan_dirs ds d (scan_dir d s) (scan_dir-taken d s),
  scan_dirs-taken ds (scan_dir d s),
)
