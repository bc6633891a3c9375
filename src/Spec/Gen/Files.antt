-- ===== src/Spec/Gen/Files.antt =====
-- The first loop of `Gen`: no file is lost.
use apack.Base.{
  String, ◌≡◌, refl, Bool, true, ◌||◌, List, [], ◌∷◌, arith, str_eq, str_refl, all_of,
  any_of-append,
}
use apack.Spec.Types.{File, dataset_of, doc_of}
use apack.Spec.Kinds.{
  FileType, weight, dataset, code, docs, config, unknown, determine_file_type,
  is_default_artifact_name,
}
use apack.Spec.Gen.{Tools, Scan, named_doc, sort_file, scan_file, scan_files}
use apack.Spec.Gen.Listed.{kept}

sort_file-kept :
    (t : FileType) (f : File) (q : String) (s : Scan)
    → kept q s ≡ true
    → kept q (sort_file t f s) ≡ true
unfolding sort_file
sort_file-kept weight f q s h =
    ground (arith, h, any_of-append (λ g. str_eq g.path q) s.model_files (f ∷ []))
sort_file-kept config f q s h =
    ground (arith, h, any_of-append (λ g. str_eq g.path q) s.config_files (f ∷ []))
sort_file-kept docs f q s h =
    ground (arith, h, any_of-append (λ g. str_eq g.path q) s.pack.docs (doc_of f ∷ []))
sort_file-kept dataset f q s h =
    ground (arith, h, any_of-append (λ g. str_eq g.path q) s.pack.datasets (dataset_of f ∷ []))
sort_file-kept code f q s h = ground arith
sort_file-kept unknown f q s h = ground arith

sort_file_self : (t : FileType) (f : File) (s : Scan) → kept f.path (sort_file t f s) ≡ true
unfolding sort_file
sort_file_self weight f s =
    ground
      (arith, str_refl f.path, any_of-append (λ g. str_eq g.path f.path) s.model_files (f ∷ []))
sort_file_self config f s =
    ground
      (arith, str_refl f.path, any_of-append (λ g. str_eq g.path f.path) s.config_files (f ∷ []))
sort_file_self docs f s =
    ground (
      arith,
      str_refl f.path,
      any_of-append (λ g. str_eq g.path f.path) s.pack.docs (doc_of f ∷ []),
    )
sort_file_self dataset f s = ground (
  arith,
  str_refl f.path,
  any_of-append (λ g. str_eq g.path f.path) s.pack.datasets (dataset_of f ∷ []),
)
sort_file_self code f s = ground arith
sort_file_self unknown f s = ground arith

module _ (tools : Tools) where
  scan_file-kept :
      (f : File) (q : String) (s : Scan) → kept q s ≡ true → kept q (scan_file tools f s) ≡ true
  unfolding scan_file
  scan_file-kept f q s h = ground (
    arith,
    h,
    any_of-append (λ d. str_eq d.path q) s.pack.docs (named_doc f "Readme file" ∷ []),
    any_of-append (λ d. str_eq d.path q) s.pack.docs (named_doc f "License file" ∷ []),
    sort_file-kept (determine_file_type f.path) f q s h,
  )

  -- a file that the loop took, or that is no part of an artifact
  abbrev pub taken : Scan → File → Bool
  taken s f = is_default_artifact_name f.name || kept f.name s || kept f.path s

  scan_file-taken : (f : File) (s : Scan) → taken (scan_file tools f s) f ≡ true
  unfolding scan_file
  scan_file-taken f s = ground (
    arith,
    str_refl f.name,
    any_of-append (λ d. str_eq d.path f.name) s.pack.docs (named_doc f "Readme file" ∷ []),
    any_of-append (λ d. str_eq d.path f.name) s.pack.docs (named_doc f "License file" ∷ []),
    sort_file_self (determine_file_type f.path) f s,
  )

  scan_files-kept :
      (fs : List File) (q : String) (s : Scan)
      → kept q s ≡ true
      → kept q (scan_files tools fs s) ≡ true
  unfolding scan_files
  scan_files-kept [] q s h = h
  scan_files-kept (f ∷ fs) q s h =
      scan_files-kept fs q (scan_file tools f s) (scan_file-kept f q s h)

  pub scan_files-taken :
      (fs : List File) (s : Scan) → all_of (λ f. taken (scan_files tools fs s) f) fs ≡ true
  unfolding scan_files
  scan_files-taken [] s = refl
  scan_files-taken (f ∷ fs) s = ground (
    arith,
    scan_file-taken f s,
    scan_files-kept fs f.name (scan_file tools f s),
    scan_files-kept fs f.path (scan_file tools f s),
    scan_files-taken fs (scan_file tools f s),
  )
