-- ===== src/Spec/Gen/Overall.antt =====
-- The kind that `addDirToArtifact` finds for a directory from the kinds of its files.
use apack.Base.{
  ℕ, ◌+◌, String, ◌≡◌, refl, sym, ◌∙◌, Bool, true, false, ◌||◌, List, [], ◌∷◌, ◌++◌, map, arith,
  ltb, str_eq, str_refl, if◌then◌else◌, all_of, any_of-append,
}
use apack.Spec.Types.{File, Directory, Directories, no_more, also, files_of, subdirs_of}
use apack.Spec.Kinds.{FileType, weight, dataset, code, docs, config, unknown, determine_file_type}
use apack.Spec.Gen.{
  same_kind, files_of_kind, subdir_paths, directory_contents, overall, all_kinds, is_empty,
}
use apack.Spec.Gen.Listed.{has_file, all_of_imp, no_dirs}

abbrev pub parts : List File → List File
parts fs = files_of_kind weight fs ++ files_of_kind config fs

has_file-parts :
    (f : File) (fs : List File) (q : String)
    → has_file q (parts fs) ≡ true
    → has_file q (parts (f ∷ fs)) ≡ true
unfolding files_of_kind
has_file-parts f fs q h = ground (
  arith,
  h,
  any_of-append (λ g. str_eq g.path q) (files_of_kind weight fs) (files_of_kind config fs),
  any_of-append (λ g. str_eq g.path q) (f ∷ files_of_kind weight fs) (files_of_kind config fs),
  any_of-append (λ g. str_eq g.path q) (files_of_kind weight fs) (f ∷ files_of_kind config fs),
  any_of-append (λ g. str_eq g.path q) (f ∷ files_of_kind weight fs) (f ∷ files_of_kind config fs),
)

unfoldable pub is_part : File → Bool
is_part f =
    same_kind (determine_file_type f.name) weight || same_kind (determine_file_type f.name) config

has_file_self :
    (f : File) (fs : List File) → is_part f ≡ true → has_file f.path (parts (f ∷ fs)) ≡ true
unfolding files_of_kind is_part
has_file_self f fs h = ground (
  arith,
  h,
  str_refl f.path,
  any_of-append (λ g. str_eq g.path f.path) (f ∷ files_of_kind weight fs) (files_of_kind config fs),
  any_of-append (λ g. str_eq g.path f.path) (files_of_kind weight fs) (f ∷ files_of_kind config fs),
  any_of-append (λ g. str_eq g.path f.path) (f ∷ files_of_kind weight fs)
      (f ∷ files_of_kind config fs),
)

pub all_parts :
    (fs : List File) → all_of is_part fs ≡ true → all_of (λ f. has_file f.path (parts fs)) fs ≡ true
all_parts [] h = refl
all_parts (f ∷ fs) h =
    let rest =
      all_of_imp (λ g. has_file g.path (parts fs)) (λ g. has_file g.path (parts (f ∷ fs))) fs
        (λ g. has_file-parts f fs g.path) (all_parts fs (ground (arith, h))) in
    ground (arith, h, rest, has_file_self f fs)

-- no path of that kind in the directory
abbrev none_of : FileType → List File → Bool
none_of t fs = is_empty (files_of_kind t fs)

none_of-is_part :
    (fs : List File)
    → none_of dataset fs ≡ true
    → none_of code fs ≡ true
    → none_of docs fs ≡ true
    → none_of unknown fs ≡ true
    → all_of is_part fs ≡ true
unfolding files_of_kind is_part
none_of-is_part [] a b c d = refl
none_of-is_part (f ∷ fs) a b c d = ground (arith, none_of-is_part fs)

overall-weight :
    (contents : FileType → List String)
    → overall contents all_kinds unknown false ≡ (weight, false)
    → (is_empty (contents dataset) ≡ true)
      × (is_empty (contents code) ≡ true)
      × (is_empty (contents docs) ≡ true)
      × (is_empty (contents unknown) ≡ true)
unfolding overall
overall-weight contents h = ground (arith, h)

is_empty-map {ℓ κ} :
    {A : Type ℓ} {B : Type κ} (f : A → B) (xs : List A) → is_empty (map f xs) ≡ is_empty xs
is_empty-map f [] = refl
is_empty-map f (x ∷ xs) = refl

is_empty-append {ℓ} :
    {A : Type ℓ} (xs ys : List A) → is_empty (xs ++ ys) ≡ true → is_empty ys ≡ true
is_empty-append [] ys h = h
is_empty-append (x ∷ xs) ys h = absurd (ground (arith, h))

none_of-directory_contents :
    (d : Directory) (t : FileType)
    → is_empty (directory_contents d t) ≡ true
    → none_of t (files_of d) ≡ true
unfolding directory_contents
none_of-directory_contents d t h =
    sym (is_empty-map (λ f. f.path) (files_of_kind t (files_of d)))
    ∙ is_empty-append (if same_kind t unknown then subdir_paths (subdirs_of d) else [])
        (map (λ f. f.path) (files_of_kind t (files_of d))) h

no_dirs-subdir_paths :
    (ds : Directories) (paths : List String)
    → is_empty (subdir_paths ds ++ paths) ≡ true
    → no_dirs ds ≡ true
unfolding subdir_paths
no_dirs-subdir_paths no_more paths h = refl
no_dirs-subdir_paths (also d ds) paths h = absurd (ground (arith, h))

subdirs-directory_contents :
    (d : Directory)
    → is_empty (directory_contents d unknown) ≡ true
    → is_empty
        (subdir_paths (subdirs_of d) ++ map (λ f. f.path) (files_of_kind unknown (files_of d)))
      ≡ true
unfolding directory_contents
subdirs-directory_contents d h = h

pub overall-is_part :
    (d : Directory)
    → overall (directory_contents d) all_kinds unknown false ≡ (weight, false)
    → all_of is_part (files_of d) ≡ true
overall-is_part d h =
    let (a, b, c, u) = overall-weight (directory_contents d) h in
    none_of-is_part (files_of d) (none_of-directory_contents d dataset a)
      (none_of-directory_contents d code b) (none_of-directory_contents d docs c)
      (none_of-directory_contents d unknown u)

-- A directory of weights has no subdirectories.
pub overall-no_dirs :
    (d : Directory)
    → overall (directory_contents d) all_kinds unknown false ≡ (weight, false)
    → no_dirs (subdirs_of d) ≡ true
overall-no_dirs d h =
    let (_, _, _, u) = overall-weight (directory_contents d) h in
    no_dirs-subdir_paths (subdirs_of d) (map (λ f. f.path) (files_of_kind unknown (files_of d)))
      (subdirs-directory_contents d u)

-- how many kinds but config the directory has
abbrev pub kinds : (FileType → List String) → ℕ
kinds contents =
    (if is_empty (contents weight) then 0 else 1)
    + (if is_empty (contents dataset) then 0 else 1)
    + (if is_empty (contents code) then 0 else 1)
    + (if is_empty (contents docs) then 0 else 1)
    + (if is_empty (contents unknown) then 0 else 1)

-- A directory is found to be mixed exactly when it has two kinds of contents or more, its
-- subdirectories being of unknown kind and config files left aside.
pub overall-kinds :
    (contents : FileType → List String)
    → (overall contents all_kinds unknown false).1 ≡ ltb 1 (kinds contents)
unfolding overall
overall-kinds contents = ground arith
