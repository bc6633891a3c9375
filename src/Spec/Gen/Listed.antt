-- ===== src/Spec/Gen/Listed.antt =====
-- What it means that a path is in an artifact, or will be.
use apack.Base.{
  String, ◌≡◌, refl, Bool, true, false, ◌&&◌, ◌||◌, List, [], ◌∷◌, map, arith, str_eq, any_of,
  all_of,
}
use apack.Spec.Types.{Package, File, Directory, Directories, no_more, also}
use apack.Spec.Gen.{Scan}

pub any_of-map {ℓ κ} :
    {A : Type ℓ} {B : Type κ} (p : B → Bool) (f : A → B) (xs : List A)
    → any_of p (map f xs) ≡ any_of (λ x. p (f x)) xs
any_of-map p f [] = refl
any_of-map p f (x ∷ xs) = rw (any_of-map p f xs)

-- The path is that of an item of some section.
abbrev pub listed : String → Package → Bool
listed q p =
    any_of (λ m. str_eq m.path q) p.models
    || any_of (λ d. str_eq d.path q) p.datasets
    || any_of (λ c. str_eq c.path q) p.codes
    || any_of (λ d. str_eq d.path q) p.docs

abbrev pub has_file : String → List File → Bool
has_file q fs = any_of (λ f. str_eq f.path q) fs

-- What will be listed, or covered by the section for everything.
abbrev pub kept : String → Scan → Bool
kept q s =
    listed q s.pack
    || s.catch_all
    || has_file q s.model_files
    || has_file q s.config_files
    || any_of (λ x. str_eq x q) s.unprocessed

pub all_of_imp {ℓ} :
    {A : Type ℓ} (p q : A → Bool) (xs : List A)
    → ((x : A) → p x ≡ true → q x ≡ true)
    → all_of p xs ≡ true
    → all_of q xs ≡ true
all_of_imp p q [] h a = refl
all_of_imp p q (x ∷ xs) h a = ground (arith, a, h x, all_of_imp p q xs h)

abbrev pub no_dirs : Directories → Bool
no_dirs no_more = true
no_dirs (also _ _) = false

abbrev pub all_dirs : (Directory → Bool) → Directories → Bool
all_dirs p no_more = true
all_dirs p (also d ds) = p d && all_dirs p ds

pub all_dirs_imp :
    (p q : Directory → Bool) (ds : Directories)
    → ((x : Directory) → p x ≡ true → q x ≡ true)
    → all_dirs p ds ≡ true
    → all_dirs q ds ≡ true
all_dirs_imp p q no_more h g = refl
all_dirs_imp p q (also x ds) h g = ground (arith, g, h x, all_dirs_imp p q ds h)

-- Listed, or in the section for the whole directory.
abbrev pub covered : String → Package → Bool
covered q p = listed q p || listed "." p
