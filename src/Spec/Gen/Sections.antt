-- ===== src/Spec/Gen/Sections.antt =====
-- The end of `Gen`: what the loops kept becomes the sections.
use apack.Base.{
  String, ◌≡◌, refl, Bool, true, false, ◌||◌, List, [], ◌∷◌, ◌++◌, map, arith, str_eq, str_refl,
  any_of, any_of-append, Bool-cases, inl, inr,
}
use apack.Spec.Types.{Model, Code, DataSet, Package, Artifact, model_of, dataset_of, path_code}
use apack.Spec.Gen.{
  Scan, add_models, add_codes, license_model, license_dataset, license_code, add_license, is_empty,
}
use apack.Spec.Gen.Listed.{any_of-map, listed, kept, covered}

any_of-is_empty {ℓ} :
    {A : Type ℓ} (p : A → Bool) (xs : List A) → is_empty xs ≡ true → any_of p xs ≡ false
any_of-is_empty p [] h = refl
any_of-is_empty p (x ∷ xs) h = absurd (ground (arith, h))

pub add_models-kept :
    (s : Scan) (q : String)
    → kept q s ≡ true
    → (listed q (add_models s) || s.catch_all || any_of (λ x. str_eq x q) s.unprocessed) ≡ true
unfolding add_models
add_models-kept s q h = elim (Bool-cases (is_empty s.model_files)) [
  | inl none_there ↦
      rw (none_there, add_models)
        (ground (
          arith,
          h,
          any_of-is_empty (λ f. str_eq f.path q) s.model_files none_there,
          any_of-append (λ m. str_eq m.path q) s.pack.datasets (map dataset_of s.config_files),
          any_of-map (λ m. str_eq m.path q) dataset_of s.config_files,
        ))
  | inr some_there ↦
      rw (some_there, add_models)
        (ground (
          arith,
          h,
          any_of-append (λ m. str_eq m.path q) (s.pack.models ++ map model_of s.model_files)
              (map model_of s.config_files),
          any_of-append (λ m. str_eq m.path q) s.pack.models (map model_of s.model_files),
          any_of-map (λ m. str_eq m.path q) model_of s.model_files,
          any_of-map (λ m. str_eq m.path q) model_of s.config_files,
        ))
]

pub add_codes-covered :
    (s : Scan) (p : Package) (q : String)
    → (listed q p || s.catch_all || any_of (λ x. str_eq x q) s.unprocessed) ≡ true
    → covered q (add_codes s p) ≡ true
unfolding add_codes
add_codes-covered s p q h = ground (
  arith,
  h,
  any_of-append (λ c. str_eq c.path q) p.codes (path_code "." ∷ []),
  any_of-append (λ c. str_eq c.path ".") p.codes (path_code "." ∷ []),
  any_of-append (λ c. str_eq c.path q) p.codes (map path_code s.unprocessed),
  any_of-map (λ c. str_eq c.path q) path_code s.unprocessed,
  str_refl ".",
)

license_model-listed :
    (l q : String) (ms : List Model)
    → any_of (λ m. str_eq m.path q) (license_model l ms) ≡ any_of (λ m. str_eq m.path q) ms
license_model-listed l q [] = refl
license_model-listed l q (m ∷ ms) = refl

license_dataset-listed :
    (l q : String) (ds : List DataSet)
    → any_of (λ d. str_eq d.path q) (license_dataset l ds) ≡ any_of (λ d. str_eq d.path q) ds
license_dataset-listed l q [] = refl
license_dataset-listed l q (d ∷ ds) = refl

license_code-listed :
    (l q : String) (cs : List Code)
    → any_of (λ c. str_eq c.path q) (license_code l cs) ≡ any_of (λ c. str_eq c.path q) cs
license_code-listed l q [] = refl
license_code-listed l q (c ∷ cs) = refl

pub add_license-listed :
    (l : String) (a : Artifact) (q : String) → listed q (add_license l a).pack ≡ listed q a.pack
unfolding add_license
add_license-listed l a q = ground (
  arith,
  license_model-listed l q a.pack.models,
  license_dataset-listed l q a.pack.datasets,
  license_code-listed l q a.pack.codes,
)
