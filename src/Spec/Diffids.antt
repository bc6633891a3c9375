-- ===== src/Spec/Diffids.antt =====
-- `FindDiffid` of internal/spec/spec.go: the identifier of the file that an artifact has at a path.
use apack.Base.{String, Option, none, some, List, [], ◌∷◌, str_eq, if◌then◌else◌}
use apack.Spec.Types.{Artifact}

abbrev pub missing : String
missing = "nil"

abbrev first_id : {A : Type 0} → (A → String) → (A → String) → String → List A → Option String
first_id path id filename [] = none
first_id path id filename (x ∷ xs) =
    if str_eq (path x) filename then some (id x) else first_id path id filename xs

-- Models come before datasets, and these before documents; code is not looked through.
unfoldable pub find_diffid : String → Artifact → String
find_diffid filename a = elim (first_id (λ x. x.path) (λ x. x.id) filename a.pack.models) [
  | some id ↦ id
  | none ↦ elim (first_id (λ x. x.path) (λ x. x.id) filename a.pack.datasets) [
    | some id ↦ id
    | none ↦ elim (first_id (λ x. x.path) (λ x. x.id) filename a.pack.docs) [
      | some id ↦ id
      | none ↦ missing
    ]
  ]
]
