-- ===== src/Repo/Artifacts.antt =====
-- `Artifacts`, `Artifact`, `artifacts`, `buildAritifact`, `Config` and `Remove` of
-- internal/repo/local.go. The sum of the layers' sizes is taken to fit 63 bits.
pub mod Listed
use apack.Base.{
  ℕ, ◌+◌, String, Bool, true, false, Option, none, some, List, [], ◌∷◌, Result, ok, err, ◌>>=◌,
  str_eq, if◌then◌else◌,
}
use apack.LayerDb.Layout.{Descriptor, Manifest}
use apack.Spec.Types.{Artifact}
use apack.Repo.Layers.{LayerStore}
use apack.Repo.World.{Failure, of_store, no_artifact, Local, System, with_store}

abbrev pub total_size : List Descriptor → ℕ
total_size [] = 0
total_size (d ∷ ds) = d.size + total_size ds

module _ (l : LayerStore) (os : System) where
  unfoldable pub build_artifact : String → Manifest → Local l → Result Failure Artifact
  build_artifact ref m s = do
    a ← os.unmarshal_json m.config.payload
    found ← with_store (l.manifest s.db ref)
    ok (record a {
      pack = record a.pack {
        size = total_size m.layers;
        digest = os.encoded found.1.digest;
        reference = ref;
      };
    })

  unfoldable pub build_all : List (Manifest × String) → Local l → Result Failure (List Artifact)
  unfolding build_artifact
  build_all [] s = ok []
  build_all ((m, ref) ∷ ms) s = do a ← build_artifact ref m s; as_ ← build_all ms s; ok (a ∷ as_)

  unfoldable pub artifacts : String → Local l → Result Failure (List Artifact)
  unfolding build_artifact build_all
  artifacts reference s =
      if str_eq reference ""
      then (with_store (l.manifests s.db) >>= λ ms. build_all ms s)
      else (with_store (l.manifest s.db reference) >>= λ found.
          build_artifact reference found.0 s >>= λ a. ok (a ∷ []))

  unfoldable pub artifact : String → Local l → Result Failure Artifact
  unfolding artifacts
  artifact reference s = artifacts reference s >>= λ found.
      elim found as (λ _. Result Failure Artifact) [
        | [] ↦ err (no_artifact reference)
        | a ∷ _ ↦ ok a
      ]

  -- `Config`, with the reader of its encoding
  unfoldable pub config :
      {A : Type 0} → (Option l.Blob → Result Failure A) → Descriptor → Local l → Result Failure A
  config parse d s = with_store (l.read s.db d) >>= parse
