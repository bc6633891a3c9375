-- ===== src/Repo/Artifacts/Listed.antt =====
-- What the list of artifacts tells of each manifest of the store.
use apack.Base.{ℕ, String, ◌≡◌, List, [], ◌∷◌, map, ok, >>=-eq-ok, Result-cases, inl, inr, arith}
use apack.LayerDb.Layout.{Manifest}
use apack.Spec.Types.{Artifact}
use apack.Repo.Layers.{LayerStore}
use apack.Repo.World.{Local, System, with_store}
use apack.Repo.Artifacts.{total_size, build_artifact, build_all, artifacts}

-- the reference and the size that an artifact shows
abbrev pub shown : Artifact → String × ℕ
shown a = (a.pack.reference, a.pack.size)

abbrev pub listed : Manifest × String → String × ℕ
listed (m, ref) = (ref, total_size m.layers)

module _ (l : LayerStore) (os : System) where
  build_artifact-shown :
      (ref : String) (m : Manifest) (s : Local l) (a : Artifact)
      → build_artifact l os ref m s ≡ ok a
      → shown a ≡ listed (m, ref)
  unfolding build_artifact
  build_artifact-shown ref m s a h =
      let (b, _, h1) = >>=-eq-ok (os.unmarshal_json m.config.payload) _ h in
      let (found, _, h2) = >>=-eq-ok (with_store (l.manifest s.db ref)) _ h1 in ground (arith, h2)

  build_all-shown :
      (ms : List (Manifest × String)) (s : Local l) (out : List Artifact)
      → build_all l os ms s ≡ ok out
      → map shown out ≡ map listed ms
  unfolding build_all
  build_all-shown [] s out h = ground (arith, h)
  build_all-shown ((m, ref) ∷ ms) s out h =
      let (a, p, h1) = >>=-eq-ok (build_artifact l os ref m s) _ h in
      let (rest, q, h2) = >>=-eq-ok (build_all l os ms s) _ h1 in
      ground (arith, h2, build_artifact-shown ref m s a p, build_all-shown ms s rest q)

  -- The list of artifacts has the references of the store's manifests, in their order, each
  -- with the sum of its layers' sizes.
  pub artifacts-shown :
      (s : Local l) (out : List Artifact)
      → artifacts l os "" s ≡ ok out
      → (ms : List (Manifest × String)) × (l.manifests s.db ≡ ok ms)
        × (map shown out ≡ map listed ms)
  unfolding artifacts
  artifacts-shown s out h = elim (Result-cases (l.manifests s.db)) [
    | inr (x, p) ↦ absurd (ground (arith, h, p))
    | inl (ms, p) ↦ (ms, p, build_all-shown ms s out (ground (arith, h, p)))
  ]
