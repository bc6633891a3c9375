-- ===== src/Diff/Tests.antt =====
-- A comparison in which the second manifest has a shared layer twice.
use apack.Base.{◌≡◌, refl, Bool, true, false, List, [], ◌∷◌, Dict, any_of, map, arith}
use apack.LayerDb.Layout.{Descriptor, Manifest}
use apack.LayerDb.Tests.Sample.{layer_desc, manifest_of}
use apack.Diff.{DiffResult, compare_manifests}
use apack.Diff.Compared.{has, compare_manifests-has}

abbrev unsorted : List Descriptor → List Descriptor
unsorted ds = ds

abbrev values : Dict Descriptor → List Descriptor
values m = map (λ e. e.1) m

any_of-values :
    (q : Descriptor → Bool) (m : Dict Descriptor) → any_of q (values m) ≡ any_of (λ e. q e.1) m
any_of-values q [] = refl
any_of-values q ((k, v) ∷ m) = ground (arith, any_of-values q m)

abbrev one : Manifest
one = manifest_of (layer_desc "l1" ∷ layer_desc "l2" ∷ [])

abbrev two : Manifest
two = manifest_of (layer_desc "l2" ∷ layer_desc "l2" ∷ [])

abbrev result : DiffResult
result = compare_manifests unsorted values one two

compare_manifests-has_example :
    (has "l2" result.shared_layers ≡ true)
    × (has "l2" result.unique_layers_a ≡ false)
    × (has "l2" result.unique_layers_b ≡ true)
compare_manifests-has_example =
    compare_manifests-has unsorted values (λ q ds. refl) any_of-values one two "l2"
