-- ===== src/Diff.antt =====
-- cmd/diff/util.go: `CompareManifests`. The order in which Go runs through a map and the sort by
-- media types, which is not stable, are parameters.
pub mod Compared
mod Tests
use apack.Base.{
  ℕ, ◌-◌, String, Bool, true, false, ◌&&◌, Option, none, some, List, [], ◌∷◌, Dict, insert, lookup,
  erase, length, str_eq, ◌==◌, if◌then◌else◌,
}
use apack.LayerDb.Layout.{Descriptor, Manifest}

pub record DiffResult : Type 0 where
  pub same_config : Bool
  pub annotations_match : Bool
  pub shared_layers : List Descriptor
  pub unique_layers_a : List Descriptor
  pub unique_layers_b : List Descriptor

-- The loop over the annotations of the first manifest, with those left to count.
unfoldable pub match_annotations : List (String × String) → Dict String → ℕ → Bool
match_annotations [] b n = n == 0
match_annotations ((k, v) ∷ rest) b n = elim (lookup k b) [
  | none ↦ false
  | some w ↦ let more = match_annotations rest b (n - 1) in if str_eq w v then more else false
]

unfoldable pub annotations_equal : Dict String → Dict String → Bool
unfolding match_annotations
annotations_equal a b = if length a == length b then match_annotations a b (length a) else false

unfoldable pub layer_map : List Descriptor → Dict Descriptor → Dict Descriptor
layer_map [] m = m
layer_map (d ∷ ds) m = layer_map ds (insert d.digest d m)

-- What the loop over the second manifest's layers finds: the shared ones, its own, and what is left
-- of the map.
pub record Found : Type 0 where
  pub shared : List Descriptor
  pub own : List Descriptor
  pub left : Dict Descriptor

unfoldable pub find_layers : List Descriptor → Dict Descriptor → Found
find_layers [] m = record { shared = []; own = []; left = m }
find_layers (d ∷ ds) m = elim (lookup d.digest m) [
  | some _ ↦ let f = find_layers ds (erase d.digest m) in record f { shared = d ∷ f.shared }
  | none ↦ let f = find_layers ds m in record f { own = d ∷ f.own }
]

module _ (sort : List Descriptor → List Descriptor)
    (values : Dict Descriptor → List Descriptor) where
  unfoldable pub compare_manifests : Manifest → Manifest → DiffResult
  unfolding annotations_equal layer_map find_layers
  compare_manifests a b =
      let f = find_layers b.layers (layer_map a.layers []) in
      record {
        same_config = str_eq a.config.digest b.config.digest;
        annotations_match = annotations_equal a.annotations b.annotations;
        shared_layers = sort f.shared;
        unique_layers_a = sort (values f.left);
        unique_layers_b = sort f.own;
      }
