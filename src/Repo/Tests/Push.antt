-- ===== src/Repo/Tests/Push.antt =====
-- The theorem about a push applied to an artifact with one blob of the store and one file, and an
-- empty registry that keeps the digests that it was given.
use apack.Base.{
  ℕ, String, ◌≡◌, refl, true, any_of, List, [], ◌∷◌, Result, ok, Dict, lookup, insert, str_eq,
  str_refl, Every, arith, none,
}
use apack.LayerDb.Layout.{Descriptor, Manifest, index_file}
use apack.LayerDb.Entries.{tagged, collect, pick}
use apack.LayerDb.Kv
use apack.LayerDb.Store
use apack.LayerDb.Blobs
use apack.LayerDb.Tests.Sample.{manifest_value, index_value}
use apack.Progress.Writers
use apack.Progress.Writers.{Log, add, check_all_completed}
use apack.Spec.Diffids.{find_diffid}
use apack.Repo.World.{Failure, Local}
use apack.Repo.Loop.{schedule, short}
use apack.Repo.Links.{snaplink, snapdir, is_link_file_exist}
use apack.Repo.Push.{
  Registry, IsRegistry, push, push_manifest, push_jobs, push_layer, layer_content, file_content,
}
use apack.Repo.Push.Ran.{push-exists}
use apack.Repo.Tests.Sample.{
  layers, system, empty, empty_index, manager, log, in_order, in_order-IsOrder, manifest,
  pulled_desc,
}

-- what a registry holds: the digests of its blobs, and its references
abbrev Held : Type 0
Held = List String × Dict Descriptor

abbrev registry : Registry layers
registry = record {
  State = Held;
  Content = ℕ;
  exists = λ h d. ok (any_of (str_eq d.digest) h.0);
  push = λ h d v. (4 ∷ [], ok (d.digest ∷ h.0, h.1));
  push_reference = λ h d m r. ok (h.0, insert r d h.1);
  of_blob = λ v. 1;
  of_file = λ t n b. 2;
  acquire = λ d. none;
}

ok-injective : {A : Type 0} {x y : A} → ◌≡◌ {A = Result Failure A} (ok x) (ok y) → x ≡ y
ok-injective h = cc

registry-IsRegistry : IsRegistry layers registry
registry-IsRegistry = record {
  exists-digest = λ s c d h. rw h refl;
  exists-push = λ s t d v h. rw (← ok-injective h) (ground (arith, str_refl d.digest));
  exists-push_other = λ s t c d v h there. rw (← ok-injective h) (ground (arith, there));
  exists-push_reference = λ s t c d m ref h there. rw (← ok-injective h) there;
}

abbrev described : Descriptor
described = tagged "r" pulled_desc

abbrev stocked : Local layers
stocked = record empty {
  db = record {
    bolt =
        (index_file, index_value (record empty_index { manifests = described ∷ [] }))
        ∷ ("blobs/sha256/manifest-0000", manifest_value manifest)
        ∷ [];
    objects = [];
  };
  files = ("snap/r/Apackfile", []) ∷ ("snap/diff/file-1", 9 ∷ []) ∷ [];
}

abbrev result : (Held × Log) × Result Failure Descriptor
result = push layers registry system "snap" "r" stocked "t" manager 9 in_order ([], []) log

push-exists_example :
    (mf : Manifest) × (layers.manifest stocked.db "r" ≡ ok (mf, described))
    × (u : Held) × (registry.push_reference u described mf "r" ≡ ok result.0.0)
    × Every (λ c. registry.exists u c ≡ ok true) (mf.config ∷ mf.layers)
    × Every (λ c. registry.exists result.0.0 c ≡ ok true) (mf.config ∷ mf.layers)
unfolding push push_manifest schedule short add push_jobs push_layer layer_content file_content
    snaplink snapdir is_link_file_exist find_diffid check_all_completed lookup insert collect pick
    Kv.get Store.manifest Store.manifests Store.read_index Store.fetch Blobs.read
    Writers.mark_completed Writers.write_all Writers.write Writers.update_progress
push-exists_example =
    push-exists layers registry system "snap" "r" stocked "t" manager 9 registry-IsRegistry in_order
      in_order-IsOrder ([], []) result.0.0 log result.0.1 described refl
