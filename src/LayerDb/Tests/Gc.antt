-- ===== src/LayerDb/Tests/Gc.antt =====
-- The theorems about the collector and the bucket applied to the sample store.
use apack.Base.{
  String, ◌≡◌, refl, true, false, not, ◌&&◌, some, [], ◌∷◌, ok, Dict, lookup, insert, erase,
}
use apack.LayerDb.Layout.{Descriptor, ref_name, deleted_name, index_file}
use apack.LayerDb.Kv
use apack.LayerDb.Entries.{drops, unlink_entries, collect, pick}
use apack.LayerDb.Store
use apack.LayerDb.Gc.{
  Db, only_delete, identify, identify_entries, sweep, run_gc, scaling, delete_objects, delete_blobs,
  keeps, mark,
}
use apack.LayerDb.Gc.Sweep.{has_key, Distinct, sweep-exact}
use apack.LayerDb.Gc.Effect.{identify_entries-eq-gather, gather, run_gc-objects}
use apack.LayerDb.Tests.Sample.{
  Value, text_value, index_value, sample, sample-IsLawful, index_ab, store_ab, desc_b, layer_desc,
  manifest_desc,
}

abbrev objects_ab : Dict Value
objects_ab =
    ("blobs/sha256/l1", text_value "1")
    ∷ ("blobs/sha256/l2", text_value "2")
    ∷ ("blobs/sha256/l3", text_value "3")
    ∷ []

-- `a` is marked as deleted.
abbrev desc_a_deleted : Descriptor
desc_a_deleted = manifest_desc "ma" ((ref_name, "a") ∷ (deleted_name, "a") ∷ [])

abbrev store_deleted : Dict Value
store_deleted =
    insert index_file (index_value (record index_ab { manifests = desc_a_deleted ∷ desc_b ∷ [] }))
      store_ab

abbrev db_deleted : Db sample
db_deleted = record { bolt = store_deleted; objects = objects_ab }

-- The layer l3 belongs to `b` alone, which is live, and the collection deletes it.
run_gc-objects_example :
    sample.object_exists
      (run_gc sample
        (record { policy = only_delete; dry_run = false; db = some db_deleted })
        db_deleted).1.objects
      "blobs/sha256/l3"
    ≡ ok false
unfolding run_gc identify scaling delete_objects delete_blobs identify_entries keeps mark sweep
    Store.read_index Store.manifest Store.manifests Store.fetch Store.unlink collect pick
    unlink_entries drops Kv.get Kv.delete_if_exists Kv.update_in_place lookup insert erase
run_gc-objects_example =
    run_gc-objects sample sample-IsLawful only_delete db_deleted db_deleted _ _ "blobs/sha256/l3"
      refl refl

sweep-exact_example :
    Distinct
      (λ d. d.digest)
      (sweep (λ d. d.digest) (layer_desc "l2" ∷ []) (layer_desc "l1" ∷ layer_desc "l2" ∷ [])).0
    × ((k : String)
        → has_key
            (λ d. d.digest)
            k
            (sweep
              (λ d. d.digest)
              (layer_desc "l2" ∷ [])
              (layer_desc "l1" ∷ layer_desc "l2" ∷ [])).0
          ≡ (has_key (λ d. d.digest) k (layer_desc "l1" ∷ layer_desc "l2" ∷ [])
              && not (has_key (λ d. d.digest) k (layer_desc "l2" ∷ []))))
sweep-exact_example =
    sweep-exact (λ d. d.digest) (layer_desc "l2" ∷ []) (layer_desc "l1" ∷ layer_desc "l2" ∷ [])

identify_entries-eq-gather_example :
    ((identify_entries
        (Store.manifest sample store_deleted)
        only_delete
        (record { content = []; other = []; candidates = []; refs = [] })
        (desc_a_deleted ∷ desc_b ∷ [])).content
      ≡ gather
          (Store.manifest sample store_deleted)
          only_delete
          true
          (desc_a_deleted ∷ desc_b ∷ []))
    × ((identify_entries
          (Store.manifest sample store_deleted)
          only_delete
          (record { content = []; other = []; candidates = []; refs = [] })
          (desc_a_deleted ∷ desc_b ∷ [])).candidates
        ≡ gather
            (Store.manifest sample store_deleted)
            only_delete
            false
            (desc_a_deleted ∷ desc_b ∷ []))
identify_entries-eq-gather_example =
    identify_entries-eq-gather (Store.manifest sample store_deleted) only_delete
      (record { content = []; other = []; candidates = []; refs = [] })
      (desc_a_deleted ∷ desc_b ∷ [])
