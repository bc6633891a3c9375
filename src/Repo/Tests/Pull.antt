-- ===== src/Repo/Tests/Pull.antt =====
-- The theorems about a pull applied to the sample's artifact.
use apack.Base.{
  ◌≢◌, str_iff, sym, ◌∙◌, arith, true, false, str_eq, ◌≡◌, refl, [], ◌∷◌, Result, ok, lookup,
  insert, Every,
}
use apack.LayerDb.Layout.{Descriptor}
use apack.LayerDb.Entries.{tagged, index_entries}
use apack.LayerDb.Engine.{blob_key}
use apack.LayerDb.Kv
use apack.LayerDb.Store
use apack.LayerDb.Blobs
use apack.LayerDb.Tests.Sample.{sample, sample-IsLawful}
use apack.Progress.Writers
use apack.Progress.Writers.{Log, add, check_all_completed}
use apack.Spec.Diffids.{find_diffid}
use apack.Repo.Layers.{IsLayerStore}
use apack.Repo.Layers.FromDb.{from_db, from_db-IsLayerStore, exists-set_apart}
use apack.Repo.World.{marshal_to_path, Failure, Local}
use apack.Repo.Loop.{schedule, short}
use apack.Repo.Pull.{
  Plan, plan, to_pull, pull, pull_plan, run_jobs, run_job, pull_layer, extract, extract_layer,
  record_pull, get_manifest, get_config,
}
use apack.Repo.Pull.Complete.{IsPulled}
use apack.Repo.Pull.Brought.{pull-IsPulled}
use apack.Repo.Pull.Indexed.{IsGenuine, pull-manifest}
use apack.Repo.Pull.Success.{pulled}
use apack.Repo.Tests.Sample.{
  layers, layers-IsLayerStore, remote, system, is_tar, empty, empty_index, manager, log, in_order,
  in_order-IsOrder, manifest, pulled_desc, tar_desc, raw_desc, config_desc, the_artifact,
}

from_db-IsLayerStore_example : IsLayerStore (from_db sample is_tar)
from_db-IsLayerStore_example = from_db-IsLayerStore sample is_tar sample-IsLawful

abbrev result : (Local layers × Log) × Result Failure Descriptor
result = pulled layers remote system is_tar "t" manager 9 "snap" in_order "latest" "r" empty log

abbrev the_plan : Plan
the_plan = record {
  desc = pulled_desc;
  manifest = manifest;
  diff_ids = "diff-1" ∷ "diff-2" ∷ [];
  artifact = the_artifact;
}

abbrev after : Local layers
after = result.0.0

pull-IsPulled_example :
    (p : Plan) × (plan layers remote system is_tar "latest" ≡ ok p)
    × (pulled_desc ≡ p.desc)
    × Every
        (IsPulled layers remote system is_tar "snap/diff" p.artifact
          (to_pull layers remote system is_tar p)
          after)
        (to_pull layers remote system is_tar p)
unfolding pull pull_plan plan get_manifest get_config schedule short add run_jobs run_job pull_layer
    extract extract_layer find_diffid record_pull marshal_to_path check_all_completed lookup insert
    Kv.get Kv.put Kv.exists Store.exists Store.index Store.read_index Store.write_index Blobs.set
    index_entries Writers.mark_completed Writers.write_all Writers.write Writers.update_progress
pull-IsPulled_example =
    pull-IsPulled layers remote system is_tar "t" manager 9 "snap" in_order layers-IsLayerStore
      in_order-IsOrder "latest" "r" empty after log result.0.1 pulled_desc refl

-- A descriptor of another digest, whose blob lies under another key of the bucket.
other-IsGenuine :
    (c : Descriptor)
    → c.digest ≢ pulled_desc.digest
    → str_eq (blob_key sample c) (blob_key sample pulled_desc) ≡ false
    → sample.is_digest c.digest ≡ true
    → IsGenuine layers remote is_tar pulled_desc manifest c
other-IsGenuine c other differ valid = record {
  valid = valid;
  no_tar = λ same. absurd (other same);
  content = λ x v same. absurd (other same);
  apart = λ s t v _ h there.
      sym (exists-set_apart sample is_tar sample-IsLawful s t c pulled_desc v differ h) ∙ there;
}

manifest-IsGenuine : IsGenuine layers remote is_tar pulled_desc manifest pulled_desc
unfolding lookup
manifest-IsGenuine = record {
  valid = refl;
  no_tar = λ _. refl;
  content = λ x v _ f e. ground (arith, f, e);
  apart = λ s t v other. absurd (other refl);
}

pull-manifest_example : layers.manifest after.db "r" ≡ ok (manifest, tagged "r" pulled_desc)
unfolding pull pull_plan plan get_manifest get_config schedule short add run_jobs run_job pull_layer
    extract extract_layer find_diffid record_pull marshal_to_path check_all_completed lookup insert
    Kv.get Kv.put Kv.exists Store.exists Store.index Store.read_index Store.write_index Blobs.set
    index_entries Writers.mark_completed Writers.write_all Writers.write Writers.update_progress
pull-manifest_example =
    pull-manifest layers remote system is_tar layers-IsLayerStore "t" 9 manager "snap" in_order
      in_order-IsOrder "latest" "r" empty after log result.0.1 pulled_desc the_plan refl
      ((empty_index, refl, tt), λ there. absurd (ground (arith, there)))
      (
        other-IsGenuine tar_desc (λ h. cc ((str_iff tar_desc.digest pulled_desc.digest).1 h)) refl
            refl,
        (
          other-IsGenuine raw_desc (λ h. cc ((str_iff raw_desc.digest pulled_desc.digest).1 h)) refl
              refl,
          (
            other-IsGenuine config_desc
                (λ h. cc ((str_iff config_desc.digest pulled_desc.digest).1 h)) refl refl,
            (manifest-IsGenuine, tt),
          ),
        ),
      )
      refl
