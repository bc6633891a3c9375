-- ===== src/Repo/Tests/Sink.antt =====
-- The theorems about a sink and an extraction applied to an artifact of one file.
use apack.Base.{ℕ, ◌≢◌, refl, List, [], ◌∷◌, Option, none, ok, Dict, lookup, insert, Every}
use apack.LayerDb.Layout.{index_file}
use apack.LayerDb.Entries.{tagged, collect, pick}
use apack.LayerDb.Kv
use apack.LayerDb.Store
use apack.LayerDb.Tests.Sample.{manifest_value, index_value, text_value}
use apack.Progress.Writers
use apack.Progress.Writers.{Log, Writer, add, check_all_completed}
use apack.Spec.Types.{Artifact}
use apack.Spec.Diffids.{find_diffid}
use apack.Repo.World.{Failure, Local, marshal_to_path}
use apack.Repo.Loop.{schedule}
use apack.Repo.Links.{snaplink, snapdir, is_link_file_exist}
use apack.Repo.Sink.{sink, prepare, sink_layers, sink_jobs, sink_layer}
use apack.Repo.Sink.Ran.{IsSunk, sink-IsSunk}
use apack.Repo.Extract.{Streams, extract}
use apack.Repo.Extract.Fails.{extract_fails}
use apack.Repo.Tests.Sample.{
  layers, system, manager, log, in_order, in_order-IsOrder, empty, empty_index, manifest,
  pulled_desc, tar_desc, the_artifact,
}

abbrev files : Dict (List ℕ)
files = ("snap/r/Apackfile", []) ∷ ("snap/diff/file-1", 9 ∷ []) ∷ ("out/Apackfile", 7 ∷ []) ∷ []

abbrev placed : Artifact
placed = record the_artifact { pack = record the_artifact.pack { workspace = "out" } }

abbrev one_file : Local layers
one_file = record empty {
  db = record {
    bolt =
        (index_file, index_value (record empty_index { manifests = tagged "r" pulled_desc ∷ [] }))
        ∷ (
          "blobs/sha256/manifest-0000",
          manifest_value (record manifest { layers = tar_desc ∷ [] }),
        )
        ∷ ("blobs/sha256/config-000000", text_value "{}")
        ∷ [];
    objects = [];
  };
  files = ("snap/r/Apackfile", []) ∷ ("snap/diff/file-1", 9 ∷ []) ∷ [];
}

abbrev result : (Local layers × Log) × Option Failure
result =
    sink system (λ d. none) (λ b. 1 ∷ []) (λ p b. none) "t" manager 9 in_order layers "snap" "out"
      "r" one_file log

sink-IsSunk_example :
    Every
      (IsSunk system
        (λ d. none)
        (λ b. 1 ∷ [])
        (λ p b. none)
        "t"
        manager
        9
        in_order
        "snap/diff"
        "out"
        placed
        (tar_desc ∷ [])
        files
        result.0.0.files)
      (tar_desc ∷ [])
unfolding sink prepare sink_layers sink_jobs sink_layer marshal_to_path schedule add
    check_all_completed find_diffid snaplink snapdir is_link_file_exist lookup insert collect pick
    Kv.get Store.manifest Store.manifests Store.read_index Store.fetch Writers.mark_completed
    Writers.write_all Writers.write Writers.update_progress
sink-IsSunk_example =
    sink-IsSunk system (λ d. none) (λ b. 1 ∷ []) (λ p b. none) "t" manager 9 in_order
      in_order-IsOrder layers "snap" "out" "r" "snap/diff" one_file result.0.0 log result.0.1 placed
      (tar_desc ∷ []) files refl refl refl

abbrev streams : Streams layers
streams = record {
  Stream = List ℕ;
  diff_ids = λ v. ok ("diff-1" ∷ "diff-2" ∷ []);
  content = λ d diffid. ok [];
  extract_layer = λ path content heap. (heap, none);
  acquire = λ d. none;
}

extract_fails_example : extract layers streams system in_order "out" "r" one_file ≢ none
extract_fails_example =
    extract_fails layers streams system in_order in_order-IsOrder "out" "r" one_file
