-- ===== src/Repo/Tests/Bundle.antt =====
-- The theorem about a bundle applied to three contents, one of which has no path.
use apack.Base.{String, List, [], ◌∷◌, none, Result, ok}
use apack.LayerDb.Layout.{Descriptor, index_file}
use apack.LayerDb.Entries.{tagged}
use apack.LayerDb.Kv
use apack.LayerDb.Store
use apack.LayerDb.Blobs
use apack.LayerDb.Tests.Sample.{text_value, index_value}
use apack.Progress.Writers
use apack.Progress.Writers.{Log}
use apack.Repo.World.{Failure, Local}
use apack.Repo.Bundle.{Content, Makefile, Job, Bundled, bundle}
use apack.Repo.Tests.Sample.{
  layers, system, empty, empty_index, manager, log, descriptor, pulled_desc, the_artifact,
}

abbrev content : String → String → Content
content id path = record {
  id = id;
  path = path;
  media_type = "raw";
  artifact_type = "raw";
  name = path;
  size = 2;
}

abbrev contents : List Content
contents = content "i1" "a.bin" ∷ content "i2" "" ∷ content "i3" "b.bin" ∷ []

abbrev makefile : Makefile layers
makefile = record {
  contents = ok contents;
  reference = "r";
  artifact = the_artifact;
  config_media_type = "config";
  artifact_config_type = "config";
  manifest_media_type = "manifest";
  artifact_manifest_type = "manifest";
  acquire = λ c. none;
  layering = λ c. record {
    reads = 2 ∷ [];
    result = ok (descriptor "raw" c.id [], c.path);
    bytes = 4 ∷ 5 ∷ [];
  };
  base = λ p. p;
  rename = λ a b. none;
  marshal_config = λ ids. ok (1 ∷ []);
  marshal_manifest = λ m. ok (2 ∷ []);
  marshal_json = λ a. ok [];
  digest_of = λ b. "digest";
  blob_of = λ b. text_value "blob";
}

abbrev in_turn : List Job → List Job
in_turn js = js

abbrev indexed : Local layers
indexed = record empty {
  db = record {
    bolt =
        (index_file, index_value (record empty_index { manifests = tagged "r" pulled_desc ∷ [] }))
        ∷ [];
    objects = [];
  };
}

abbrev result : Bundled layers × Result Failure Descriptor
result = bundle layers makefile system "t" manager 9 "snap" in_turn indexed log

abbrev manifest_desc : Descriptor
manifest_desc = record (descriptor "manifest" "digest" []) { size = 1; artifact_type = "manifest" }
