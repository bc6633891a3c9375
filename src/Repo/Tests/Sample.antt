-- ===== src/Repo/Tests/Sample.antt =====
-- A local repository over the sample store, and a remote repository with one artifact: a manifest, a
-- configuration, a tar layer and a layer that is kept as it is.
use Prim.Native.String.{String}
use apack.Base.{
  Bool, Option, none, some, List, [], ◌∷◌, Result, ok, err, Dict, lookup, str_eq, if◌then◌else◌,
}
use apack.LayerDb.Layout.{Descriptor, Manifest, Index, index_file}
use apack.LayerDb.Tests.Sample.{
  Value, sample, sample-IsLawful, slashed, manifest_value, index_value, text_value,
}
use apack.Spec.Types.{Artifact}
use apack.Task.Manager.{Manager}
use apack.Progress.Writers.{Log}
use apack.Repo.Layers.{LayerStore, IsLayerStore}
use apack.Repo.Layers.FromDb.{from_db, from_db-IsLayerStore}
use apack.Repo.World.{Failure, fault, Local, Remote, System, file_path}
use apack.Repo.Loop.{Job}
use apack.Repo.Loop.Covered.{IsOrder}

abbrev pub tar_type : String
tar_type = "application/vnd.cncf.model.weight.v1.tar"

abbrev pub is_tar : String → Bool
is_tar t = str_eq t tar_type

abbrev pub layers : LayerStore
layers = from_db sample is_tar

pub layers-IsLayerStore : IsLayerStore layers
layers-IsLayerStore = from_db-IsLayerStore sample is_tar sample-IsLawful

abbrev pub descriptor : String → String → Dict String → Descriptor
descriptor media_type digest annotations = record {
  media_type = media_type;
  digest = digest;
  size = 5;
  artifact_type = "";
  annotations = annotations;
  payload = [];
}

abbrev pub tar_desc : Descriptor
tar_desc = descriptor tar_type "tar-layer-000" ((file_path, "w.bin") ∷ [])

abbrev pub raw_desc : Descriptor
raw_desc = descriptor "application/octet" "raw-layer-000" []

abbrev pub config_desc : Descriptor
config_desc = descriptor "config" "config-000000" []

abbrev pub pulled_desc : Descriptor
pulled_desc = descriptor "manifest" "manifest-0000" []

abbrev pub manifest : Manifest
manifest = record {
  media_type = "manifest";
  config = config_desc;
  layers = tar_desc ∷ raw_desc ∷ [];
  annotations = [];
}

abbrev pub contents : Dict Value
contents =
    ("manifest-0000", manifest_value manifest)
    ∷ ("config-000000", text_value "{}")
    ∷ ("tar-layer-000", text_value "tar")
    ∷ ("raw-layer-000", text_value "raw")
    ∷ []

abbrev pub or_missing : Option Value → Result Failure Value
or_missing none = err (fault 404)
or_missing (some v) = ok v

abbrev pub remote : Remote layers
remote = record {
  Content = Value;
  resolve = λ r. if str_eq r "latest" then ok pulled_desc else err (fault 404);
  fetch_all = λ d. or_missing (lookup d.digest contents);
  fetch = λ d. or_missing (lookup d.digest contents);
  drain = λ v. ok v;
  unpack = λ d diffid v. ok (record {
    header_reads = 3 ∷ [];
    header = none;
    entry_reads = 2 ∷ [];
    bytes = 1 ∷ 2 ∷ [];
    end = none;
  });
  acquire = λ d. none;
  is_manifest_type = λ t. str_eq t "manifest";
  is_config_type = λ t. str_eq t "config";
  diff_ids = λ v. ok ("diff-1" ∷ "diff-2" ∷ []);
}

abbrev pub the_artifact : Artifact
the_artifact = record {
  oci_version = "1";
  pack = record {
    name = "m";
    workspace = "";
    reference = "";
    size = 0;
    digest = "";
    models =
        record {
          id = "file-1";
          name = "w";
          model_type = "";
          path = "w.bin";
          size = 5;
          license = "";
          description = "";
        }
        ∷ [];
    datasets = [];
    codes = [];
    docs = [];
  };
  licenses = [];
}

abbrev pub system : System
system = record {
  join = λ a b. slashed (a ∷ b ∷ []);
  dir_of = λ p. p;
  make_dir = λ p. none;
  open_file = λ p. none;
  link_error = λ p. none;
  encoded = λ d. d;
  marshal_yaml = λ a. ok (7 ∷ []);
  unmarshal_yaml = λ b. ok the_artifact;
  unmarshal_json = λ b. ok the_artifact;
}

abbrev pub empty_index : Index
empty_index = record { media_type = "application/vnd.oci.image.index.v1+json"; manifests = [] }

abbrev pub empty : Local layers
empty = record {
  db = record { bolt = (index_file, index_value empty_index) ∷ []; objects = [] };
  files = [];
  links = [];
}

abbrev pub manager : Manager
manager = record { tasks = []; cleanup = 60 }

abbrev pub log : Log
log = record { id = ""; channels = λ i. record { capacity = 1; queue = [] } }

abbrev pub in_order : List Job → List Job
in_order js = js

pub in_order-IsOrder : IsOrder in_order
in_order-IsOrder X js = (λ e. e, λ e. e)
