-- ===== src/LayerDb/Tests/Sample.antt =====
-- An engine that keeps its buckets as association lists of decoded values and joins paths with a
-- slash; its bucket and its committed store are the same.
use Prim.Native.Char.{code}
use Prim.Native.String
use apack.Base.{
  ℕ, String, ◌≡◌, refl, ap, sym, Bool, true, false, Option, none, some, List, [], ◌∷◌, Result, ok,
  err, arith, Dict, lookup, insert, erase, lookup-insert, lookup-erase, not, str_eq,
}
use apack.LayerDb.Layout.{Descriptor, Manifest, Index, index_file, ref_name}
use apack.LayerDb.Engine.{Engine, IsLawful, Error, fault}

pub data Value : Type 0 where
  index_value : Index → Value
  manifest_value : Manifest → Value
  text_value : String → Value

abbrev pub as_index : Option Value → Result Error Index
as_index (some (index_value i)) = ok i
as_index _ = err (fault 1)

abbrev pub as_manifest : Option Value → Result Error Manifest
as_manifest (some (manifest_value m)) = ok m
as_manifest _ = err (fault 2)

abbrev pub as_present : Option Value → Result Error Bool
as_present none = ok false
as_present (some _) = ok true

abbrev pub or_fault : Option Value → Result Error Value
or_fault none = err (fault 3)
or_fault (some v) = ok v

-- "x/y/z"
abbrev pub slashed : List String → String
slashed [] = ""
slashed (x ∷ []) = x
slashed (x ∷ y ∷ rest) = String.◌++◌ x (String.◌++◌ "/" (slashed (y ∷ rest)))

abbrev pub sample : Engine
sample = record {
  Bytes = Value;
  Bolt = Dict Value;
  Bucket = Dict Value;
  Objects = Dict Value;
  begin = λ s. ok s;
  commit = λ s b. ok b;
  get = λ b k. lookup k b;
  put = λ b k v. ok (insert k v b);
  remove = λ b k. ok (erase k b);
  is_nil = λ b. false;
  entries = λ b. b;
  delete_object = λ o k. ok (erase k o);
  object_exists = λ o k. as_present (lookup k o);
  get_object = λ o k. or_fault (lookup k o);
  put_object = λ o k v. ok (insert k v o);
  marshal_index = λ i. ok (index_value i);
  unmarshal_index = as_index;
  unmarshal_manifest = as_manifest;
  marshal_layout = λ t. ok (text_value t);
  join = slashed;
  algorithm = λ d. "sha256";
  encoded = λ d. d;
  is_digest = λ d. not (str_eq d "");
}

ok-injective : {A : Type 0} {x y : A} → ◌≡◌ {A = Result Error A} (ok x) (ok y) → x ≡ y
ok-injective h = cc

first_code : String → ℕ
first_code String.[] = 0
first_code (String.◌∷◌ c s) = code c

blobs_first : (t : String) → first_code (String.◌++◌ "blobs" t) ≡ 98
unfolding first_code
blobs_first t = rw (String.append.cons "b" "lobs" t)

pub sample-IsLawful : IsLawful sample
unfolding first_code
sample-IsLawful = record {
  begin-commit = λ s b t h. sym h;
  get-put = λ b c k j v h. rw (← ok-injective h) (lookup-insert k j v b);
  get-remove = λ b c k j h. rw (← ok-injective h) (lookup-erase k j b);
  exists-delete = λ o p k j h. rw (← ok-injective h) (ground (arith, lookup-erase k j o));
  unmarshal-marshal = λ i v h. rw (← ok-injective h) refl;
  unmarshal_none = λ m h. cc;
  blob_path = λ d v h. omega (arith, blobs_first _, ap first_code h);
  files_differ = λ h. omega (arith, ap first_code h);
}

abbrev pub config_desc : Descriptor
config_desc = record {
  media_type = "application/vnd.docker.container.image.v1+json";
  digest = "c0";
  size = 10;
  artifact_type = "";
  annotations = [];
  payload = [];
}

abbrev pub layer_desc : String → Descriptor
layer_desc dgst = record {
  media_type = "application/vnd.docker.image.rootfs.diff.tar.gzip";
  digest = dgst;
  size = 100;
  artifact_type = "";
  annotations = [];
  payload = [];
}

abbrev pub manifest_of : List Descriptor → Manifest
manifest_of ls = record {
  media_type = "application/vnd.docker.distribution.manifest.v2+json";
  config = config_desc;
  layers = ls;
  annotations = [];
}

abbrev pub manifest_desc : String → Dict String → Descriptor
manifest_desc dgst annots = record {
  media_type = "application/vnd.docker.distribution.manifest.v2+json";
  digest = dgst;
  size = 20;
  artifact_type = "";
  annotations = annots;
  payload = [];
}

-- Two artifacts, `a` with the layers l1 and l2, and `b` with l2 and l3.
abbrev pub manifest_a : Manifest
manifest_a = manifest_of (layer_desc "l1" ∷ layer_desc "l2" ∷ [])

abbrev pub manifest_b : Manifest
manifest_b = manifest_of (layer_desc "l2" ∷ layer_desc "l3" ∷ [])

abbrev pub desc_a : Descriptor
desc_a = manifest_desc "ma" ((ref_name, "a") ∷ [])

abbrev pub desc_b : Descriptor
desc_b = manifest_desc "mb" ((ref_name, "b") ∷ [])

abbrev pub index_ab : Index
index_ab = record {
  media_type = "application/vnd.oci.image.index.v1+json";
  manifests = desc_a ∷ desc_b ∷ [];
}

abbrev pub store_ab : Dict Value
store_ab =
    (index_file, index_value index_ab)
    ∷ ("blobs/sha256/ma", manifest_value manifest_a)
    ∷ ("blobs/sha256/mb", manifest_value manifest_b)
    ∷ ("blobs/sha256/c0", text_value "{}")
    ∷ []
