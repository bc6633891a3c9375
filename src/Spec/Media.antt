-- ===== src/Spec/Media.antt =====
-- The media types of internal/spec/gen.go. The names are constants of other packages: `Names` holds
-- them, for the model specification by kind and packing, and for the two kinds of OCI layers.
use apack.Base.{String}
use apack.Spec.Kinds.{FileType, weight, dataset, code, docs, config, unknown, determine_file_type}

-- `layerdb.Algorithm`, a string: one of the five that `Validate` lets pass, or any other.
pub data Algorithm : Type 0 where
  gzip gzip_fastest zstd raw none_ : Algorithm
  other : String → Algorithm

pub record Names : Type 0 where
  pub weight_name : String
  pub weight_gzip : String
  pub weight_zstd : String
  pub weight_raw : String
  pub dataset_name : String
  pub dataset_gzip : String
  pub dataset_zstd : String
  pub dataset_raw : String
  pub code_name : String
  pub code_gzip : String
  pub code_zstd : String
  pub code_raw : String
  pub config_name : String
  pub config_gzip : String
  pub config_zstd : String
  pub config_raw : String
  pub doc_name : String
  pub doc_gzip : String
  pub doc_zstd : String
  pub doc_raw : String
  pub oci_layer : String
  pub oci_layer_gzip : String
  pub oci_layer_zstd : String
  pub image_layer : String
  pub image_layer_gzip : String

unfoldable pub media_type : Names → FileType → Algorithm → String
media_type n weight gzip = n.weight_gzip
media_type n weight gzip_fastest = n.weight_gzip
media_type n weight zstd = n.weight_zstd
media_type n weight raw = n.weight_raw
media_type n weight none_ = n.weight_name
media_type n weight (other _) = ""
media_type n dataset gzip = n.dataset_gzip
media_type n dataset gzip_fastest = n.dataset_gzip
media_type n dataset zstd = n.dataset_zstd
media_type n dataset raw = n.dataset_raw
media_type n dataset none_ = n.dataset_name
media_type n dataset (other _) = ""
media_type n code gzip = n.code_gzip
media_type n code gzip_fastest = n.code_gzip
media_type n code zstd = n.code_zstd
media_type n code raw = n.code_raw
media_type n code none_ = n.code_name
media_type n code (other _) = ""
media_type n config gzip = n.config_gzip
media_type n config gzip_fastest = n.config_gzip
media_type n config zstd = n.config_zstd
media_type n config raw = n.config_raw
media_type n config none_ = n.config_name
media_type n config (other _) = ""
media_type n docs gzip = n.doc_gzip
media_type n docs gzip_fastest = n.doc_gzip
media_type n docs zstd = n.doc_zstd
media_type n docs raw = n.doc_raw
media_type n docs none_ = n.doc_name
media_type n docs (other _) = ""
media_type n unknown a = ""

unfoldable pub infer_media_type : Names → String → Algorithm → String
infer_media_type n filename a = media_type n (determine_file_type filename) a

unfoldable pub oci_determine_media_type : Names → Algorithm → String
oci_determine_media_type n gzip = n.oci_layer_gzip
oci_determine_media_type n gzip_fastest = n.oci_layer_gzip
oci_determine_media_type n zstd = n.oci_layer_zstd
oci_determine_media_type n _ = n.oci_layer

unfoldable pub compatible_oci_determine_media_type : Names → Algorithm → String
compatible_oci_determine_media_type n gzip = n.image_layer_gzip
compatible_oci_determine_media_type n gzip_fastest = n.image_layer_gzip
compatible_oci_determine_media_type n zstd = n.oci_layer_zstd
compatible_oci_determine_media_type n _ = n.image_layer
