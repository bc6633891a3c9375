-- ===== src/LayerDb/Layout.antt =====
-- pkg/layerdb/layout.go and the OCI descriptor and manifest that it builds on: the data of the
-- index, without the fields (platform, embedded subject) that the store never reads.
use apack.Base.{ℕ, String, Option, List, Dict, lookup}

pub record Descriptor : Type 0 where
  pub media_type : String
  pub digest : String
  pub size : ℕ
  pub artifact_type : String
  pub annotations : Dict String
  pub payload : List ℕ

pub record Manifest : Type 0 where
  pub media_type : String
  pub config : Descriptor
  pub layers : List Descriptor
  pub annotations : Dict String

-- `Index` of layout.go: the manifests' descriptors, in the order of their insertion.
pub record Index : Type 0 where
  pub media_type : String
  pub manifests : List Descriptor

abbrev pub index_file : String
index_file = "index.json"

abbrev pub layout_file : String
layout_file = "oci-layout"

abbrev pub ref_name : String
ref_name = "org.opencontainers.image.ref.name"

abbrev pub deleted_name : String
deleted_name = "org.opencontainers.image.deleted"

abbrev pub snapshot_name : String
snapshot_name = "org.opencontainers.image.snapshot.ref.name"

abbrev pub ref_of : Descriptor → Option String
ref_of d = lookup ref_name d.annotations
