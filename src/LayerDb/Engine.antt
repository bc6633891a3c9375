-- ===== src/LayerDb/Engine.antt =====
-- What pkg/layerdb takes from outside the repository: bbolt's transactions and buckets, mindb's
-- object store, the JSON encoding of the layout types, and the two path and digest libraries.
use apack.Base.{
  ℕ, String, ◌≡◌, ◌≢◌, Bool, true, false, Option, none, some, List, [], ◌∷◌, Result, ok, str_eq,
  if◌then◌else◌,
}
use apack.LayerDb.Layout.{Descriptor, Manifest, Index, index_file, layout_file}

-- `fault n` is an error of a library, handed on as it is; the others are the package's own.
pub data Error : Type 0 where
  fault : ℕ → Error
  no_index : Error
  no_manifest : String → Error
  many_manifests : String → Error
  reference_missing : String → Error
  nil_pointer : Error
  nil_map : Error

pub record Engine : Type 1 where
  pub Bytes : Type 0
  pub Bolt : Type 0
  pub Bucket : Type 0
  pub Objects : Type 0
  -- the bucket as a transaction sees it, and the end of a transaction that writes
  pub begin : Bolt → Result Error Bucket
  pub commit : Bolt → Bucket → Result Error Bolt
  pub get : Bucket → String → Option Bytes
  pub put : Bucket → String → Bytes → Result Error Bucket
  pub remove : Bucket → String → Result Error Bucket
  -- a transaction may find no bucket
  pub is_nil : Bucket → Bool
  pub entries : Bucket → List (String × Bytes)
  -- mindb
  pub delete_object : Objects → String → Result Error Objects
  pub object_exists : Objects → String → Result Error Bool
  pub get_object : Objects → String → Result Error Bytes
  pub put_object : Objects → String → Bytes → Result Error Objects
  -- easyjson
  pub marshal_index : Index → Result Error Bytes
  pub unmarshal_index : Option Bytes → Result Error Index
  pub unmarshal_manifest : Option Bytes → Result Error Manifest
  pub marshal_layout : String → Result Error Bytes
  -- path/filepath and go-digest
  pub join : List String → String
  pub algorithm : String → String
  pub encoded : String → String
  pub is_digest : String → Bool

-- The documented behaviour that the theorems rely on.
pub record IsLawful (e : Engine) : Type 0 where
  pub begin-commit :
      (s : e.Bolt) (b : e.Bucket) (t : e.Bolt) → e.commit s b ≡ ok t → e.begin t ≡ ok b
  pub get-put :
      (b c : e.Bucket) (k j : String) (v : e.Bytes)
      → e.put b k v ≡ ok c
      → e.get c j ≡ (if str_eq k j then some v else e.get b j)
  pub get-remove :
      (b c : e.Bucket) (k j : String)
      → e.remove b k ≡ ok c
      → e.get c j ≡ (if str_eq k j then none else e.get b j)
  pub unmarshal-marshal :
      (i : Index) (v : e.Bytes) → e.marshal_index i ≡ ok v → e.unmarshal_index (some v) ≡ ok i
  -- no bytes are no JSON
  pub unmarshal_none : (m : Manifest) → e.unmarshal_manifest none ≢ ok m
  pub exists-delete :
      (o p : e.Objects) (k j : String)
      → e.delete_object o k ≡ ok p
      → e.object_exists p j ≡ (if str_eq k j then ok false else e.object_exists o j)
  -- The path of a blob with a valid digest lies under `blobs`, and is none of the two files at
  -- the top. The parts of any other string may climb out of it when the path is cleaned.
  pub blob_path :
      (d : String)
      → e.is_digest d ≡ true
      → e.join ("blobs" ∷ e.algorithm d ∷ e.encoded d ∷ []) ≢ index_file
  pub files_differ : layout_file ≢ index_file

abbrev pub blob_key : (e : Engine) → Descriptor → String
blob_key e d = e.join ("blobs" ∷ e.algorithm d.digest ∷ e.encoded d.digest ∷ [])
