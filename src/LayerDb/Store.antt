-- ===== src/LayerDb/Store.antt =====
-- The OCI methods of pkg/layerdb/layerdb.go that keep the index: each reads `index.json` from the
-- bucket, runs its loop over the entries, and writes the index back.
pub mod Laws
mod Reads
pub mod Begin
pub mod Tags
use apack.Base.{
  String, Bool, true, false, Option, none, some, List, [], Result, ok, err, ◌>>=◌, if◌then◌else◌,
}
use apack.LayerDb.Layout.{
  Descriptor, Manifest, Index, index_file, layout_file, deleted_name, snapshot_name,
}
use apack.LayerDb.Engine.{Engine, Error, no_index, no_manifest, blob_key}
use apack.LayerDb.Kv
use apack.LayerDb.Entries.{
  Entry, Action, add, del, index_entries, copy_entries, annotate_first, unlink_entries, collect,
  pick,
}

abbrev index_media_type : String
index_media_type = "application/vnd.oci.image.index.v1+json"

module _ (e : Engine) where
  unfoldable pub read_index : e.Bolt → Result Error Index
  read_index s = do v ← Kv.get e s index_file; e.unmarshal_index v

  unfoldable pub write_index : e.Bolt → Index → Result Error e.Bolt
  write_index s i = do v ← e.marshal_index i; Kv.put e s index_file v

  -- `init` writes the layout file and an empty index, each only where it is missing: with both
  -- there nothing is written.
  fresh_index : e.Bolt → Result Error e.Bolt
  unfolding write_index
  fresh_index s = do
    there ← Kv.exists e s index_file
    if there then ok s else write_index s (record { media_type = index_media_type; manifests = [] })

  write_layout : e.Bolt → Result Error e.Bolt
  unfolding fresh_index
  write_layout s = do
    v ← e.marshal_layout "application/vnd.oci.layout.header.v1+json"
    t ← Kv.put e s layout_file v
    fresh_index t

  unfoldable pub init : e.Bolt → Result Error e.Bolt
  unfolding write_layout
  init s = do
    has_layout ← Kv.exists e s layout_file
    if has_layout
        then (do has_index ← Kv.exists e s index_file; if has_index then ok s else write_layout s)
        else write_layout s

  unfoldable pub index : e.Bolt → String → Descriptor → Result Error e.Bolt
  unfolding read_index write_index
  index s r d = do
    i ← read_index s
    write_index s (record i { manifests = index_entries r d i.manifests })

  unfoldable pub copy : e.Bolt → String → String → Result Error e.Bolt
  unfolding read_index write_index
  copy s r1 r2 = do
    i ← read_index s
    ms ← copy_entries r1 r2 i.manifests
    write_index s (record i { manifests = ms })

  unfoldable pub fetch : e.Bolt → Descriptor → Result Error Manifest
  fetch s d = do v ← Kv.get e s (blob_key e d); e.unmarshal_manifest v

  -- For the theorems on reads after a write of the index: `fetch` of a descriptor whose digest is
  -- valid. The source fetches with any digest, also one whose path is that of the index.
  unfoldable pub fetch_valid : e.Bolt → Descriptor → Result Error Manifest
  unfolding fetch
  fetch_valid s d = if e.is_digest d.digest then fetch s d else err (no_manifest d.digest)

  unfoldable pub manifests : e.Bolt → String → Result Error (List Entry)
  manifests s r = do i ← read_index s; collect (fetch s) r [] i.manifests

  unfoldable pub manifest : e.Bolt → String → Result Error (Manifest × Descriptor)
  unfolding manifests
  manifest s r = do found ← manifests s r; pick r found

  -- A rewrite of the entries inside one transaction, for `annotation` and `unlink`.
  unfoldable pub rewrite :
      (List Descriptor → Result Error (List Descriptor)) → Option e.Bytes → Result Error e.Bytes
  rewrite f none = err no_index
  rewrite f (some v) = do
    i ← e.unmarshal_index (some v)
    ms ← f i.manifests
    e.marshal_index (record i { manifests = ms })

  unfoldable pub annotation : e.Bolt → String → String → String → Action → Result Error e.Bolt
  unfolding rewrite
  annotation s r k v a = Kv.update_in_place e s index_file (rewrite (annotate_first a r k v))

  unfoldable pub unlink : e.Bolt → List String → Result Error e.Bolt
  unfolding rewrite
  unlink s refs = Kv.update_in_place e s index_file (rewrite (λ ms. ok (unlink_entries refs ms)))

  unfoldable pub delete : e.Bolt → String → Result Error e.Bolt
  delete s r = annotation s r deleted_name r add

  unfoldable pub snap : e.Bolt → String → Result Error e.Bolt
  snap s r = annotation s r snapshot_name r add

  unfoldable pub purge : e.Bolt → String → Result Error e.Bolt
  purge s r = annotation s r snapshot_name "" del

  -- An error of the bucket reads as absence here, and the object store is asked.
  unfoldable pub exists : e.Bolt → e.Objects → Descriptor → Result Error Bool
  exists s o d = elim (Kv.exists e s (blob_key e d)) [
    | ok true ↦ ok true
    | _ ↦ e.object_exists o (blob_key e d)
  ]
