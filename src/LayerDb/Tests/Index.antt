-- ===== src/LayerDb/Tests/Index.antt =====
-- The theorems about the index applied to the sample store.
use apack.Base.{◌≡◌, refl, not, [], ◌∷◌, Result, ok, err, str_iff, Dict, lookup, insert, keep_if}
use apack.LayerDb.Layout.{Descriptor}
use apack.LayerDb.Engine.{Error, many_manifests}
use apack.LayerDb.Kv
use apack.LayerDb.Entries.{
  tagged, find_manifest, drops, index_entries, copy_entries, unlink_entries,
}
use apack.LayerDb.Entries.Lookup.{
  first_named, Readable, find_manifest-absent_single, find_manifest-absent_many,
}
use apack.LayerDb.Store.{read_index, fetch, fetch_valid, index, copy, manifest, unlink}
use apack.LayerDb.Store.Tags.{manifest-index, manifest-copy, read_index-unlink}
use apack.LayerDb.Tests.Sample.{
  Value, sample, sample-IsLawful, manifest_a, manifest_b, manifest_desc, desc_a, desc_b, index_ab,
  store_ab,
}

-- a new artifact's descriptor, whose manifest is that of `b`
abbrev fresh : Descriptor
fresh = manifest_desc "mb" []

abbrev done : Result Error (Dict Value) → Dict Value
done (ok t) = t
done (err _) = []

abbrev valid_ab : Readable (fetch_valid sample store_ab) index_ab.manifests
unfolding fetch_valid fetch Kv.get lookup
valid_ab = ((manifest_a, refl), ((manifest_b, refl), tt))

abbrev readable_ab : Readable (fetch sample store_ab) index_ab.manifests
unfolding fetch Kv.get lookup
readable_ab = ((manifest_a, refl), ((manifest_b, refl), tt))

manifest-index_example :
    manifest sample (done (index sample store_ab "c" fresh)) "c" ≡ ok (manifest_b, tagged "c" fresh)
unfolding index fetch_valid fetch Kv.get Kv.put lookup insert index_entries first_named
manifest-index_example =
    manifest-index sample sample-IsLawful store_ab _ index_ab "c" "c" fresh (tagged "c" fresh)
      manifest_b manifest_b refl valid_ab refl refl refl refl

-- `b` was there before, so a copy of `a` onto `b` leaves `Manifest` of `b` as it was.
manifest-copy_example :
    manifest sample (done (copy sample store_ab "a" "b")) "b" ≡ ok (manifest_b, desc_b)
unfolding copy fetch_valid fetch Kv.get Kv.put lookup insert copy_entries first_named
manifest-copy_example =
    manifest-copy sample sample-IsLawful store_ab _ index_ab "a" "b" "b" desc_a desc_b manifest_b
      refl valid_ab refl refl refl refl

read_index-unlink_example :
    read_index sample (done (unlink sample store_ab ("a" ∷ [])))
    ≡ ok
        (record index_ab { manifests = keep_if (λ d. not (drops ("a" ∷ []) d)) index_ab.manifests })
unfolding unlink read_index Kv.get Kv.update_in_place lookup insert unlink_entries
read_index-unlink_example =
    read_index-unlink sample sample-IsLawful store_ab _ index_ab ("a" ∷ []) refl refl

abbrev one_readable : Readable (fetch sample store_ab) (desc_b ∷ [])
unfolding fetch Kv.get lookup
one_readable = ((manifest_b, refl), tt)

-- `x` is nowhere in the index, and the only artifact is returned for it.
find_manifest-absent_single_example :
    find_manifest (fetch sample store_ab) "x" (desc_b ∷ []) ≡ ok (manifest_b, desc_b)
unfolding fetch Kv.get lookup first_named
find_manifest-absent_single_example =
    find_manifest-absent_single (fetch sample store_ab) "x" (desc_b ∷ []) desc_b manifest_b
      one_readable refl refl refl

find_manifest-absent_many_example :
    find_manifest (fetch sample store_ab) "x" index_ab.manifests ≡ err (many_manifests "x")
unfolding fetch Kv.get lookup first_named
find_manifest-absent_many_example =
    find_manifest-absent_many (fetch sample store_ab) "x" index_ab.manifests desc_a desc_b []
      readable_ab (λ h. cc ((str_iff "x" "").1 h)) refl refl
