-- ===== src/LayerDb/Tests/Begin.antt =====
-- The theorems about `init` applied to an empty store.
use apack.Base.{◌≡◌, refl, true, ok, [], ◌∷◌, Dict, lookup, insert}
use apack.LayerDb.Layout.{index_file, layout_file}
use apack.LayerDb.Kv
use apack.LayerDb.Store.{init, write_index}
use apack.LayerDb.Store.Begin.{init-exists}
use apack.LayerDb.Tests.Sample.{Value, text_value, index_value, sample, sample-IsLawful}

abbrev initialized : Dict Value
initialized =
    (layout_file, text_value "application/vnd.oci.layout.header.v1+json")
    ∷ (
      index_file,
      index_value
          (record { media_type = "application/vnd.oci.image.index.v1+json"; manifests = [] }),
    )
    ∷ []

init-exists_example :
    (Kv.exists sample initialized layout_file ≡ ok true)
    × (Kv.exists sample initialized index_file ≡ ok true)
unfolding init write_index Kv.exists Kv.put lookup insert
init-exists_example = init-exists sample sample-IsLawful [] initialized refl
