-- ===== src/Repo/Tests/Links.antt =====
-- A tag of a tag, and a second tag of the same reference.
use apack.Base.{◌≡◌, refl, [], ◌∷◌, ok, lookup, insert}
use apack.LayerDb.Kv
use apack.LayerDb.Store
use apack.LayerDb.Layout.{index_file}
use apack.LayerDb.Entries.{copy_entries, tagged}
use apack.LayerDb.Tests.Sample.{index_value}
use apack.Repo.World.{Local}
use apack.Repo.Links.{snaplink, tag, tag_link, is_link_file_exist, read_link_file, write_link_file}
use apack.Repo.Links.Snaplink.{snaplink-tag}
use apack.Repo.Tests.Sample.{layers, system, empty, empty_index, pulled_desc}

abbrev two_references : Local layers
two_references = record empty {
  db = record {
    bolt =
        (
          index_file,
          index_value (record empty_index {
            manifests =
                tagged "a" pulled_desc ∷ tagged "b" pulled_desc ∷ tagged "t" pulled_desc ∷ [];
          }),
        )
        ∷ [];
    objects = [];
  };
  links = ("snap/t/.link", "snap/a") ∷ [];
}

-- `t` stands for `a`; tagged again, as `b`, it still has the snapshot of `a`.
snaplink-tag_example :
    snaplink layers system "snap" "t" (tag layers system "snap" "b" "t" two_references).0
    ≡ ok "snap/a"
unfolding snaplink tag tag_link is_link_file_exist read_link_file write_link_file lookup insert
    Store.copy copy_entries Kv.get Kv.put
snaplink-tag_example =
    snaplink-tag layers system "snap" "b" "t" "t" two_references
      (tag layers system "snap" "b" "t" two_references).0 refl
