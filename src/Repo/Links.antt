-- ===== src/Repo/Links.antt =====
-- `Tag`, `Snapshot`, `Snaplink`, `Snappath`, `Snapdiff` and `snapdir` of internal/repo/local.go, with
-- the link files of internal/repo/utils.go. A link file in a snapshot's directory names the directory
-- of the snapshot that a tag stands for.
pub mod Snaplink
use apack.Base.{
  String, Bool, true, false, Option, none, some, Result, ok, err, ◌>>=◌, insert, lookup,
  if◌then◌else◌,
}
use apack.Repo.Layers.{LayerStore}
use apack.Repo.World.{Failure, of_store, no_file, Local, System, with_store, unless}

module _ (l : LayerStore) (os : System) where
  abbrev pub link_file : String → String
  link_file dir = os.join dir ".link"

  -- Any error of the file's status but its absence counts as a file that is there.
  unfoldable pub is_link_file_exist : String → Local l → Bool
  is_link_file_exist dir s = elim (os.link_error (link_file dir)) [
    | some _ ↦ true
    | none ↦ elim (lookup (link_file dir) s.links) [ none ↦ false | some _ ↦ true ]
  ]

  unfoldable pub read_link_file : String → Local l → Result Failure String
  read_link_file dir s = elim (os.link_error (link_file dir)) [
    | some x ↦ err x
    | none ↦ elim (lookup (link_file dir) s.links) [
      | none ↦ err (no_file (link_file dir))
      | some text ↦ ok text
    ]
  ]

  unfoldable pub write_link_file : String → String → Local l → Result Failure (Local l)
  write_link_file dir text s = do
    _ ← unless (os.make_dir dir)
    _ ← unless (os.open_file (link_file dir))
    ok (record s { links = insert (link_file dir) text s.links })

  module _ (snap_path : String) where
    abbrev pub snap_dir : String → String
    snap_dir reference = os.join snap_path reference

    unfoldable pub snapdir : String → Result Failure String
    snapdir reference = do _ ← unless (os.make_dir (snap_dir reference)); ok (snap_dir reference)

    unfoldable pub snaplink : String → Local l → Result Failure String
    unfolding is_link_file_exist read_link_file
    snaplink reference s =
        if is_link_file_exist (snap_dir reference) s
        then read_link_file (snap_dir reference) s
        else ok (snap_dir reference)

    unfoldable pub snapshot : String → Local l → Result Failure (String × Local l)
    unfolding snapdir
    snapshot reference s = do
      dir ← snapdir reference
      db ← with_store (l.snap s.db reference)
      ok (dir, record s { db = db })

    -- the part of `Tag` after the copy in the index
    unfoldable pub tag_link : String → String → Local l → Result Failure (Local l)
    unfolding is_link_file_exist read_link_file write_link_file
    tag_link ref1 ref2 s =
        if is_link_file_exist (snap_dir ref2) s
        then ok s
        else (if is_link_file_exist (snap_dir ref1) s
            then (read_link_file (snap_dir ref1) s >>= λ text.
                write_link_file (snap_dir ref2) text s)
            else write_link_file (snap_dir ref2) (snap_dir ref1) s)

    -- A failure after the copy leaves the copy.
    unfoldable pub tag : String → String → Local l → Local l × Option Failure
    unfolding tag_link
    tag ref1 ref2 s = elim (l.copy s.db ref1 ref2) [
      | err x ↦ (s, some (of_store x))
      | ok db ↦
          let t = record s { db = db } in
          elim (tag_link ref1 ref2 t) [ err x ↦ (t, some x) | ok u ↦ (u, none) ]
    ]
