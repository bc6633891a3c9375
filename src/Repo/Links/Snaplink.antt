-- ===== src/Repo/Links/Snaplink.antt =====
-- Where a reference's snapshot is after a tag.
use apack.Base.{
  String, ◌≡◌, ap, not, ◌&&◌, none, some, Result, ok, err, >>=-eq-ok, ◌∙◌, insert, lookup,
  lookup-insert, str_eq, str_iff, if◌then◌else◌, arith, Option-cases, Result-cases, inl, inr,
}
use apack.Repo.Layers.{LayerStore}
use apack.Repo.World.{Failure, Local, System, unless}
use apack.Repo.Links.{
  link_file, is_link_file_exist, read_link_file, write_link_file, snap_dir, snaplink, tag_link, tag,
}

module _ (l : LayerStore) (os : System) (snap_path : String) where
  write_link_file-eq-ok :
      (dir text : String) (s t : Local l)
      → write_link_file l os dir text s ≡ ok t
      → t ≡ record s { links = insert (link_file l os dir) text s.links }
  unfolding write_link_file
  write_link_file-eq-ok dir text s t h =
      let (_, _, g) = >>=-eq-ok (unless (os.make_dir dir)) _ h in
      let (_, _, e) = >>=-eq-ok (unless (os.open_file (link_file l os dir))) _ g in
      ground (arith, e)

  snaplink-insert :
      (ref2 text reference : String) (s : Local l)
      → os.link_error (link_file l os (snap_dir l os snap_path ref2)) ≡ none
      → let dir = snap_dir l os snap_path ref2 in
        snaplink l os snap_path reference
          (record s { links = insert (link_file l os dir) text s.links })
        ≡ (if str_eq (link_file l os dir) (link_file l os (snap_dir l os snap_path reference))
            then ok text
            else snaplink l os snap_path reference s)
  unfolding snaplink is_link_file_exist read_link_file
  snaplink-insert ref2 text reference s fine = ground (
    arith,
    fine,
    str_iff (link_file l os (snap_dir l os snap_path ref2))
        (link_file l os (snap_dir l os snap_path reference)),
    lookup-insert (link_file l os (snap_dir l os snap_path ref2))
        (link_file l os (snap_dir l os snap_path reference)) text s.links,
  )

  abbrev link_at : String → String
  link_at reference = link_file l os (snap_dir l os snap_path reference)

  -- where a reference's snapshot is after `tag_link`
  abbrev relinked : String → String → String → Local l → Result Failure String
  relinked ref1 ref2 reference s =
      if not (is_link_file_exist l os (snap_dir l os snap_path ref2) s)
        && str_eq (link_at ref2) (link_at reference)
      then snaplink l os snap_path ref1 s
      else snaplink l os snap_path reference s

  snaplink_at :
      (reference : String) (s : Local l)
      → snaplink l os snap_path reference s
        ≡ elim (os.link_error (link_at reference)) as (λ _. Result Failure String) [
          | some x ↦ err x
          | none ↦ elim (lookup (link_at reference) s.links) as (λ _. Result Failure String) [
            | none ↦ ok (snap_dir l os snap_path reference)
            | some text ↦ ok text
          ]
        ]
  unfolding snaplink is_link_file_exist read_link_file
  snaplink_at reference s = ground arith

  snaplink-tag_link :
      (ref1 ref2 reference : String) (s t : Local l)
      → tag_link l os snap_path ref1 ref2 s ≡ ok t
      → snaplink l os snap_path reference t ≡ relinked ref1 ref2 reference s
  unfolding tag_link is_link_file_exist read_link_file
  snaplink-tag_link ref1 ref2 reference s t h = elim (Option-cases (os.link_error (link_at ref2))) [
    | inr (x, e) ↦ let same : t ≡ s = ground (arith, h, e) in ground (arith, e, same)
    | inl fine ↦ elim (Option-cases (lookup (link_at ref2) s.links)) [
      | inr (text, p) ↦
          let same : t ≡ s = ground (arith, h, fine, p) in ground (arith, fine, p, same)
      | inl p ↦ elim (Option-cases (os.link_error (link_at ref1))) [
        | inr (x, e) ↦ absurd (ground (arith, h, fine, p, e))
        | inl whole ↦ elim (Option-cases (lookup (link_at ref1) s.links)) [
          | inr (text, q) ↦
              let written =
                write_link_file-eq-ok (snap_dir l os snap_path ref2) text s t
                  (ground (arith, h, fine, p, whole, q)) in
              rw written (
                snaplink-insert ref2 text reference s fine
                ∙ ground (arith, fine, p, snaplink_at ref1 s, whole, q))
          | inl q ↦
              let dir = snap_dir l os snap_path ref1 in
              let written =
                write_link_file-eq-ok (snap_dir l os snap_path ref2) dir s t
                  (ground (arith, h, fine, p, whole, q)) in
              rw written (
                snaplink-insert ref2 dir reference s fine
                ∙ ground (arith, fine, p, snaplink_at ref1 s, whole, q))
        ]
      ]
    ]
  ]

  -- After a tag that succeeds, a reference whose link file is the new tag's has the snapshot of
  -- the tagged reference, if the new tag had no link file before; if it had one, and for every
  -- other reference, the snapshot is the one from before the tag.
  pub snaplink-tag :
      (ref1 ref2 reference : String) (s t : Local l)
      → tag l os snap_path ref1 ref2 s ≡ (t, none)
      → snaplink l os snap_path reference t ≡ (
          if not (is_link_file_exist l os (snap_dir l os snap_path ref2) s)
            && str_eq
                (link_file l os (snap_dir l os snap_path ref2))
                (link_file l os (snap_dir l os snap_path reference))
          then snaplink l os snap_path ref1 s
          else snaplink l os snap_path reference s)
  unfolding tag snaplink is_link_file_exist read_link_file
  snaplink-tag ref1 ref2 reference s t h = elim (Result-cases (l.copy s.db ref1 ref2)) [
    | inr (x, p) ↦ absurd (ground (arith, h, p))
    | inl (db, p) ↦
        let c = record s { db = db } in
        elim (Result-cases (tag_link l os snap_path ref1 ref2 c)) [
          | inr (x, q) ↦ absurd (ground (arith, h, p, q))
          | inl (u, q) ↦
              let same : u ≡ t = ground (arith, h, p, q) in
              snaplink-tag_link ref1 ref2 reference c t (q ∙ ap ok same)
        ]
  ]
