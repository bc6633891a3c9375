-- ===== src/Repo/Pull/Effect.antt =====
-- What one goroutine of `Pull` can do to the repository, as a relation, and that the code does it.
use apack.Base.{
  ℕ, String, ◌≡◌, ◌⊎◌, refl, Bool, true, false, Option, none, some, List, ok, ◌>>=◌, insert,
  get_elem?, length, ltb, arith, Bool-cases, Option-cases, Result-cases, inl, inr,
}
use apack.Spec.Types.{Artifact}
use apack.Task.Manager.{Manager}
use apack.Progress.Writers.{Writer, Log, mark_completed, write_all}
use apack.Repo.Layers.{LayerStore}
use apack.Repo.World.{
  Failure, of_store, index_out_of_range, Local, Unpacked, Remote, System, with_store,
}
use apack.Repo.Pull.{
  Plan, Session, on_writer, mark, copy_to, put_file, target, extract_layer, entry_copied, extract,
  stored_blob, marked, pull_layer, run_job,
}
use apack.Repo.Loop.{Job}

module _ (l : LayerStore) (r : Remote l) (os : System) (is_tar : String → Bool) where
  -- From `s` to `t`, with the error `e`: nothing; nothing, as the layer is there; the layer's file
  -- is written, in whole or in part; the layer is set in the store.
  pub data Effect (dir : String) (a : Artifact) (j : Job) (s t : Local l) (e : Option Failure)
      : Type 0 where
    failed : (x : Failure) → e ≡ some x → t ≡ s → Effect dir a j s t e
    present : l.exists s.db j.desc ≡ ok true → t ≡ s → Effect dir a j s t e
    extracted :
        (b : List ℕ)
        → l.exists s.db j.desc ≡ ok false
        → is_tar j.desc.media_type ≡ true
        → t ≡ record s { files = insert (target l r os is_tar dir a j.desc) b s.files }
        → Effect dir a j s t e
    stored :
        (c : r.Content) (v : l.Blob) (db : l.State)
        → l.exists s.db j.desc ≡ ok false
        → is_tar j.desc.media_type ≡ false
        → r.fetch j.desc ≡ ok c
        → r.drain c ≡ ok v
        → l.set s.db j.desc v ≡ ok db
        → t ≡ record s { db = db }
        → Effect dir a j s t e

  module _ (task_id : String) (m : Manager) (now : ℕ) where
    on_writer-local :
        (i : ℕ) (f : Writer × Log → Writer × Log) (s : Session l r os is_tar)
        → (on_writer l r os is_tar task_id m now i f s).local ≡ s.local
    on_writer-local i f s = elim (Option-cases (get_elem? s.heap i)) [
      | inl p ↦ ground (arith, p)
      | inr (w, p) ↦ ground (arith, p)
    ]

    mark-local :
        (i : ℕ) (s : Session l r os is_tar) → (mark l r os is_tar task_id m now i s).local ≡ s.local
    mark-local i s = on_writer-local i (mark_completed task_id m now) s

    copy_to-local :
        (i : ℕ) (ns : List ℕ) (s : Session l r os is_tar)
        → (copy_to l r os is_tar task_id m now i ns s).local ≡ s.local
    copy_to-local i ns s = on_writer-local i (write_all task_id m now ns) s

    entry_copied-local :
        (path : String) (u : Unpacked) (i : ℕ) (s : Session l r os is_tar)
        → (entry_copied l r os is_tar task_id m now path u i s).0.local
          ≡ record s.local { files = insert path u.bytes s.local.files }
    entry_copied-local path u i s =
        let t =
          put_file l r os is_tar path u.bytes
            (copy_to l r os is_tar task_id m now i u.entry_reads s) in
        ground (arith, copy_to-local i u.entry_reads s, mark-local i t)

    -- Of a layer's content, its file is all that is written.
    extract_layer-local :
        (path : String) (u : Unpacked) (i : ℕ) (s : Session l r os is_tar)
        → let (t, e) = extract_layer l r os is_tar task_id m now path u i s in
          ((x : Failure) × (e ≡ some x) × (t.local ≡ s.local))
          ⊎ (t.local ≡ record s.local { files = insert path u.bytes s.local.files })
    unfolding extract_layer
    extract_layer-local path u i s =
        let read = copy_to-local i u.header_reads s in
        elim (Option-cases u.header) [
          | inr (x, p) ↦ inl (x, ground (arith, p), ground (arith, p, read))
          | inl p ↦ elim (Option-cases (os.make_dir (os.dir_of path))) [
            | inr (x, q) ↦ inl (x, ground (arith, p, q), ground (arith, p, q, read))
            | inl q ↦ elim (Option-cases (os.open_file path)) [
              | inr (x, o) ↦ inl (x, ground (arith, p, q, o), ground (arith, p, q, o, read))
              | inl o ↦ inr (
                  ground (
                    arith,
                    p,
                    q,
                    o,
                    read,
                    entry_copied-local path u i
                        (copy_to l r os is_tar task_id m now i u.header_reads s),
                  ))
            ]
          ]
        ]

    extract-Effect :
        (dir : String) (a : Artifact) (diffid : String) (c : r.Content) (j : Job)
        (s : Session l r os is_tar)
        → l.exists s.local.db j.desc ≡ ok false
        → is_tar j.desc.media_type ≡ true
        → let (t, e) = extract l r os is_tar task_id m now dir a diffid c j s in
          Effect dir a j s.local t.local e
    unfolding extract
    extract-Effect dir a diffid c j s absent tar = elim (Result-cases (r.unpack j.desc diffid c)) [
      | inr (x, p) ↦ rw (p, extract) (failed x refl refl)
      | inl (u, p) ↦
          let path = target l r os is_tar dir a j.desc in
          rw (p, extract)
            (elim (extract_layer-local path u j.writer s) [
              | inl (x, q, o) ↦ failed x q o
              | inr o ↦ extracted u.bytes absent tar o
            ])
    ]

    extracted-Effect :
        (dir : String) (a : Artifact) (j : Job) (s : Local l)
        (t : Session l r os is_tar × Option Failure)
        → Effect dir a j s t.0.local t.1
        → let (u, e) = marked l r os is_tar task_id m now j t in Effect dir a j s u.local e
    extracted-Effect dir a j s (t, some x) h = h
    extracted-Effect dir a j s (t, none) h = rw (mark-local j.writer t) h

    stored-Effect :
        (dir : String) (a : Artifact) (j : Job) (c : r.Content) (s : Session l r os is_tar)
        → l.exists s.local.db j.desc ≡ ok false
        → is_tar j.desc.media_type ≡ false
        → r.fetch j.desc ≡ ok c
        → let (t, e) =
            stored_blob l r os is_tar task_id m now j
              (r.drain c >>= λ v. with_store (l.set s.local.db j.desc v))
              s in
          Effect dir a j s.local t.local e
    stored-Effect dir a j c s absent tar fetched = elim (Result-cases (r.drain c)) [
      | inr (x, p) ↦ rw p (failed x refl refl)
      | inl (v, p) ↦ elim (Result-cases (l.set s.local.db j.desc v)) [
        | inr (x, q) ↦ rw (p, q) (failed (of_store x) refl refl)
        | inl (db, q) ↦
            rw (p, q)
              (stored c v db absent tar fetched p q
                (mark-local j.writer (record s { local = record s.local { db = db } })))
      ]
    ]

    pull_layer-Effect :
        (dir : String) (a : Artifact) (diffid : String) (j : Job) (s : Session l r os is_tar)
        → let (t, e) = pull_layer l r os is_tar task_id m now dir a diffid j s in
          Effect dir a j s.local t.local e
    unfolding pull_layer
    pull_layer-Effect dir a diffid j s = elim (Result-cases (l.exists s.local.db j.desc)) [
      | inr (x, p) ↦ rw (p, pull_layer) (failed (of_store x) refl refl)
      | inl (true, p) ↦ rw (p, pull_layer) (present p (mark-local j.writer s))
      | inl (false, p) ↦ elim (Result-cases (r.fetch j.desc)) [
        | inr (x, q) ↦ rw (p, pull_layer, q) (failed x refl refl)
        | inl (c, q) ↦ elim (Bool-cases (is_tar j.desc.media_type)) [
          | inl tar ↦
              rw (p, pull_layer, q, tar)
                (extracted-Effect dir a j s.local
                  (extract l r os is_tar task_id m now dir a diffid c j s)
                  (extract-Effect dir a diffid c j s p tar))
          | inr tar ↦ rw (p, pull_layer, q, tar) (stored-Effect dir a j c s p tar q)
        ]
      ]
    ]

    pub run_job-Effect :
        (dir : String) (p : Plan) (j : Job) (s : Session l r os is_tar)
        → let (t, e) = run_job l r os is_tar task_id m now dir p j s in
          Effect dir p.artifact j s.local t.local e
    unfolding run_job
    run_job-Effect dir p j s = elim (Bool-cases (ltb j.index (length p.manifest.layers))) [
      | inr h ↦ rw (h, run_job) (pull_layer-Effect dir p.artifact "" j s)
      | inl h ↦ elim (Option-cases (get_elem? p.diff_ids j.index)) [
        | inl q ↦ rw (h, run_job, q) (failed index_out_of_range refl refl)
        | inr (diffid, q) ↦ rw (h, run_job, q) (pull_layer-Effect dir p.artifact diffid j s)
      ]
    ]
