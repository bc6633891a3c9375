-- ===== src/Repo/Sink/Copied.antt =====
-- What a sink that succeeds has copied.
use apack.Base.{
  ℕ, String, ◌≡◌, ◌⊎◌, refl, sym, ◌∙◌, Bool, true, false, ◌&&◌, not, Option, none, some, List, [],
  ◌∷◌, Dict, insert, lookup, lookup-insert, get_elem?, any_of, all_of, str_eq, str_iff, str_refl,
  if◌then◌else◌, Every, arith, Bool-cases, Option-cases, inl, inr,
}
use apack.LayerDb.Layout.{Descriptor}
use apack.Spec.Types.{Artifact}
use apack.Task.Manager.{Manager}
use apack.Progress.Writers.{Writer, Log, mark_completed, write_all}
use apack.Repo.World.{Failure, no_file, System}
use apack.Repo.Loop.{Job, first_failure-none}
use apack.Repo.Pull.Complete.{IsAmong}
use apack.Repo.Sink.{Sunk, source, target, on_writer, copied, sink_layer, sink_jobs}

none_fails :
    (q : Descriptor → Bool) (ds : List Descriptor)
    → all_of q ds ≡ true
    → any_of (λ d. not (q d)) ds ≡ false
none_fails q [] h = refl
none_fails q (d ∷ ds) h = ground (arith, h, none_fails q ds)

all_of-IsAmong :
    (q : Descriptor → Bool) (ds : List Descriptor) (c : Descriptor)
    → IsAmong ds c
    → all_of q ds ≡ true
    → q c ≡ true
all_of-IsAmong q ds c among h = elim (Bool-cases (q c)) [
  | inl p ↦ p
  | inr p ↦ absurd (ground (arith, among (λ d. not (q d)) (ground (arith, p)), none_fails q ds h))
]

module _ (os : System) (acquire : Descriptor → Option Failure) (reads : List ℕ → List ℕ)
    (copy_fault : String → List ℕ → Option (List ℕ × Failure)) where
  module _ (task_id : String) (m : Manager) (now : ℕ) where
    abbrev from : String → Artifact → Descriptor → String
    from diff a d = source os acquire reads copy_fault task_id m now diff a d

    abbrev to : String → Descriptor → String
    to dir d = target os acquire reads copy_fault task_id m now dir d

    -- No layer is copied onto a file that is to be copied, and two that are copied to one place are
    -- one file.
    abbrev pub is_clear_for : String → String → Artifact → Descriptor → Descriptor → Bool
    is_clear_for diff dir a c d =
        not (str_eq (to dir c) (from diff a d))
        && (if str_eq (to dir c) (to dir d) then str_eq (from diff a c) (from diff a d) else true)

    abbrev pub is_clear : String → String → Artifact → List Descriptor → Bool
    is_clear diff dir a ds = all_of (λ c. all_of (λ d. is_clear_for diff dir a c d) ds) ds

    on_writer-files :
        (i : ℕ) (f : Writer × Log → Writer × Log) (s : Sunk)
        → (on_writer os acquire reads copy_fault task_id m now i f s).files ≡ s.files
    on_writer-files i f s = elim (Option-cases (get_elem? s.heap i)) [
      | inl p ↦ ground (arith, p)
      | inr (w, p) ↦ ground (arith, p)
    ]

    copied-files :
        (path : String) (b : List ℕ) (j : Job) (s : Sunk)
        → (copied os acquire reads copy_fault task_id m now path b j s).files
          ≡ insert path b s.files
    copied-files path b j s =
        let t =
          on_writer os acquire reads copy_fault task_id m now j.writer
            (write_all task_id m now (reads b)) s in
        ground (
          arith,
          on_writer-files j.writer (write_all task_id m now (reads b)) s,
          on_writer-files j.writer (mark_completed task_id m now)
              (record t { files = insert path b t.files }),
        )

    module _ (diff dir : String) (a : Artifact) (ds : List Descriptor) (files : Dict (List ℕ)) where
      -- the files to copy are as they were
      abbrev IsIntact : Sunk → Type 0
      IsIntact s =
          (c : Descriptor)
          → IsAmong ds c
          → lookup (from diff a c) s.files ≡ lookup (from diff a c) files

      abbrev pub IsCopied : Dict (List ℕ) → Descriptor → Type 0
      IsCopied t c =
          (b : List ℕ) × (lookup (from diff a c) files ≡ some b) × (lookup (to dir c) t ≡ some b)

      -- A goroutine fails, or copies its file.
      sink_layer-cases :
          (j : Job) (s : Sunk)
          → let (t, e) = sink_layer os acquire reads copy_fault task_id m now diff dir a j s in
            ((x : Failure) × (e ≡ some x))
            ⊎ ((b : List ℕ) × (lookup (from diff a j.desc) s.files ≡ some b)
                × (t.files ≡ insert (to dir j.desc) b s.files))
      unfolding sink_layer
      sink_layer-cases j s = elim (Option-cases (lookup (from diff a j.desc) s.files)) [
        | inl p ↦ inl (no_file (from diff a j.desc), ground (arith, p))
        | inr (b, p) ↦ elim (Option-cases (os.open_file (to dir j.desc))) [
          | inr (x, q) ↦ inl (x, ground (arith, p, q))
          | inl q ↦ elim (Option-cases (copy_fault (to dir j.desc) b)) [
            | inr ((part, x), f) ↦ inl (x, ground (arith, p, q, f))
            | inl f ↦ inr (b, p, ground (arith, p, q, f, copied-files (to dir j.desc) b j s))
          ]
        ]
      ]

      module _ (clear : is_clear diff dir a ds ≡ true) where
        IsClear-pair :
            (c d : Descriptor) → IsAmong ds c → IsAmong ds d → is_clear_for diff dir a c d ≡ true
        IsClear-pair c d in_c in_d =
            all_of-IsAmong (λ d. is_clear_for diff dir a c d) ds d in_d
              (all_of-IsAmong (λ c. all_of (λ d. is_clear_for diff dir a c d) ds) ds c in_c clear)

        -- A copy leaves the files to copy as they were, and what was copied before.
        insert-IsIntact :
            (j : Job) (s t : Sunk) (b : List ℕ)
            → IsAmong ds j.desc
            → IsIntact s
            → t.files ≡ insert (to dir j.desc) b s.files
            → IsIntact t
        insert-IsIntact j s t b among intact h c in_c =
            rw h (
              ground (
                arith,
                lookup-insert (to dir j.desc) (from diff a c) b s.files,
                IsClear-pair j.desc c among in_c,
              ))
            ∙ intact c in_c

        insert-IsCopied :
            (j : Job) (s t : Sunk) (b : List ℕ) (c : Descriptor)
            → IsAmong ds j.desc
            → IsAmong ds c
            → IsIntact s
            → lookup (from diff a j.desc) s.files ≡ some b
            → t.files ≡ insert (to dir j.desc) b s.files
            → IsCopied s.files c
            → IsCopied t.files c
        insert-IsCopied j s t b c among in_c intact read h (v, p, q) =
            elim (Bool-cases (str_eq (to dir j.desc) (to dir c))) [
              | inr other ↦ (
                v,
                p,
                rw h (ground (arith, lookup-insert (to dir j.desc) (to dir c) b s.files, other, q)),
              )
              | inl same ↦
                  let pair = IsClear-pair j.desc c among in_c in
                  let one : from diff a j.desc ≡ from diff a c =
                    (str_iff (from diff a j.desc) (from diff a c)).0 (ground (arith, pair, same)) in
                  let bytes : lookup (from diff a c) files ≡ some b =
                    sym (intact c in_c) ∙ rw one at read in
                  (
                    b,
                    bytes,
                    rw h (ground (arith, lookup-insert (to dir j.desc) (to dir c) b s.files, same)),
                  )
            ]

        pub sink_jobs-IsCopied :
            (js : List Job) (s : Sunk)
            → Every (λ j. IsAmong ds j.desc) js
            → IsIntact s
            → (sink_jobs os acquire reads copy_fault task_id m now diff dir a js s).1 ≡ none
            → ((c : Descriptor)
                → IsAmong ds c
                → IsCopied s.files c
                → IsCopied
                    (sink_jobs os acquire reads copy_fault task_id m now diff dir a js s).0.files
                    c)
              × Every
                  (λ j.
                    IsCopied
                      (sink_jobs os acquire reads copy_fault task_id m now diff dir a js s).0.files
                      j.desc)
                  js
        unfolding sink_jobs
        sink_jobs-IsCopied [] s among intact h = (λ c _ k. k, tt)
        sink_jobs-IsCopied (j ∷ js) s (in_j, among) intact h =
            let (t, e) = sink_layer os acquire reads copy_fault task_id m now diff dir a j s in
            let (first, rest) =
              first_failure-none e
                (sink_jobs os acquire reads copy_fault task_id m now diff dir a js t).1 h in
            elim (sink_layer-cases j s) [
              | inl (x, p) ↦ absurd (ground (arith, first, p))
              | inr (b, p, q) ↦
                  let next = insert-IsIntact j s t b in_j intact q in
                  let (stay, all) = sink_jobs-IsCopied js t among next rest in
                  let here : IsCopied t.files j.desc = (
                    b,
                    sym (intact j.desc in_j) ∙ p,
                    rw q (
                        ground (
                          arith,
                          lookup-insert (to dir j.desc) (to dir j.desc) b s.files,
                          str_refl (to dir j.desc),
                        )),
                  ) in
                  (
                    λ c in_c k. stay c in_c (insert-IsCopied j s t b c in_j in_c intact p q k),
                    (stay j.desc in_j here, all),
                  )
            ]
