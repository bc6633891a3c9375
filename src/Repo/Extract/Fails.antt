-- ===== src/Repo/Extract/Fails.antt =====
-- `Extract` cannot succeed.
use apack.Base.{
  String, ◌≡◌, ◌≢◌, refl, Bool, false, none, List, [], ◌∷◌, ◌>>=◌, get_elem?, Every, arith, any_of,
  str_eq, Option-cases, Result-cases, inl, inr,
}
use apack.LayerDb.Layout.{Descriptor, Manifest}
use apack.Progress.Writers.{Writer, new_progress, check_all_completed}
use apack.Repo.Layers.{LayerStore}
use apack.Repo.World.{Local, System, with_store}
use apack.Repo.Loop.{by_digest, Job, first_failure-none, schedule}
use apack.Repo.Loop.Covered.{IsOrder, schedule-IsCovered, IsCovered}
use apack.Repo.Extract.{
  Streams, extract_to, extract_job, extract_jobs, layer_jobs, extract_layers, extract,
}

module _ (l : LayerStore) (st : Streams l) (os : System) where
  extract_job-fails :
      (dir : String) (ids : List String) (j : Job) (heap : List Writer)
      → (extract_job l st os dir ids j heap).1 ≢ none
  unfolding extract_job extract_to
  extract_job-fails dir ids j heap h = elim (Option-cases (get_elem? ids j.index)) [
    | inl p ↦ ground (arith, h, p)
    | inr (diffid, p) ↦ elim (Result-cases (st.content j.desc diffid)) [
      | inr (x, q) ↦ ground (arith, h, p, q)
      | inl (c, q) ↦ ground (arith, h, p, q)
    ]
  ]

  -- No goroutine succeeds.
  extract_jobs-fails :
      (dir : String) (ids : List String) (js : List Job) (heap : List Writer)
      → (extract_jobs l st os dir ids js heap).1 ≡ none
      → Every (λ _. ⊥) js
  unfolding extract_jobs
  extract_jobs-fails dir ids [] heap h = tt
  extract_jobs-fails dir ids (j ∷ js) heap h =
      let (k, e) = extract_job l st os dir ids j heap in
      let (first, _) = first_failure-none e (extract_jobs l st os dir ids js k).1 h in
      absurd (extract_job-fails dir ids j heap first)

  Every-none : (q : Job → Bool) (js : List Job) → Every (λ _. ⊥) js → any_of q js ≡ false
  Every-none q [] e = refl
  Every-none q (j ∷ js) (e, _) = absurd e

  -- Where every goroutine fails and none has, there was no layer.
  no_jobs :
      (ds : List Descriptor)
      → (schedule st.acquire (by_digest os) "extract" ds 0 [] new_progress).1.1 ≡ none
      → Every (λ _. ⊥) (schedule st.acquire (by_digest os) "extract" ds 0 [] new_progress).0
      → ds ≡ []
  no_jobs [] h e = refl
  no_jobs (d ∷ ds) h e =
      let js = (schedule st.acquire (by_digest os) "extract" (d ∷ ds) 0 [] new_progress).0 in
      let covered : Every (IsCovered st.acquire (by_digest os) "extract" [] js) (d ∷ ds) =
        schedule-IsCovered st.acquire (by_digest os) "extract" (d ∷ ds) 0 [] new_progress h in
      absurd (elim covered.0 [
        | inl met ↦ ground (arith, met)
        | inr has ↦ ground (arith, has, Every-none (λ j. str_eq j.desc.digest d.digest) js e)
      ])

  -- With no layer there is no writer, and the test of all writers fails.
  no_writers :
      (m : Manifest) (heap : List Writer)
      → m.layers ≡ []
      → check_all_completed
          (record (schedule st.acquire (by_digest os) "extract" m.layers 0 [] new_progress).1.0 {
            heap = heap;
          })
        ≡ false
  unfolding schedule check_all_completed
  no_writers m heap h = rw h refl

  module _ (order : List Job → List Job) (ordered : IsOrder order) where
    extract_layers-fails :
        (dir : String) (m : Manifest) (ids : List String)
        → extract_layers l st os order dir m ids ≢ none
    unfolding extract_layers
    extract_layers-fails dir m ids h =
        let (js, (q, sem)) = layer_jobs l st os order m in
        let (heap, e) = extract_jobs l st os dir ids (order js) q.heap in
        elim (Option-cases e) [
          | inr (x, p) ↦ ground (arith, h, p)
          | inl p ↦ elim (Option-cases sem) [
            | inr (x, g) ↦ ground (arith, h, p, g)
            | inl g ↦
                let empty =
                  (ordered (λ _. ⊥) js).1 (extract_jobs-fails dir ids (order js) q.heap p) in
                ground (arith, h, p, g, no_writers m heap (no_jobs m.layers g empty))
          ]
        ]

    -- With the goroutines in any order, an extraction never succeeds, whatever the store and the
    -- directory: a goroutine has no artifact in which to look its file up, and without a layer
    -- the test of all writers fails.
    pub extract_fails :
        (dir reference : String) (s : Local l) → extract l st os order dir reference s ≢ none
    unfolding extract
    extract_fails dir reference s h = elim (Result-cases (l.manifest s.db reference)) [
      | inr (x, p) ↦ ground (arith, h, p)
      | inl ((m, d), p) ↦ elim (Result-cases (with_store (l.read s.db m.config) >>= st.diff_ids)) [
        | inr (x, q) ↦ ground (arith, h, p, q)
        | inl (ids, q) ↦ extract_layers-fails dir m ids (ground (arith, h, p, q))
      ]
    ]
