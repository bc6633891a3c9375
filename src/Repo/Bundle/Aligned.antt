-- ===== src/Repo/Bundle/Aligned.antt =====
-- The layers of a bundle and the digests of its configuration.
use apack.Base.{
  ℕ, String, ◌≡◌, ◌⊎◌, refl, sym, ap, ◌∙◌, Bool, not, map, append-nil, append_assoc, Option, none,
  some, List, [], ◌∷◌, ◌++◌, ok, get_elem?, length, keep_if, str_eq, arith, Bool-cases,
  Option-cases, Result-cases, inl, inr,
}
use apack.LayerDb.Layout.{Descriptor}
use apack.Task.Manager.{Manager}
use apack.Progress.Writers.{Writer, Log, Progress, new_writer, add, mark_completed, write_all}
use apack.Repo.Layers.{LayerStore}
use apack.Repo.World.{Failure, of_store, System}
use apack.Repo.Loop.{first_failure-none}
use apack.Repo.Bundle.{
  Content, Makefile, Job, Bundled, start_jobs, dressed, on_writer, add_layer, layered, bundle_layer,
  bundle_jobs,
}

abbrev pub has_path : Content → Bool
has_path c = not (str_eq c.path "")

-- A list has as many jobs of each kind as another.
abbrev pub IsShuffle : (List Job → List Job) → Type 0
IsShuffle order =
    (q : Job → Bool) (js : List Job) → length (keep_if q (order js)) ≡ length (keep_if q js)

abbrev pub contents_of : List Job → List Content
contents_of js = map (λ j. j.content) js

length-keep_if-map :
    (q : Content → Bool) (js : List Job)
    → length (keep_if q (contents_of js)) ≡ length (keep_if (λ j. q j.content) js)
length-keep_if-map q [] = refl
length-keep_if-map q (j ∷ js) = elim (Bool-cases (q j.content)) [
  | inl p ↦ ground (arith, p, length-keep_if-map q js)
  | inr p ↦ ground (arith, p, length-keep_if-map q js)
]

module _ (l : LayerStore) (mf : Makefile l) (os : System) where
  -- the layer and the digest that are made of a content
  abbrev pub IsMade : Content → Descriptor → String → Type 0
  IsMade c d x = (b : Descriptor) × ((mf.layering c).result ≡ ok (b, x)) × (d ≡ dressed l mf os c b)

  -- each content with its layer and its digest
  abbrev pub IsAligned : List Content → List Descriptor → List String → Type 0
  IsAligned [] [] [] = Unit {0}
  IsAligned (c ∷ cs) (d ∷ ds) (x ∷ xs) = IsMade c d x × IsAligned cs ds xs
  IsAligned _ _ _ = ⊥

  IsAligned-append :
      (cs : List Content) (ds : List Descriptor) (xs : List String) (c : Content) (d : Descriptor)
      (x : String)
      → IsAligned cs ds xs
      → IsMade c d x
      → IsAligned (cs ++ c ∷ []) (ds ++ d ∷ []) (xs ++ x ∷ [])
  IsAligned-append [] [] [] c d x a made = (made, tt)
  IsAligned-append [] [] (y ∷ ys) c d x a made = absurd a
  IsAligned-append [] (e ∷ es) ys c d x a made = absurd a
  IsAligned-append (b ∷ bs) [] ys c d x a made = absurd a
  IsAligned-append (b ∷ bs) (e ∷ es) [] c d x a made = absurd a
  IsAligned-append (b ∷ bs) (e ∷ es) (y ∷ ys) c d x (first, a) made =
      (first, IsAligned-append bs es ys c d x a made)

  -- a job for each content with a path, in their order, unless the loop was left
  pub start_jobs-contents :
      (diff : String) (files : _) (cs : List Content) (p : Progress)
      → (start_jobs l mf os diff files cs p).1.1 ≡ none
      → contents_of (start_jobs l mf os diff files cs p).0 ≡ keep_if has_path cs
  unfolding start_jobs
  start_jobs-contents diff files [] p h = refl
  start_jobs-contents diff files (c ∷ cs) p h = elim (Bool-cases (str_eq c.path "")) [
    | inl e ↦ ground (arith, e, start_jobs-contents diff files cs p (ground (arith, h, e)))
    | inr e ↦ elim (Option-cases (mf.acquire c)) [
      | inr (x, f) ↦ absurd (ground (arith, h, e, f))
      | inl f ↦ ground (
        arith,
        e,
        f,
        start_jobs-contents diff files cs (add (new_writer "bundle" c.name c.size) p)
            (ground (arith, h, e, f)),
      )
    ]
  ]

  module _ (task_id : String) (m : Manager) (now : ℕ) where
    on_writer-layers :
        (i : ℕ) (f : Writer × Log → Writer × Log) (s : Bundled l)
        → ((on_writer l mf os task_id m now i f s).layers ≡ s.layers)
          × ((on_writer l mf os task_id m now i f s).diff_ids ≡ s.diff_ids)
    on_writer-layers i f s = elim (Option-cases (get_elem? s.heap i)) [
      | inl p ↦ (ground (arith, p), ground (arith, p))
      | inr (w, p) ↦ (ground (arith, p), ground (arith, p))
    ]

    -- A goroutine fails, or adds to the two lists what it made of its content.
    abbrev IsAdded : Content → Bundled l → Bundled l → Option Failure → Type 0
    IsAdded c s t e =
        ((x : Failure) × (e ≡ some x))
        ⊎ ((b : Content) × (b ≡ c)
            × (d : Descriptor) × (x : String) × IsMade b d x
            × (t.layers ≡ s.layers ++ d ∷ [])
            × (t.diff_ids ≡ s.diff_ids ++ x ∷ []))

    add_layer-IsAdded :
        (j : Job) (d : Descriptor) (x : String) (s u : Bundled l)
        → (mf.layering j.content).result ≡ ok (d, x)
        → u.layers ≡ s.layers
        → u.diff_ids ≡ s.diff_ids
        → let (t, e) = add_layer l mf os task_id m now j d x u in IsAdded j.content s t e
    add_layer-IsAdded j d x s u made p q =
        let layer = dressed l mf os j.content d in
        elim (Result-cases (l.set u.local.db layer (mf.blob_of []))) [
          | inr (y, e) ↦ inl (of_store y, ground (arith, e))
          | inl (db, e) ↦
              let t : Bundled l = record u {
                local = record u.local { db = db };
                layers = u.layers ++ layer ∷ [];
                diff_ids = u.diff_ids ++ x ∷ [];
              } in
              let (v, w) = on_writer-layers j.writer (mark_completed task_id m now) t in
              inr (
                j.content,
                refl,
                layer,
                x,
                (d, made, refl),
                ground (arith, e, p, v),
                ground (arith, e, q, w),
              )
        ]

    bundle_layer-IsAdded :
        (j : Job) (s : Bundled l)
        → let (t, e) = bundle_layer l mf os task_id m now j s in IsAdded j.content s t e
    unfolding bundle_layer
    bundle_layer-IsAdded j s =
        let c = mf.layering j.content in
        let (p, q) = on_writer-layers j.writer (write_all task_id m now c.reads) s in
        elim (Option-cases j.snap) [
          | inl f ↦ elim (Result-cases c.result) [
            | inr (x, g) ↦ rw (f, bundle_layer, g) (inl (x, refl))
            | inl ((d, x), g) ↦
                rw (f, bundle_layer, g)
                  (add_layer-IsAdded j d x s (layered l mf os task_id m now j s) g p q)
          ]
          | inr (dir, f) ↦
              elim (Option-cases (os.open_file (os.join dir (mf.base j.content.path)))) [
                | inr (x, g) ↦ rw (f, bundle_layer, g) (inl (x, refl))
                | inl g ↦ elim (Result-cases c.result) [
                  | inr (x, h) ↦ rw (f, bundle_layer, g, h) (inl (x, refl))
                  | inl ((d, x), h) ↦
                      elim (Option-cases (
                        mf.rename (os.join dir (mf.base j.content.path))
                          (os.join dir j.content.id))) [
                            | inr (y, i) ↦ rw (f, bundle_layer, g, h, i) (inl (y, refl))
                            | inl i ↦
                                rw (f, bundle_layer, g, h, i) (add_layer-IsAdded j d x s _ h p q)
                          ]
                ]
              ]
        ]

    IsAdded-IsAligned :
        (cs : List Content) (c : Content) (s t : Bundled l)
        → IsAdded c s t none
        → IsAligned cs s.layers s.diff_ids
        → IsAligned (cs ++ c ∷ []) t.layers t.diff_ids
    IsAdded-IsAligned cs c s t (inl (x, e)) a = absurd (ground (arith, e))
    IsAdded-IsAligned cs c s t (inr (b, same, d, x, made, p, q)) a =
        rw (p, q, ← same) (IsAligned-append cs s.layers s.diff_ids b d x a made)

    pub bundle_jobs-IsAligned :
        (js : List Job) (s : Bundled l) (cs : List Content)
        → IsAligned cs s.layers s.diff_ids
        → (bundle_jobs l mf os task_id m now js s).1 ≡ none
        → let (t, e) = bundle_jobs l mf os task_id m now js s in
          IsAligned (cs ++ contents_of js) t.layers t.diff_ids
    unfolding bundle_jobs
    bundle_jobs-IsAligned [] s cs a h = rw (append-nil cs) a
    bundle_jobs-IsAligned (j ∷ js) s cs a h =
        let (t, e) = bundle_layer l mf os task_id m now j s in
        let (first, rest) = first_failure-none e (bundle_jobs l mf os task_id m now js t).1 h in
        let effect : IsAdded j.content s t e = bundle_layer-IsAdded j s in
        rw (← append_assoc cs (j.content ∷ []) (contents_of js)) (
          bundle_jobs-IsAligned js t (cs ++ j.content ∷ [])
            (IsAdded-IsAligned cs j.content s t (rw first at effect) a) rest)

    -- The jobs in another order are made of the same contents, each as often.
    pub count-IsShuffle :
        (order : List Job → List Job) (js : List Job) (cs : List Content)
        → IsShuffle order
        → contents_of js ≡ cs
        → (q : Content → Bool) → length (keep_if q (contents_of (order js))) ≡ length (keep_if q cs)
    count-IsShuffle order js cs shuffle e q =
        length-keep_if-map q (order js)
        ∙ shuffle (λ j. q j.content) js
        ∙ sym (length-keep_if-map q js)
        ∙ ap (λ cs. length (keep_if q cs)) e
