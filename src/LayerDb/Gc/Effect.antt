-- ===== src/LayerDb/Gc/Effect.antt =====
-- What a collection does: which layers it marks, and which objects it deletes.
use apack.Base.{
  String, ◌≡◌, sym, Bool, true, false, not, none, some, List, [], ◌∷◌, ◌++◌, Result, ok, err,
  Result-cases, arith, if◌then◌else◌, append-nil, append_assoc, Option-cases, Bool-cases, inl, inr,
}
use apack.LayerDb.Layout.{Descriptor, Manifest, ref_of}
use apack.LayerDb.Engine.{Engine, IsLawful, Error, blob_key}
use apack.LayerDb.Gc.{
  Policy, Marks, keeps, mark, identify_entry, identify_entries, Db, run_gc, identify, scaling,
  delete_objects, blobs_after,
}
use apack.LayerDb.Gc.Sweep.{has_key}

module _ (find : String → Result Error (Manifest × Descriptor)) (p : Policy) where
  layers_found : Result Error (Manifest × Descriptor) → List Descriptor
  layers_found (ok (m, _)) = m.layers
  layers_found (err _) = []

  -- the layers of the manifest that the entry's reference finds
  pub layers_of : Descriptor → List Descriptor
  unfolding layers_found
  layers_of d = elim (ref_of d) [ none ↦ [] | some r ↦ layers_found (find r) ]

  -- the layers of the entries that the policy keeps, or of the others
  pub gather : Bool → List Descriptor → List Descriptor
  gather kept [] = []
  gather kept (d ∷ ds) =
      (if (if kept then keeps p d else not (keeps p d)) then layers_of d else []) ++ gather kept ds

  identify_entry-content :
      (k : Marks) (d : Descriptor)
      → ((identify_entry find p k d).content ≡ k.content ++ (if keeps p d then layers_of d else []))
        × ((identify_entry find p k d).candidates
            ≡ k.candidates ++ (if keeps p d then [] else layers_of d))
  unfolding identify_entry mark layers_of
  identify_entry-content k d = elim (Option-cases (ref_of d)) [
    | inl p ↦ ground (arith, p, append-nil k.content, append-nil k.candidates)
    | inr (r, q) ↦ elim (Result-cases (find r)) [
      | inl (x, g) ↦ ground (arith, q, g, append-nil k.content, append-nil k.candidates)
      | inr (x, g) ↦ ground (arith, q, g, append-nil k.content, append-nil k.candidates)
    ]
  ]

  -- What identifyDeletionCandidates adds to what was collected, in the order of the index: as
  -- content the layers of the entries that the policy keeps, as candidates those of the entries
  -- that it does not.
  pub identify_entries-eq-gather :
      (k : Marks) (ds : List Descriptor)
      → ((identify_entries find p k ds).content ≡ k.content ++ gather true ds)
        × ((identify_entries find p k ds).candidates ≡ k.candidates ++ gather false ds)
  unfolding identify_entries gather
  identify_entries-eq-gather k [] = (sym (append-nil k.content), sym (append-nil k.candidates))
  identify_entries-eq-gather k (d ∷ ds) =
      let (a, b) = identify_entry-content k d in
      let (c, f) = identify_entries-eq-gather (identify_entry find p k d) ds in
      elim (Bool-cases (keeps p d)) [
        | inl kept ↦ (
          ground (arith, kept, a, c, append_assoc k.content (layers_of d) (gather true ds)),
          ground (arith, kept, b, f, append-nil k.candidates),
        )
        | inr dropped ↦ (
          ground (arith, dropped, a, c, append-nil k.content),
          ground (arith, dropped, b, f, append_assoc k.candidates (layers_of d) (gather false ds)),
        )
      ]

module _ (e : Engine) (lawful : IsLawful e) where
  -- A loop over objects that ends without an error has deleted theirs and no other.
  pub delete_objects-exists :
      (ds : List Descriptor) (o p : e.Objects) (j : String)
      → delete_objects e ds o ≡ (ok tt, p)
      → e.object_exists p j ≡ (if has_key (blob_key e) j ds then ok false else e.object_exists o j)
  unfolding delete_objects
  delete_objects-exists [] o p j h = ground arith
  delete_objects-exists (d ∷ ds) o p j h = elim (Result-cases (e.delete_object o (blob_key e d))) [
    | inl (q, g) ↦
        let rest = delete_objects-exists ds q p j (ground (arith, h, g)) in
        ground (arith, rest, lawful.exists-delete o q (blob_key e d) j g)
    | inr (x, g) ↦ absurd (ground (arith, h, g))
  ]

  blobs_after-objects :
      (r : Result Error (Unit {0}) × e.Objects) (s : e.Bolt) (other : List Descriptor)
      (refs : List String) (d' : Db e)
      → blobs_after e r s other refs ≡ (ok tt, d')
      → r ≡ (ok tt, d'.objects)
  unfolding blobs_after
  blobs_after-objects (ok u, o) s other refs d' h = ground (arith, h)
  blobs_after-objects (err x, o) s other refs d' h = ground (arith, h)

  scaling-objects :
      (content other : List Descriptor) (refs : List String) (d d' : Db e)
      → scaling e content other refs d ≡ (ok tt, d')
      → delete_objects e content d.objects ≡ (ok tt, d'.objects)
  unfolding scaling
  scaling-objects content other refs d d' h =
      blobs_after-objects (delete_objects e content d.objects) d.bolt other refs d' h

  -- A collection by a collector that has its store, on a store whose marks can be made, if it
  -- ends without an error, has deleted the objects of the layers that it marked as live, and no
  -- other.
  pub run_gc-objects :
      (p : Policy) (own d d' : Db e) (k : Marks) (j : String)
      → identify e p own.bolt ≡ ok k
      → run_gc e (record { policy = p; dry_run = false; db = some own }) d ≡ (ok tt, d')
      → e.object_exists d'.objects j
        ≡ (if has_key (blob_key e) j k.content then ok false else e.object_exists own.objects j)
  unfolding run_gc
  run_gc-objects p own d d' k j marks h =
      delete_objects-exists k.content own.objects d'.objects j
        (scaling-objects k.content k.other k.refs own d' (ground (arith, h, marks)))
