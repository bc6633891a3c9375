-- ===== src/LayerDb/Gc.antt =====
-- The garbage collector of pkg/layerdb/layerdb.go: `GC`, `NewGC`, `RunGC`, the tri-colour marks and
-- `scaling`. A nil dereference is the error `nil_pointer`, at the place where Go would panic.
pub mod Sweep
pub mod Effect
use apack.Base.{
  String, Bool, true, false, Option, none, some, List, [], ◌∷◌, ◌++◌, Result, ok, err, ◌>>=◌, Dict,
  lookup, insert, if◌then◌else◌,
}
use apack.LayerDb.Layout.{Descriptor, Manifest, ref_of, deleted_name, snapshot_name}
use apack.LayerDb.Engine.{Engine, Error, nil_pointer, blob_key}
use apack.LayerDb.Kv
use apack.LayerDb.Store
use apack.LayerDb.Store.{read_index}

pub data Policy : Type 0 where
  only_delete reserve_running clean_out : Policy

pub data Color : Type 0 where
  white gray black : Color

-- The descriptors by their layer kind, the candidates and the references, as
-- `identifyDeletionCandidates` collects them.
pub record Marks : Type 0 where
  pub content : List Descriptor
  pub other : List Descriptor
  pub candidates : List Descriptor
  pub refs : List String

abbrev no_marks : Marks
no_marks = record { content = []; other = []; candidates = []; refs = [] }

-- whether the policy keeps the layers of an entry
unfoldable pub keeps : Policy → Descriptor → Bool
keeps only_delete d = elim (lookup deleted_name d.annotations) [ none ↦ true | some _ ↦ false ]
keeps reserve_running d = elim (lookup snapshot_name d.annotations) [ none ↦ false | some _ ↦ true ]
keeps clean_out d = false

unfoldable pub mark : Policy → Descriptor → String → Manifest → Marks → Marks
unfolding keeps
mark p d r m k = record {
  content = if keeps p d then k.content ++ m.layers else k.content;
  other = k.other ++ m.config ∷ d ∷ [];
  candidates = if keeps p d then k.candidates else k.candidates ++ m.layers;
  refs = k.refs ++ r ∷ [];
}

-- One entry: it is passed over if it has no reference, or if its manifest cannot be found.
mark_found : Policy → Descriptor → String → Marks → Result Error (Manifest × Descriptor) → Marks
mark_found p d r k (ok (m, _)) = mark p d r m k
mark_found p d r k (err _) = k

identify_entry :
    (String → Result Error (Manifest × Descriptor)) → Policy → Marks → Descriptor → Marks
unfolding mark_found
identify_entry find p k d = elim (ref_of d) [ none ↦ k | some r ↦ mark_found p d r k (find r) ]

unfoldable pub identify_entries :
    (String → Result Error (Manifest × Descriptor)) → Policy → Marks → List Descriptor → Marks
unfolding mark identify_entry
identify_entries find p k [] = k
identify_entries find p k (d ∷ ds) = identify_entries find p (identify_entry find p k d) ds

-- `sweep`: the keys of the live nodes are black; a candidate whose key is in the pool turns gray,
-- and any other turns white and is returned.
blacken : (Descriptor → String) → List Descriptor → Dict Color → Dict Color
blacken key [] pool = pool
blacken key (d ∷ ds) pool = blacken key ds (insert (key d) black pool)

whiten :
    (Descriptor → String)
    → List Descriptor
    → Dict Color
    → List Descriptor
    → List Descriptor × Dict Color
whiten key [] pool out = (out, pool)
whiten key (d ∷ ds) pool out = elim (lookup (key d) pool) [
  | some _ ↦ whiten key ds (insert (key d) gray pool) out
  | none ↦ whiten key ds (insert (key d) white pool) (out ++ d ∷ [])
]

unfoldable pub sweep :
    (Descriptor → String) → List Descriptor → List Descriptor → List Descriptor × Dict Color
unfolding blacken whiten
sweep key live candidates = whiten key candidates (blacken key live []) []

module _ (e : Engine) where
  pub record Db : Type 0 where
    pub bolt : e.Bolt
    pub objects : e.Objects

  pub record Gc : Type 0 where
    pub policy : Policy
    pub dry_run : Bool
    pub db : Option Db

  -- `NewGC` stores the options and leaves the store out.
  unfoldable pub new_gc : Db → Policy → Bool → Gc
  new_gc d p dry = record { policy = p; dry_run = dry; db = none }

  unfoldable pub identify : Policy → e.Bolt → Result Error Marks
  identify p s = do
    i ← read_index e s
    ok (identify_entries (Store.manifest e s) p no_marks i.manifests)

  -- The two loops of `scaling`: what was deleted before an error stays deleted.
  unfoldable pub delete_objects : List Descriptor → e.Objects → Result Error (Unit {0}) × e.Objects
  delete_objects [] o = (ok tt, o)
  delete_objects (d ∷ ds) o = elim (e.delete_object o (blob_key e d)) [
    | ok p ↦ delete_objects ds p
    | err x ↦ (err x, o)
  ]

  unfoldable pub delete_blobs : List Descriptor → e.Bolt → Result Error (Unit {0}) × e.Bolt
  delete_blobs [] s = (ok tt, s)
  delete_blobs (d ∷ ds) s = elim (Kv.delete_if_exists e s (blob_key e d)) [
    | ok t ↦ delete_blobs ds t
    | err x ↦ (err x, s)
  ]

  unlink_after : Result Error (Unit {0}) × e.Bolt → List String → Result Error (Unit {0}) × e.Bolt
  unlink_after (err x, s) refs = (err x, s)
  unlink_after (ok _, s) refs = elim (Store.unlink e s refs) [
    | ok t ↦ (ok tt, t)
    | err x ↦ (err x, s)
  ]

  blobs_after :
      Result Error (Unit {0}) × e.Objects
      → e.Bolt
      → List Descriptor
      → List String
      → Result Error (Unit {0}) × Db
  blobs_after (err x, o) s other refs = (err x, record { bolt = s; objects = o })
  blobs_after (ok _, o) s other refs =
      let (r, t) = unlink_after (delete_blobs other s) refs in (r, record { bolt = t; objects = o })

  unfoldable pub scaling :
      List Descriptor → List Descriptor → List String → Db → Result Error (Unit {0}) × Db
  unfolding unlink_after blobs_after
  scaling content other refs d = blobs_after (delete_objects content d.objects) d.bolt other refs

  -- `RunGC`. The sweep stores its result in a slice of its own, so the nodes that `scaling` gets are
  -- still the content layers that were marked live.
  collect_with : Policy → Db → Result Error Marks → Result Error (Unit {0}) × Db
  collect_with p d (err x) = (err x, d)
  collect_with p d (ok k) =
      let swept = sweep (blob_key e) k.content k.candidates in scaling k.content k.other k.refs d

  -- What a collector without a store reads is a nil pointer; the store that `d` is stays as it is.
  unfoldable pub run_gc : Gc → Db → Result Error (Unit {0}) × Db
  unfolding collect_with
  run_gc g d = elim g.db [
    | none ↦ (err nil_pointer, d)
    | some own ↦ collect_with g.policy own (identify g.policy own.bolt)
  ]

  -- The `GC` method of the store.
  unfoldable pub gc : Db → Result Error (Unit {0}) × Db
  unfolding new_gc run_gc
  gc d = run_gc (new_gc d only_delete false) d
