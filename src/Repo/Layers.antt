-- ===== src/Repo/Layers.antt =====
-- What internal/repo/local.go uses of `layerdb.DB`: the operations, and the laws that its theorems
-- rely on. `stored` is the manifest that a descriptor's blob holds.
pub mod FromDb
use apack.Base.{String, ◌≡◌, Bool, true, false, Option, List, Result, ok}
use apack.LayerDb.Layout.{Descriptor, Manifest}
use apack.LayerDb.Entries.{tagged}
use apack.LayerDb.Engine.{Error}

pub record LayerStore : Type 1 where
  pub State : Type 0
  pub Blob : Type 0
  pub exists : State → Descriptor → Result Error Bool
  pub set : State → Descriptor → Blob → Result Error State
  pub write : State → Descriptor → Blob → Result Error State
  pub read : State → Descriptor → Result Error (Option Blob)
  pub index : State → String → Descriptor → Result Error State
  pub copy : State → String → String → Result Error State
  pub snap : State → String → Result Error State
  pub manifest : State → String → Result Error (Manifest × Descriptor)
  pub manifests : State → Result Error (List (Manifest × String))
  pub is_digest : String → Bool
  pub decode : Blob → Result Error Manifest
  pub stored : State → Descriptor → Result Error Manifest
  -- the digests of the index are valid, and its manifests can be read
  pub IsReadable : State → Type 0

pub record IsLayerStore (l : LayerStore) : Type 0 where
  pub exists-digest :
      (s : l.State) (c d : Descriptor) → c.digest ≡ d.digest → l.exists s c ≡ l.exists s d
  pub stored-digest :
      (s : l.State) (c d : Descriptor) → c.digest ≡ d.digest → l.stored s c ≡ l.stored s d
  pub exists-set :
      (s t : l.State) (d : Descriptor) (v : l.Blob) → l.set s d v ≡ ok t → l.exists t d ≡ ok true
  pub exists-set_other :
      (s t : l.State) (c d : Descriptor) (v : l.Blob)
      → l.set s d v ≡ ok t
      → l.exists s c ≡ ok true
      → l.exists t c ≡ ok true
  pub stored-set :
      (s t : l.State) (d : Descriptor) (v : l.Blob) → l.set s d v ≡ ok t → l.stored t d ≡ l.decode v
  -- a blob that was not there has been none of the manifests that could be read
  pub stored-set_other :
      (s t : l.State) (c d : Descriptor) (v : l.Blob) (m : Manifest)
      → l.exists s d ≡ ok false
      → l.set s d v ≡ ok t
      → l.stored s c ≡ ok m
      → l.stored t c ≡ ok m
  pub set-IsReadable :
      (s t : l.State) (d : Descriptor) (v : l.Blob)
      → l.is_digest d.digest ≡ true
      → l.exists s d ≡ ok false
      → l.set s d v ≡ ok t
      → l.IsReadable s
      → l.IsReadable t
  pub exists-index :
      (s t : l.State) (r : String) (c d : Descriptor)
      → l.index s r d ≡ ok t
      → l.exists s c ≡ ok true
      → l.exists t c ≡ ok true
  pub manifest-index :
      (s t : l.State) (r : String) (d : Descriptor) (m : Manifest)
      → l.IsReadable s
      → l.is_digest d.digest ≡ true
      → l.stored s d ≡ ok m
      → l.index s r d ≡ ok t
      → l.manifest t r ≡ ok (m, tagged r d)
