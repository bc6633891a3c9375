-- ===== src/Repo/Statuses.antt =====
-- `State` and `Statuses` of internal/repo/local.go, over the raw bucket of pkg/layerdb/layerdb.go
-- (`raw.Put` and `raw.ForEach`): what internal/runtime uses of the local repository.
use apack.Base.{String, List, [], ◌∷◌, ◌++◌, Result, ok, err, ◌>>=◌}
use apack.LayerDb.Layout.{Descriptor}
use apack.LayerDb.Engine.{Engine, Error}
use apack.LayerDb.Kv
use apack.LayerDb.Store
use apack.Runtime.Service.{Distribution}

-- The bucket of the layers and the raw one, and easyjson's encoding of a descriptor.
module _ (e : Engine) (marshal : Descriptor → Result Error e.Bytes)
    (unmarshal : e.Bytes → Result Error Descriptor) where
  unfoldable pub state : e.Bolt → String → Descriptor → Result Error e.Bolt
  state raw reference d = do b ← marshal d; Kv.put e raw reference b

  unfoldable pub statuses : e.Bolt → Result Error (List Descriptor)
  statuses raw = Kv.for_each e raw (λ _ value ds. unmarshal value >>= λ d. ok (ds ++ d ∷ [])) []

  abbrev on_raw : e.Bolt → Result Error e.Bolt → Result Error (e.Bolt × e.Bolt)
  on_raw db (ok raw) = ok (db, raw)
  on_raw db (err x) = err x

  abbrev pub repository : Distribution
  repository = record {
    Store = e.Bolt × e.Bolt;
    manifest = λ s reference. Store.manifest e s.0 reference;
    state = λ s reference d. on_raw s.0 (state s.1 reference d);
    statuses = λ s. statuses s.1;
  }
