-- ===== src/Runtime/Service/Listed.antt =====
-- What `Ps` lists.
use apack.Base.{ℕ, String, none, some, List, [], ◌∷◌, Result, ok, ◌>>=◌}
use apack.LayerDb.Layout.{Descriptor}
use apack.Runtime.State.{State}
use apack.Runtime.Infer.{Failure, Host, Procs, status}
use apack.Runtime.Service.{Distribution, Codec, no_state, refreshed}

module _ (d : Distribution) (h : Host) (c : Codec) (pid_path log_path : String) where
  -- each status read into a new state
  abbrev pub read_all : List Descriptor → Result Failure (List State)
  read_all [] = ok []
  read_all (s ∷ ss) = do t ← c.unmarshal no_state s.payload; ts ← read_all ss; ok (t ∷ ts)

  -- the states that have a process, with what it does
  abbrev pub current : ℕ → Procs h pid_path log_path → List State → List State
  current now procs [] = []
  current now procs (t ∷ ts) = elim (status h pid_path log_path t.id procs) [
    | none ↦ current now procs ts
    | some p ↦ refreshed d h c pid_path log_path now p t ∷ current now procs ts
  ]
