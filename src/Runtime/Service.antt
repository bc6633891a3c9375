-- ===== src/Runtime/Service.antt =====
-- internal/runtime/runtime.go: `Run`, `Kill` and `Ps`. `Statuses` is what the service uses of the
-- local repository; the encoding of a state is generated code, a parameter.
pub mod Killed
pub mod Listed
pub mod Started
use apack.Base.{
  ℕ, zero, suc, ◌+◌, String, Bool, true, false, Option, none, some, List, [], ◌∷◌, ◌++◌, Result, ok,
  err, ◌>>=◌, Dict, insert, lookup, str_eq, if◌then◌else◌,
}
use apack.LayerDb.Layout.{Descriptor, Manifest, ref_name}
use apack.LayerDb.Engine.{Error}
use apack.Spec.Types.{Model}
use apack.Runtime.State.{State, States, StatusType, up, exited, created, update_status}
use apack.Runtime.Infer.{
  ℤ, pos, negsuc, Failure, of_store, no_models, index_out_of_range, runtime_not_found, no_ref,
  Params, Host, config_desc, Procs, spawning, status, stop, shortid,
}

pub record Distribution : Type 1 where
  pub Store : Type 0
  pub manifest : Store → String → Result Error (Manifest × Descriptor)
  pub state : Store → String → Descriptor → Result Error Store
  pub statuses : Store → Result Error (List Descriptor)

-- `unmarshal` reads into a state that may hold something.
pub record Codec : Type 0 where
  pub marshal : State → Result Failure (List ℕ)
  pub unmarshal : State → List ℕ → Result Failure State
  pub show : ℕ → String
  -- `:%d` of a port
  pub endpoint : ℤ → String

abbrev pub no_desc : Descriptor
no_desc = record {
  media_type = "";
  digest = "";
  size = 0;
  artifact_type = "";
  annotations = [];
  payload = [];
}

-- `&State{}`
abbrev pub no_state : State
no_state = record {
  id = "";
  model_image = "";
  create_at = 0;
  status = "";
  endpoints = [];
  names = [];
  desc = no_desc;
}

abbrev pub state_type : String
state_type = "org.opencontainers.runtime.state.v1+json"

abbrev pub ref_in : State → String
ref_in s = elim (lookup ref_name s.desc.annotations) [ none ↦ "" | some r ↦ r ]

module _ (d : Distribution) (h : Host) (c : Codec) where
  abbrev pub of_repo {ℓ} : {A : Type ℓ} → Result Error A → Result Failure A
  of_repo (ok a) = ok a
  of_repo (err x) = err (of_store x)

  abbrev pub state_desc : List ℕ → Descriptor
  state_desc b = record (config_desc h b state_type) { payload = b }

  module _ (pid_path log_path : String) where
    -- the store and the table of processes
    pub record World : Type 0 where
      pub store : d.Store
      pub procs : Procs h pid_path log_path

    abbrev pub first_model : Option (List Model) → Result Failure Model
    first_model none = err no_models
    first_model (some []) = err index_out_of_range
    first_model (some (m ∷ _)) = ok m

    abbrev chosen_port : ℤ → ℕ → ℤ
    chosen_port (pos n) p = pos n
    chosen_port (negsuc n) p = pos p

    abbrev pub requested : String → Model → Params → ℕ → Params
    requested path m params p1 = record params {
      id = m.id;
      model_path = h.join (path ∷ m.id ∷ []);
      port = chosen_port params.port p1;
    }

    -- `Run` up to the process that it makes
    unfoldable pub prepare :
        String
        → Option (List Model)
        → Params
        → Procs h pid_path log_path
        → Result Failure (Params × (Descriptor × (String × Procs h pid_path log_path)))
    unfolding spawning
    prepare path models params procs = do
      m ← first_model models
      p1 ← h.free_port
      _ ← h.second_port
      spawning h pid_path log_path (requested path m params p1) procs

    -- what `Run` records of a process that was started
    unfoldable pub record_run : ℕ → String → Params → Descriptor → d.Store → Result Failure d.Store
    unfolding update_status config_desc
    record_run now id params desc store = do
      _ ← of_repo (d.manifest store params.refer)
      b ← c.marshal (
          update_status c.show created now now (record {
            id = id;
            model_image = params.refer;
            create_at = now;
            status = "";
            endpoints = c.endpoint params.port ∷ ":--" ∷ [];
            names = [];
            desc = desc;
          }))
      of_repo (d.state store params.refer (state_desc b))

    -- The deferred call has its argument from before, where the error is nil: it does nothing.
    unfoldable pub run : ℕ → String → Option (List Model) → Params → World → World × Option Failure
    unfolding prepare record_run
    run now path models params w = elim (prepare path models params w.procs) [
      | err x ↦ (w, some x)
      | ok (q, (desc, (id, procs))) ↦ elim (lookup id procs) [
        | none ↦ (record w { procs = procs }, none)
        | some proc ↦
            let (p, e) = h.exec proc in
            let t = record w { procs = insert id p procs } in
            elim e [
              | some x ↦ (t, some x)
              | none ↦ elim (record_run now id q desc w.store) [
                | err x ↦ (t, some x)
                | ok store ↦ (record t { store = store }, none)
              ]
            ]
      ]
    ]

    -- The loop of `Kill`: one state for all statuses, and the last reference that was found.
    unfoldable pub find_state :
        String → List Descriptor → State → Option String → Result Failure (State × Option String)
    find_state id [] st found = ok (st, found)
    find_state id (s ∷ ss) st found = elim (c.unmarshal st s.payload) [
      | err x ↦ err x
      | ok next ↦ find_state id ss next (if str_eq next.id id then some (ref_in next) else found)
    ]

    abbrev pub the_ref : String → Option String → Result Failure String
    the_ref id none = err (runtime_not_found id)
    the_ref id (some r) = if str_eq r "" then err no_ref else ok r

    unfoldable pub record_kill : ℕ → String → d.Store → Result Failure d.Store
    unfolding find_state update_status config_desc
    record_kill now id store = do
      ss ← of_repo (d.statuses store)
      found ← find_state id ss no_state none
      ref ← the_ref id found.1
      b ← c.marshal (update_status c.show exited found.0.create_at now found.0)
      of_repo (d.state store ref (record (state_desc b) { annotations = (ref_name, ref) ∷ [] }))

    unfoldable pub kill : ℕ → String → World → World × Option Failure
    unfolding stop record_kill
    kill now id w =
        let (procs, e) = stop h pid_path log_path id w.procs in
        let t = record w { procs = procs } in
        elim e [
          | some x ↦ (t, some x)
          | none ↦ elim (record_kill now id w.store) [
            | err x ↦ (t, some x)
            | ok store ↦ (record t { store = store }, none)
          ]
        ]

    abbrev pub refreshed : ℕ → h.Proc → State → State
    refreshed now p st =
        update_status c.show (if h.is_running p then up else exited) st.create_at now st

    -- The loop of `Ps`, with the states listed so far in `seen`.
    unfoldable pub list_states :
        ℕ
        → Procs h pid_path log_path
        → List Descriptor
        → d.Store
        → States
        → d.Store × Result Failure States
    unfolding status update_status config_desc
    list_states now procs [] store seen = (store, ok seen)
    list_states now procs (s ∷ ss) store seen = elim (c.unmarshal no_state s.payload) [
      | err x ↦ (store, err x)
      | ok st ↦ elim (status h pid_path log_path st.id procs) [
        | none ↦ list_states now procs ss store seen
        | some p ↦
            let fresh = refreshed now p st in
            elim (c.marshal fresh) [
              | err x ↦ (store, err x)
              | ok b ↦ elim (of_repo (d.state store fresh.model_image (state_desc b))) [
                | err x ↦ (store, err x)
                | ok next ↦
                    list_states now procs ss next
                      (record { count = suc seen.count; items = seen.items ++ fresh ∷ [] })
              ]
            ]
      ]
    ]

    unfoldable pub ps : ℕ → World → World × Result Failure States
    unfolding list_states
    ps now w = elim (of_repo (d.statuses w.store)) [
      | err x ↦ (w, err x)
      | ok ss ↦
          let (store, r) = list_states now w.procs ss w.store (record { count = 0; items = [] }) in
          (record w { store = store }, r)
    ]
