-- ===== src/Runtime/Tests.antt =====
-- Two running models, and the theorems about their service applied to them.
use apack.Base.{
  ℕ, zero, String, ◌≡◌, refl, Bool, true, false, Option, none, some, [], ◌∷◌, map, Result, ok, err,
  Dict, insert, lookup,
}
use apack.LayerDb.Layout.{Descriptor, ref_name}
use apack.LayerDb.Tests.Sample.{manifest_a}
use apack.Spec.Types.{Model}
use apack.Runtime.State.{State, States, update_status}
use apack.Runtime.Infer.{
  pos, negsuc, Failure, fault, Params, Host, config_desc, spawning, validate, shortid, status, stop,
}
use apack.Runtime.Service.{
  Distribution, Codec, World, no_desc, no_state, find_state, record_kill, kill, ps, prepare, run,
}
use apack.Runtime.Service.Killed.{IsRecorded, kill-last_state}
use apack.Runtime.Service.Started.{run-status}

abbrev repository : Distribution
repository = record {
  Store = Dict Descriptor;
  manifest = λ s r. ok (manifest_a, no_desc);
  state = λ s r d. ok (insert r d s);
  statuses = λ s. ok (map (λ e. e.1) s);
}

abbrev state : String → String → State
state id ref = record no_state {
  id = id;
  model_image = ref;
  desc = record no_desc { annotations = (ref_name, ref) ∷ [] };
}

-- A state is written as one number, which tells which model it is of.
abbrev codec : Codec
codec = record {
  marshal = λ s. ok (s.create_at ∷ []);
  unmarshal = λ old b. elim b [
    | [] ↦ err (fault 1)
    | n ∷ _ ↦
        ok (record (elim n [ zero ↦ state "a" "ref-a" | _ ↦ state "b" "ref-b" ]) { create_at = n })
  ];
  show = λ n. "n";
  endpoint = λ p. ":1";
}

abbrev host : Host
host = record {
  Proc = Bool;
  make = λ p. false;
  exec = λ p. (true, some (fault 7));
  kill = λ p. (false, none);
  is_running = λ p. p;
  join = λ ps. "path";
  marshal_params = λ p. ok [];
  digest_of = λ b. "digest";
  free_port = ok 8080;
  second_port = ok 8081;
}

abbrev status_desc : ℕ → Descriptor
status_desc n = record no_desc { payload = n ∷ [] }

abbrev two_models : World repository host codec "pids" "logs"
two_models = record {
  store = ("ref-a", status_desc 0) ∷ ("ref-b", status_desc 1) ∷ [];
  procs = ("a", true) ∷ [];
}

abbrev killed : World repository host codec "pids" "logs" × Option Failure
killed = kill repository host codec "pids" "logs" 5 "a" two_models

-- The state of `b` is written under the reference of `a`.
kill-last_state_example : IsRecorded repository host codec "pids" "logs" 5 "a" two_models.store (
    (
      "ref-a",
      record (config_desc host (1 ∷ []) "org.opencontainers.runtime.state.v1+json") {
        payload = 1 ∷ [];
        annotations = (ref_name, "ref-a") ∷ [];
      },
    )
    ∷ ("ref-b", status_desc 1)
    ∷ [])
unfolding kill stop record_kill find_state update_status config_desc lookup insert
kill-last_state_example =
    kill-last_state repository host codec "pids" "logs" 5 "a" two_models killed.0 refl

abbrev listed : World repository host codec "pids" "logs" × Result Failure States
listed = ps repository host codec "pids" "logs" 5 two_models

abbrev states : States
states = record { count = 1; items = record (state "a" "ref-a") { status = "Up just now" } ∷ [] }

abbrev model : Model
model = record {
  id = "0123456789abcdef";
  name = "m";
  model_type = "";
  path = "m.gguf";
  size = 1;
  license = "";
  description = "";
}

abbrev params : Params
params = record {
  id = "";
  executable_path = "";
  model_path = "";
  log_file = "";
  pid_file = "";
  port = negsuc 0;
  threads = pos 0;
  gpu_layers = negsuc 0;
  ctx_size = pos 0;
  verbose = false;
  embeddings = false;
  host = "";
  refer = "ref-c";
}

-- The process fails when it is started, and stays in the table.
run-status_example :
    status host "pids" "logs" "0123456789ab"
      (run repository host codec "pids" "logs" 5 "path"
        (some (model ∷ []))
        params
        two_models).0.procs
    ≡ some true
unfolding prepare spawning validate shortid insert
run-status_example =
    run-status repository host codec "pids" "logs" 5 "path" (some (model ∷ [])) params _ _
      "0123456789ab" _ two_models refl
