-- ===== src/Runtime/Infer.antt =====
-- internal/runtime/infer/infer.go: the table of inference processes, with `Params` and its `Validate`
-- of internal/types/types.go and `ConfigDesc` of pkg/layerdb/layerdb.go. What a process does when it
-- is started, asked and killed is a parameter.
use Prim.Native.String.{len, slice}
use apack.Base.{
  ℕ, zero, String, Bool, Option, none, some, List, [], ◌∷◌, Result, ok, err, ◌>>=◌, Dict, insert,
  lookup, length, str_eq, ltb, if◌then◌else◌,
}
use apack.LayerDb.Layout.{Descriptor, ref_name}
use apack.LayerDb.Engine.{Error}

pub data ℤ : Type 0 where
  pos : ℕ → ℤ
  negsuc : ℕ → ℤ

pub data Failure : Type 0 where
  fault : ℕ → Failure
  of_store : Error → Failure
  empty_field : String → Failure
  zero_port : Failure
  process_not_found : String → Failure
  no_models : Failure
  index_out_of_range : Failure
  runtime_not_found : String → Failure
  no_ref : Failure

pub record Params : Type 0 where
  pub id : String
  pub executable_path : String
  pub model_path : String
  pub log_file : String
  pub pid_file : String
  pub port : ℤ
  pub threads : ℤ
  pub gpu_layers : ℤ
  pub ctx_size : ℤ
  pub verbose : Bool
  pub embeddings : Bool
  pub host : String
  pub refer : String

abbrev filled : String → String → Result Failure (Unit {0})
filled field s = if str_eq s "" then err (empty_field field) else ok tt

abbrev or_default : ℕ → ℤ → ℤ
or_default n (pos zero) = pos n
or_default n i = i

abbrev at_least_zero : ℤ → ℤ
at_least_zero (pos n) = pos n
at_least_zero (negsuc n) = pos 0

abbrev a_port : ℤ → Result Failure (Unit {0})
a_port (pos zero) = err zero_port
a_port i = ok tt

unfoldable pub validate : Params → Result Failure Params
validate p = do
  _ ← filled "model path" p.model_path
  _ ← filled "id" p.id
  _ ← filled "log file" p.log_file
  _ ← filled "pid file" p.pid_file
  _ ← a_port p.port
  _ ← filled "reference" p.refer
  ok (record p {
    threads = or_default 2 p.threads;
    gpu_layers = at_least_zero p.gpu_layers;
    ctx_size = or_default 4096 p.ctx_size;
  })

-- the first twelve characters, which a shorter text has not
unfoldable pub shortid : String → Result Failure String
shortid id = if ltb (len id) 12 then err index_out_of_range else ok (slice id 0 12)

-- The processes: what starting one with parameters leaves and returns, and so on. `digest_of` is
-- go-digest's `FromBytes`.
pub record Host : Type 1 where
  pub Proc : Type 0
  pub make : Params → Proc
  pub exec : Proc → Proc × Option Failure
  pub kill : Proc → Proc × Option Failure
  pub is_running : Proc → Bool
  pub join : List String → String
  pub marshal_params : Params → Result Failure (List ℕ)
  pub digest_of : List ℕ → String
  pub free_port : Result Failure ℕ
  pub second_port : Result Failure ℕ

unfoldable pub config_desc : Host → List ℕ → String → Descriptor
config_desc h bytes media_type = record {
  media_type = media_type;
  digest = h.digest_of bytes;
  size = length bytes;
  artifact_type = "";
  annotations = [];
  payload = [];
}

module _ (h : Host) (pid_path log_path : String) where
  abbrev pub Procs : Type 0
  Procs = Dict h.Proc

  abbrev pub with_files : Params → Params
  with_files p = record p {
    pid_file = h.join (pid_path ∷ p.refer ∷ p.id ∷ []);
    log_file = h.join (log_path ∷ p.refer ∷ p.id ∷ []);
  }

  -- The process is in the table, under its short identifier, before it is started.
  unfoldable pub spawning :
      Params → Procs → Result Failure (Params × (Descriptor × (String × Procs)))
  unfolding validate shortid
  spawning p procs = do
    q ← validate (with_files p)
    b ← h.marshal_params q
    id ← shortid q.id
    ok (
      q,
      (
        record {
          media_type = "application/vnd.oci.descriptor.v1+json";
          digest = h.digest_of b;
          size = length b;
          artifact_type = "";
          annotations = (ref_name, q.refer) ∷ [];
          payload = b;
        },
        (id, insert id (h.make q) procs),
      ),
    )

  unfoldable pub status : String → Procs → Option h.Proc
  status id procs = lookup id procs

  unfoldable pub stop : String → Procs → Procs × Option Failure
  stop id procs = elim (lookup id procs) [
    | none ↦ (procs, some (process_not_found id))
    | some p ↦ let (q, e) = h.kill p in (insert id q procs, e)
  ]
