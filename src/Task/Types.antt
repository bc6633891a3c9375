-- ===== src/Task/Types.antt =====
-- The types of internal/task/task.go and internal/task/event.go. A task's metadata and an event's
-- are left out: nothing here reads them. Times are numbers on one clock.
use apack.Base.{ℕ, String, Bool, true, false, Option, none, List, []}

pub data TaskStatus : Type 0 where
  running completed failed canceled : TaskStatus

pub data EventType : Type 0 where
  progress_event log_event error_event complete_event cancel_event : EventType

-- the zero value is the empty string, no level
pub data LogLevel : Type 0 where
  no_level debug info warn error : LogLevel

pub record Event : Type 0 where
  pub task_id : String
  pub kind : EventType
  pub action : String
  pub progress : ℕ
  pub total : ℕ
  pub message : String
  pub level : LogLevel
  pub timestamp : ℕ
  pub identifier : String

-- A channel that a subscriber reads: the places that it has, and what waits in it.
pub record Channel : Type 0 where
  pub capacity : ℕ
  pub queue : List Event

-- `subscribers` are the numbers of channels; `context_done` says whether `cancel` was called.
pub record Task : Type 0 where
  pub id : String
  pub task_type : String
  pub status : TaskStatus
  pub start_time : ℕ
  pub end_time : Option ℕ
  pub progress : ℕ
  pub total : ℕ
  pub error_text : String
  pub subscribers : List ℕ
  pub context_done : Bool

abbrev pub is_running : TaskStatus → Bool
is_running running = true
is_running _ = false

-- `New`, with the identifier that uuid makes and the time
abbrev pub new_task : String → ℕ → String → Task
new_task uuid now task_type = record {
  id = uuid;
  task_type = task_type;
  status = running;
  start_time = now;
  end_time = none;
  progress = 0;
  total = 0;
  error_text = "";
  subscribers = [];
  context_done = false;
}

unfoldable pub cancel : Task → Task
cancel t = elim (is_running t.status) [
  | true ↦ record t { status = canceled; context_done = true }
  | false ↦ t
]

abbrev pub is_canceled : Task → Bool
is_canceled t = elim (t.status) [ canceled ↦ true | _ ↦ false ]
