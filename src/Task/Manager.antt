-- ===== src/Task/Manager.antt =====
-- internal/task/manager.go. Each method is modelled as one step that runs to its end before the next.
-- `CompleteTask` lets go of the task's lock before it publishes the final event, and the handler of
-- a cancel request takes the locks anew for each of its calls: what another goroutine does in
-- between is not modelled. The map from identifiers to tasks is the store of the tasks, which
-- the source shares by pointer.
pub mod Cleanup
pub mod Delivery
pub mod Steps
use apack.Base.{
  ℕ, str_eq, ◌+◌, ◌-◌, String, Bool, true, false, ◌&&◌, not, Option, none, some, List, [], ◌∷◌,
  ◌++◌, Result, ok, err, Dict, lookup, insert, erase, ltb, ◌==◌, length, if◌then◌else◌, keep_if,
  map, any_of,
}
use apack.Task.Types.{
  TaskStatus, running, completed, failed, EventType, error_event, complete_event, no_level, Event,
  Channel, Task, is_running, new_task, cancel,
}

pub record Manager : Type 0 where
  pub tasks : Dict Task
  pub cleanup : ℕ

abbrev pub Channels : Type 0
Channels = ℕ → Channel

unfoldable pub create_task : String → ℕ → String → Manager → Manager × Task
create_task uuid now task_type m =
    let t = new_task uuid now task_type in (record m { tasks = insert t.id t m.tasks }, t)

unfoldable pub get_task : String → Manager → Option Task
get_task id m = lookup id m.tasks

-- a copy without the subscribers and the context
abbrev task_copy : Task → Task
task_copy t = record t { subscribers = []; context_done = false }

unfoldable pub list_tasks : Manager → List Task
list_tasks m = map (λ entry. task_copy entry.1) m.tasks

-- a write through the pointer that the map holds
abbrev pub put_task : String → Task → Manager → Manager
put_task id t m = record m { tasks = insert id t m.tasks }

abbrev pub add_subscriber : ℕ → List ℕ → List ℕ
add_subscriber ch [] = ch ∷ []
add_subscriber ch (c ∷ cs) = if c == ch then c ∷ cs else c ∷ add_subscriber ch cs

unfoldable pub subscribe : String → ℕ → Manager → Result String Manager
subscribe id ch m = elim (lookup id m.tasks) [
  | none ↦ err id
  | some t ↦ ok (put_task id (record t { subscribers = add_subscriber ch t.subscribers }) m)
]

unfoldable pub unsubscribe : String → ℕ → Manager → Manager
unsubscribe id ch m = elim (lookup id m.tasks) [
  | none ↦ m
  | some t ↦ put_task id (record t { subscribers = keep_if (λ c. not (c == ch)) t.subscribers }) m
]

-- The `select` with a default: an event for a full channel is dropped.
abbrev pub offer : Event → Channel → Channel
offer e c = if ltb (length c.queue) c.capacity then record c { queue = c.queue ++ e ∷ [] } else c

unfoldable pub publish_to : Event → List ℕ → Channels → Channels
publish_to e [] cs = cs
publish_to e (ch ∷ chs) cs = publish_to e chs (λ i. if i == ch then offer e (cs i) else cs i)

unfoldable pub publish_event : String → ℕ → Event → Manager → Channels → Channels
publish_event id now e m cs = elim (lookup id m.tasks) [
  | none ↦ cs
  | some t ↦ publish_to (record e { task_id = id; timestamp = now }) t.subscribers cs
]

abbrev pub finished : ℕ → Option String → Task → Task
finished now (some text) t = record t {
  end_time = some now;
  status = failed;
  error_text = text;
  context_done = true;
}
finished now none t = record t { end_time = some now; status = completed; context_done = true }

-- The event carries the task's error as it is after the change.
abbrev pub final_event : Option String → Task → Event
final_event e t = record {
  task_id = "";
  kind = elim e [ none ↦ complete_event | some _ ↦ error_event ];
  action = "";
  progress = 0;
  total = 0;
  message = t.error_text;
  level = no_level;
  timestamp = 0;
  identifier = "";
}

unfoldable pub complete_task : String → ℕ → Option String → Manager → Channels → Manager × Channels
unfolding publish_event
complete_task id now e m cs = elim (lookup id m.tasks) [
  | none ↦ (m, cs)
  | some t ↦
      let t' = finished now e t in
      let m' = put_task id t' m in (m', publish_event id now (final_event e t') m' cs)
]

-- One tick of `cleanupLoop`: the loop over the map deletes from the map.
unfoldable pub should_cleanup : ℕ → ℕ → Task → Bool
should_cleanup interval now t = elim (t.end_time) [
  | none ↦ false
  | some e ↦ not (is_running t.status) && ltb interval (now - e)
]

unfoldable pub cleanup_entries : ℕ → ℕ → List (String × Task) → Dict Task → Dict Task
cleanup_entries interval now [] tasks = tasks
cleanup_entries interval now ((id, t) ∷ rest) tasks =
    cleanup_entries interval now rest
      (if should_cleanup interval now t then erase id tasks else tasks)

unfoldable pub cleanup_tick : ℕ → Manager → Manager
cleanup_tick now m = record m { tasks = cleanup_entries m.cleanup now m.tasks m.tasks }

-- `Cancel` on the task that an identifier finds, as the handler of the cancel request calls it.
unfoldable pub cancel_task : String → Manager → Manager
cancel_task id m = elim (lookup id m.tasks) [ none ↦ m | some t ↦ put_task id (cancel t) m ]

-- `handleCancelTask` of internal/api/base/base.go: the HTTP status, and what it leaves.
unfoldable pub handle_cancel_task : String → ℕ → Manager → Channels → ℕ × (Manager × Channels)
handle_cancel_task id now m cs = if str_eq id "" then (400, (m, cs)) else elim (get_task id m) [
  | none ↦ (404, (m, cs))
  | some _ ↦ (200, complete_task id now (some "task canceled by user") (cancel_task id m) cs)
]
