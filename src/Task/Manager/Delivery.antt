-- ===== src/Task/Manager/Delivery.antt =====
-- What the subscribers of a task receive.
use apack.Base.{
  false, str_eq, str_iff, ◌≢◌, ◌∙◌, ap, ℕ, String, ◌≡◌, refl, Bool, true, none, some, List, [], ◌∷◌,
  lookup-insert, ◌==◌, str_refl, if◌then◌else◌, any_of, arith, Bool-cases, inl, inr,
}
use apack.Task.Types.{
  cancel, is_running, Event, EventType, error_event, complete_event, no_level, completed, failed,
  Task,
}
use apack.Task.Manager.{
  handle_cancel_task, cancel_task, Manager, Channels, get_task, offer, publish_to, publish_event,
  complete_task, finished,
}
use apack.Task.Manager.Steps.{next, cancels, Reachable, get_task-IsSound, once}

publish_to-offer :
    (e : Event) (chs : List ℕ) (cs : Channels) (i : ℕ)
    → once chs ≡ true
    → publish_to e chs cs i ≡ (if any_of (λ c. c == i) chs then offer e (cs i) else cs i)
unfolding publish_to
publish_to-offer e [] cs i h = refl
publish_to-offer e (ch ∷ chs) cs i h =
    let rest =
      publish_to-offer e chs (λ j. if j == ch then offer e (cs j) else cs j) i
        (ground (arith, h)) in
    elim (Bool-cases (ch == i)) [
      | inl same ↦ let same' : ch ≡ i = ground arith in ground (arith, h, rest, same')
      | inr other ↦ ground (arith, h, rest)
    ]

abbrev pub is_subscribed : ℕ → Task → Bool
is_subscribed i t = any_of (λ c. c == i) t.subscribers

-- the event that tells the end of a task
abbrev pub ending : String → ℕ → EventType → String → Event
ending id now kind message = record {
  task_id = id;
  kind = kind;
  action = "";
  progress = 0;
  total = 0;
  message = message;
  level = no_level;
  timestamp = now;
  identifier = "";
}

-- A completion in a state that the manager can reach, whatever the task's status was before,
-- also if it was canceled: the task ends now and its context is done, with an error it is failed
-- and keeps the text, without one it is completed. Every subscribed channel is offered one
-- event: of the error with its text, or of the completion with the text that the task had.
pub complete_task-finished :
    (interval : ℕ) (m : Manager) (id text : String) (now : ℕ) (t : Task) (cs : Channels) (i : ℕ)
    → Reachable interval m
    → get_task id m ≡ some t
    → (get_task id (complete_task id now none m cs).0
        ≡ some (record t { end_time = some now; status = completed; context_done = true }))
      × ((complete_task id now none m cs).1 i ≡ (
          if is_subscribed i t
          then offer (ending id now complete_event t.error_text) (cs i)
          else cs i))
      × (get_task id (complete_task id now (some text) m cs).0
          ≡ some (record t {
            end_time = some now;
            status = failed;
            error_text = text;
            context_done = true;
          }))
      × ((complete_task id now (some text) m cs).1 i
          ≡ (if is_subscribed i t then offer (ending id now error_event text) (cs i) else cs i))
unfolding complete_task get_task publish_event
complete_task-finished interval m id text now t cs i r found =
    let (a, _, _) = get_task-IsSound interval m id t r found in
    let done = lookup-insert id id (finished now none t) m.tasks in
    let kept = lookup-insert id id (finished now (some text) t) m.tasks in
    let told = ending id now error_event text in
    let sent = ending id now complete_event t.error_text in
    (
      ground (arith, found, done, str_refl id),
      ground (arith, found, done, str_refl id, publish_to-offer sent t.subscribers cs i a),
      ground (arith, found, kept, str_refl id),
      ground (arith, found, kept, str_refl id, publish_to-offer told t.subscribers cs i a),
    )

cancel-finished :
    (now : ℕ) (t : Task)
    → finished now (some "task canceled by user") (cancel t)
      ≡ finished now (some "task canceled by user") t
unfolding cancel
cancel-finished now t = elim (Bool-cases (is_running t.status)) [
  | inl going ↦ rw (going, cancel) refl
  | inr over ↦ rw (over, cancel) refl
]

-- In a state that the manager can reach, a request to cancel a task that is there is answered
-- with 200 and leaves the task failed, with the request's text as its error and its context
-- done, and never canceled, whatever its status was.
pub handle_cancel_task-failed :
    (interval : ℕ) (m : Manager) (id : String) (now : ℕ) (t : Task) (cs : Channels)
    → Reachable interval m
    → id ≢ ""
    → get_task id m ≡ some t
    → ((handle_cancel_task id now m cs).0 ≡ 200)
      × (get_task id (handle_cancel_task id now m cs).1.0
          ≡ some (record t {
            end_time = some now;
            status = failed;
            error_text = "task canceled by user";
            context_done = true;
          }))
unfolding handle_cancel_task cancel_task get_task
handle_cancel_task-failed interval m id now t cs r named found =
    let m' = cancel_task id m in
    let kept : get_task id m' ≡ some (cancel t) =
      ground (arith, found, lookup-insert id id (cancel t) m.tasks, str_refl id) in
    let (_, _, ended, _) =
      complete_task-finished interval m' id "task canceled by user" now (cancel t) cs 0
        (next m m' r (cancels id m)) kept in
    let same : finished now (some "task canceled by user") (cancel t)
        ≡ finished now (some "task canceled by user") t =
      cancel-finished now t in
    let there : str_eq id "" ≡ false = ground (arith, named, str_iff id "") in
    (ground (arith, there, found), rw (there, found) (ended ∙ ap some same))
