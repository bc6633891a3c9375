-- ===== src/Progress/Stream.antt =====
-- `watcherStream` of pkg/progress/client.go: the events of a task on a channel.
pub mod Replay
use apack.Base.{ℕ, String, Bool, true, false, List, [], ◌∷◌, ◌++◌, if◌then◌else◌}
use apack.Task.Types.{
  Event, EventType, progress_event, log_event, error_event, complete_event, cancel_event, no_level,
}
use apack.Progress.Client.{
  Incoming, context_done, closed_normally, read_error, empty_message, undecodable, event,
}

abbrev pub is_last : EventType → Bool
is_last error_event = true
is_last complete_event = true
is_last cancel_event = true
is_last _ = false

-- the event that stands for a connection that breaks
abbrev pub broken : String → Event
broken text = record {
  task_id = "";
  kind = error_event;
  action = "";
  progress = 0;
  total = 0;
  message = text;
  level = no_level;
  timestamp = 0;
  identifier = "";
}

-- The loop of the goroutine: what comes in, each with whether a send in its round gets through, or
-- the context ends first; and what was sent so far. `text` is the text of a read error.
unfoldable pub stream_loop : (ℕ → String) → List (Incoming × Bool) → List Event → List Event
stream_loop text [] sent = sent
stream_loop text ((context_done x, through) ∷ xs) sent = sent
stream_loop text ((closed_normally, through) ∷ xs) sent = sent
stream_loop text ((read_error x, through) ∷ xs) sent =
    if through then sent ++ broken (text x) ∷ [] else sent
stream_loop text ((empty_message, through) ∷ xs) sent = stream_loop text xs sent
stream_loop text ((undecodable, through) ∷ xs) sent = stream_loop text xs sent
stream_loop text ((event e, through) ∷ xs) sent =
    let more = stream_loop text xs (sent ++ e ∷ []) in
    if through then (if is_last e.kind then sent ++ e ∷ [] else more) else sent
