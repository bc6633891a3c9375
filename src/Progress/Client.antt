-- ===== src/Progress/Client.antt =====
-- `watcher`, `watcherStream`, `WatchProgressWithRetry` and `updateProgress` of
-- pkg/progress/client.go. Totals are below 2^40, where the quotient of two floats is at least
-- 0.999 exactly when that of the integers is; counts are not negative.
pub mod Once
pub mod Retries
use apack.Base.{
  ℕ, zero, suc, ◌+◌, ◌*◌, String, Bool, true, false, ◌&&◌, ◌||◌, not, Option, none, some, List, [],
  ◌∷◌, ◌++◌, Result, ok, err, Dict, lookup, insert, leb, ltb, ◌==◌, str_eq, if◌then◌else◌,
}
use apack.Task.Types.{
  Event, EventType, progress_event, log_event, error_event, complete_event, cancel_event, LogLevel,
  no_level,
}

pub data WatchError : Type 0 where
  context_error : ℕ → WatchError
  dial_failed : ℕ → WatchError
  read_failed : ℕ → WatchError
  task_error : String → WatchError
  task_canceled : String → WatchError
  attempts_failed : ℕ → WatchError

-- What one round of the loop meets: the context is done, the connection is closed normally or
-- breaks, a message is empty or is no event, or an event comes.
pub data Incoming : Type 0 where
  context_done : ℕ → Incoming
  closed_normally : Incoming
  read_error : ℕ → Incoming
  empty_message : Incoming
  undecodable : Incoming
  event : Event → Incoming

-- What the client writes; a message goes out without the braces around it.
pub data Line : Type 0 where
  blank_line : Line
  complete_line : String → String → ℕ → Line
  percent_line : String → String → ℕ → ℕ → Line
  message_line : String → Line
  log_line : LogLevel → String → Line

-- The bars that are complete, and what was written.
pub record Screen : Type 0 where
  pub completed : Dict Bool
  pub lines : List Line

abbrev write : Line → Screen → Screen
write l s = record s { lines = s.lines ++ l ∷ [] }

abbrev pub is_true : Option Bool → Bool
is_true none = false
is_true (some b) = b

abbrev big : ℕ → Bool
big total = ltb 1048576 total

unfoldable pub is_complete : Event → Bool
is_complete e = leb e.total e.progress || (ltb 0 e.total && leb (999 * e.total) (1000 * e.progress))

unfoldable pub update_progress : Event → Screen → Screen
update_progress e s =
    if str_eq e.identifier "" || e.total == 0
    then s
    else if is_true (lookup e.identifier s.completed)
    then s
    else if is_complete e
    then record {
      completed = insert e.identifier true s.completed;
      lines =
          (if big e.total then s.lines ++ blank_line ∷ [] else s.lines)
          ++ complete_line e.identifier e.action e.total ∷ [];
    }
    else if big e.total
    then write (percent_line e.identifier e.action e.progress e.total) s
    else s

unfoldable pub handle_log_event : LogLevel → String → Screen → Screen
handle_log_event no_level message s = s
handle_log_event level message s = write (log_line level message) s

-- The end of a loop: it waits for more, or it has returned.
pub data Outcome : Type 0 where
  waiting : Outcome
  returned : Result WatchError (Unit {0}) → Outcome

-- The `switch` on the type of an event: the screen after it, and the end if it ends the loop.
unfoldable pub handle_event : String → EventType → Event → Screen → Screen × Outcome
handle_event operation progress_event e s = (update_progress e s, waiting)
handle_event operation log_event e s = (handle_log_event e.level e.message s, waiting)
handle_event operation error_event e s = (s, returned (err (task_error e.message)))
handle_event operation complete_event e s = (write (message_line e.message) s, returned (ok tt))
handle_event operation cancel_event e s =
    (write (message_line "") s, returned (err (task_canceled operation)))

unfoldable pub receive : String → Incoming → Screen → Screen × Outcome
unfolding handle_event
receive operation (context_done x) s = (s, returned (err (context_error x)))
receive operation closed_normally s = (s, returned (ok tt))
receive operation (read_error x) s = (s, returned (err (read_failed x)))
receive operation empty_message s = (s, waiting)
receive operation undecodable s = (s, waiting)
receive operation (event e) s = handle_event operation e.kind e s

-- The loop of `watcher` on what comes in until it returns.
unfoldable pub watch_loop : String → List Incoming → Screen → Screen × Outcome
watch_loop operation [] s = (s, waiting)
watch_loop operation (x ∷ xs) s =
    let (s', end) = receive operation x s in
    elim end [ waiting ↦ watch_loop operation xs s' | returned r ↦ (s', returned r) ]

-- A connection: it cannot be made, or it brings what comes in.
pub data Connection : Type 0 where
  refused : ℕ → Connection
  connected : List Incoming → Connection

unfoldable pub watcher : String → Connection → Screen → Screen × Outcome
watcher operation (refused x) s = (s, returned (err (dial_failed x)))
watcher operation (connected xs) s = watch_loop operation xs s

-- One attempt of `WatchProgressWithRetry`: its connection, the error of the context if it is done
-- when the attempt has failed, and the error of one that ends in the wait after it.
pub record Attempt : Type 0 where
  pub connection : Connection
  pub context_after : Option ℕ
  pub context_in_wait : Option ℕ

abbrev pub max_retries : ℕ
max_retries = 3

unfoldable pub retry_loop : String → ℕ → List Attempt → Screen → Screen × Outcome
retry_loop operation attempt [] s =
    (s, if ltb max_retries attempt then returned (err (attempts_failed max_retries)) else waiting)
retry_loop operation attempt (a ∷ rest) s =
    if ltb max_retries attempt
    then (s, returned (err (attempts_failed max_retries)))
    else (let (s', end) = watcher operation a.connection s in
        elim end [
          | waiting ↦ (s', waiting)
          | returned (ok _) ↦ (s', returned (ok tt))
          | returned (err x) ↦ elim a.context_after [
            | some _ ↦ (s', returned (err x))
            | none ↦ elim (if ltb attempt max_retries then a.context_in_wait else none) [
              | some c ↦ (s', returned (err (context_error c)))
              | none ↦ retry_loop operation (attempt + 1) rest s'
            ]
          ]
        ])

unfoldable pub watch_progress_with_retry : String → List Attempt → Screen → Screen × Outcome
watch_progress_with_retry operation attempts s = retry_loop operation 1 attempts s
