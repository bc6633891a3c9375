-- ===== src/Progress/Client/Once.antt =====
-- What is written about one bar.
use apack.Base.{
  ℕ, ◌+◌, String, ◌≡◌, refl, true, none, List, [], ◌∷◌, ◌++◌, Result, ok, err, lookup,
  lookup-insert, ltb, str_eq, str_iff, if◌then◌else◌, arith, Bool-cases, Option-cases, inl, inr,
  ◌⊎◌,
}
use apack.Task.Types.{
  LogLevel, no_level, debug, info, warn, error, Event, EventType, progress_event, log_event,
  error_event, complete_event, cancel_event,
}
use apack.Progress.Client.{
  handle_log_event, WatchError, Incoming, context_done, closed_normally, read_error, empty_message,
  undecodable, event, Line, blank_line, complete_line, percent_line, message_line, log_line, Screen,
  is_true, update_progress, Outcome, waiting, returned, handle_event, receive, watch_loop,
  Connection, refused, connected, watcher, Attempt, retry_loop, watch_progress_with_retry,
  max_retries, attempts_failed,
}

-- whether a line is the end of the bar of that name
abbrev pub ends : String → Line → ℕ
ends k (complete_line key action total) = if str_eq key k then 1 else 0
ends k _ = 0

abbrev pub end_count : String → List Line → ℕ
end_count k [] = 0
end_count k (l ∷ ls) = ends k l + end_count k ls

end_count-append :
    (k : String) (xs ys : List Line) → end_count k (xs ++ ys) ≡ end_count k xs + end_count k ys
end_count-append k [] ys = omega arith
end_count-append k (x ∷ xs) ys = omega (arith, end_count-append k xs ys)

-- The bar's end was written as often as it is marked as complete, once or never.
abbrev pub IsTold : String → Screen → Type 0
IsTold k s = end_count k s.lines ≡ (if is_true (lookup k s.completed) then 1 else 0)

update_progress-IsTold :
    (k : String) (e : Event) (s : Screen) → IsTold k s → IsTold k (update_progress e s)
unfolding update_progress
update_progress-IsTold k e s h = ground (
  arith,
  h,
  str_iff e.identifier k,
  lookup-insert e.identifier k true s.completed,
  end_count-append k (s.lines ++ blank_line ∷ [])
      (complete_line e.identifier e.action e.total ∷ []),
  end_count-append k s.lines (blank_line ∷ []),
  end_count-append k s.lines (complete_line e.identifier e.action e.total ∷ []),
  end_count-append k s.lines (percent_line e.identifier e.action e.progress e.total ∷ []),
)

handle_log_event-IsTold :
    (k : String) (level : LogLevel) (message : String) (s : Screen)
    → IsTold k s
    → IsTold k (handle_log_event level message s)
unfolding handle_log_event
handle_log_event-IsTold k no_level message s h = h
handle_log_event-IsTold k debug message s h =
    ground (arith, h, end_count-append k s.lines (log_line debug message ∷ []))
handle_log_event-IsTold k info message s h =
    ground (arith, h, end_count-append k s.lines (log_line info message ∷ []))
handle_log_event-IsTold k warn message s h =
    ground (arith, h, end_count-append k s.lines (log_line warn message ∷ []))
handle_log_event-IsTold k error message s h =
    ground (arith, h, end_count-append k s.lines (log_line error message ∷ []))

handle_event-IsTold :
    (k operation : String) (t : EventType) (e : Event) (s : Screen)
    → IsTold k s
    → IsTold k (handle_event operation t e s).0
unfolding handle_event
handle_event-IsTold k operation progress_event e s h = update_progress-IsTold k e s h
handle_event-IsTold k operation log_event e s h = handle_log_event-IsTold k e.level e.message s h
handle_event-IsTold k operation error_event e s h = h
handle_event-IsTold k operation complete_event e s h =
    ground (arith, h, end_count-append k s.lines (message_line e.message ∷ []))
handle_event-IsTold k operation cancel_event e s h =
    ground (arith, h, end_count-append k s.lines (message_line "" ∷ []))

receive-IsTold :
    (k operation : String) (x : Incoming) (s : Screen)
    → IsTold k s
    → IsTold k (receive operation x s).0
unfolding receive
receive-IsTold k operation (context_done x) s h = h
receive-IsTold k operation closed_normally s h = h
receive-IsTold k operation (read_error x) s h = h
receive-IsTold k operation empty_message s h = h
receive-IsTold k operation undecodable s h = h
receive-IsTold k operation (event e) s h = handle_event-IsTold k operation e.kind e s h

Outcome-cases :
    (o : Outcome) → (o ≡ waiting) ⊎ ((r : Result WatchError (Unit {0})) × (o ≡ returned r))
Outcome-cases waiting = inl refl
Outcome-cases (returned r) = inr (r, refl)

-- The ends of one attempt: it is one too many, its screen is the last one, or the next attempt
-- goes on from its screen.
retry_cases {ℓ} :
    (operation : String) (attempt : ℕ) (a : Attempt) (rest : List Attempt) (s : Screen)
    (P : Screen × Outcome → Type ℓ)
    → P (s, returned (err (attempts_failed max_retries)))
    → ((end : Outcome) → P ((watcher operation a.connection s).0, end))
    → P (retry_loop operation (attempt + 1) rest (watcher operation a.connection s).0)
    → P (retry_loop operation attempt (a ∷ rest) s)
unfolding retry_loop
retry_cases operation attempt a rest s P over last again =
    elim (Bool-cases (ltb max_retries attempt)) [
      | inl many ↦ rw (many, retry_loop) over
      | inr few ↦ elim (Outcome-cases (watcher operation a.connection s).1) [
        | inl more ↦ rw (few, more, retry_loop) (last _)
        | inr (ok u, done) ↦ rw (few, done, retry_loop) (last _)
        | inr (err x, done) ↦ elim (Option-cases a.context_after) [
          | inr (c, gone) ↦ rw (few, done, gone, retry_loop) (last _)
          | inl live ↦
              elim (Option-cases (if ltb attempt max_retries then a.context_in_wait else none)) [
                | inr (c, gone) ↦ rw (few, done, live, gone, retry_loop) (last _)
                | inl through ↦ rw (few, done, live, through, retry_loop) again
              ]
        ]
      ]
    ]

watch_loop-IsTold :
    (k operation : String) (xs : List Incoming) (s : Screen)
    → IsTold k s
    → IsTold k (watch_loop operation xs s).0
unfolding watch_loop
watch_loop-IsTold k operation [] s h = h
watch_loop-IsTold k operation (x ∷ xs) s h =
    let step = receive-IsTold k operation x s h in
    elim (Outcome-cases (receive operation x s).1) [
      | inl more ↦
          rw (more, watch_loop) (watch_loop-IsTold k operation xs (receive operation x s).0 step)
      | inr (r, over) ↦ rw (over, watch_loop) step
    ]

watcher-IsTold :
    (k operation : String) (c : Connection) (s : Screen)
    → IsTold k s
    → IsTold k (watcher operation c s).0
unfolding watcher
watcher-IsTold k operation (refused x) s h = h
watcher-IsTold k operation (connected xs) s h = watch_loop-IsTold k operation xs s h

retry_loop-IsTold :
    (k operation : String) (attempt : ℕ) (attempts : List Attempt) (s : Screen)
    → IsTold k s
    → IsTold k (retry_loop operation attempt attempts s).0
unfolding retry_loop
retry_loop-IsTold k operation attempt [] s h = h
retry_loop-IsTold k operation attempt (a ∷ rest) s h =
    retry_cases operation attempt a rest s (λ r. IsTold k r.0) h
      (λ end. watcher-IsTold k operation a.connection s h)
      (retry_loop-IsTold k operation (attempt + 1) rest (watcher operation a.connection s).0
        (watcher-IsTold k operation a.connection s h))

-- Over all attempts, the end of a bar is written as often as the bar is marked as complete,
-- which is once or never, whatever comes in and however often an event is repeated, when this
-- held before.
pub watch_progress_with_retry-IsTold :
    (k operation : String) (attempts : List Attempt) (s : Screen)
    → IsTold k s
    → IsTold k (watch_progress_with_retry operation attempts s).0
unfolding watch_progress_with_retry
watch_progress_with_retry-IsTold k operation attempts s h =
    retry_loop-IsTold k operation 1 attempts s h
