-- ===== src/Progress/Stream/Replay.antt =====
-- The two ways to follow a task, the watcher and the stream, agree.
use apack.Base.{
  Result, ok, err, ℕ, String, ◌≡◌, refl, Bool, true, false, List, [], ◌∷◌, ◌++◌, map, arith,
  Bool-cases, inl, inr,
}
use apack.Task.Types.{
  Event, EventType, progress_event, log_event, error_event, complete_event, cancel_event,
}
use apack.Progress.Client.{
  Incoming, context_done, closed_normally, read_error, empty_message, undecodable, event, Screen,
  WatchError, task_error, task_canceled, waiting, returned, handle_event, receive, watch_loop,
}
use apack.Progress.Stream.{is_last, broken, stream_loop}

-- the screen of a client that shows the events of the stream one by one
abbrev pub replay : String → List Event → Screen → Screen
replay operation [] s = s
replay operation (e ∷ es) s = replay operation es (handle_event operation e.kind e s).0

replay-append :
    (operation : String) (es fs : List Event) (s : Screen)
    → replay operation (es ++ fs) s ≡ replay operation fs (replay operation es s)
replay-append operation [] fs s = refl
replay-append operation (e ∷ es) fs s =
    replay-append operation es fs (handle_event operation e.kind e s).0

handle_event-last :
    (operation : String) (t : EventType) (e : Event) (s : Screen)
    → is_last t ≡ true
    → (r : Result WatchError (Unit {0})) × ((handle_event operation t e s).1 ≡ returned r)
unfolding handle_event
handle_event-last operation error_event e s h = (err (task_error e.message), refl)
handle_event-last operation complete_event e s h = (ok tt, refl)
handle_event-last operation cancel_event e s h = (err (task_canceled operation), refl)
handle_event-last operation progress_event e s h = absurd (ground (arith, h))
handle_event-last operation log_event e s h = absurd (ground (arith, h))

handle_event-more :
    (operation : String) (t : EventType) (e : Event) (s : Screen)
    → is_last t ≡ false
    → (handle_event operation t e s).1 ≡ waiting
unfolding handle_event
handle_event-more operation progress_event e s h = refl
handle_event-more operation log_event e s h = refl
handle_event-more operation error_event e s h = absurd (ground (arith, h))
handle_event-more operation complete_event e s h = absurd (ground (arith, h))
handle_event-more operation cancel_event e s h = absurd (ground (arith, h))

-- every send gets through
abbrev delivered : List Incoming → List (Incoming × Bool)
delivered xs = map (λ x. (x, true)) xs

stream_loop-replay :
    (text : ℕ → String) (operation : String) (xs : List Incoming) (sent : List Event) (s : Screen)
    → replay operation (stream_loop text (delivered xs) sent) s
      ≡ (watch_loop operation xs (replay operation sent s)).0
unfolding stream_loop watch_loop receive handle_event
stream_loop-replay text operation [] sent s = refl
stream_loop-replay text operation (context_done x ∷ xs) sent s = refl
stream_loop-replay text operation (closed_normally ∷ xs) sent s = refl
stream_loop-replay text operation (read_error x ∷ xs) sent s =
    replay-append operation sent (broken (text x) ∷ []) s
stream_loop-replay text operation (empty_message ∷ xs) sent s =
    stream_loop-replay text operation xs sent s
stream_loop-replay text operation (undecodable ∷ xs) sent s =
    stream_loop-replay text operation xs sent s
stream_loop-replay text operation (event e ∷ xs) sent s =
    let shown = replay-append operation sent (e ∷ []) s in
    elim (Bool-cases (is_last e.kind)) [
      | inl last ↦
          let (r, over) = handle_event-last operation e.kind e (replay operation sent s) last in
          rw (last, over, watch_loop) shown
      | inr more ↦
          let on = handle_event-more operation e.kind e (replay operation sent s) more in
          rw (more, on, watch_loop, ← shown)
            (stream_loop-replay text operation xs (sent ++ e ∷ []) s)
    ]

-- When every send gets through, a client that shows the events of the stream one by one ends
-- with the screen of a watcher of the same connection, whatever comes in.
pub replay-stream_loop :
    (text : ℕ → String) (operation : String) (xs : List Incoming) (s : Screen)
    → replay operation (stream_loop text (delivered xs) []) s ≡ (watch_loop operation xs s).0
replay-stream_loop text operation xs s = stream_loop-replay text operation xs [] s
