-- ===== src/Progress/Tests.antt =====
-- The theorems about the client applied to a task whose progress is told twice and that then fails.
use apack.Progress.Stream.{stream_loop}
use apack.Progress.Stream.Replay.{replay, replay-stream_loop}
use apack.Base.{true, String, ◌≡◌, refl, none, [], ◌∷◌, err, lookup}
use apack.Task.Types.{Event, EventType, progress_event, error_event, info}
use apack.Progress.Client.{
  task_error, event, empty_message, Screen, returned, connected, Attempt, watcher, watch_loop,
  receive, handle_event, watch_progress_with_retry, attempts_failed,
}
use apack.Progress.Client.Once.{IsTold, watch_progress_with_retry-IsTold}
use apack.Progress.Client.Retries.{IsFailure, watch_progress_with_retry_failed}

abbrev told : EventType → String → Event
told kind message = record {
  task_id = "t1";
  kind = kind;
  action = "Downloading";
  progress = 1000;
  total = 1000;
  message = message;
  level = info;
  timestamp = 1;
  identifier = "layer";
}

abbrev attempt : Attempt
attempt = record {
  connection = connected (
      event (told progress_event "")
      ∷ empty_message
      ∷ event (told progress_event "")
      ∷ event (told error_event "no space")
      ∷ []);
  context_after = none;
  context_in_wait = none;
}

abbrev blank : Screen
blank = record { completed = []; lines = [] }

watch_progress_with_retry-IsTold_example :
    IsTold "layer" (watch_progress_with_retry "pull" (attempt ∷ attempt ∷ attempt ∷ []) blank).0
unfolding lookup
watch_progress_with_retry-IsTold_example =
    watch_progress_with_retry-IsTold "layer" "pull" (attempt ∷ attempt ∷ attempt ∷ []) blank refl

attempt-IsFailure : IsFailure "pull" attempt
unfolding watcher watch_loop receive handle_event
attempt-IsFailure = ((λ s. (task_error "no space", refl)), refl, refl)

watch_progress_with_retry_failed_example :
    (watch_progress_with_retry "pull" (attempt ∷ attempt ∷ attempt ∷ []) blank).1
    ≡ returned (err (attempts_failed 3))
watch_progress_with_retry_failed_example =
    watch_progress_with_retry_failed "pull" attempt attempt attempt [] blank attempt-IsFailure
      attempt-IsFailure attempt-IsFailure

replay-stream_loop_example :
    replay "pull"
      (stream_loop
        (λ _. "read error")
        ((event (told progress_event ""), true) ∷ (event (told error_event "no space"), true) ∷ [])
        [])
      blank
    ≡ (watch_loop "pull"
        (event (told progress_event "") ∷ event (told error_event "no space") ∷ [])
        blank).0
replay-stream_loop_example =
    replay-stream_loop (λ _. "read error") "pull"
      (event (told progress_event "") ∷ event (told error_event "no space") ∷ []) blank
