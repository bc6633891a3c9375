-- ===== src/Task/Tests.antt =====
-- The theorems about the manager applied to a manager with one task.
use apack.Base.{str_iff, ◌≡◌, refl, true, none, some, [], ◌∷◌, lookup, insert}
use apack.Task.Types.{
  completed, failed, canceled, log_event, no_level, Event, Task, new_task, cancel, error_event,
  complete_event,
}
use apack.Task.Manager.{
  handle_cancel_task, Manager, Channels, create_task, get_task, subscribe, complete_task,
  cleanup_tick, should_cleanup, cancel_task,
}
use apack.Task.Manager.Cleanup.{get_task-cleanup_tick}
use apack.Task.Manager.Steps.{
  Reachable, fresh, next, creates, subscribes, cancels, IsSound, get_task-IsSound,
}
use apack.Task.Manager.Delivery.{handle_cancel_task-failed, complete_task-finished}

abbrev empty_manager : Manager
empty_manager = record { tasks = []; cleanup = 60 }

abbrev pull : Task
pull = record (new_task "t1" 5 "pull") { subscribers = 7 ∷ [] }

abbrev pull_canceled : Task
pull_canceled = record pull { status = canceled; context_done = true }

abbrev with_task : Manager
with_task = record { tasks = ("t1", new_task "t1" 5 "pull") ∷ []; cleanup = 60 }

abbrev subscribed : Manager
subscribed = record { tasks = ("t1", pull) ∷ []; cleanup = 60 }

abbrev with_canceled : Manager
with_canceled = record { tasks = ("t1", pull_canceled) ∷ []; cleanup = 60 }

abbrev reached_task : Reachable 60 with_task
unfolding create_task insert
reached_task = next empty_manager with_task fresh (creates "t1" "pull" 5 empty_manager)

abbrev reached_subscribed : Reachable 60 subscribed
unfolding subscribe insert lookup
reached_subscribed =
    next with_task subscribed reached_task (subscribes "t1" 7 with_task subscribed refl)

reached_canceled : Reachable 60 with_canceled
unfolding cancel_task cancel insert lookup
reached_canceled = next subscribed with_canceled reached_subscribed (cancels "t1" subscribed)

abbrev channels : Channels
channels i = record { capacity = 1; queue = [] }

abbrev hello : Event
hello = record {
  task_id = "";
  kind = log_event;
  action = "";
  progress = 0;
  total = 0;
  message = "hello";
  level = no_level;
  timestamp = 0;
  identifier = "";
}

-- A task that was canceled ends as a failed or a completed one.
complete_task-finished_example :
    (get_task "t1" (complete_task "t1" 9 none with_canceled channels).0
      ≡ some (record pull_canceled { end_time = some 9; status = completed }))
    × ((complete_task "t1" 9 none with_canceled channels).1 7 ≡ record {
      capacity = 1;
      queue =
          record hello { task_id = "t1"; timestamp = 9; kind = complete_event; message = "" } ∷ [];
    })
    × (get_task "t1" (complete_task "t1" 9 (some "no space") with_canceled channels).0
        ≡ some
            (record pull_canceled { end_time = some 9; status = failed; error_text = "no space" }))
    × ((complete_task "t1" 9 (some "no space") with_canceled channels).1 7 ≡ record {
      capacity = 1;
      queue =
          record hello { task_id = "t1"; timestamp = 9; kind = error_event; message = "no space" }
          ∷ [];
    })
unfolding get_task lookup
complete_task-finished_example =
    complete_task-finished 60 with_canceled "t1" "no space" 9 pull_canceled channels 7
      reached_canceled refl

get_task-IsSound_example : IsSound pull_canceled
unfolding get_task lookup
get_task-IsSound_example =
    get_task-IsSound 60 with_canceled "t1" pull_canceled reached_canceled refl

-- It has no end, so no tick removes it.
get_task-cleanup_tick_example : get_task "t1" (cleanup_tick 1000 with_canceled) ≡ some pull_canceled
unfolding get_task should_cleanup lookup
get_task-cleanup_tick_example = get_task-cleanup_tick with_canceled 1000 "t1" (refl, tt)

handle_cancel_task-failed_example :
    ((handle_cancel_task "t1" 9 subscribed channels).0 ≡ 200)
    × (get_task "t1" (handle_cancel_task "t1" 9 subscribed channels).1.0
        ≡ some (record pull {
          end_time = some 9;
          status = failed;
          error_text = "task canceled by user";
          context_done = true;
        }))
unfolding get_task lookup
handle_cancel_task-failed_example =
    handle_cancel_task-failed 60 subscribed "t1" 9 pull channels reached_subscribed
      (λ h. cc ((str_iff "t1" "").1 h)) refl
