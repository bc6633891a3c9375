-- ===== src/Progress/Writers.antt =====
-- pkg/progress/progress.go and pkg/progress/writer.go, with the part of pkg/progress/logger.go that
-- they call. Writers are shared by pointer: `heap` holds them in the order they were added, and the
-- map of `Progress` holds their places. Each method is modelled as one step, its events
-- included.
pub mod Completion
use apack.Base.{
  ℕ, zero, suc, ◌+◌, String, Bool, true, false, ◌&&◌, ◌||◌, not, Option, none, some, List, [], ◌∷◌,
  ◌++◌, Dict, insert, get_elem?, set, length, all_of, str_eq, leb, ◌==◌, if◌then◌else◌,
}
use apack.Task.Types.{EventType, progress_event, LogLevel, no_level, info, Event}
use apack.Task.Manager.{Manager, Channels, publish_event}

pub record Writer : Type 0 where
  pub total : ℕ
  pub written : ℕ
  pub completed : Bool
  pub id : String
  pub writer_id : ℕ
  pub action : String

-- `Logger`: the layer that it speaks of, and the channels of the subscribers
pub record Log : Type 0 where
  pub id : String
  pub channels : Channels

abbrev pub new_writer : String → String → ℕ → Writer
new_writer action id total = record {
  total = total;
  written = 0;
  completed = false;
  id = id;
  writer_id = 0;
  action = action;
}

-- A logger speaks for one task of one manager; `now` is the time of its events.
module _ (task_id : String) (m : Manager) (now : ℕ) where
  unfoldable pub update_progress : String → ℕ → ℕ → Log → Log
  update_progress action current total l = if total == 0 || str_eq l.id "" then l else record l {
    channels =
        publish_event task_id now
          (record {
            task_id = task_id;
            kind = progress_event;
            action = action;
            progress = current;
            total = total;
            message = "";
            level = no_level;
            timestamp = now;
            identifier = l.id;
          })
          m l.channels;
  }

  unfoldable pub infoln_with_action : String → EventType → Log → Log
  infoln_with_action message kind l = record l {
    channels =
        publish_event task_id now
          (record {
            task_id = "";
            kind = kind;
            action = "";
            progress = 0;
            total = 0;
            message = message;
            level = info;
            timestamp = 0;
            identifier = "";
          })
          m l.channels;
  }

  abbrev pub set_id : String → Log → Log
  set_id id l = record l { id = id }

  -- `Write` of `n` bytes
  unfoldable pub write : ℕ → Writer × Log → Writer × Log
  unfolding infoln_with_action update_progress
  write n (pw, l) =
      let w = record pw { written = pw.written + n } in
      let ends = not w.completed && leb w.total w.written in
      let told =
        if ends
        then infoln_with_action "Layer transfer completed" progress_event (set_id w.id l)
        else l in
      (
        (if ends then record w { completed = true } else w),
        update_progress w.action w.written w.total (set_id w.id told),
      )

  unfoldable pub mark_completed : Writer × Log → Writer × Log
  unfolding update_progress
  mark_completed (pw, l) = if pw.completed then (pw, l) else (
    record pw { completed = true },
    update_progress pw.action pw.written pw.total (set_id pw.id l),
  )

  -- the writes of a reader that copies to the writer what it reads
  unfoldable pub write_all : List ℕ → Writer × Log → Writer × Log
  unfolding write
  write_all [] w = w
  write_all (n ∷ ns) w = write_all ns (write n w)

pub record Progress : Type 0 where
  pub writer_count : ℕ
  pub heap : List Writer
  pub writers : Dict ℕ

abbrev pub new_progress : Progress
new_progress = record { writer_count = 0; heap = []; writers = [] }

-- `Add`: the place of the writer, and the map, in which the last writer of an identifier stays.
unfoldable pub add : Writer → Progress → Progress
add pw p = record {
  writer_count = suc p.writer_count;
  heap = p.heap ++ record pw { writer_id = suc p.writer_count } ∷ [];
  writers = insert pw.id (length p.heap) p.writers;
}

abbrev pub is_completed : List Writer → ℕ → Bool
is_completed ws i = elim (get_elem? ws i) [ none ↦ false | some w ↦ w.completed ]

unfoldable pub check_all_completed : Progress → Bool
check_all_completed p = elim (p.writers) [
  | [] ↦ false
  | e ∷ es ↦ all_of (λ entry. is_completed p.heap entry.1) (e ∷ es)
]
