-- ===== src/Runtime/State.antt =====
-- internal/runtime/state.go: the state of a running model, and the words for its status. A time is a
-- number of nanoseconds, and `show` writes a number in decimal.
use Prim.Native.String.{◌++◌}
use apack.Base.{ℕ, ◌/◌, ◌*◌, ◌-◌, String, Bool, true, false, List, str_eq, ltb, leb, if◌then◌else◌}
use apack.LayerDb.Layout.{Descriptor}

pub record State : Type 0 where
  pub id : String
  pub model_image : String
  pub create_at : ℕ
  pub status : String
  pub endpoints : List String
  pub names : List String
  pub desc : Descriptor

pub record States : Type 0 where
  pub count : ℕ
  pub items : List State

pub data StatusType : Type 0 where
  up exited created restarting dead : StatusType

abbrev pub second : ℕ
second = 1000000000

abbrev pub minute : ℕ
minute = 60 * second

abbrev pub hour : ℕ
hour = 60 * minute

abbrev pub day : ℕ
day = 24 * hour

module _ (show : ℕ → String) where
  unfoldable pub humanize_duration : ℕ → Bool → String
  humanize_duration t with_ago =
      let suffix = if with_ago then " ago" else "" in
      if ltb t minute
      then (if leb (t / second) 1 then "just now" else show (t / second) ++ " seconds" ++ suffix)
      else if ltb t hour
      then (show (t / minute) ++ " minutes" ++ suffix)
      else if ltb t day
      then (show (t / hour) ++ " hours" ++ suffix)
      else (show (t / day) ++ " days" ++ suffix)

  abbrev with_extra : String → String → String → String
  with_extra word extra duration =
      if str_eq extra ""
      then (word ++ " " ++ duration)
      else (word ++ " " ++ extra ++ " " ++ duration)

  unfoldable pub format_status : StatusType → ℕ → String → String
  unfolding humanize_duration
  format_status up t extra =
      if str_eq extra ""
      then ("Up " ++ humanize_duration t false)
      else ("Up " ++ humanize_duration t false ++ " " ++ extra)
  format_status exited t extra = with_extra "Exited" extra (humanize_duration t true)
  format_status restarting t extra = with_extra "Restarting" extra (humanize_duration t true)
  format_status created t extra = "Created"
  format_status dead t extra = "Dead"

  -- `UpdateStatus`, with the time that it is
  unfoldable pub update_status : StatusType → ℕ → ℕ → State → State
  unfolding format_status
  update_status st last now s = record s { status = format_status st (now - last) "" }
