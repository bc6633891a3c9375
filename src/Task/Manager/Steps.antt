-- ===== src/Task/Manager/Steps.antt =====
-- The manager as a state machine: what every task satisfies in every state that it can reach.
use mathlib.Core.Path.{subst}
use apack.Base.{
  ℕ, String, ◌≡◌, refl, Bool, true, false, ◌&&◌, ◌||◌, not, Option, none, some, List, [], ◌∷◌, ok,
  Dict, lookup, insert, erase, ◌==◌, str_eq, any_of, keep_if, arith, Option-cases, Bool-cases, inl,
  inr,
}
use apack.Task.Types.{TaskStatus, completed, failed, Task, is_running, new_task, cancel}
use apack.Task.Manager.{
  Manager, Channels, create_task, get_task, put_task, add_subscriber, subscribe, unsubscribe,
  complete_task, finished, should_cleanup, cleanup_entries, cleanup_tick, cancel_task,
}
use apack.Task.Manager.Cleanup.{IsMap, insert-IsMap, cleanup_entries-IsMap}

-- One call: the manager before and after.
pub data Step : Manager → Manager → Type 0 where
  creates :
      (uuid task_type : String) (now : ℕ) (m : Manager)
      → Step m (create_task uuid now task_type m).0
  subscribes : (id : String) (ch : ℕ) (m m' : Manager) → subscribe id ch m ≡ ok m' → Step m m'
  unsubscribes : (id : String) (ch : ℕ) (m : Manager) → Step m (unsubscribe id ch m)
  completes :
      (id : String) (now : ℕ) (e : Option String) (m : Manager) (cs : Channels)
      → Step m (complete_task id now e m cs).0
  cancels : (id : String) (m : Manager) → Step m (cancel_task id m)
  ticks : (now : ℕ) (m : Manager) → Step m (cleanup_tick now m)

pub data Reachable (interval : ℕ) : Manager → Type 0 where
  fresh : Reachable interval (record { tasks = []; cleanup = interval })
  next : (m m' : Manager) → Reachable interval m → Step m m' → Reachable interval m'

abbrev pub once : List ℕ → Bool
once [] = true
once (c ∷ cs) = not (any_of (λ d. d == c) cs) && once cs

abbrev has_end : Option ℕ → Bool
has_end none = false
has_end (some _) = true

abbrev is_final : TaskStatus → Bool
is_final completed = true
is_final failed = true
is_final _ = false

-- No channel is subscribed twice, a task that completed or failed has its end, and the context of
-- one that does not run is done.
abbrev pub IsSound : Task → Type 0
IsSound t =
    (once t.subscribers ≡ true)
    × ((not (is_final t.status) || has_end t.end_time) ≡ true)
    × ((is_running t.status || t.context_done) ≡ true)

add_subscriber-member :
    (ch d : ℕ) (cs : List ℕ)
    → any_of (λ c. c == d) (add_subscriber ch cs) ≡ (ch == d || any_of (λ c. c == d) cs)
add_subscriber-member ch d [] = ground arith
add_subscriber-member ch d (c ∷ cs) = ground (arith, add_subscriber-member ch d cs)

add_subscriber-once : (ch : ℕ) (cs : List ℕ) → once cs ≡ true → once (add_subscriber ch cs) ≡ true
add_subscriber-once ch [] h = refl
add_subscriber-once ch (c ∷ cs) h =
    ground (arith, h, add_subscriber-member ch c cs, add_subscriber-once ch cs)

keep_if-member :
    (ch d : ℕ) (cs : List ℕ)
    → any_of (λ c. c == d) cs ≡ false
    → any_of (λ c. c == d) (keep_if (λ c. not (c == ch)) cs) ≡ false
keep_if-member ch d [] h = refl
keep_if-member ch d (c ∷ cs) h = ground (arith, h, keep_if-member ch d cs)

keep_if-once :
    (ch : ℕ) (cs : List ℕ) → once cs ≡ true → once (keep_if (λ c. not (c == ch)) cs) ≡ true
keep_if-once ch [] h = refl
keep_if-once ch (c ∷ cs) h = ground (arith, h, keep_if-member ch c cs, keep_if-once ch cs)

cancel-IsSound : (t : Task) → IsSound t → IsSound (cancel t)
unfolding cancel
cancel-IsSound t (a, b, c) = elim (Bool-cases (is_running t.status)) [
  | inl going ↦ rw (going, cancel) (a, refl, refl)
  | inr over ↦ rw (over, cancel) (a, b, c)
]

finished-IsSound : (now : ℕ) (e : Option String) (t : Task) → IsSound t → IsSound (finished now e t)
finished-IsSound now none t (a, b, c) = (a, refl, refl)
finished-IsSound now (some text) t (a, b, c) = (a, refl, refl)

abbrev AllSound : Dict Task → Type 0
AllSound [] = Unit {0}
AllSound ((k, t) ∷ m) = IsSound t × AllSound m

lookup-IsSound :
    (k : String) (m : Dict Task) (t : Task) → AllSound m → lookup k m ≡ some t → IsSound t
unfolding lookup
lookup-IsSound k [] t h e = absurd (ground (arith, e))
lookup-IsSound k ((i, u) ∷ m) t (s, h) e = elim (Bool-cases (str_eq i k)) [
  | inl same ↦ let found : u ≡ t = ground (arith, e, same) in rw found at s
  | inr other ↦ lookup-IsSound k m t h (ground (arith, e, other))
]

insert-AllSound :
    (k : String) (t : Task) (m : Dict Task) → IsSound t → AllSound m → AllSound (insert k t m)
unfolding insert
insert-AllSound k t [] s h = (s, tt)
insert-AllSound k t ((i, u) ∷ m) s (r, h) = elim (Bool-cases (str_eq i k)) [
  | inl same ↦ rw (same, AllSound) (s, h)
  | inr other ↦ rw (other, AllSound) (r, insert-AllSound k t m s h)
]

erase-AllSound : (k : String) (m : Dict Task) → AllSound m → AllSound (erase k m)
unfolding erase
erase-AllSound k [] h = tt
erase-AllSound k ((i, u) ∷ m) (r, h) = elim (Bool-cases (str_eq i k)) [
  | inl same ↦ rw (same, AllSound) (erase-AllSound k m h)
  | inr other ↦ rw (other, AllSound) (r, erase-AllSound k m h)
]

cleanup_entries-AllSound :
    (interval now : ℕ) (es : List (String × Task)) (m : Dict Task)
    → AllSound m
    → AllSound (cleanup_entries interval now es m)
unfolding cleanup_entries
cleanup_entries-AllSound interval now [] m h = h
cleanup_entries-AllSound interval now ((k, t) ∷ es) m h =
    elim (Bool-cases (should_cleanup interval now t)) [
      | inl old ↦
          rw (old, cleanup_entries)
            (cleanup_entries-AllSound interval now es (erase k m) (erase-AllSound k m h))
      | inr young ↦ rw (young, cleanup_entries) (cleanup_entries-AllSound interval now es m h)
    ]

abbrev IsGood : Manager → Type 0
IsGood m = IsMap m.tasks × AllSound m.tasks

put_task-IsGood :
    (k : String) (t : Task) (m : Manager) → IsSound t → IsGood m → IsGood (put_task k t m)
put_task-IsGood k t m s (u, h) = (insert-IsMap k t m.tasks u, insert-AllSound k t m.tasks s h)

Step-IsGood : (m m' : Manager) → Step m m' → IsGood m → IsGood m'
unfolding create_task subscribe unsubscribe complete_task cancel_task cleanup_tick
Step-IsGood _ _ (creates uuid task_type now m) g =
    put_task-IsGood uuid (new_task uuid now task_type) m (refl, refl, refl) g
Step-IsGood _ _ (subscribes id ch m m' e) (u, h) = elim (Option-cases (lookup id m.tasks)) [
  | inl missing ↦ absurd (ground (arith, e, missing))
  | inr (t, found) ↦
      let (a, b, c) = lookup-IsSound id m.tasks t h found in
      let t' : Task = record t { subscribers = add_subscriber ch t.subscribers } in
      let same : put_task id t' m ≡ m' = ground (arith, e, found) in
      subst (λ x. IsGood x) same
        (put_task-IsGood id t' m (add_subscriber-once ch t.subscribers a, b, c) (u, h))
]
Step-IsGood _ _ (unsubscribes id ch m) (u, h) = elim (Option-cases (lookup id m.tasks)) [
  | inl missing ↦ rw (missing, unsubscribe) (u, h)
  | inr (t, found) ↦
      let (a, b, c) = lookup-IsSound id m.tasks t h found in
      rw (found, unsubscribe)
        (put_task-IsGood id (record t { subscribers = keep_if (λ c. not (c == ch)) t.subscribers })
          m (keep_if-once ch t.subscribers a, b, c) (u, h))
]
Step-IsGood _ _ (completes id now e m cs) (u, h) = elim (Option-cases (lookup id m.tasks)) [
  | inl missing ↦ rw (missing, complete_task) (u, h)
  | inr (t, found) ↦
      rw (found, complete_task)
        (put_task-IsGood id (finished now e t) m
          (finished-IsSound now e t (lookup-IsSound id m.tasks t h found)) (u, h))
]
Step-IsGood _ _ (cancels id m) (u, h) = elim (Option-cases (lookup id m.tasks)) [
  | inl missing ↦ rw (missing, cancel_task) (u, h)
  | inr (t, found) ↦
      rw (found, cancel_task)
        (put_task-IsGood id (cancel t) m (cancel-IsSound t (lookup-IsSound id m.tasks t h found))
          (u, h))
]
Step-IsGood _ _ (ticks now m) (u, h) = (
  cleanup_entries-IsMap m.cleanup now m.tasks m.tasks u,
  cleanup_entries-AllSound m.cleanup now m.tasks m.tasks h,
)

Reachable-IsGood : (interval : ℕ) (m : Manager) → Reachable interval m → IsGood m
Reachable-IsGood interval _ fresh = (tt, tt)
Reachable-IsGood interval _ (next m0 m r s) = Step-IsGood m0 m s (Reachable-IsGood interval m0 r)

-- In every state that the manager can reach from an empty one, no identifier is held twice.
pub Reachable-IsMap : (interval : ℕ) (m : Manager) → Reachable interval m → IsMap m.tasks
Reachable-IsMap interval m r = let (u, h) = Reachable-IsGood interval m r in u

-- In every state that the manager can reach from an empty one, a task that is found has no
-- channel subscribed twice, has its end if it completed or failed, and has its context done if
-- it does not run.
pub get_task-IsSound :
    (interval : ℕ) (m : Manager) (id : String) (t : Task)
    → Reachable interval m
    → get_task id m ≡ some t
    → IsSound t
unfolding get_task
get_task-IsSound interval m id t r e =
    let (u, h) = Reachable-IsGood interval m r in lookup-IsSound id m.tasks t h e
