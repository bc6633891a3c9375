-- ===== src/Task/Manager/Cleanup.antt =====
-- What a tick of the cleanup removes.
use apack.Base.{
  ℕ, String, ◌≡◌, refl, Bool, false, ◌&&◌, ◌||◌, Option, none, some, List, [], ◌∷◌, Dict, lookup,
  insert, erase, lookup-erase, str_eq, str_iff, if◌then◌else◌, any_of, arith, Bool-cases, inl, inr,
}
use apack.Task.Types.{Task}
use apack.Task.Manager.{Manager, get_task, should_cleanup, cleanup_entries, cleanup_tick}

-- the map has no key twice
abbrev has_key : String → Dict Task → Bool
has_key k m = any_of (λ entry. str_eq entry.0 k) m

abbrev pub IsMap : Dict Task → Type 0
IsMap [] = Unit {0}
IsMap ((k, t) ∷ m) = (has_key k m ≡ false) × IsMap m

has_key-insert :
    (k j : String) (t : Task) (m : Dict Task)
    → has_key j (insert k t m) ≡ (str_eq k j || has_key j m)
unfolding insert
has_key-insert k j t [] = ground arith
has_key-insert k j t ((i, u) ∷ m) =
    ground (arith, str_iff i k, str_iff k j, str_iff i j, has_key-insert k j t m)

pub insert-IsMap : (k : String) (t : Task) (m : Dict Task) → IsMap m → IsMap (insert k t m)
unfolding insert
insert-IsMap k t [] h = (refl, tt)
insert-IsMap k t ((i, u) ∷ m) (fresh, h) = elim (Bool-cases (str_eq i k)) [
  | inl same ↦ let e : i ≡ k = (str_iff i k).0 same in rw (same, IsMap) (rw e at fresh, h)
  | inr other ↦
      rw (other, IsMap)
        (
          ground (arith, has_key-insert k i t m, fresh, other, str_iff k i, str_iff i k),
          insert-IsMap k t m h,
        )
]

-- an entry of that key that is to go
abbrev stale_entry : ℕ → ℕ → String → List (String × Task) → Bool
stale_entry interval now j es =
    any_of (λ entry. str_eq entry.0 j && should_cleanup interval now entry.1) es

lookup-cleanup_entries :
    (interval now : ℕ) (j : String) (es : List (String × Task)) (m : Dict Task)
    → lookup j (cleanup_entries interval now es m)
      ≡ (if stale_entry interval now j es then none else lookup j m)
unfolding cleanup_entries
lookup-cleanup_entries interval now j [] m = ground arith
lookup-cleanup_entries interval now j ((k, t) ∷ es) m = ground (
  arith,
  lookup-cleanup_entries interval now j es (if should_cleanup interval now t then erase k m else m),
  lookup-erase k j m,
)

-- whether the task of that key is to go
abbrev pub stale : ℕ → ℕ → Option Task → Bool
stale interval now none = false
stale interval now (some t) = should_cleanup interval now t

no_stale_entry :
    (interval now : ℕ) (j : String) (m : Dict Task)
    → has_key j m ≡ false
    → stale_entry interval now j m ≡ false
no_stale_entry interval now j [] h = refl
no_stale_entry interval now j ((k, t) ∷ m) h = ground (arith, h, no_stale_entry interval now j m)

stale_entry-lookup :
    (interval now : ℕ) (j : String) (m : Dict Task)
    → IsMap m
    → stale_entry interval now j m ≡ stale interval now (lookup j m)
unfolding lookup
stale_entry-lookup interval now j [] h = refl
stale_entry-lookup interval now j ((k, t) ∷ m) (fresh, h) = elim (Bool-cases (str_eq k j)) [
  | inl same ↦
      let e : k ≡ j = (str_iff k j).0 same in
      ground (arith, same, no_stale_entry interval now j m (rw e at fresh))
  | inr other ↦ ground (arith, other, stale_entry-lookup interval now j m h)
]

-- On a map without a key twice, a tick removes exactly the tasks that have ended longer ago than
-- the interval and do not run; every other identifier still finds its task, unchanged.
pub get_task-cleanup_tick :
    (m : Manager) (now : ℕ) (j : String)
    → IsMap m.tasks
    → get_task j (cleanup_tick now m)
      ≡ (if stale m.cleanup now (get_task j m) then none else get_task j m)
unfolding get_task cleanup_tick
get_task-cleanup_tick m now j h = ground (
  arith,
  lookup-cleanup_entries m.cleanup now j m.tasks m.tasks,
  stale_entry-lookup m.cleanup now j m.tasks h,
)

erase-IsMap-has_key :
    (k j : String) (m : Dict Task) → has_key j m ≡ false → has_key j (erase k m) ≡ false
unfolding erase
erase-IsMap-has_key k j [] h = refl
erase-IsMap-has_key k j ((i, t) ∷ m) h = ground (arith, h, erase-IsMap-has_key k j m)

erase-IsMap : (k : String) (m : Dict Task) → IsMap m → IsMap (erase k m)
unfolding erase
erase-IsMap k [] h = tt
erase-IsMap k ((i, t) ∷ m) (fresh, h) = elim (Bool-cases (str_eq i k)) [
  | inl same ↦ rw (same, IsMap) (erase-IsMap k m h)
  | inr other ↦ rw (other, IsMap) (erase-IsMap-has_key k i m fresh, erase-IsMap k m h)
]

pub cleanup_entries-IsMap :
    (interval now : ℕ) (es : List (String × Task)) (m : Dict Task)
    → IsMap m
    → IsMap (cleanup_entries interval now es m)
unfolding cleanup_entries
cleanup_entries-IsMap interval now [] m h = h
cleanup_entries-IsMap interval now ((k, t) ∷ es) m h =
    elim (Bool-cases (should_cleanup interval now t)) [
      | inl old ↦
          rw (old, cleanup_entries)
            (cleanup_entries-IsMap interval now es (erase k m) (erase-IsMap k m h))
      | inr young ↦ rw (young, cleanup_entries) (cleanup_entries-IsMap interval now es m h)
    ]
