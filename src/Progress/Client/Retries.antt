-- ===== src/Progress/Client/Retries.antt =====
-- How `WatchProgressWithRetry` ends.
use apack.Base.{
  ℕ, ◌+◌, ◌<◌, String, ◌≡◌, refl, false, none, List, [], ◌∷◌, err, ltb, if◌then◌else◌, arith,
}
use apack.Progress.Client.{
  WatchError, Screen, returned, watcher, Attempt, retry_loop, watch_progress_with_retry,
  max_retries, attempts_failed,
}

-- The attempt ends with an error, whatever was on the screen, and no context ends after it.
abbrev pub IsFailure : String → Attempt → Type 0
IsFailure operation a =
    ((s : Screen) → (x : WatchError) × ((watcher operation a.connection s).1 ≡ returned (err x)))
    × (a.context_after ≡ none)
    × (a.context_in_wait ≡ none)

retry_loop-failure :
    (operation : String) (attempt : ℕ) (a : Attempt) (rest : List Attempt) (s : Screen)
    → attempt < 4
    → IsFailure operation a
    → retry_loop operation attempt (a ∷ rest) s
      ≡ retry_loop operation (attempt + 1) rest (watcher operation a.connection s).0
unfolding retry_loop
retry_loop-failure operation attempt a rest s few (fails, live, through) =
    let (x, done) = fails s in
    let more : ltb max_retries attempt ≡ false = ground arith in
    let wait : (if ltb attempt max_retries then a.context_in_wait else none) ≡ none =
      ground (arith, through) in
    rw (more, done, live, wait, retry_loop) refl

-- after the last attempt
retry_loop_over :
    (operation : String) (rest : List Attempt) (s : Screen)
    → (retry_loop operation 4 rest s).1 ≡ returned (err (attempts_failed 3))
unfolding retry_loop
retry_loop_over operation [] s = refl
retry_loop_over operation (a ∷ rest) s = refl

-- Three attempts that end with an error, with no context that ends, end the watch with an error
-- of its own, which says nothing of theirs.
pub watch_progress_with_retry_failed :
    (operation : String) (a b c : Attempt) (rest : List Attempt) (s : Screen)
    → IsFailure operation a
    → IsFailure operation b
    → IsFailure operation c
    → (watch_progress_with_retry operation (a ∷ b ∷ c ∷ rest) s).1
      ≡ returned (err (attempts_failed 3))
unfolding watch_progress_with_retry
watch_progress_with_retry_failed operation a b c rest s fa fb fc =
    let s1 = (watcher operation a.connection s).0 in
    let s2 = (watcher operation b.connection s1).0 in
    rw
      (
        retry_loop-failure operation 1 a (b ∷ c ∷ rest) s (omega arith) fa,
        retry_loop-failure operation 2 b (c ∷ rest) s1 (omega arith) fb,
        retry_loop-failure operation 3 c rest s2 (omega arith) fc,
      )
      (retry_loop_over operation rest (watcher operation c.connection s2).0)
