-- ===== src/Transfer/Part/Recovery.antt =====
-- A download whose attempts fail only with errors that are tried again comes to its end.
use apack.Base.{
  ℕ, zero, suc, ◌+◌, ◌-◌, ◌≤◌, ◌<◌, ◌≡◌, ◌≢◌, ap, true, Option, none, some, List, ok, err, arith,
  leb, ◌==◌, length, Bool-cases, inl, inr, Option-cases, Result,
}
use apack.Transfer.Part.{
  Error, Reply, Outside, opened, failed, response, receive, download_part, is_retryable, retry_loop,
  download_part_with_retry, slice, network, PrefixOf, IsHonest,
}
use apack.Transfer.Part.Resume.{range, retry_cases, download_part-eq-ok, download_part-PrefixOf}

-- An attempt that fails does so with an error that is tried again.
abbrev pub IsRecoverable : Reply → Type 0
IsRecoverable (failed x) = is_retryable x ≡ true
IsRecoverable (response status body none) = Unit {0}
IsRecoverable (response status body (some x)) = is_retryable x ≡ true

receive-eq-err :
    (reply : Reply) (file file' : List ℕ) (x : Error)
    → IsRecoverable reply
    → receive reply file ≡ (err x, file')
    → is_retryable x ≡ true
unfolding receive is_retryable
receive-eq-err (failed y) file file' x h e = ground (arith, h, e)
receive-eq-err (response status body none) file file' x h e = ground (arith, e)
receive-eq-err (response status body (some y)) file file' x h e = ground (arith, h, e)

module _ (content : List ℕ) (start end : ℕ) (world : Outside)
    (honest : IsHonest content world) where
  -- Attempts that fail do so with an error that is tried again.
  module _ (stopped : ℕ → Option Error)
      (recovers : (attempt from : ℕ) → IsRecoverable (world.answer attempt from end))
      (reopens : (attempt : ℕ) (x : Error)
        → world.open_fault attempt start ≡ some x
        → is_retryable x ≡ true)
      (k : ℕ) (waits : (j : ℕ) → j ≤ k → stopped j ≡ none) (opens : world.open_fault k start ≡ none)
      (clean : (from : ℕ)
        → world.answer k from end ≡ response 206 (slice content from end) none) where
    download_part-retryable :
        (attempt : ℕ) (file file' : Option (List ℕ)) (x : Error)
        → download_part world attempt start end file ≡ (err x, file')
        → is_retryable x ≡ true
    unfolding download_part
    download_part-retryable attempt file file' x e =
        elim (Option-cases (world.open_fault attempt start)) [
          | inr (y, shut) ↦
              let same : y ≡ x = ground (arith, e, shut) in rw (← same) (reopens attempt y shut)
          | inl ready ↦ elim (Bool-cases (leb (end - start) (length (opened file)))) [
            | inl enough ↦ absurd (ground (arith, e, ready, enough))
            | inr short ↦
                let from = start + length (opened file) in
                let got : Result Error (Unit {0}) × List ℕ =
                  receive (world.answer attempt from end) (opened file) in
                let failing : got.0 ≡ err x = ground (arith, e, ready, short) in
                receive-eq-err (world.answer attempt from end) (opened file) got.1 x
                  (recovers attempt from) (ap (λ r. (r, got.1)) failing)
          ]
        ]

    download_part-clean :
        (file file' : Option (List ℕ)) (x : Error)
        → download_part world k start end file ≢ (err x, file')
    unfolding download_part receive
    download_part-clean file file' x e =
        ground (arith, e, opens, clean (start + length (opened file)))

    retry_loop-succeeds :
        (rounds attempt : ℕ) (last : Error) (file : Option (List ℕ))
        → attempt ≤ k
        → k < attempt + rounds
        → PrefixOf (range content start end) (opened file)
        → retry_loop world stopped start end rounds attempt last file
          ≡ (ok tt, some (range content start end))
    unfolding retry_loop
    retry_loop-succeeds zero attempt last file h room p = absurd (omega arith)
    retry_loop-succeeds (suc rounds) attempt last file h room p =
        retry_cases world stopped start end (λ r. r ≡ (ok tt, some (range content start end)))
          rounds attempt last file (λ x e. absurd (ground (arith, e, waits attempt h)))
          (λ f' e. rw (download_part-eq-ok content start end world honest attempt file f' p e))
          (λ x f' e final. cc (final, download_part-retryable attempt file f' x e))
          (λ x f' e. elim (Bool-cases (attempt == k)) [
            | inl last_one ↦
                let same : attempt ≡ k = ground arith in
                absurd (download_part-clean file f' x (rw same at e))
            | inr more ↦
                retry_loop-succeeds rounds (attempt + 1) x f' (ground arith) (omega arith) (
                  rw (ap (λ r. opened r.1) e) at
                    (download_part-PrefixOf content start end world honest attempt file p))
          ])

    -- With a server that keeps to the ranges and a file that holds first bytes of its range, or
    -- none: when some attempt within the retries opens the file and gets the whole of what is
    -- asked for, no context ends in the waits up to it and every error is one to try again, as
    -- every error status is, the download reports success and the file is the range.
    pub download_part_with_retry-succeeds :
        (max_retries : ℕ) (file : Option (List ℕ))
        → k ≤ max_retries
        → PrefixOf (range content start end) (opened file)
        → download_part_with_retry world stopped max_retries start end file
          ≡ (ok tt, some (range content start end))
    unfolding download_part_with_retry
    download_part_with_retry-succeeds max_retries file h p =
        retry_loop-succeeds (max_retries + 1) 0 (network 0) file (omega arith) (omega arith) p
