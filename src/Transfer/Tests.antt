-- ===== src/Transfer/Tests.antt =====
-- The theorems on downloads applied to a file of a few bytes.
use apack.Base.{
  ℕ, zero, suc, ◌+◌, ◌*◌, ◌≤◌, ◌<◌, ◌≡◌, ◌≢◌, refl, true, false, ◌==◌, append-nil, Option, none,
  some, List, [], ◌∷◌, ok, arith, take, ltb, if◌then◌else◌,
}
use apack.Transfer.Chunks.{
  calculate_chunk_size, part_count, part_start, part_end, chunk_count_exceeds_max, parts_tile, mb,
}
use apack.Transfer.Float.{round_div, unit, scale}
use apack.Transfer.Part.{
  Error, Outside, Reply, opened, network, failed, response, is_retryable, retry_loop, download_part,
  download_part_with_retry, slice, PrefixOf, IsHonest,
}
use apack.Transfer.Part.Resume.{retry_loop-PrefixOf, full_response_corrupts}
use apack.Transfer.Part.Recovery.{download_part_with_retry-succeeds, IsRecoverable}
use apack.Transfer.Whole.{Disk, Env, start}
use apack.Transfer.Whole.Complete.{start_complete, chunk}

abbrev content : List ℕ
content = 11 ∷ 12 ∷ 13 ∷ 14 ∷ 15 ∷ []

-- The first attempt breaks off after a byte, the second cannot open the file, the third gets the page
-- of an error, the others get all.
abbrev reply : ℕ → ℕ → ℕ → Reply
reply zero from end = response 206 (take 1 (slice content from end)) (some (network 1))
reply (suc zero) from end = failed (network 2)
reply (suc (suc zero)) from end = response 503 (66 ∷ 117 ∷ 115 ∷ 121 ∷ []) none
reply (suc (suc (suc _))) from end = response 206 (slice content from end) none

abbrev shut_once : ℕ → ℕ → Option Error
shut_once attempt start = if attempt == 1 then some (network 3) else none

abbrev flaky : Outside
flaky = record { open_fault = shut_once; answer = reply }

take-PrefixOf : (n : ℕ) (xs : List ℕ) → PrefixOf xs (take n xs)
take-PrefixOf zero xs = (xs, refl)
take-PrefixOf (suc n) [] = ([], refl)
take-PrefixOf (suc n) (x ∷ xs) = let (rest, e) = take-PrefixOf n xs in (rest, rw e)

flaky-IsHonest : IsHonest content flaky
flaky-IsHonest zero from end h = (
  (λ e. omega (arith, e)),
  (λ _. (take-PrefixOf 1 (slice content from end), λ e. absurd (ground (arith, e)))),
)
flaky-IsHonest (suc zero) from end h = tt
flaky-IsHonest (suc (suc zero)) from end h =
    ((λ e. omega (arith, e)), (λ e. absurd (omega (arith, e))))
flaky-IsHonest (suc (suc (suc _))) from end h =
    ((λ e. omega (arith, e)), (λ _. (([], append-nil (slice content from end)), λ _. refl)))

abbrev waiting : ℕ → Option Error
waiting _ = none

flaky-reopens :
    (attempt : ℕ) (x : Error) → flaky.open_fault attempt 1 ≡ some x → is_retryable x ≡ true
unfolding is_retryable
flaky-reopens attempt x h = ground (arith, h)

flaky-recovers : (attempt from : ℕ) → IsRecoverable (flaky.answer attempt from 4)
unfolding is_retryable
flaky-recovers zero from = refl
flaky-recovers (suc zero) from = refl
flaky-recovers (suc (suc zero)) from = tt
flaky-recovers (suc (suc (suc _))) from = tt

-- The range of the bytes 1, 2 and 3, of which the file has the first.
download_part_with_retry-succeeds_example :
    download_part_with_retry flaky waiting 10 1 4 (some (12 ∷ []))
    ≡ (ok tt, some (slice content 1 4))
download_part_with_retry-succeeds_example =
    download_part_with_retry-succeeds content 1 4 flaky flaky-IsHonest waiting flaky-recovers
      flaky-reopens 3 (λ _ _. refl) refl (λ _. refl) 10 (some (12 ∷ [])) (omega arith)
      (13 ∷ 14 ∷ [], refl)

retry_loop-PrefixOf_example :
    PrefixOf
      (slice content 1 4)
      (opened (retry_loop flaky waiting 1 4 3 0 (network 0) (some (12 ∷ []))).1)
retry_loop-PrefixOf_example =
    retry_loop-PrefixOf content 1 4 flaky flaky-IsHonest waiting 3 0 (network 0) (some (12 ∷ []))
      (13 ∷ 14 ∷ [], refl)

abbrev ignores_range : Outside
ignores_range = record { open_fault = λ _ _. none; answer = λ _ _ _. response 200 content none }

full_response_corrupts_example :
    (download_part_with_retry ignores_range waiting 10 0 5 (some (11 ∷ 12 ∷ []))
      ≡ (ok tt, some (11 ∷ 12 ∷ content)))
    × (11 ∷ 12 ∷ content ≢ content)
full_response_corrupts_example =
    full_response_corrupts content (11 ∷ 12 ∷ []) ignores_range waiting 10 (omega arith)
      (omega arith) refl refl

abbrev env : Env
env = record {
  world = flaky;
  stopped = λ _. waiting;
  skipped = λ _. false;
  max_retries = 10;
  create_fault = none;
  copy_fault = λ _. none;
}

abbrev disk : Disk
disk = record { dest = some (11 ∷ []); parts = λ _. none }

start-complete_example : (start env 5 disk).1.dest ≡ some content
unfolding start download_part_with_retry retry_loop download_part is_retryable
start-complete_example =
    start_complete content env disk _ (omega arith) flaky-IsHonest (12 ∷ 13 ∷ 14 ∷ 15 ∷ [], refl)
      (λ j. (chunk content (calculate_chunk_size 5) j, refl)) refl

parts_tile_example :
    (part_start 2 0 ≡ 0)
    × (part_start 2 2 < part_end 5 2 2)
    × (part_end 5 2 2 ≤ part_start 2 2 + 2)
    × (part_end 5 2 2 ≡ (if ltb 3 (part_count 5 2) then part_start 2 3 else 5))
unfolding part_count round_div unit scale
parts_tile_example = parts_tile 5 2 (omega arith) (omega arith) (omega arith) 2 (omega arith)

chunk_count_exceeds_max_example :
    part_count (10 * mb * 100 + 1) (calculate_chunk_size (10 * mb * 100 + 1)) ≡ 101
chunk_count_exceeds_max_example =
    chunk_count_exceeds_max 10 1 (omega arith) (omega arith) (omega arith) (omega arith)

-- Above 2^53 the float of the size loses the byte that is left over.
one_byte_lost : part_count (100 * 281474976710656 + 1) 281474976710656 ≡ 100
unfolding part_count round_div unit scale
one_byte_lost = refl
