-- ===== src/Transfer/Part.antt =====
-- `downloadPart` and `downloadPartWithRetry`: one file, its range, and what each attempt meets.
pub mod Resume
pub mod Recovery
use apack.Base.{
  ℕ, zero, suc, ◌+◌, ◌-◌, ◌≤◌, ◌<◌, String, ◌≡◌, ◌≢◌, refl, sym, ap, ◌∙◌, Bool, true, false, ◌&&◌,
  ◌||◌, not, Option, none, some, List, [], ◌∷◌, ◌++◌, Result, ok, err, arith, leb, ◌==◌,
  if◌then◌else◌, length, take, drop, length-append, append-nil, append_assoc, Result-cases,
  Bool-cases, inl, inr,
}

pub data Error : Type 0 where
  canceled deadline_exceeded : Error
  network : ℕ → Error
  http_status : ℕ → Error
  retries_exceeded : Error → Error

-- What a request meets: no response comes, or the end of the file is not found for it; or a response
-- with its status, the bytes of its body, and the error that the copy ends with, if any.
pub data Reply : Type 0 where
  failed : Error → Reply
  response : ℕ → List ℕ → Option Error → Reply

abbrev copy_result : Option Error → Result Error (Unit {0})
copy_result none = ok tt
copy_result (some x) = err x

-- The bytes of the body go behind those that the file has; the result is that of the copy.
receive : Reply → List ℕ → Result Error (Unit {0}) × List ℕ
receive (failed x) file = (err x, file)
receive (response status body fault) file =
    if not (status == 206) && not (status == 200)
    then (err (http_status status), file)
    else (copy_result fault, file ++ body)

-- What an attempt of a number meets for a range: the error of opening the file, by the first byte
-- of the range, and the answer of the server to the request for the bytes from one to before another
-- (the header names the last byte, `end - 1`).
pub record Outside : Type 0 where
  pub open_fault : ℕ → ℕ → Option Error
  pub answer : ℕ → ℕ → ℕ → Reply

-- `os.O_CREATE`: a file that is not there is empty.
abbrev pub opened : Option (List ℕ) → List ℕ
opened none = []
opened (some file) = file

abbrev kept : Result Error (Unit {0}) × List ℕ → Result Error (Unit {0}) × Option (List ℕ)
kept (result, file) = (result, some file)

-- A file that is long enough already needs no request.
unfoldable pub download_part :
    Outside → ℕ → ℕ → ℕ → Option (List ℕ) → Result Error (Unit {0}) × Option (List ℕ)
unfolding receive
download_part world attempt start end disk = elim (world.open_fault attempt start) [
  | some x ↦ (err x, disk)
  | none ↦
      let file = opened disk in
      if leb (end - start) (length file)
      then (ok tt, some file)
      else kept (receive (world.answer attempt (start + length file) end) file)
]

unfoldable pub is_retryable : Error → Bool
is_retryable canceled = false
is_retryable deadline_exceeded = false
is_retryable _ = true

-- The loop of `downloadPartWithRetry`: the rounds left, the number of the attempt, the last error
-- and the file. `stopped` is the error of a context that ends in the wait before an attempt, if it
-- does; there is no wait before the first.
unfoldable pub retry_loop :
    Outside
    → (ℕ → Option Error)
    → ℕ
    → ℕ
    → ℕ
    → ℕ
    → Error
    → Option (List ℕ)
    → Result Error (Unit {0}) × Option (List ℕ)
retry_loop world stopped start end zero attempt last file = (err (retries_exceeded last), file)
retry_loop world stopped start end (suc rounds) attempt last file =
    elim (if attempt == 0 then none else stopped attempt) [
      | some x ↦ (err x, file)
      | none ↦
          let (result, file') = download_part world attempt start end file in
          elim result [
            | ok _ ↦ (ok tt, file')
            | err x ↦
                let again = retry_loop world stopped start end rounds (attempt + 1) x file' in
                if is_retryable x then again else (err x, file')
          ]
    ]

-- `attempt` runs from 0 to `max_retries`, both included.
unfoldable pub download_part_with_retry :
    Outside
    → (ℕ → Option Error)
    → ℕ
    → ℕ
    → ℕ
    → Option (List ℕ)
    → Result Error (Unit {0}) × Option (List ℕ)
download_part_with_retry world stopped max_retries start end file =
    retry_loop world stopped start end (max_retries + 1) 0 (network 0) file

abbrev pub slice : List ℕ → ℕ → ℕ → List ℕ
slice content start end = take (end - start) (drop start content)

-- The file holds the first bytes of a range.
abbrev pub PrefixOf : List ℕ → List ℕ → Type 0
PrefixOf whole file = (rest : List ℕ) × (file ++ rest ≡ whole)

-- A server that keeps to the range that it is asked for: it never answers 200, and the body of a
-- 206 holds the first bytes of the range, and all of them if the copy ends without an error. Under
-- any other status the body may hold anything.
abbrev pub IsHonestReply : List ℕ → Reply → Type 0
IsHonestReply range (failed x) = Unit {0}
IsHonestReply range (response status body fault) =
    (status ≢ 200) × (status ≡ 206 → PrefixOf range body × (fault ≡ none → body ≡ range))

abbrev pub IsHonest : List ℕ → Outside → Type 0
IsHonest content world =
    (attempt from end : ℕ)
    → from < end
    → IsHonestReply (slice content from end) (world.answer attempt from end)
