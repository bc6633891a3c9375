-- ===== src/Transfer/Part/Resume.antt =====
-- A download that resumes: with a server that keeps to the ranges, the file is a prefix of its range
-- at every moment, and complete once the loop reports success.
use apack.Base.{
  ℕ, zero, suc, ◌+◌, ◌-◌, ◌≤◌, ◌<◌, ◌≡◌, ◌≢◌, refl, sym, ap, ◌∙◌, false, ◌&&◌, not, Option, none,
  some, List, [], ◌∷◌, ◌++◌, Result, ok, err, arith, leb, ◌==◌, if◌then◌else◌, length, drop,
  length-append, length-take, append-nil, append_assoc, drop-append, drop-drop, drop-take,
  Result-cases, Bool-cases, Option-cases, inl, inr,
}
use apack.Transfer.Part.{
  Error, Reply, Outside, opened, failed, response, receive, download_part, is_retryable, retry_loop,
  download_part_with_retry, slice, network, PrefixOf, IsHonestReply, IsHonest,
}

-- The bytes that a file lacks are the range from its end on.
slice-rest :
    (content file : List ℕ) (start end : ℕ)
    → PrefixOf (slice content start end) file
    → file ++ slice content (start + length file) end ≡ slice content start end
slice-rest content file start end (rest, e) =
    let n = length file in
    let d : rest ≡ drop n (slice content start end) = sym (drop-append file rest) ∙ ap (drop n) e in
    let f : end - start - n ≡ end - (start + n) = omega arith in
    let k : rest ≡ slice content (start + n) end =
      d ∙ drop-take n (end - start) (drop start content) ∙ rw (drop-drop n start content, f) refl in
    rw (← k) e

-- The ends of one round of the loop: the context ends in the wait, the attempt succeeds, it fails
-- for good, or it fails and the loop goes on with the file that it left.
module _ (world : Outside) (stopped : ℕ → Option Error) (start end : ℕ) where
  pub retry_cases {ℓ} :
      (P : Result Error (Unit {0}) × Option (List ℕ) → Type ℓ) (rounds attempt : ℕ) (last : Error)
      (file : Option (List ℕ))
      → ((x : Error) → (if attempt == 0 then none else stopped attempt) ≡ some x → P (err x, file))
      → ((f' : Option (List ℕ))
          → download_part world attempt start end file ≡ (ok tt, f')
          → P (ok tt, f'))
      → ((x : Error) (f' : Option (List ℕ))
          → download_part world attempt start end file ≡ (err x, f')
          → is_retryable x ≡ false
          → P (err x, f'))
      → ((x : Error) (f' : Option (List ℕ))
          → download_part world attempt start end file ≡ (err x, f')
          → P (retry_loop world stopped start end rounds (attempt + 1) x f'))
      → P (retry_loop world stopped start end (suc rounds) attempt last file)
  unfolding retry_loop
  retry_cases P rounds attempt last file halted done failed_ again =
      elim (Option-cases (if attempt == 0 then none else stopped attempt)) [
        | inr (x, e) ↦ rw (e, retry_loop) (halted x e)
        | inl e ↦ elim (Result-cases (download_part world attempt start end file).0) [
          | inl (u, q) ↦ rw (e, q, retry_loop) (done _ (ground (arith, q)))
          | inr (x, q) ↦ elim (Bool-cases (is_retryable x)) [
            | inl retry ↦ rw (e, q, retry, retry_loop) (again x _ (ground (arith, q)))
            | inr final ↦ rw (e, q, final, retry_loop) (failed_ x _ (ground (arith, q)) final)
          ]
        ]
      ]

module _ (content : List ℕ) (start end : ℕ) where
  abbrev pub range : List ℕ
  range = slice content start end

  -- The bytes of the file after a reply to the request for what it lacks.
  receive-PrefixOf :
      (reply : Reply) (file : List ℕ)
      → IsHonestReply (slice content (start + length file) end) reply
      → PrefixOf range file
      → PrefixOf range (receive reply file).1
  unfolding receive
  receive-PrefixOf (failed x) file h p = p
  receive-PrefixOf (response status body fault) file (other, partial) p =
      elim (Bool-cases (not (status == 206) && not (status == 200))) [
        | inl refused ↦ rw (refused, receive) p
        | inr accepted ↦
            let ((rest, e), _) = partial (ground (arith, accepted, other)) in
            rw (accepted, receive)
              (rest, rw (append_assoc file body rest, e) (slice-rest content file start end p))
      ]

  receive-eq-ok :
      (reply : Reply) (file file' : List ℕ)
      → IsHonestReply (slice content (start + length file) end) reply
      → PrefixOf range file
      → receive reply file ≡ (ok tt, file')
      → file' ≡ range
  unfolding receive
  receive-eq-ok (failed x) file file' h p e = absurd (ground (arith, e))
  receive-eq-ok (response status body fault) file file' (other, partial) p e =
      elim (Bool-cases (not (status == 206) && not (status == 200))) [
        | inl refused ↦ absurd (ground (arith, e, refused))
        | inr accepted ↦ elim (Option-cases fault) [
          | inr (x, broken) ↦ absurd (ground (arith, e, accepted, broken))
          | inl clean ↦
              let (_, whole) = partial (ground (arith, accepted, other)) in
              let grown : file ++ body ≡ file' = ground (arith, e, accepted, clean) in
              sym grown ∙ rw (whole clean) (slice-rest content file start end p)
        ]
      ]

  -- a prefix as long as the range is the range
  full_prefix : (file : List ℕ) → PrefixOf range file → end - start ≤ length file → file ≡ range
  full_prefix file ([], e) h = sym (append-nil file) ∙ e
  full_prefix file (x ∷ rest, e) h = absurd (
      omega (
        arith,
        ap length e,
        length-append file (x ∷ rest),
        length-take (end - start) (drop start content),
      ))

  module _ (world : Outside) (honest : IsHonest content world) where
    asked :
        (attempt : ℕ) (file : List ℕ)
        → leb (end - start) (length file) ≡ false
        → IsHonestReply
            (slice content (start + length file) end)
            (world.answer attempt (start + length file) end)
    asked attempt file h = honest attempt (start + length file) end (ground (arith, h))

    -- One attempt leaves a prefix of the range, whatever it meets.
    pub download_part-PrefixOf :
        (attempt : ℕ) (file : Option (List ℕ))
        → PrefixOf range (opened file)
        → PrefixOf range (opened (download_part world attempt start end file).1)
    unfolding download_part
    download_part-PrefixOf attempt file p = elim (Option-cases (world.open_fault attempt start)) [
      | inr (x, shut) ↦ rw (shut, download_part) p
      | inl ready ↦ elim (Bool-cases (leb (end - start) (length (opened file)))) [
        | inl enough ↦ rw (ready, enough, download_part) p
        | inr short ↦
            rw (ready, short, download_part)
              (receive-PrefixOf (world.answer attempt (start + length (opened file)) end)
                (opened file) (asked attempt (opened file) short) p)
      ]
    ]

    pub download_part-eq-ok :
        (attempt : ℕ) (file file' : Option (List ℕ))
        → PrefixOf range (opened file)
        → download_part world attempt start end file ≡ (ok tt, file')
        → file' ≡ some range
    unfolding download_part
    download_part-eq-ok attempt file file' p e =
        elim (Option-cases (world.open_fault attempt start)) [
          | inr (x, shut) ↦ absurd (ground (arith, e, shut))
          | inl ready ↦ elim (Bool-cases (leb (end - start) (length (opened file)))) [
            | inl enough ↦
                let same : some (opened file) ≡ file' = ground (arith, e, ready, enough) in
                sym same ∙ ap some (full_prefix (opened file) p (ground (arith, enough)))
            | inr short ↦
                let got : Result Error (Unit {0}) × List ℕ =
                  receive (world.answer attempt (start + length (opened file)) end) (opened file) in
                let succeeded : got.0 ≡ ok tt = ground (arith, e, ready, short) in
                let left : some got.1 ≡ file' = ground (arith, e, ready, short) in
                sym left
                ∙ ap some (
                    receive-eq-ok (world.answer attempt (start + length (opened file)) end)
                      (opened file) got.1 (asked attempt (opened file) short) p
                      (ap (λ r. (r, got.1)) succeeded))
          ]
        ]

    -- With a server that keeps to the ranges, a file that is a prefix of its range is one after
    -- the retry loop too, whatever the attempts meet, error statuses with any body among it, and
    -- whether it succeeds or not. A file that is not there counts as empty.
    pub retry_loop-PrefixOf :
        (stopped : ℕ → Option Error) (rounds attempt : ℕ) (last : Error) (file : Option (List ℕ))
        → PrefixOf range (opened file)
        → PrefixOf range (opened (retry_loop world stopped start end rounds attempt last file).1)
    unfolding retry_loop
    retry_loop-PrefixOf stopped zero attempt last file p = p
    retry_loop-PrefixOf stopped (suc rounds) attempt last file p =
        retry_cases world stopped start end (λ r. PrefixOf range (opened r.1)) rounds attempt last
          file (λ x _. p)
          (λ f' e. rw (ap (λ r. opened r.1) e) at (download_part-PrefixOf attempt file p))
          (λ x f' e _. rw (ap (λ r. opened r.1) e) at (download_part-PrefixOf attempt file p))
          (λ x f' e.
            retry_loop-PrefixOf stopped rounds (attempt + 1) x f'
              (rw (ap (λ r. opened r.1) e) at (download_part-PrefixOf attempt file p)))

    retry_loop-eq-ok :
        (stopped : ℕ → Option Error) (rounds attempt : ℕ) (last : Error)
        (file file' : Option (List ℕ))
        → PrefixOf range (opened file)
        → retry_loop world stopped start end rounds attempt last file ≡ (ok tt, file')
        → file' ≡ some range
    unfolding retry_loop
    retry_loop-eq-ok stopped zero attempt last file file' p h = absurd (ground (arith, h))
    retry_loop-eq-ok stopped (suc rounds) attempt last file file' p h =
        let split : retry_loop world stopped start end (suc rounds) attempt last file
              ≡ (ok tt, file')
            → file' ≡ some range =
          retry_cases world stopped start end (λ r. r ≡ (ok tt, file') → file' ≡ some range) rounds
            attempt last file (λ x _ h. absurd (ground (arith, h)))
            (λ f' e h. download_part-eq-ok attempt file file' p (e ∙ h))
            (λ x f' e _ h. absurd (ground (arith, h)))
            (λ x f' e h.
              retry_loop-eq-ok stopped rounds (attempt + 1) x f' file'
                (rw (ap (λ r. opened r.1) e) at (download_part-PrefixOf attempt file p)) h) in
        split h

    -- A download of a range that reports success has left exactly the bytes of the range, when it
    -- began with some first bytes of it, none of them or all.
    pub download_part_with_retry_complete :
        (stopped : ℕ → Option Error) (max_retries : ℕ) (file file' : Option (List ℕ))
        → PrefixOf range (opened file)
        → download_part_with_retry world stopped max_retries start end file ≡ (ok tt, file')
        → file' ≡ some range
    unfolding download_part_with_retry
    download_part_with_retry_complete stopped max_retries file file' p h =
        retry_loop-eq-ok stopped (max_retries + 1) 0 (network 0) file file' p h

-- A server that answers the first request of a download, of which some bytes but not all are on
-- disk, with the full body and status 200, when the file can be opened, makes the download
-- report success with a file that is not the content.
pub full_response_corrupts :
    (content file : List ℕ) (world : Outside) (stopped : ℕ → Option Error) (max_retries : ℕ)
    → 0 < length file
    → length file < length content
    → world.open_fault 0 0 ≡ none
    → world.answer 0 (length file) (length content) ≡ response 200 content none
    → (download_part_with_retry world stopped max_retries 0 (length content) (some file)
        ≡ (ok tt, some (file ++ content)))
      × (file ++ content ≢ content)
unfolding download_part_with_retry retry_loop download_part receive
full_response_corrupts content file world stopped max_retries some_there missing ready answer =
    let request : 0 + length file ≡ length file = omega arith in
    let bound : max_retries + 1 ≡ suc max_retries = omega arith in
    (
      rw bound (ground (arith, answer, ready, request)),
      (λ e. omega (arith, ap length e, length-append file content)),
    )
