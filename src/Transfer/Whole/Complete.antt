-- ===== src/Transfer/Whole/Complete.antt =====
-- A download that reports success has left the file that the server has.
use apack.Base.{
  ℕ, zero, suc, ◌+◌, ◌-◌, ◌*◌, ◌≤◌, ◌<◌, ◌≡◌, ◌≢◌, refl, sym, ap, ◌∙◌, Option, none, some, List, [],
  ◌∷◌, ◌++◌, Result, ok, err, arith, ltb, ◌==◌, length, take, min, length-append, append-nil,
  Bool-cases, Option-cases, inl, inr, take-nil,
}
use apack.Transfer.Chunks.{
  large_file_threshold, calculate_chunk_size, part_count, part_start, part_end, below_start,
  beyond_end, calculate_chunk_size_bounds, calculate_chunk_size-lt,
}
use apack.Transfer.Float.{mantissa}
use apack.Transfer.Part.{Error, opened, download_part_with_retry, slice, PrefixOf, IsHonest}
use apack.Transfer.Part.Resume.{download_part_with_retry_complete}
use apack.Transfer.Whole.{
  Disk, Env, write_part, download_chunk, download_chunks, merge_loop, merge_parts, merge_after,
  download_concurrent, has_size, start, first_error,
}

take-slice : (xs : List ℕ) (a b : ℕ) → a ≤ b → take a xs ++ slice xs a b ≡ take b xs
take-slice xs zero b h = let e : b - 0 ≡ b = omega arith in rw e
take-slice [] (suc a) zero h = absurd (omega arith)
take-slice [] (suc a) (suc b) h = take-nil (suc b - suc a)
take-slice (x ∷ xs) (suc a) zero h = absurd (omega arith)
take-slice (x ∷ xs) (suc a) (suc b) h =
    let e : suc b - suc a ≡ b - a = omega arith in
    rw e (ap (◌∷◌ x) (take-slice xs a b (omega arith)))

take_all : (xs : List ℕ) → take (length xs) xs ≡ xs
take_all [] = refl
take_all (x ∷ xs) = rw (take_all xs)

first_error-eq-ok :
    (r s : Result Error (Unit {0})) → first_error r s ≡ ok tt → (r ≡ ok tt) × (s ≡ ok tt)
first_error-eq-ok (ok _) s e = (refl, e)
first_error-eq-ok (err x) s e = absurd (ground (arith, e))

write_part-same :
    (parts : ℕ → Option (List ℕ)) (i : ℕ) (file : Option (List ℕ))
    → write_part parts i file i ≡ file
unfolding write_part
write_part-same parts i file = ground arith

write_part-other :
    (parts : ℕ → Option (List ℕ)) (i j : ℕ) (file : Option (List ℕ))
    → j ≢ i
    → write_part parts i file j ≡ parts j
unfolding write_part
write_part-other parts i j file h = ground (arith, h)

-- where the chunks before the i-th end
abbrev edge : ℕ → ℕ → ℕ → ℕ
edge total size i = min total (i * size)

part_end-eq-edge : (total size i : ℕ) → part_end total size i ≡ edge total size (i + 1)
unfolding part_end part_start
part_end-eq-edge total size i = ground arith

-- the bytes of the i-th chunk
abbrev pub chunk : List ℕ → ℕ → ℕ → List ℕ
chunk content size i = slice content (part_start size i) (part_end (length content) size i)

module _ (content : List ℕ) (size : ℕ) (small : length content < mantissa) (fits : size < mantissa)
    (pos : 0 < size) where
  abbrev total : ℕ
  total = length content

  take-chunk :
      (i : ℕ)
      → i < part_count total size
      → take (edge total size i) content ++ chunk content size i
        ≡ take (edge total size (i + 1)) content
  unfolding part_start
  take-chunk i h =
      let inside : i * size < total = below_start total size small fits pos i h in
      let a : edge total size i ≡ i * size = omega arith in
      rw (a, part_end-eq-edge total size i)
        (take-slice content (i * size) (edge total size (i + 1)) (grind arith))

  merge_loop_complete :
      (fault : ℕ → Option (ℕ × Error)) (rounds i : ℕ) (out : List ℕ) (parts : ℕ → Option (List ℕ))
      (disk : Disk)
      → i + rounds ≡ part_count total size
      → out ≡ take (edge total size i) content
      → ((j : ℕ) → i ≤ j → j < part_count total size → parts j ≡ some (chunk content size j))
      → merge_loop fault rounds i out parts ≡ (ok tt, disk)
      → disk.dest ≡ some content
  unfolding merge_loop
  merge_loop_complete fault zero i out parts disk n e h r =
      let all : edge total size i ≡ total =
        omega (arith, beyond_end total size small fits pos i (omega arith)) in
      sym (ap (λ q. q.1.dest) r) ∙ rw (e, all, take_all content)
  merge_loop_complete fault (suc rounds) i out parts disk n e h r =
      let here : parts i ≡ some (chunk content size i) = h i (omega arith) (omega arith) in
      elim (Option-cases (fault i)) [
        | inr ((n, x), broken) ↦ absurd (ground (arith, r, here, broken))
        | inl fine ↦
            merge_loop_complete fault rounds (i + 1) (out ++ chunk content size i)
              (write_part parts i none) disk (omega arith) (rw e (take-chunk i (omega arith)))
              (λ j above below.
                write_part-other parts i j none (omega arith) ∙ h j (omega arith) below)
              (rw (here, fine, merge_loop) at r)
      ]

  module _ (env : Env) (honest : IsHonest content env.world) where
    chunk_complete :
        (i : ℕ) (file file' : Option (List ℕ))
        → PrefixOf (chunk content size i) (opened file)
        → download_chunk env total size i file ≡ (ok tt, file')
        → file' ≡ some (chunk content size i)
    unfolding download_chunk
    chunk_complete i file file' p e = elim (Bool-cases (env.skipped i)) [
      | inl skipped ↦ absurd (ground (arith, e, skipped))
      | inr started ↦
          download_part_with_retry_complete content (part_start size i) (part_end total size i)
            env.world honest (env.stopped i) env.max_retries file file' p
            (ground (arith, e, started))
    ]

    download_chunks_complete :
        (rounds i : ℕ) (parts parts' : ℕ → Option (List ℕ)) (sofar : Result Error (Unit {0}))
        → ((j : ℕ) → i ≤ j → PrefixOf (chunk content size j) (opened (parts j)))
        → download_chunks env total size rounds i parts sofar ≡ (ok tt, parts')
        → (sofar ≡ ok tt)
          × ((j : ℕ) → j < i → parts' j ≡ parts j)
          × ((j : ℕ) → i ≤ j → j < i + rounds → parts' j ≡ some (chunk content size j))
    unfolding download_chunks write_part
    download_chunks_complete zero i parts parts' sofar p e =
        (ap (λ r. r.0) e, (λ j h. sym (ap (λ r. r.1 j) e)), (λ j h k. absurd (omega arith)))
    download_chunks_complete (suc rounds) i parts parts' sofar p e =
        let got : Result Error (Unit {0}) × Option (List ℕ) =
          download_chunk env total size i (parts i) in
        let (a, b, c) =
          download_chunks_complete rounds (i + 1) (write_part parts i got.1) parts'
            (first_error sofar got.0)
            (λ j h.
              let other : write_part parts i got.1 j ≡ parts j =
                write_part-other parts i j got.1 (omega arith) in
              rw other (p j (omega arith)))
            e in
        let (before, now) = first_error-eq-ok sofar got.0 a in
        let written : got.1 ≡ some (chunk content size i) =
          chunk_complete i (parts i) got.1 (p i (omega arith)) (ap (λ r. (r, got.1)) now) in
        (
          before,
          (λ j h. b j (omega arith) ∙ write_part-other parts i j got.1 (omega arith)),
          (λ j h k. elim (Bool-cases (j == i)) [
            | inl same ↦
                let same' : j ≡ i = ground arith in
                rw same' (b i (omega arith) ∙ write_part-same parts i got.1 ∙ written)
            | inr other ↦ c j (ground arith) (omega arith)
          ]),
        )

  merge_after-eq-ok :
      (env : Env) (count : ℕ) (disk disk' : Disk) (r : Result Error (Unit {0}))
      (parts : ℕ → Option (List ℕ))
      → merge_after env count disk (r, parts) ≡ (ok tt, disk')
      → (r ≡ ok tt) × (merge_loop env.copy_fault count 0 [] parts ≡ (ok tt, disk'))
  unfolding merge_after merge_parts
  merge_after-eq-ok env count disk disk' (ok _) parts e = (refl, ground (arith, e))
  merge_after-eq-ok env count disk disk' (err x) parts e = absurd (ground (arith, e))

  edge_zero : (total size : ℕ) → take (edge total size 0) content ≡ []
  edge_zero total size = let none_yet : edge total size 0 ≡ 0 = omega arith in rw none_yet refl

  -- The download by chunks that reports success has left the file that the server has, with
  -- chunks of any size that is not 0, the file and the chunks below 2^53, when the server keeps to
  -- the ranges and the chunks on disk are absent or hold first bytes of their ranges.
  pub download_concurrent_complete :
      (env : Env) (disk disk' : Disk)
      → IsHonest content env.world
      → ((j : ℕ) → PrefixOf (chunk content size j) (opened (disk.parts j)))
      → download_concurrent env total size disk ≡ (ok tt, disk')
      → disk'.dest ≡ some content
  unfolding download_concurrent
  download_concurrent_complete env disk disk' honest p e =
      let count = part_count total size in
      let got : Result Error (Unit {0}) × (ℕ → Option (List ℕ)) =
        download_chunks env total size count 0 disk.parts (ok tt) in
      let (succeeded, merged) = merge_after-eq-ok env count disk disk' got.0 got.1 e in
      let (_, _, all) =
        download_chunks_complete env honest count 0 disk.parts got.1 (ok tt) (λ j _. p j)
          (ap (λ r. (r, got.1)) succeeded) in
      merge_loop_complete env.copy_fault count 0 [] got.1 disk' (omega arith)
        (rw (edge_zero total size)) (λ j h k. all j h (omega arith)) merged

PrefixOf-size :
    (content file : List ℕ) → PrefixOf content file → length file ≡ length content → file ≡ content
PrefixOf-size content file ([], e) h = sym (append-nil file) ∙ e
PrefixOf-size content file (x ∷ rest, e) h =
    absurd (omega (arith, ap length e, length-append file (x ∷ rest)))

-- A download that reports success has left the file that the server has, for a file of any size
-- below 2^53, when the server keeps to the ranges, the size asked for is the file's, and the
-- destination and the chunks on disk are absent or hold first bytes of what belongs there. Under
-- an error status the server may send anything.
pub start_complete :
    (content : List ℕ) (env : Env) (disk disk' : Disk)
    → length content < mantissa
    → IsHonest content env.world
    → PrefixOf content (opened disk.dest)
    → ((j : ℕ)
        → PrefixOf
            (chunk content (calculate_chunk_size (length content)) j)
            (opened (disk.parts j)))
    → start env (length content) disk ≡ (ok tt, disk')
    → disk'.dest ≡ some content
unfolding start
start_complete content env disk disk' below honest p q e =
    let total = length content in
    elim (Bool-cases (has_size total disk.dest)) [
      | inl there ↦ elim (Option-cases disk.dest) [
        | inl none_there ↦ absurd (ground (arith, there, none_there))
        | inr (file, found) ↦
            let same : disk ≡ disk' = ground (arith, e, there) in
            let first : PrefixOf content file = rw found at p in
            let size : length file ≡ total = ground (arith, there, found) in
            ap (λ d. d.dest) (sym same) ∙ found ∙ ap some (PrefixOf-size content file first size)
      ]
      | inr missing ↦ elim (Bool-cases (ltb total large_file_threshold)) [
        | inl small ↦
            let got : Result Error (Unit {0}) × Option (List ℕ) =
              download_part_with_retry env.world (env.stopped 0) env.max_retries 0 total
                disk.dest in
            let whole : slice content 0 total ≡ content =
              (let all : total - 0 ≡ total = omega arith in rw all (take_all content)) in
            let first : PrefixOf (slice content 0 total) (opened disk.dest) = rw whole p in
            let succeeded : got.0 ≡ ok tt = ground (arith, e, missing, small) in
            let left : got.1 ≡ disk'.dest = ground (arith, e, missing, small) in
            sym left
            ∙ download_part_with_retry_complete content 0 total env.world honest (env.stopped 0)
                env.max_retries disk.dest got.1 first (ap (λ r. (r, got.1)) succeeded)
            ∙ ap some whole
        | inr large ↦
            let size = calculate_chunk_size total in
            let (_, least, _) = calculate_chunk_size_bounds total in
            download_concurrent_complete content size below (calculate_chunk_size-lt total below)
              (omega arith) env disk disk' honest q (ground (arith, e, missing, large))
      ]
    ]
