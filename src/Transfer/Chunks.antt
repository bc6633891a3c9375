-- ===== src/Transfer/Chunks.antt =====
-- How a file is cut into chunks: `calculateChunkSize` and the loop of `downloadConcurrent`. The number
-- of chunks is that of the quotient of two floats, which below 2^53 is that of the integers.
use apack.Transfer.Float.{mantissa, to_float, to_float_exact, ceil_quotient, ceil_quotient_exact}
use apack.Base.{ℕ, suc, ◌+◌, ◌-◌, ◌*◌, ◌/◌, ◌%◌, ◌≤◌, ◌<◌, ◌≡◌, arith, ltb, ◌==◌, if◌then◌else◌}

abbrev pub mb : ℕ
mb = 1048576

abbrev pub large_file_threshold : ℕ
large_file_threshold = 100 * mb

abbrev pub min_chunk_size : ℕ
min_chunk_size = 10 * mb

abbrev pub max_chunk_count : ℕ
max_chunk_count = 100

unfoldable pub calculate_chunk_size : ℕ → ℕ
calculate_chunk_size total =
    let size =
      if ltb (total / max_chunk_count) min_chunk_size
      then min_chunk_size
      else total / max_chunk_count in
    if size % mb == 0 then size else size + (mb - size % mb)

-- `math.Ceil(float64(total) / float64(size))`
unfoldable pub part_count : ℕ → ℕ → ℕ
unfolding to_float ceil_quotient
part_count total size = ceil_quotient (to_float total) (to_float size)

unfoldable pub part_start : ℕ → ℕ → ℕ
part_start size i = i * size

unfoldable pub part_end : ℕ → ℕ → ℕ → ℕ
unfolding part_start
part_end total size i = let end = part_start size i + size in if ltb total end then total else end

-- A chunk is a whole number of megabytes, at least ten, and a hundred chunks of one byte more
-- would exceed the file.
pub calculate_chunk_size_bounds :
    (total : ℕ)
    → (calculate_chunk_size total % mb ≡ 0)
      × (min_chunk_size ≤ calculate_chunk_size total)
      × (total < (calculate_chunk_size total + 1) * max_chunk_count)
unfolding calculate_chunk_size
calculate_chunk_size_bounds total = ground arith

part_count_exact :
    (total size : ℕ)
    → total < mantissa
    → size < mantissa
    → 0 < size
    → part_count total size ≡ (total + size - 1) / size
unfolding part_count
part_count_exact total size h k pos =
    rw (to_float_exact total h, to_float_exact size k) (ceil_quotient_exact total size h pos)

pub calculate_chunk_size-lt : (total : ℕ) → total < mantissa → calculate_chunk_size total < mantissa
unfolding calculate_chunk_size
calculate_chunk_size-lt total h = ground arith

part_count_le :
    (total size : ℕ)
    → 0 < size
    → total < (size + 1) * 100
    → 100 ≤ size
    → (total + size - 1) / size ≤ 101
part_count_le total size h k big = grind arith

-- The number of chunks of a file below 2^53 is at most one more than the maximum that the code
-- names.
pub chunk_count_le :
    (total : ℕ)
    → total < mantissa
    → part_count total (calculate_chunk_size total) ≤ max_chunk_count + 1
chunk_count_le total h =
    let (a, b, c) = calculate_chunk_size_bounds total in
    let size = calculate_chunk_size total in
    rw (part_count_exact total size h (calculate_chunk_size-lt total h) (omega arith))
      (part_count_le total size (omega arith) (omega arith) (omega arith))

size_unrounded : (k r : ℕ) → 10 ≤ k → r < 100 → calculate_chunk_size (k * mb * 100 + r) ≡ k * mb
unfolding calculate_chunk_size
size_unrounded k r h q =
    let size : (k * mb * 100 + r) / 100 ≡ k * mb = omega arith in rw size (ground arith)

count_over : (size r : ℕ) → 100 ≤ size → 0 < r → r < 100 → (size * 100 + r + size - 1) / size ≡ 101
count_over size r h p q = grind arith

-- The number of chunks of a file below 2^53 is one more than MaxChunkCount whenever a hundredth
-- of the size is a whole number of megabytes, at least ten, and one to ninety-nine bytes are
-- left over.
pub chunk_count_exceeds_max :
    (k r : ℕ)
    → 10 ≤ k
    → 0 < r
    → r < 100
    → k * mb * 100 + r < mantissa
    → part_count (k * mb * 100 + r) (calculate_chunk_size (k * mb * 100 + r)) ≡ max_chunk_count + 1
chunk_count_exceeds_max k r h p q small =
    let exact = part_count_exact (k * mb * 100 + r) (k * mb) small (omega arith) (omega arith) in
    rw (size_unrounded k r h q, exact) (count_over (k * mb) r (omega arith) p q)

below : (total size j : ℕ) → 0 < size → j < (total + size - 1) / size → j * size < total
below total size j pos h = grind arith

beyond : (total size j : ℕ) → 0 < size → (total + size - 1) / size ≤ j → total ≤ j * size
beyond total size j pos h = grind arith

module _ (total size : ℕ) (small : total < mantissa) (fits : size < mantissa) (pos : 0 < size) where
  pub below_start : (j : ℕ) → j < part_count total size → j * size < total
  below_start j h = below total size j pos (rw (part_count_exact total size small fits pos) at h)

  pub beyond_end : (j : ℕ) → part_count total size ≤ j → total ≤ j * size
  beyond_end j h = beyond total size j pos (rw (part_count_exact total size small fits pos) at h)

  -- The chunks of a file below 2^53, for any chunk size below 2^53 that is not 0: each begins
  -- inside the file, is not empty and no longer than the size, and ends where the next one
  -- begins, or, for the last one, with the file; the first begins at 0.
  pub parts_tile :
      (i : ℕ)
      → i < part_count total size
      → (part_start size 0 ≡ 0)
        × (part_start size i < part_end total size i)
        × (part_end total size i ≤ part_start size i + size)
        × (part_end total size i
            ≡ (if ltb (suc i) (part_count total size) then part_start size (suc i) else total))
  unfolding part_start part_end
  parts_tile i h = ground (arith, below_start i h, below_start (suc i), beyond_end (suc i))
