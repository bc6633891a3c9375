-- ===== src/Transfer/Sync.antt =====
-- `syncProgress`: bytes that are on disk already are fed to the progress writer from a buffer.
use apack.Base.{
  ℕ, zero, suc, ◌+◌, ◌-◌, ◌*◌, ◌≤◌, ◌≡◌, refl, true, ◌&&◌, List, [], ◌∷◌, arith, ltb, leb,
  if◌then◌else◌, all_of,
}

abbrev pub buf_size : ℕ
buf_size = 32 * 1024

-- The lengths of the writes, in at most as many rounds as there are bytes.
unfoldable pub sync_loop : ℕ → ℕ → List ℕ
sync_loop zero remaining = []
sync_loop (suc rounds) remaining =
    let to_write = if ltb buf_size remaining then buf_size else remaining in
    let rest = sync_loop rounds (remaining - to_write) in
    if ltb 0 remaining then to_write ∷ rest else []

unfoldable pub sync_progress : ℕ → List ℕ
sync_progress bytes = sync_loop bytes bytes

abbrev pub sum : List ℕ → ℕ
sum [] = 0
sum (n ∷ ns) = n + sum ns

sync_loop-sum :
    (rounds remaining : ℕ) → remaining ≤ rounds → sum (sync_loop rounds remaining) ≡ remaining
unfolding sync_loop
sync_loop-sum zero remaining h = omega arith
sync_loop-sum (suc rounds) remaining h = ground (
  arith,
  sync_loop-sum rounds (remaining - (if ltb buf_size remaining then buf_size else remaining))
      (ground arith),
)

sync_loop-buf_size :
    (rounds remaining : ℕ)
    → all_of (λ n. ltb 0 n && leb n buf_size) (sync_loop rounds remaining) ≡ true
unfolding sync_loop
sync_loop-buf_size zero remaining = refl
sync_loop-buf_size (suc rounds) remaining = ground (
  arith,
  sync_loop-buf_size rounds (remaining - (if ltb buf_size remaining then buf_size else remaining)),
)

-- The writes that stand for bytes on disk come to exactly those bytes, none is empty and none is
-- larger than the buffer; as many rounds as there are bytes are enough.
pub sync_progress-sum :
    (bytes : ℕ)
    → (sum (sync_progress bytes) ≡ bytes)
      × (all_of (λ n. ltb 0 n && leb n buf_size) (sync_progress bytes) ≡ true)
unfolding sync_progress
sync_progress-sum bytes = (sync_loop-sum bytes bytes (omega arith), sync_loop-buf_size bytes bytes)
