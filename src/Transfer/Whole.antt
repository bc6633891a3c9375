-- ===== src/Transfer/Whole.antt =====
-- `Start`, `downloadConcurrent` and `mergeParts`: a whole file, in one piece or by its chunks.
pub mod Complete
use apack.Base.{
  ℕ, zero, suc, ◌+◌, Bool, true, false, Option, none, some, List, [], ◌++◌, Result, ok, err, ltb,
  ◌==◌, if◌then◌else◌, length, take,
}
use apack.Transfer.Chunks.{
  large_file_threshold, calculate_chunk_size, part_count, part_start, part_end,
}
use apack.Transfer.Part.{Error, Outside, canceled, network, download_part_with_retry}

-- The files that a download works on: the destination and the chunks by their number.
pub record Disk : Type 0 where
  pub dest : Option (List ℕ)
  pub parts : ℕ → Option (List ℕ)

-- What the process meets: the outside of the attempts, the contexts that end in a wait, by chunk and attempt, and
-- the chunks that find the group's context done before they begin; and the disk while the chunks are
-- merged: the error of creating the destination, and by chunk the bytes that a copy gets through
-- before it fails. Removing a chunk's file after the merge succeeds.
pub record Env : Type 0 where
  pub world : Outside
  pub stopped : ℕ → ℕ → Option Error
  pub skipped : ℕ → Bool
  pub max_retries : ℕ
  pub create_fault : Option Error
  pub copy_fault : ℕ → Option (ℕ × Error)

unfoldable pub write_part : (ℕ → Option (List ℕ)) → ℕ → Option (List ℕ) → ℕ → Option (List ℕ)
write_part parts i file j = if j == i then file else parts j

-- The goroutine of one chunk.
unfoldable pub download_chunk :
    Env → ℕ → ℕ → ℕ → Option (List ℕ) → Result Error (Unit {0}) × Option (List ℕ)
download_chunk env total size i file =
    if env.skipped i
    then (err canceled, file)
    else download_part_with_retry env.world (env.stopped i) env.max_retries (part_start size i)
        (part_end total size i) file

-- The group's result is that of the first chunk that failed; the order among the chunks plays no
-- part, since each has a file of its own.
abbrev first_error : Result Error (Unit {0}) → Result Error (Unit {0}) → Result Error (Unit {0})
first_error (err x) r = err x
first_error (ok _) r = r

unfoldable pub download_chunks :
    Env
    → ℕ
    → ℕ
    → ℕ
    → ℕ
    → (ℕ → Option (List ℕ))
    → Result Error (Unit {0})
    → Result Error (Unit {0}) × (ℕ → Option (List ℕ))
download_chunks env total size zero i parts sofar = (sofar, parts)
download_chunks env total size (suc rounds) i parts sofar =
    let (result, file) = download_chunk env total size i (parts i) in
    download_chunks env total size rounds (i + 1) (write_part parts i file)
      (first_error sofar result)

-- The loop of `mergeParts`: it appends each chunk to what is written and removes its file; a chunk
-- that cannot be opened or copied ends it, with what is written so far.
unfoldable pub merge_loop :
    (ℕ → Option (ℕ × Error))
    → ℕ
    → ℕ
    → List ℕ
    → (ℕ → Option (List ℕ))
    → Result Error (Unit {0}) × Disk
unfolding write_part
merge_loop fault zero i out parts = (ok tt, record { dest = some out; parts = parts })
merge_loop fault (suc rounds) i out parts = elim (parts i) [
  | none ↦ (err (network 1), record { dest = some out; parts = parts })
  | some part ↦ elim (fault i) [
    | some (n, x) ↦ (err x, record { dest = some (out ++ take n part); parts = parts })
    | none ↦ merge_loop fault rounds (i + 1) (out ++ part) (write_part parts i none)
  ]
]

unfoldable pub merge_parts : Env → ℕ → Disk → Result Error (Unit {0}) × Disk
merge_parts env count disk = elim env.create_fault [
  | some x ↦ (err x, disk)
  | none ↦ merge_loop env.copy_fault count 0 [] disk.parts
]

merge_after :
    Env
    → ℕ
    → Disk
    → Result Error (Unit {0}) × (ℕ → Option (List ℕ))
    → Result Error (Unit {0}) × Disk
merge_after env count disk (ok _, parts) = merge_parts env count (record disk { parts = parts })
merge_after env count disk (err x, parts) = (err x, record disk { parts = parts })

unfoldable pub download_concurrent : Env → ℕ → ℕ → Disk → Result Error (Unit {0}) × Disk
unfolding merge_after
download_concurrent env total size disk =
    let count = part_count total size in
    merge_after env count disk (download_chunks env total size count 0 disk.parts (ok tt))

-- A destination of the right size is taken for complete.
abbrev pub has_size : ℕ → Option (List ℕ) → Bool
has_size total none = false
has_size total (some file) = length file == total

unfoldable pub start : Env → ℕ → Disk → Result Error (Unit {0}) × Disk
start env total disk =
    if has_size total disk.dest
    then (ok tt, disk)
    else if ltb total large_file_threshold
    then (let (result, file) =
          download_part_with_retry env.world (env.stopped 0) env.max_retries 0 total disk.dest in
        (result, record disk { dest = file }))
    else download_concurrent env total (calculate_chunk_size total) disk
