-- ===== src/Source/Planner.antt =====
-- `plan_partition_boundaries` and `plan_partition_ranges`. Whether the buffer can be allocated, and
-- where it stands, are arguments.
use mmap_chunker_core.Base.{
  ℕ, zero, suc, ◌+◌, ◌-◌, min, max, List, [], ◌∷◌, length, none, some, Bool, Run, done, panicked,
  ◌>>=◌, ok, err, invalid_input, out_of_memory, Io, isize_max, ◌==◌, ltb, leb, ◌||◌, ◌&&◌,
  if◌then◌else◌, saturating_add,
}
use mmap_chunker_core.Ranges.{Range}
use mmap_chunker_core.Scanner.Partition.{
  ideal_target, slices_equal, ranges_from_boundaries, find_partition_boundaries_pattern,
}
use mmap_chunker_core.Source.{ByteSource}
use mmap_chunker_core.Source.Read.{and_ok, fill, find_pattern_from}

module _ (source : ByteSource) (buffer_addr buffer_len n : ℕ) (delimiter : List ℕ) where
  -- The loop over `1..n` at `i`, with the rounds left.
  unfoldable pub buffered_loop : ℕ → ℕ → ℕ → Run (Io (List ℕ))
  buffered_loop zero i last_boundary = done (ok [])
  buffered_loop (suc left) i last_boundary =
      let file_len = source.len in
      let dlen = length delimiter in
      let target = ideal_target file_len n i in
      let skip = buffered_loop left (i + 1) last_boundary in
      let push = λ (boundary : ℕ).
        and_ok (buffered_loop left (i + 1) boundary)
          (λ boundaries. done (ok (boundary ∷ boundaries))) in
      let forward =
        and_ok (find_pattern_from source buffer_addr buffer_len target delimiter) (λ found.
          elim found [
            | some position ↦ push (min (saturating_add position dlen) file_len)
            | none ↦ done (ok (file_len ∷ []))
          ]) in
      let exact = and_ok (fill source (suc dlen) (target - dlen) dlen []) (λ tail.
        if length tail == dlen && slices_equal tail delimiter then push target else forward) in
      if leb target last_boundary then skip else if leb dlen target then exact else forward

-- The assertion on the delimiter comes first; a source that is a slice goes to the slice planner.
unfoldable pub plan_partition_boundaries :
    (allocates : ℕ → Bool) (buffer_addr : ℕ) → ByteSource → ℕ → List ℕ → ℕ → Run (Io (List Range))
plan_partition_boundaries allocates buffer_addr source num_partitions delimiter scan_buffer_bytes =
    let file_len = source.len in
    let n = min num_partitions file_len in
    let buffer_len = max (max scan_buffer_bytes (length delimiter)) 1 in
    let looped =
      and_ok (buffered_loop source buffer_addr buffer_len n delimiter (n - 1) 1 0)
        (λ boundaries. done (ok (ranges_from_boundaries file_len boundaries))) in
    let buffered : Run (Io (List Range)) =
      if file_len == 0 || num_partitions == 0
      then done (ok [])
      else if num_partitions == 1
      then done (ok ((0, file_len) ∷ []))
      else if ltb isize_max buffer_len
      then done (err invalid_input)
      else if allocates buffer_len
      then looped
      else done (err out_of_memory) in
    let planned : Run (Io (List Range)) = elim source.as_slice [
      | some slice ↦
          find_partition_boundaries_pattern slice num_partitions delimiter >>= λ rs. done (ok rs)
      | none ↦ buffered
    ] in
    if length delimiter == 0 then panicked else planned

pub data SourceMode : Type 0 where
  mmap_mode windowed_mode pread_mode : SourceMode

pub record PlannerOptions : Type 0 where
  pub mode : SourceMode
  pub window_bytes : ℕ
  pub scan_buffer_bytes : ℕ

-- `PlannerOptions::new`: a window of 64 MiB and a buffer of 1 MiB.
unfoldable pub new_options : SourceMode → PlannerOptions
new_options mode = record { mode = mode; window_bytes = 67108864; scan_buffer_bytes = 1048576 }

unfoldable pub with_window_bytes : PlannerOptions → ℕ → PlannerOptions
with_window_bytes options window_bytes = record options { window_bytes = window_bytes }

unfoldable pub with_scan_buffer_bytes : PlannerOptions → ℕ → PlannerOptions
with_scan_buffer_bytes options bytes = record options { scan_buffer_bytes = bytes }

-- The three ways to open a path are arguments.
unfoldable pub plan_partition_ranges :
    {FilePath : Type 0} (allocates : ℕ → Bool) (buffer_addr : ℕ)
    (open_mmap : FilePath → Io ByteSource) (open_windowed : FilePath → ℕ → Io ByteSource)
    (open_pread : FilePath → Io ByteSource)
    → FilePath
    → ℕ
    → List ℕ
    → PlannerOptions
    → Run (Io (List Range))
plan_partition_ranges allocates buffer_addr open_mmap open_windowed open_pread path num_partitions
      delimiter options =
    let opened : Io ByteSource = elim options.mode [
      | mmap_mode ↦ open_mmap path
      | windowed_mode ↦ open_windowed path options.window_bytes
      | pread_mode ↦ open_pread path
    ] in
    let planned : Run (Io (List Range)) = elim opened [
      | err e ↦ done (err e)
      | ok source ↦
          plan_partition_boundaries allocates buffer_addr source num_partitions delimiter
            (max options.scan_buffer_bytes 1)
    ] in
    if length delimiter == 0
    then panicked
    else if num_partitions == 0
    then done (ok [])
    else planned
