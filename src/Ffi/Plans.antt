-- ===== src/Ffi/Plans.antt =====
-- `mmap_engine_plan_partition_ranges` of src/ffi.rs: planning over a path, with the ranges written to an
-- array of the caller.
use mmap_chunker_core.Base.{
  ℕ, ◌≤◌, ◌<◌, ◌≡◌, refl, ap, ◌∙◌, arith, max, List, length, take, Option, none, some, Bool, true,
  not, Run, done, ◌>>=◌, ok, err, Io, isize_max, ltb, ◌==◌, ◌&&◌, if◌then◌else◌,
}
use mmap_chunker_core.Slice.{Slice, IsSlice}
use mmap_chunker_core.Ranges.{Range}
use mmap_chunker_core.Scanner.Chunks.Laws.{IsDelimiter}
use mmap_chunker_core.Scanner.Partition.{find_partition_boundaries_pattern}
use mmap_chunker_core.Scanner.Partition.Correct.{
  partitions, find_partition_boundaries_pattern-partitions,
}
use mmap_chunker_core.Source.{ByteSource, Serves}
use mmap_chunker_core.Source.Planner.{
  SourceMode, mmap_mode, windowed_mode, pread_mode, PlannerOptions, new_options, with_window_bytes,
  plan_partition_boundaries, plan_partition_ranges,
}
use mmap_chunker_core.Source.Equal.{plan_partition_boundaries-find_partition_boundaries_pattern}
use mmap_chunker_core.Ffi.{
  Message, path_null, delimiter_len_zero, delimiter_null, delimiter_len_range, out_count_null,
  out_ranges_null, requested_zero, source_mode_unknown, planning_failed,
  panic_plan_partition_ranges, World, report, cleared, entry,
}

-- The status with what is written: -1 and nothing, -2 and the count alone, or 0, the count and the ranges.
pub data PlanAnswer : Type 0 where
  failed : PlanAnswer
  too_small : ℕ → PlanAnswer
  written : List Range → PlanAnswer

unfoldable pub mode_of : ℕ → Option SourceMode
mode_of source_mode =
    if source_mode == 0
    then some mmap_mode
    else if source_mode == 1
    then some windowed_mode
    else if source_mode == 2
    then some pread_mode
    else none

abbrev pub answer : ℕ → List Range → PlanAnswer
answer capacity ranges =
    if ltb capacity (length ranges) then too_small (length ranges) else written ranges

module _ {FilePath : Type 0} (text : Message → List ℕ) (allocates : ℕ → Bool) (buffer_addr : ℕ)
    (open_mmap : FilePath → Io ByteSource) (open_windowed : FilePath → ℕ → Io ByteSource)
    (open_pread : FilePath → Io ByteSource) where
  -- The part behind the checks.
  abbrev plan_written :
      FilePath
      → ℕ
      → List ℕ
      → PlannerOptions
      → ℕ
      → World FilePath
      → Run (PlanAnswer × World FilePath)
  plan_written path requested delimiter options capacity w =
      plan_partition_ranges allocates buffer_addr open_mmap open_windowed open_pread path requested
        delimiter options
      >>= λ planned. elim planned [
        | err e ↦ done (failed, report text (planning_failed e) w)
        | ok ranges ↦ done (answer capacity ranges, w)
      ]

  -- `out_ranges` and `out_count` are whether these pointers may be written to.
  unfoldable pub mmap_engine_plan_partition_ranges :
      Option FilePath
      → ℕ
      → Option (List ℕ)
      → ℕ
      → ℕ
      → ℕ
      → Bool
      → ℕ
      → Bool
      → World FilePath
      → Run (PlanAnswer × World FilePath)
  mmap_engine_plan_partition_ranges path requested delimiter delimiter_len source_mode window_bytes
        out_ranges capacity out_count =
      entry text panic_plan_partition_ranges failed λ w.
        (let refuse : Message → Run (PlanAnswer × World FilePath) =
            λ m. done (failed, report text m w) in
          elim path [
            | none ↦ refuse path_null
            | some file ↦
                let with_bytes : Run (PlanAnswer × World FilePath) = elim delimiter [
                  | none ↦ refuse delimiter_null
                  | some bytes ↦
                      let planned : Run (PlanAnswer × World FilePath) = elim (mode_of source_mode) [
                        | none ↦ refuse source_mode_unknown
                        | some mode ↦
                            plan_written file requested (take delimiter_len bytes)
                              (with_window_bytes (new_options mode) window_bytes) capacity w
                      ] in
                      if ltb isize_max delimiter_len
                      then refuse delimiter_len_range
                      else if not out_count
                      then refuse out_count_null
                      else if ltb 0 capacity && not out_ranges
                      then refuse out_ranges_null
                      else if requested == 0
                      then refuse requested_zero
                      else planned
                ] in
                if delimiter_len == 0 then refuse delimiter_len_zero else with_bytes
          ])

  -- The source that a mode opens.
  abbrev pub open_mode : SourceMode → FilePath → ℕ → Io ByteSource
  open_mode mmap_mode path window_bytes = open_mmap path
  open_mode windowed_mode path window_bytes = open_windowed path window_bytes
  open_mode pread_mode path window_bytes = open_pread path

  plan_ranges :
      (path : FilePath) (mode : SourceMode) (window_bytes requested : ℕ) (p : List ℕ)
      (source : ByteSource) (s : Slice)
      → open_mode mode path window_bytes ≡ ok source
      → Serves source s.bytes
      → IsSlice s
      → IsDelimiter p
      → 0 < requested
      → allocates (max (max 1048576 (length p)) 1) ≡ true
      → plan_partition_ranges allocates buffer_addr open_mmap open_windowed open_pread path
          requested p
          (with_window_bytes (new_options mode) window_bytes)
        ≡ done (ok (partitions p s.bytes requested))
  unfolding plan_partition_ranges new_options with_window_bytes
  plan_ranges path mode window_bytes requested p source s opened serves mapped del pos allocated =
      let direct : plan_partition_boundaries allocates buffer_addr source requested p 1048576
          ≡ done (ok (partitions p s.bytes requested)) =
        plan_partition_boundaries-find_partition_boundaries_pattern allocates buffer_addr source s
          requested p 1048576 serves mapped del (omega arith) allocated
        ∙ ap (λ run. run >>= λ rs. done (ok rs))
            (find_partition_boundaries_pattern-partitions s requested p mapped del) in
      ground (arith, opened, del.nonempty, direct)

  -- The number by which the caller names a mode.
  abbrev pub number_of : SourceMode → ℕ
  number_of mmap_mode = 0
  number_of windowed_mode = 1
  number_of pread_mode = 2

  mode_of-number_of : (mode : SourceMode) → mode_of (number_of mode) ≡ some mode
  unfolding mode_of
  mode_of-number_of mmap_mode = refl
  mode_of-number_of windowed_mode = refl
  mode_of-number_of pread_mode = refl

  module _ (path : FilePath) (requested : ℕ) (bytes : List ℕ) (n : ℕ) (mode : SourceMode)
      (window_bytes : ℕ) (out_ranges : Bool) (capacity : ℕ) (w : World FilePath) where
    -- The call, for an `out_count` that may be written to.
    abbrev pub call : Run (PlanAnswer × World FilePath)
    call =
        mmap_engine_plan_partition_ranges (some path) requested (some bytes) n (number_of mode)
          window_bytes out_ranges capacity true w

    -- Planning over a path, with the number of a source mode, accepted arguments, a source of an honest
    -- file and room for the buffer: the slice planner on the bytes of the file returns ranges, in every
    -- source mode and for every window size. Where the caller's array has room for as many ranges as these
    -- or more, all of them are written; where it has room for fewer, none is and only their number is
    -- reported. The error of the engine is cleared either way.
    pub mmap_engine_plan_partition_ranges-find_partition_boundaries_pattern :
        (source : ByteSource) (s : Slice)
        → open_mode mode path window_bytes ≡ ok source
        → Serves source s.bytes
        → IsSlice s
        → IsDelimiter (take n bytes)
        → 0 < n
        → n ≤ isize_max
        → 0 < requested
        → (0 < capacity → out_ranges ≡ true)
        → allocates (max (max 1048576 (length (take n bytes))) 1) ≡ true
        → (rs : List Range) × (find_partition_boundaries_pattern s requested (take n bytes)
            ≡ done rs)
          × (length rs ≤ capacity → call ≡ done (written rs, cleared text w))
          × (capacity < length rs → call ≡ done (too_small (length rs), cleared text w))
    unfolding mmap_engine_plan_partition_ranges
    mmap_engine_plan_partition_ranges-find_partition_boundaries_pattern source s opened serves
          mapped del pos small asked room allocated =
        let p = take n bytes in
        let ranges = partitions p s.bytes requested in
        let known = mode_of-number_of mode in
        let planned =
          plan_ranges path mode window_bytes requested p source s opened serves mapped del asked
            allocated in
        (
          ranges,
          find_partition_boundaries_pattern-partitions s requested p mapped del,
          λ fits. ground (arith, known, planned, room),
          λ short. ground (arith, known, planned, room),
        )
