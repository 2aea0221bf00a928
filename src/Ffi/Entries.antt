-- ===== src/Ffi/Entries.antt =====
-- The entry points of src/ffi.rs that scan and that read a chunk. Each of them clears the error, checks
-- its arguments in the order of the source, and runs under `catch_unwind`.
use mmap_chunker_core.Base.{
  ℕ, ◌+◌, ◌-◌, List, Option, none, some, Run, done, ◌>>=◌, Io, ◌==◌, leb, if◌then◌else◌,
}
use mmap_chunker_core.Slice.{len}
use mmap_chunker_core.Ranges.{Range}
use mmap_chunker_core.Scanner.Chunks.{find_chunk_boundaries, find_chunk_boundaries_pattern}
use mmap_chunker_core.Scanner.Partition.{
  find_partition_boundaries, find_partition_boundaries_pattern,
}
use mmap_chunker_core.Plan.{empty, from_ranges, plan_fixed, count, range_at}
use mmap_chunker_core.Pin.{Metadata}
use mmap_chunker_core.Ffi.{
  Message, handle_null, requested_zero, out_chunk_null, index_out_of_bounds, bounds_overflow,
  panic_scan_chunks, panic_scan_chunks_pattern, panic_scan_fixed, panic_partition_records,
  panic_partition_records_pattern, panic_get_chunk, Engine, World, check_engine_pin, report, refuse,
  entry, with_engine, with_delimiter, with_pin, set_plan,
}

-- `CChunkView`: an address and a length.
pub record CChunkView : Type 0 where
  pub data_ptr : ℕ
  pub len : ℕ

module _ {FilePath : Type 0} (text : Message → List ℕ) (metadata : FilePath → Io Metadata) where
  -- A plan of the ranges that a planner returns.
  abbrev planned_ranges :
      Engine FilePath → World FilePath → Run (List Range) → Run (ℕ × World FilePath)
  planned_ranges engine w ranges = ranges >>= λ rs. done (set_plan text engine w (from_ranges rs))

  unfoldable pub mmap_engine_scan_chunks_ex : ℕ → ℕ → World FilePath → Run (ℕ × World FilePath)
  unfolding check_engine_pin
  mmap_engine_scan_chunks_ex chunk_size delimiter = entry text panic_scan_chunks 0 λ w.
      with_engine text
        (λ engine.
          with_pin text metadata engine
            (if len engine.mmap == 0
              then done (0, (set_plan text engine w empty).1)
              else planned_ranges engine w (find_chunk_boundaries engine.mmap chunk_size delimiter))
            w)
        w

  -- With the delimiter `b'\n'`.
  unfoldable pub mmap_engine_scan_chunks : ℕ → World FilePath → Run (ℕ × World FilePath)
  unfolding mmap_engine_scan_chunks_ex
  mmap_engine_scan_chunks chunk_size = mmap_engine_scan_chunks_ex chunk_size 10

  -- There is no guard on an empty file here.
  unfoldable pub mmap_engine_scan_chunks_pattern :
      ℕ → Option (List ℕ) → ℕ → World FilePath → Run (ℕ × World FilePath)
  unfolding check_engine_pin
  mmap_engine_scan_chunks_pattern chunk_size delimiter delimiter_len =
      entry text panic_scan_chunks_pattern 0 λ w.
        with_engine text
          (λ engine.
            with_delimiter text delimiter delimiter_len
              (λ pattern.
                with_pin text metadata engine
                  (planned_ranges engine w
                    (find_chunk_boundaries_pattern engine.mmap chunk_size pattern))
                  w)
              w)
          w

  unfoldable pub mmap_engine_scan_fixed : ℕ → World FilePath → Run (ℕ × World FilePath)
  unfolding check_engine_pin
  mmap_engine_scan_fixed chunk_size = entry text panic_scan_fixed 0 λ w.
      with_engine text
        (λ engine.
          with_pin text metadata engine
            (done (set_plan text engine w (plan_fixed (len engine.mmap) chunk_size))) w)
        w

  -- An empty file gives an empty plan before the request is looked at; a request of 0 is refused.
  abbrev planned_partitions :
      Engine FilePath → World FilePath → ℕ → Run (List Range) → Run (ℕ × World FilePath)
  planned_partitions engine w requested ranges =
      let planned = planned_ranges engine w ranges in
      if len engine.mmap == 0
      then done (0, (set_plan text engine w empty).1)
      else if requested == 0
      then refuse text requested_zero w
      else planned

  unfoldable pub mmap_engine_partition_records : ℕ → ℕ → World FilePath → Run (ℕ × World FilePath)
  unfolding check_engine_pin
  mmap_engine_partition_records requested delimiter = entry text panic_partition_records 0 λ w.
      with_engine text
        (λ engine.
          with_pin text metadata engine
            (planned_partitions engine w requested
              (find_partition_boundaries engine.mmap requested delimiter))
            w)
        w

  unfoldable pub mmap_engine_partition_records_pattern :
      ℕ → Option (List ℕ) → ℕ → World FilePath → Run (ℕ × World FilePath)
  unfolding check_engine_pin
  mmap_engine_partition_records_pattern requested delimiter delimiter_len =
      entry text panic_partition_records_pattern 0 λ w.
        with_engine text
          (λ engine.
            with_delimiter text delimiter delimiter_len
              (λ pattern.
                with_pin text metadata engine
                  (planned_partitions engine w requested
                    (find_partition_boundaries_pattern engine.mmap requested pattern))
                  w)
              w)
          w

module _ {FilePath : Type 0} (text : Message → List ℕ) where
  -- The status 0 comes with the view that is written to `out_chunk`, and -1 with none. `out_chunk` is
  -- whether the pointer may be written to.
  unfoldable pub mmap_engine_get_chunk :
      ℕ → Option (Unit {0}) → World FilePath → Run (Option CChunkView × World FilePath)
  mmap_engine_get_chunk index out_chunk = entry text panic_get_chunk none λ w. elim w.handle [
    | none ↦ done (none, report text handle_null w)
    | some engine ↦ elim out_chunk [
      | none ↦ done (none, report text out_chunk_null w)
      | some u ↦
          let view : Run (Option CChunkView × World FilePath) =
            elim (range_at engine.plan index (len engine.mmap)) [
              | none ↦ done (none, report text bounds_overflow w)
              | some (start, end) ↦
                  done (some (record { data_ptr = engine.mmap.addr + start; len = end - start }), w)
            ] in
          if leb (count engine.plan) index
          then done (none, report text index_out_of_bounds w)
          else view
    ]
  ]
