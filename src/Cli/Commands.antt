-- ===== src/Cli/Commands.antt =====
-- `run` of src/bin/mmap-chunker.rs, its commands and the functions that emit their output. A path is the
-- bytes of an argument. What the system answers about it, and where buffers stand, are arguments.
pub mod Laws
pub mod Datasets
use mmap_chunker_core.Base.{
  ℕ, List, [], ◌∷◌, ◌++◌, Bool, true, ◌&&◌, ◌||◌, length, get_elem?, Option, none, Run, done, Io,
  Result, ok, err, unwrap, ◌==◌, if◌then◌else◌,
}
use mmap_chunker_core.Slice.{Slice}
use mmap_chunker_core.Pin.{Metadata}
use mmap_chunker_core.Chunker.{open_path, partition_records, partition_records_pattern}
use mmap_chunker_core.Scanner.Partition.{slices_equal}
use mmap_chunker_core.Source.{ByteSource}
use mmap_chunker_core.Source.Planner.{PlannerOptions, plan_partition_ranges}
use mmap_chunker_core.Cli.{
  Attempt, Message, missing_command, unknown_command, failed_to_open, failed_to_plan, ◌>>=◌,
  returned, map_err,
}
use mmap_chunker_core.Cli.Logical.{SourceRange, WorkerAssignment, plan_logical_partitions}
use mmap_chunker_core.Cli.Sourced.{plan_logical_partitions_sourced}
use mmap_chunker_core.Cli.Requests.{
  Engine, mapped, sourced, Request, partition_request, partition_files_request, is_help, asks_help,
}
use mmap_chunker_core.Cli.Emission.{Row, emit_indexed_chunks, emit_ranges}

-- The rows of `partition-files`: the worker, and a range of a source.
abbrev pub AssignmentRow : Type 0
AssignmentRow = ℕ × SourceRange

abbrev pub range_rows : ℕ → List SourceRange → List AssignmentRow
range_rows worker [] = []
range_rows worker (r ∷ rs) = (worker, r) ∷ range_rows worker rs

unfoldable pub write_assignments : List WorkerAssignment → List AssignmentRow
write_assignments [] = []
write_assignments (a ∷ rest) = range_rows a.worker_index a.ranges ++ write_assignments rest

-- What a run writes to the standard output.
pub data Output : Type 0 where
  help version : Output
  rows : List Row → Output
  assignment_rows : List AssignmentRow → Output

module _ (map_file : List ℕ → Io Slice) (metadata : List ℕ → Io Metadata) where
  unfoldable pub emit_partitions : List ℕ → ℕ → ℕ → Option ℕ → Attempt (List Row)
  emit_partitions path parts delimiter worker = do
    chunker ← map_err failed_to_open (done (open_path map_file path))
    (count, planned) ← returned (partition_records metadata chunker parts delimiter)
    returned (emit_indexed_chunks planned count worker)

  unfoldable pub emit_partitions_pattern : List ℕ → ℕ → List ℕ → Option ℕ → Attempt (List Row)
  emit_partitions_pattern path parts delimiter worker = do
    chunker ← map_err failed_to_open (done (open_path map_file path))
    (count, planned) ← returned (partition_records_pattern metadata chunker parts delimiter)
    returned (emit_indexed_chunks planned count worker)

  unfoldable pub emit_partitions_for_delimiter : List ℕ → ℕ → List ℕ → Option ℕ → Attempt (List Row)
  emit_partitions_for_delimiter path parts delimiter worker =
      let single = do
        byte ← returned (unwrap (get_elem? delimiter 0))
        emit_partitions path parts byte worker
      in if length delimiter == 1
        then single
        else emit_partitions_pattern path parts delimiter worker

module _ (map_file : List ℕ → Io Slice) where
  -- The maps of the files, opened in order.
  unfoldable pub open_all : List (List ℕ) → Attempt (List Slice)
  open_all [] = done (ok [])
  open_all (path ∷ paths) = do
    source ← map_err failed_to_open (done (open_path map_file path))
    sources ← open_all paths
    done (ok (source.mmap ∷ sources))

  unfoldable pub emit_file_partitions : List (List ℕ) → ℕ → List ℕ → Attempt (List AssignmentRow)
  emit_file_partitions paths parts delimiter = do
    sources ← open_all paths
    workers ← plan_logical_partitions sources parts delimiter
    done (ok (write_assignments workers))

module _ (allocates : ℕ → Bool) (buffer_addr : ℕ) (open_mmap : List ℕ → Io ByteSource)
    (open_windowed : List ℕ → ℕ → Io ByteSource) (open_pread : List ℕ → Io ByteSource) where
  unfoldable pub emit_partitions_sourced :
      List ℕ → ℕ → List ℕ → Option ℕ → PlannerOptions → Attempt (List Row)
  emit_partitions_sourced path parts delimiter worker options = do
    ranges ← map_err failed_to_plan (
        plan_partition_ranges allocates buffer_addr open_mmap open_windowed open_pread path parts
          delimiter options)
    returned (emit_ranges ranges worker)

  unfoldable pub emit_file_partitions_sourced :
      (List ℕ → Io ℕ) → List (List ℕ) → ℕ → List ℕ → PlannerOptions → Attempt (List AssignmentRow)
  emit_file_partitions_sourced stat paths parts delimiter options = do
    workers ←
        plan_logical_partitions_sourced open_windowed open_pread options stat paths parts delimiter
    done (ok (write_assignments workers))

module _ (map_file : List ℕ → Io Slice) (metadata : List ℕ → Io Metadata) (allocates : ℕ → Bool)
    (buffer_addr : ℕ) (open_mmap : List ℕ → Io ByteSource)
    (open_windowed : List ℕ → ℕ → Io ByteSource) (open_pread : List ℕ → Io ByteSource)
    (stat : List ℕ → Io ℕ) where
  -- The engine that a request has chosen.
  unfoldable pub execute_partition : Request (List ℕ) → Attempt (List Row)
  execute_partition r = elim r.engine [
    | mapped ↦
        emit_partitions_for_delimiter map_file metadata r.operands r.parts r.delimiter r.worker
    | sourced options ↦
        emit_partitions_sourced allocates buffer_addr open_mmap open_windowed open_pread r.operands
          r.parts r.delimiter r.worker options
  ]

  unfoldable pub execute_partition_files : Request (List (List ℕ)) → Attempt (List AssignmentRow)
  execute_partition_files r = elim r.engine [
    | mapped ↦ emit_file_partitions map_file r.operands r.parts r.delimiter
    | sourced options ↦
        emit_file_partitions_sourced allocates buffer_addr open_mmap open_windowed open_pread stat
          r.operands r.parts r.delimiter options
  ]

  unfoldable pub run_partition : List (List ℕ) → Attempt Output
  run_partition arguments =
      let executed = do
        r ← done (partition_request arguments)
        written ← execute_partition r
        done (ok (rows written))
      in if asks_help arguments then done (ok help) else executed

  unfoldable pub run_partition_files : List (List ℕ) → Attempt Output
  run_partition_files arguments =
      let executed = do
        r ← done (partition_files_request arguments)
        written ← execute_partition_files r
        done (ok (assignment_rows written))
      in if asks_help arguments then done (ok help) else executed

  -- "--version" and "-V", "partition" and "partition-files"
  unfoldable pub run : List (List ℕ) → Attempt Output
  run [] = done (err missing_command)
  run (command ∷ rest) =
      let is_version =
        slices_equal command (45 ∷ 45 ∷ 118 ∷ 101 ∷ 114 ∷ 115 ∷ 105 ∷ 111 ∷ 110 ∷ [])
        || slices_equal command (45 ∷ 86 ∷ []) in
      let alone : Bool = length rest == 0 in
      let is_partition =
        slices_equal command (112 ∷ 97 ∷ 114 ∷ 116 ∷ 105 ∷ 116 ∷ 105 ∷ 111 ∷ 110 ∷ []) in
      let is_partition_files = slices_equal command (
        112 ∷ 97 ∷ 114 ∷ 116 ∷ 105 ∷ 116 ∷ 105 ∷ 111 ∷ 110 ∷ 45 ∷ 102 ∷ 105 ∷ 108 ∷ 101 ∷ 115
        ∷ []) in
      if alone && is_help command
      then done (ok help)
      else if alone && is_version
      then done (ok version)
      else if is_partition
      then run_partition rest
      else if is_partition_files
      then run_partition_files rest
      else done (err (unknown_command command))
