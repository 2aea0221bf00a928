-- ===== src/Cli/Commands/Laws.antt =====
-- What `partition` writes, on every command line that is accepted and over every backend.
use mmap_chunker_core.Base.{
  ℕ, ◌≤◌, ◌<◌, ◌≡◌, refl, ◌∙◌, arith, max, List, [], ◌∷◌, length, true, false, Bool, inl, inr, ◌⊎◌,
  Option, none, done, Io, ok, isize_max, All,
}
use mmap_chunker_core.Slice.{Slice, len, IsSlice}
use mmap_chunker_core.Pin.{Metadata}
use mmap_chunker_core.Plan.{from_ranges}
use mmap_chunker_core.Plan.Laws.{from_ranges-Plans}
use mmap_chunker_core.Chunker.{MmapChunker, fresh, planned, open_path, check_pinned}
use mmap_chunker_core.Chunker.Ops.{partition, partition_pattern, perform_lem}
use mmap_chunker_core.Scanner.Chunks.Laws.{IsDelimiter}
use mmap_chunker_core.Scanner.Partition.Correct.{
  partitions, partitions-Covers, find_partition_boundaries_pattern-partitions,
}
use mmap_chunker_core.Source.{ByteSource, Serves}
use mmap_chunker_core.Source.Planner.{
  SourceMode, mmap_mode, windowed_mode, pread_mode, PlannerOptions, plan_partition_boundaries,
  plan_partition_ranges,
}
use mmap_chunker_core.Source.Equal.{plan_partition_boundaries-find_partition_boundaries_pattern}
use mmap_chunker_core.Cli.Values.{min_window_bytes}
use mmap_chunker_core.Cli.Requests.{Engine, mapped, sourced, Request, partition_request, asks_help}
use mmap_chunker_core.Cli.Requests.Laws.{IsEngine, partition_request-IsRequest}
use mmap_chunker_core.Cli.Emission.{emit_indexed_chunks}
use mmap_chunker_core.Cli.Emission.Laws.{
  chosen_rows, emit_ranges-chosen_rows, emit_indexed_chunks-chosen_rows,
}
use mmap_chunker_core.Cli.Commands.{
  rows, emit_partitions, emit_partitions_pattern, emit_partitions_for_delimiter,
  emit_partitions_sourced, execute_partition, run_partition,
}

module _ (map_file : List ℕ → Io Slice) (metadata : List ℕ → Io Metadata) where
  abbrev handle : Slice → MmapChunker (List ℕ)
  handle s = fresh s none

  planned_rows :
      (s : Slice) (p : List ℕ) (parts : ℕ) (worker : Option ℕ)
      → IsSlice s
      → 0 < parts
      → let (n, c) = planned (handle s) (from_ranges (partitions p s.bytes parts)) in
        emit_indexed_chunks c n worker ≡ done (chosen_rows (partitions p s.bytes parts) worker)
  planned_rows s p parts worker held asked =
      let rs = partitions p s.bytes parts in
      let plans = from_ranges-Plans (len s) rs (partitions-Covers p s.bytes parts asked) in
      rw plans.counted (
        emit_indexed_chunks-chosen_rows (planned (handle s) (from_ranges rs)).1 rs worker held
          plans)

  module _ (path : List ℕ) (s : Slice) (found : map_file path ≡ ok s) (held : IsSlice s) where
    opened : open_path map_file path ≡ ok (handle s)
    unfolding open_path
    opened = rw (open_path, found) refl

    emit_partitions-chosen_rows :
        (d parts : ℕ) (worker : Option ℕ)
        → IsDelimiter (d ∷ [])
        → 0 < parts
        → emit_partitions map_file metadata path parts d worker
          ≡ done (ok (chosen_rows (partitions (d ∷ []) s.bytes parts) worker))
    unfolding emit_partitions check_pinned
    emit_partitions-chosen_rows d parts worker del asked = ground (
      arith,
      opened,
      perform_lem metadata (partition parts d) (handle s) del.bytes.0 held,
      planned_rows s (d ∷ []) parts worker held asked,
    )

    emit_partitions_pattern-chosen_rows :
        (p : List ℕ) (parts : ℕ) (worker : Option ℕ)
        → IsDelimiter p
        → 0 < parts
        → emit_partitions_pattern map_file metadata path parts p worker
          ≡ done (ok (chosen_rows (partitions p s.bytes parts) worker))
    unfolding emit_partitions_pattern check_pinned
    emit_partitions_pattern-chosen_rows p parts worker del asked = ground (
      arith,
      opened,
      perform_lem metadata (partition_pattern parts p) (handle s) del held,
      planned_rows s p parts worker held asked,
    )

    emit_partitions_for_delimiter-chosen_rows :
        (p : List ℕ) (parts : ℕ) (worker : Option ℕ)
        → IsDelimiter p
        → 0 < parts
        → emit_partitions_for_delimiter map_file metadata path parts p worker
          ≡ done (ok (chosen_rows (partitions p s.bytes parts) worker))
    unfolding emit_partitions_for_delimiter
    emit_partitions_for_delimiter-chosen_rows [] parts worker del asked =
        absurd (omega (arith, del.nonempty))
    emit_partitions_for_delimiter-chosen_rows (d ∷ []) parts worker del asked =
        ground (arith, emit_partitions-chosen_rows d parts worker del asked)
    emit_partitions_for_delimiter-chosen_rows (d ∷ e ∷ q) parts worker del asked =
        ground (arith, emit_partitions_pattern-chosen_rows (d ∷ e ∷ q) parts worker del asked)

pub mode_cases :
    (mode : SourceMode) → ((mode ≡ mmap_mode) ⊎ (mode ≡ windowed_mode)) ⊎ (mode ≡ pread_mode)
mode_cases mmap_mode = inl (inl refl)
mode_cases windowed_mode = inl (inr refl)
mode_cases pread_mode = inr refl

-- A file as every backend may find it: the map, and honest sources of the same bytes.
pub record IsFound (map_file : List ℕ → Io Slice) (open_windowed : List ℕ → ℕ → Io ByteSource)
    (open_pread : List ℕ → Io ByteSource) (path : List ℕ) (s : Slice) : Type 0 where
  pub found : map_file path ≡ ok s
  pub held : IsSlice s
  pub windowed :
      (w : ℕ)
      → min_window_bytes ≤ w
      → (source : ByteSource) × (open_windowed path w ≡ ok source) × Serves source s.bytes
  pub pread : (source : ByteSource) × (open_pread path ≡ ok source) × Serves source s.bytes

module _ (map_file : List ℕ → Io Slice) (metadata : List ℕ → Io Metadata) (allocates : ℕ → Bool)
    (buffer_addr : ℕ) (open_mmap : List ℕ → Io ByteSource)
    (open_windowed : List ℕ → ℕ → Io ByteSource) (open_pread : List ℕ → Io ByteSource)
    (stat : List ℕ → Io ℕ) (allocating : (n : ℕ) → n ≤ isize_max → allocates n ≡ true) where
  module _ (path : List ℕ) (s : Slice) (file : IsFound map_file open_windowed open_pread path s)
      (p : List ℕ) (parts : ℕ) (del : IsDelimiter p) (asked : 0 < parts) where
    planned_boundaries :
        (source : ByteSource) (scan : ℕ)
        → Serves source s.bytes
        → scan ≤ isize_max
        → plan_partition_boundaries allocates buffer_addr source parts p (max scan 1)
          ≡ done (ok (partitions p s.bytes parts))
    planned_boundaries source scan serves small =
        plan_partition_boundaries-find_partition_boundaries_pattern allocates buffer_addr source s
          parts p (max scan 1) serves file.held del (omega arith)
          (allocating _ (omega (arith, del.fits)))
        ∙ rw (find_partition_boundaries_pattern-partitions s parts p file.held del) refl

    plan_partition_ranges-partitions :
        (options : PlannerOptions)
        → IsEngine (sourced options)
        → plan_partition_ranges allocates buffer_addr open_mmap open_windowed open_pread path parts
            p options
          ≡ done (ok (partitions p s.bytes parts))
    plan_partition_ranges-partitions options (not_mapped, least, most, pos, scan) =
        elim (mode_cases options.mode) [
          | inl (inl m) ↦ absurd (not_mapped m)
          | inl (inr m) ↦
              let (source, opened, serves) = file.windowed options.window_bytes least in
              let planned = planned_boundaries source options.scan_buffer_bytes serves scan in
              unfold plan_partition_ranges in ground (arith, m, opened, planned, del.nonempty)
          | inr m ↦
              let (source, opened, serves) = file.pread in
              let planned = planned_boundaries source options.scan_buffer_bytes serves scan in
              unfold plan_partition_ranges in ground (arith, m, opened, planned, del.nonempty)
        ]

    -- The rows of a request that is accepted, on whichever engine it has chosen.
    execute_partition-chosen_rows :
        (worker : Option ℕ) (engine : Engine)
        → IsEngine engine
        → execute_partition map_file metadata allocates buffer_addr open_mmap open_windowed
            open_pread stat
            (record {
              operands = path;
              parts = parts;
              delimiter = p;
              worker = worker;
              engine = engine;
            })
          ≡ done (ok (chosen_rows (partitions p s.bytes parts) worker))
    unfolding execute_partition emit_partitions_sourced
    execute_partition-chosen_rows worker mapped engine =
        emit_partitions_for_delimiter-chosen_rows map_file metadata path s file.found file.held p
          parts worker del asked
    execute_partition-chosen_rows worker (sourced options) engine =
        rw
          (
            plan_partition_ranges-partitions options engine,
            emit_ranges-chosen_rows (partitions p s.bytes parts) worker,
          )
          refl

  -- Every `partition` command line that is accepted (and does not ask for help), whatever its options are
  -- and in which order they come, on a file that the maps and the sources find alike and with buffers that
  -- can be allocated: it writes the partitions of the file for its delimiter and its number of parts, all
  -- rows or the one of its worker if that partition exists, and the same rows on every backend.
  pub run_partition-chosen_rows :
      (arguments : List (List ℕ)) (r : Request (List ℕ)) (s : Slice)
      → All (λ (argument : List ℕ). length argument ≤ isize_max) arguments
      → asks_help arguments ≡ false
      → partition_request arguments ≡ ok r
      → IsFound map_file open_windowed open_pread r.operands s
      → run_partition map_file metadata allocates buffer_addr open_mmap open_windowed open_pread
          stat arguments
        ≡ done (ok (rows (chosen_rows (partitions r.delimiter s.bytes r.parts) r.worker)))
  unfolding run_partition
  run_partition-chosen_rows arguments r s small no_help accepted file =
      let good = partition_request-IsRequest arguments r small accepted in
      let written =
        execute_partition-chosen_rows r.operands s file r.delimiter r.parts good.delimited
          good.some_parts r.worker r.engine good.engine in
      rw (no_help, accepted, written) refl
