-- ===== src/Cli/Commands/Datasets.antt =====
-- What `partition-files` writes, on every command line that is accepted and over every backend.
use mmap_chunker_core.Base.{
  ℕ, ◌≤◌, ◌≡◌, refl, arith, List, [], ◌∷◌, length, false, Bool, Option, inl, inr, done, Io, ok,
  isize_max, All,
}
use mmap_chunker_core.Slice.{Slice, len, IsSlice}
use mmap_chunker_core.Pin.{Metadata}
use mmap_chunker_core.Chunker.{open_path}
use mmap_chunker_core.Scanner.Chunks.Laws.{IsDelimiter}
use mmap_chunker_core.Source.{ByteSource}
use mmap_chunker_core.Source.Planner.{PlannerOptions}
use mmap_chunker_core.Cli.Logical.{WorkerAssignment, plan_logical_partitions}
use mmap_chunker_core.Cli.Logical.Reference.{total, dataset_ranges, assignments}
use mmap_chunker_core.Cli.Logical.Mapped.{contents}
use mmap_chunker_core.Cli.Logical.Correct.{
  IsDatasetPlan, dataset-IsDatasetPlan, plan_logical_partitions-assignments,
}
use mmap_chunker_core.Cli.Sourced.{open_sourced}
use mmap_chunker_core.Cli.Sourced.Answers.{Both}
use mmap_chunker_core.Cli.Sourced.Correct.{
  Honest, plan_logical_partitions_sourced-plan_logical_partitions,
}
use mmap_chunker_core.Cli.Requests.{
  Engine, mapped, sourced, Request, partition_files_request, asks_help,
}
use mmap_chunker_core.Cli.Requests.Laws.{IsEngine, partition_files_request-IsRequest}
use mmap_chunker_core.Cli.Commands.{
  assignment_rows, write_assignments, open_all, emit_file_partitions, emit_file_partitions_sourced,
  execute_partition_files, run_partition_files,
}
use mmap_chunker_core.Cli.Commands.Laws.{IsFound, mode_cases}

module _ (map_file : List ℕ → Io Slice) (open_windowed : List ℕ → ℕ → Io ByteSource)
    (open_pread : List ℕ → Io ByteSource) (stat : List ℕ → Io ℕ) where
  -- The files of a dataset, each of which every backend finds, with its size.
  abbrev pub AllFound : List (List ℕ) → List Slice → Type 0
  AllFound [] [] = Unit
  AllFound [] (s ∷ sources) = ⊥
  AllFound (path ∷ paths) [] = ⊥
  AllFound (path ∷ paths) (s ∷ sources) =
      IsFound map_file open_windowed open_pread path s
      × (stat path ≡ ok (len s))
      × AllFound paths sources

  open_all-AllFound :
      (paths : List (List ℕ)) (sources : List Slice)
      → AllFound paths sources
      → (open_all map_file paths ≡ done (ok sources)) × All IsSlice sources
  unfolding open_all open_path
  open_all-AllFound [] [] both = (refl, tt)
  open_all-AllFound [] (s ∷ sources) both = absurd both
  open_all-AllFound (path ∷ paths) [] both = absurd both
  open_all-AllFound (path ∷ paths) (s ∷ sources) (file, sized, both) =
      let (run, held) = open_all-AllFound paths sources both in
      (ground (arith, file.found, run), (file.held, held))

  AllFound-Honest :
      (options : PlannerOptions)
      → IsEngine (sourced options)
      → (paths : List (List ℕ)) (sources : List Slice) → AllFound paths sources
      → Both (Honest open_windowed open_pread options stat) paths (contents sources)
  unfolding open_sourced
  AllFound-Honest options engine [] [] both = tt
  AllFound-Honest options engine [] (s ∷ sources) both = absurd both
  AllFound-Honest options engine (path ∷ paths) [] both = absurd both
  AllFound-Honest options (not_mapped, least, most, pos, scan) (path ∷ paths) (s ∷ sources)
        (file, sized, both) =
      let rest = AllFound-Honest options (not_mapped, least, most, pos, scan) paths sources both in
      elim (mode_cases options.mode) [
        | inl (inl m) ↦ absurd (not_mapped m)
        | inl (inr m) ↦
            let (source, opened, serves) = file.windowed options.window_bytes least in
            ((sized, (source, ground (arith, m, opened), serves)), rest)
        | inr m ↦
            let (source, opened, serves) = file.pread in
            ((sized, (source, ground (arith, m, opened), serves)), rest)
      ]

  module _ (paths : List (List ℕ)) (sources : List Slice) (found : AllFound paths sources)
      (p : List ℕ) (parts : ℕ) (del : IsDelimiter p)
      (small : total (contents sources) ≤ isize_max) where
    abbrev planned : List WorkerAssignment
    planned = assignments (contents sources) 0 (dataset_ranges p (contents sources) parts)

    planned_mapped : plan_logical_partitions sources parts p ≡ done (ok planned)
    planned_mapped =
        plan_logical_partitions-assignments sources p parts del
          (open_all-AllFound paths sources found).1 (omega arith)

    execute_partition_files-planned :
        (metadata : List ℕ → Io Metadata) (allocates : ℕ → Bool) (buffer_addr : ℕ)
        (open_mmap : List ℕ → Io ByteSource) (worker : Option ℕ) (engine : Engine)
        → IsEngine engine
        → execute_partition_files map_file metadata allocates buffer_addr open_mmap open_windowed
            open_pread stat
            (record {
              operands = paths;
              parts = parts;
              delimiter = p;
              worker = worker;
              engine = engine;
            })
          ≡ done (ok (write_assignments planned))
    unfolding execute_partition_files emit_file_partitions emit_file_partitions_sourced
    execute_partition_files-planned metadata allocates buffer_addr open_mmap worker mapped engine =
        rw ((open_all-AllFound paths sources found).0, planned_mapped) refl
    execute_partition_files-planned metadata allocates buffer_addr open_mmap worker
          (sourced options) engine =
        let same =
          plan_logical_partitions_sourced-plan_logical_partitions open_windowed open_pread options
            stat paths sources p parts (AllFound-Honest options engine paths sources found) del
            (open_all-AllFound paths sources found).1 small in
        rw (same, planned_mapped) refl

  -- Every `partition-files` command line that is accepted (and does not ask for help), on files that the
  -- maps and the sources find alike and that are addressable together: it writes the rows of a plan of the
  -- files, in which at most as many workers as asked for, numbered in order, are given all bytes of all
  -- files in order, and every row ends on a record of its file.
  pub run_partition_files-IsDatasetPlan :
      (metadata : List ℕ → Io Metadata) (allocates : ℕ → Bool) (buffer_addr : ℕ)
      (open_mmap : List ℕ → Io ByteSource) (arguments : List (List ℕ)) (r : Request (List (List ℕ)))
      (sources : List Slice)
      → All (λ (argument : List ℕ). length argument ≤ isize_max) arguments
      → asks_help arguments ≡ false
      → partition_files_request arguments ≡ ok r
      → AllFound r.operands sources
      → total (contents sources) ≤ isize_max
      → (workers : List WorkerAssignment) × (run_partition_files map_file metadata allocates
            buffer_addr open_mmap open_windowed open_pread stat arguments
          ≡ done (ok (assignment_rows (write_assignments workers))))
        × IsDatasetPlan r.delimiter (contents sources) r.parts workers
  unfolding run_partition_files
  run_partition_files-IsDatasetPlan metadata allocates buffer_addr open_mmap arguments r sources
        small no_help accepted found fits =
      let good = partition_files_request-IsRequest arguments r small accepted in
      let written =
        execute_partition_files-planned r.operands sources found r.delimiter r.parts good.delimited
          fits metadata allocates buffer_addr open_mmap r.worker r.engine good.engine in
      (
        planned r.operands sources found r.delimiter r.parts good.delimited fits,
        rw (no_help, accepted, written) refl,
        dataset-IsDatasetPlan r.delimiter (contents sources) r.parts,
      )
