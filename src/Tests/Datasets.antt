-- ===== src/Tests/Datasets.antt =====
-- Plans over several files, mapped, read one byte at a time, and over reads that fail.
use mmap_chunker_core.Base.{ℕ, ◌≡◌, refl, List, [], ◌∷◌, inl, Io, ok, err, other_kind, arith, done}
use mmap_chunker_core.Slice.{Slice}
use mmap_chunker_core.Source.{ByteSource}
use mmap_chunker_core.Source.Planner.{PlannerOptions, pread_mode}
use mmap_chunker_core.Scanner.Partition.{find_partition_boundaries_pattern}
use mmap_chunker_core.Base.{saturating_add}
use mmap_chunker_core.Slice.{slice_from, slice_range}
use mmap_chunker_core.Search.{starts_with}
use mmap_chunker_core.Source.Read.{fill}
use mmap_chunker_core.Cli.Boundary.{
  cached_or, find_offset, find_first_pattern_from, next_record_boundary_pattern,
}
use mmap_chunker_core.Cli.{◌>>=◌, returned, failed_to_read, usize_to_u128}
use mmap_chunker_core.Cli.Logical.{
  push_prefixes, logical_target, cut_loop, range_loop, ranges_for_interval, assign, plan_prefixes,
  plan_over, local_boundary, project_logical_target, plan_logical_partitions,
}
use mmap_chunker_core.Cli.Logical.Reference.{dataset_ranges, assignments}
use mmap_chunker_core.Cli.Logical.Rounds.{Ends}
use mmap_chunker_core.Cli.Logical.Mapped.{contents}
use mmap_chunker_core.Cli.Logical.Single.{
  one_each, plan_logical_partitions-find_partition_boundaries_pattern,
}
use mmap_chunker_core.Cli.Sourced.{
  fill_from, pattern_round, pattern_scan, pattern_boundary_sourced, next_record_boundary_sourced,
  open_sourced, open_fresh, reopen, project_sourced_target, stat_prefixes,
  plan_logical_partitions_sourced,
}
use mmap_chunker_core.Cli.Sourced.Answers.{Reported}
use mmap_chunker_core.Cli.Sourced.Correct.{
  plan_logical_partitions_sourced-Ends, plan_logical_partitions_sourced-plan_logical_partitions,
}
use mmap_chunker_core.Tests.Scans.{crlf, crlf-IsSlice, eol, eol-IsDelimiter}
use mmap_chunker_core.Tests.Sources.{dribbled, dribbled-Serves, flaking, flaking-MayServe}

abbrev empty_file : Slice
empty_file = record { addr = 0; bytes = [] }

abbrev dataset : List Slice
dataset = crlf ∷ empty_file ∷ crlf ∷ []

plan_logical_partitions-find_partition_boundaries_pattern_example :
    plan_logical_partitions (crlf ∷ []) 3 eol
    ≡ (returned (find_partition_boundaries_pattern crlf 3 eol) >>= λ rs. done (ok (one_each 0 rs)))
plan_logical_partitions-find_partition_boundaries_pattern_example =
    plan_logical_partitions-find_partition_boundaries_pattern crlf 3 eol crlf-IsSlice
      eol-IsDelimiter

-- The paths are numbers.
abbrev no_window : ℕ → ℕ → Io ByteSource
no_window path window = err other_kind

abbrev options : PlannerOptions
options = record { mode = pread_mode; window_bytes = 65536; scan_buffer_bytes = 2 }

abbrev open_dribbled : ℕ → Io ByteSource
open_dribbled path = ok dribbled

abbrev open_flaking : ℕ → Io ByteSource
open_flaking path = ok flaking

abbrev size_of : ℕ → Io ℕ
size_of path = ok 7

open_dribbled_lem :
    (path : ℕ) → open_sourced no_window open_dribbled options path ≡ done (ok dribbled)
unfolding open_sourced
open_dribbled_lem path = refl

open_flaking_lem : (path : ℕ) → open_sourced no_window open_flaking options path ≡ done (ok flaking)
unfolding open_sourced
open_flaking_lem path = refl

plan_logical_partitions_sourced-plan_logical_partitions_example :
    plan_logical_partitions_sourced no_window open_dribbled options size_of (0 ∷ 1 ∷ []) 4 eol
    ≡ plan_logical_partitions (crlf ∷ crlf ∷ []) 4 eol
plan_logical_partitions_sourced-plan_logical_partitions_example =
    plan_logical_partitions_sourced-plan_logical_partitions no_window open_dribbled options size_of
      (0 ∷ 1 ∷ []) (crlf ∷ crlf ∷ []) eol 4
      (
        (refl, (dribbled, open_dribbled_lem 0, dribbled-Serves)),
        ((refl, (dribbled, open_dribbled_lem 1, dribbled-Serves)), tt),
      )
      eol-IsDelimiter (crlf-IsSlice, (crlf-IsSlice, tt)) (omega arith)

plan_logical_partitions_sourced-Ends_example :
    Ends
      (Reported no_window open_flaking options size_of (0 ∷ 1 ∷ []) (contents (crlf ∷ crlf ∷ [])))
      (plan_logical_partitions_sourced no_window open_flaking options size_of (0 ∷ 1 ∷ []) 4 eol)
      (assignments
        (contents (crlf ∷ crlf ∷ []))
        0
        (dataset_ranges eol (contents (crlf ∷ crlf ∷ [])) 4))
plan_logical_partitions_sourced-Ends_example =
    plan_logical_partitions_sourced-Ends no_window open_flaking options size_of (0 ∷ 1 ∷ [])
      (contents (crlf ∷ crlf ∷ [])) eol 4 eol-IsDelimiter (omega arith)
      (
        record { sized = inl refl; opened = inl (flaking, open_flaking_lem 0, flaking-MayServe) },
        (
          record { sized = inl refl; opened = inl (flaking, open_flaking_lem 1, flaking-MayServe) },
          tt,
        ),
      )

-- Two copies of the file with an empty one between them, for three workers: the second worker is given the
-- rest of the first file and the beginning of the last.
plan_logical_partitions_run :
    plan_logical_partitions dataset 3 eol
    ≡ done (
        ok (
          record {
            worker_index = 0;
            ranges = record { source_index = 0; start = 0; end_exclusive = 6; length = 6 } ∷ [];
          }
          ∷ record {
            worker_index = 1;
            ranges =
                record { source_index = 0; start = 6; end_exclusive = 7; length = 1 }
                ∷ record { source_index = 2; start = 0; end_exclusive = 6; length = 6 }
                ∷ [];
          }
          ∷ record {
            worker_index = 2;
            ranges = record { source_index = 2; start = 6; end_exclusive = 7; length = 1 } ∷ [];
          }
          ∷ []))
unfolding plan_logical_partitions plan_over plan_prefixes push_prefixes usize_to_u128 cut_loop
    logical_target project_logical_target local_boundary next_record_boundary_pattern cached_or
    find_first_pattern_from find_offset starts_with slice_from slice_range saturating_add assign
    ranges_for_interval range_loop
plan_logical_partitions_run = refl

plan_logical_partitions_sourced_run :
    plan_logical_partitions_sourced no_window open_flaking options size_of (0 ∷ 1 ∷ []) 3 eol
    ≡ done (err (failed_to_read other_kind))
unfolding plan_logical_partitions_sourced plan_over plan_prefixes stat_prefixes cut_loop
    logical_target usize_to_u128 project_sourced_target reopen open_fresh open_sourced
    next_record_boundary_sourced pattern_boundary_sourced pattern_scan pattern_round fill_from fill
    cached_or find_first_pattern_from find_offset starts_with saturating_add
plan_logical_partitions_sourced_run = refl
