-- ===== src/Tests/Fuzzing.antt =====
-- The oracles of the fuzz targets on small files, and the targets on inputs of each mode.
use mmap_chunker_core.Base.{[], ◌∷◌, ◌≡◌, refl, arith, none, some, Run, done, saturating_add}
use mmap_chunker_core.Slice.{Slice, index, slice_range, IsSlice}
use mmap_chunker_core.Scanner.Partition.{ideal_target, ranges_from}
use mmap_chunker_core.Fuzz.Extremes.{oracle_count, oracle_bounds, fuzz_fixed_extremes}
use mmap_chunker_core.Fuzz.Extremes.Laws.{fuzz_fixed_extremes_lem}
use mmap_chunker_core.Fuzz.Differential.{
  position_loop, scalar_end, scalar_single_loop, scalar_single, scalar_cuts, scalar_partition,
  boundary_scan, scalar_pattern_loop, scalar_pattern,
}
use mmap_chunker_core.Fuzz.Differential.Target.{assert_cover, fuzz_scanner_differential}
use mmap_chunker_core.Fuzz.Differential.Laws.{fuzz_scanner_differential_lem}
use mmap_chunker_core.Tests.Scans.{lines, crlf, eol}

oracles : Unit {0}
unfolding saturating_add index slice_range ideal_target ranges_from position_loop scalar_end
    scalar_single_loop scalar_single scalar_cuts scalar_partition boundary_scan scalar_pattern_loop
    scalar_pattern
oracles = tt

scalar_single_test : scalar_single lines 10 2 ≡ done ((0, 5) ∷ (5, 6) ∷ [])
unfolding oracles
scalar_single_test = refl

scalar_pattern_test : scalar_pattern crlf eol 1 ≡ done ((0, 3) ∷ (3, 6) ∷ (6, 7) ∷ [])
unfolding oracles
scalar_pattern_test = refl

scalar_partition_test : scalar_partition lines 10 3 ≡ done ((0, 2) ∷ (2, 5) ∷ (5, 6) ∷ [])
unfolding oracles
scalar_partition_test = refl

oracle_bounds_test :
    (oracle_count 7 3 ≡ 3) × (oracle_bounds 7 3 2 ≡ some (6, 7)) × (oracle_bounds 7 3 3 ≡ none)
unfolding oracle_count oracle_bounds
oracle_bounds_test = (refl, refl, refl)

-- A plan that ends before its source fails the assertion.
assert_cover_test : assert_cover lines ((0, 2) ∷ []) ≡ Run.panicked
unfolding assert_cover
assert_cover_test = refl

-- Three partitions of "a\nb" at the line feed.
abbrev partition_input : Slice
partition_input = record { addr = 8; bytes = 2 ∷ 10 ∷ 2 ∷ 97 ∷ 10 ∷ 98 ∷ [] }

partition_input-IsSlice : IsSlice partition_input
partition_input-IsSlice = record {
  bytes =
      (omega arith, (omega arith, (omega arith, (omega arith, (omega arith, (omega arith, tt))))));
  fits = omega arith;
}

fuzz_scanner_differential_lem_example : fuzz_scanner_differential partition_input ≡ done tt
fuzz_scanner_differential_lem_example =
    fuzz_scanner_differential_lem partition_input partition_input-IsSlice

-- A file of 5 bytes in chunks of 0, and 2 ^ 5 as the power.
fuzz_fixed_extremes_lem_example : fuzz_fixed_extremes (5 ∷ []) ≡ done tt
fuzz_fixed_extremes_lem_example = fuzz_fixed_extremes_lem (5 ∷ []) (omega arith, tt)
