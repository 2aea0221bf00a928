-- ===== src/Fuzz/Differential/Target.antt =====
-- What fuzz/fuzz_targets/scanner_differential.rs asserts of an input: the planners beside the oracles.
use mmap_chunker_core.Base.{
  ℕ, ◌+◌, ◌-◌, ◌%◌, min, List, [], ◌∷◌, length, Bool, false, ◌&&◌, Run, done, ◌>>=◌, ◌==◌, ltb, leb,
  if◌then◌else◌, usize_max,
}
use mmap_chunker_core.Slice.{Slice, len, index, slice_from, slice_range}
use mmap_chunker_core.Ranges.{Range}
use mmap_chunker_core.Scanner.Chunks.{find_chunk_boundaries, find_chunk_boundaries_pattern}
use mmap_chunker_core.Scanner.Partition.{slices_equal, find_partition_boundaries}
use mmap_chunker_core.Fuzz.{assert, same_ranges, padded_word}
use mmap_chunker_core.Fuzz.Differential.{scalar_single, scalar_pattern, scalar_partition}

abbrev pub max_source_len : ℕ
max_source_len = 4096

abbrev pub max_pattern_len : ℕ
max_pattern_len = 32

abbrev pub max_partitions : ℕ
max_partitions = 64

-- "ZEROZERO" and "MAXXXXXX" stand for the extremes.
unfoldable pub read_usize : List ℕ → ℕ
read_usize bytes =
    if slices_equal bytes (90 ∷ 69 ∷ 82 ∷ 79 ∷ 90 ∷ 69 ∷ 82 ∷ 79 ∷ [])
    then 0
    else if slices_equal bytes (77 ∷ 65 ∷ 88 ∷ 88 ∷ 88 ∷ 88 ∷ 88 ∷ 88 ∷ [])
    then usize_max
    else padded_word bytes

-- "N" and "F" stand for the extremes.
unfoldable pub decode_delimiter : ℕ → ℕ
decode_delimiter byte = if byte == 78 then 0 else if byte == 70 then 255 else byte

-- The loop of `assert_cover` over the ranges.
unfoldable pub cover_loop : ℕ → ℕ → List Range → Run (Unit {0})
cover_loop n previous_end [] = done tt
cover_loop n previous_end ((start, end) ∷ ranges) =
    assert (start == previous_end)
      (assert (ltb start end) (assert (leb end n) (cover_loop n end ranges)))

-- Where the first range begins and the last ends.
abbrev pub begins_at : ℕ → List Range → Bool
begins_at n [] = false
begins_at n (r ∷ rs) = r.0 == n

abbrev pub ends_with : ℕ → List Range → Bool
ends_with n [] = false
ends_with n (r ∷ []) = r.1 == n
ends_with n (r ∷ q ∷ rs) = ends_with n (q ∷ rs)

unfoldable pub assert_cover : Slice → List Range → Run (Unit {0})
unfolding cover_loop
assert_cover source ranges =
    let covered =
      assert (begins_at 0 ranges)
        (assert (ends_with (len source) ranges) (cover_loop (len source) 0 ranges)) in
    let empty = assert (length ranges == 0) (done tt) in if len source == 0 then empty else covered

-- `&input[a..b]` as a slice
unfoldable pub part_at : Slice → ℕ → ℕ → Run Slice
part_at input a b = do
  bytes ← slice_range input a b
  done (record { addr = input.addr + a; bytes = bytes })

-- Every range but the last ends behind the delimiter.
unfoldable pub assert_delimited : Slice → ℕ → List Range → Run (Unit {0})
assert_delimited source delimiter [] = done tt
assert_delimited source delimiter (r ∷ []) = done tt
assert_delimited source delimiter (r ∷ q ∷ ranges) = do
  before ← index source (r.1 - 1)
  assert (before == delimiter) (assert_delimited source delimiter (q ∷ ranges))

-- The bodies of the three modes, given the result of a planner as a run.
abbrev pub compare_runs :
    Slice → Run (List Range) → Run (List Range) → (List Range → Run (Unit {0})) → Run (Unit {0})
compare_runs source planner oracle more = do
  actual ← planner
  expected ← oracle
  assert (same_ranges actual expected) (do
    u ← assert_cover source actual
    v ← more actual
    again ← planner
    assert (same_ranges again actual) (done tt))

unfoldable pub fuzz_single : Slice → Run (Unit {0})
fuzz_single rest = do
  byte ← index rest 0
  size ← slice_range rest 1 9
  source ← part_at rest 9 (min (len rest) (9 + max_source_len))
  let delimiter = decode_delimiter byte
  let chunk_size = read_usize size
  compare_runs source (find_chunk_boundaries source chunk_size delimiter)
      (scalar_single source delimiter chunk_size) (λ actual. done tt)

unfoldable pub fuzz_pattern : Slice → Run (Unit {0})
fuzz_pattern rest = do
  declared ← index rest 0
  let pattern_len = min (declared % max_pattern_len + 1) (len rest - 9)
  pattern ← slice_range rest 9 (9 + pattern_len)
  let start = 9 + pattern_len
  source ← part_at rest start (min (len rest) (start + max_source_len))
  size ← slice_range rest 1 9
  let chunk_size = read_usize size
  compare_runs source (find_chunk_boundaries_pattern source chunk_size pattern)
      (scalar_pattern source pattern chunk_size) (λ actual. done tt)

unfoldable pub fuzz_partition : Slice → Run (Unit {0})
fuzz_partition rest = do
  byte ← index rest 0
  requested ← index rest 1
  source ← part_at rest 2 (min (len rest) (2 + max_source_len))
  let delimiter = decode_delimiter byte
  let partitions = requested % max_partitions + 1
  compare_runs source (find_partition_boundaries source partitions delimiter)
      (scalar_partition source delimiter partitions) (assert_delimited source delimiter)

-- The mode, and the bytes behind it; too few of them end the run.
unfoldable pub fuzz_scanner_differential : Slice → Run (Unit {0})
fuzz_scanner_differential input =
    let target = do
      mode ← index input 0
      rest ← slice_from input 1
      let kind = mode % 3
      let single = fuzz_single rest
      let pattern = fuzz_pattern rest
      let partition = fuzz_partition rest
      if kind == 0 && leb 9 (len rest)
          then single
          else if kind == 1 && leb 10 (len rest)
          then pattern
          else if kind == 2 && leb 2 (len rest)
          then partition
          else done tt
    in if len input == 0 then done tt else target
