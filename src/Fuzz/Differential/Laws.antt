-- ===== src/Fuzz/Differential/Laws.antt =====
-- No assertion of the target fails.
use mmap_chunker_core.Base.{
  ◌∙◌, sym, ℕ, ◌+◌, ◌-◌, ◌%◌, ◌≤◌, ◌<◌, ◌≡◌, refl, arith, min, List, [], ◌∷◌, length, take, drop,
  length-drop, length-take, get_elem?_lt, true, inl, inr, ◌==◌, if◌then◌else◌, Run, done, All,
  All-take, All-get_elem?, All-drop, Bool-cases,
}
use mmap_chunker_core.Bits.Zeros.{IsByte}
use mmap_chunker_core.Slice.{Slice, len, IsSlice, tail_at, index, slice_from_lem, slice_range_lem}
use mmap_chunker_core.Ranges.{Range, Covers}
use mmap_chunker_core.Ranges.Laws.{Covers-le}
use mmap_chunker_core.Scanner.Chunks.Laws.{
  IsDelimiter, chunks_of, chunks_of-Covers, find_chunk_boundaries-chunks_of,
  find_chunk_boundaries_pattern-chunks_of,
}
use mmap_chunker_core.Scanner.Partition.Reference.{ends_at, IsCut}
use mmap_chunker_core.Scanner.Partition.Laws.{ends_at-singleton}
use mmap_chunker_core.Scanner.Partition.Correct.{
  partitions, partitions-IsPartition, find_partition_boundaries-partitions,
}
use mmap_chunker_core.Fuzz.{same_ranges}
use mmap_chunker_core.Fuzz.Differential.Target.{
  max_source_len, read_usize, decode_delimiter, cover_loop, ends_with, assert_cover, part_at,
  assert_delimited, compare_runs, fuzz_single, fuzz_pattern, fuzz_partition,
  fuzz_scanner_differential,
}
use mmap_chunker_core.Fuzz.Differential.Oracles.{
  scalar_single-chunks_of, scalar_pattern-chunks_of, scalar_partition-partitions,
}

same_ranges_self : (rs : List Range) → same_ranges rs rs ≡ true
same_ranges_self [] = refl
same_ranges_self ((start, end) ∷ rs) = ground (arith, same_ranges_self rs)

cover_loop-done : (n a : ℕ) (rs : List Range) → Covers a n rs → cover_loop n a rs ≡ done tt
unfolding cover_loop
cover_loop-done n a [] c = refl
cover_loop-done n a ((start, end) ∷ rs) (e, lt, c) =
    ground (arith, Covers-le end n rs c, cover_loop-done n end rs c)

ends_with-true : (n a : ℕ) (rs : List Range) → Covers a n rs → a < n → ends_with n rs ≡ true
ends_with-true n a [] c h = absurd (omega arith)
ends_with-true n a (r ∷ []) (e, lt, c) h = ground arith
ends_with-true n a (r ∷ q ∷ rs) (e, lt, c) h =
    ends_with-true n r.1 (q ∷ rs) c (omega (arith, c.0, c.1, Covers-le q.1 n rs c.2))

assert_cover-done :
    (s : Slice) (rs : List Range) → Covers 0 (len s) rs → assert_cover s rs ≡ done tt
unfolding assert_cover
assert_cover-done s [] c = ground arith
assert_cover-done s ((start, end) ∷ rs) c = ground (
  arith,
  c,
  Covers-le end (len s) rs,
  ends_with-true (len s) 0 ((start, end) ∷ rs) c,
  cover_loop-done (len s) 0 ((start, end) ∷ rs) c,
)

assert_delimited-done :
    (s : Slice) (d a : ℕ) (rs : List Range)
    → Covers a (len s) rs
    → All (λ (r : Range). IsCut (d ∷ []) s.bytes r.1) rs
    → assert_delimited s d rs ≡ done tt
unfolding assert_delimited index
assert_delimited-done s d a [] c cut = refl
assert_delimited-done s d a (r ∷ []) c cut = refl
assert_delimited-done s d a (r ∷ q ∷ rs) (e, lt, c) (cut, cut') =
    let beyond = Covers-le q.1 (len s) rs c.2 in
    let inside : r.1 < len s = omega (arith, c.0, c.1) in
    let (b, at) = get_elem?_lt s.bytes (r.1 - 1) (omega arith) in
    let ends : ends_at (d ∷ []) s.bytes r.1 ≡ true = elim cut [
      | inl at_end ↦ absurd (omega arith)
      | inr there ↦ there
    ] in
    let same = sym (ends_at-singleton d s.bytes r.1 b (omega arith) at) ∙ ends in
    rw (at, same) (assert_delimited-done s d r.1 (q ∷ rs) c cut')

compare_runs-done :
    (s : Slice) (planner oracle : Run (List Range)) (more : List Range → Run (Unit {0}))
    (rs : List Range)
    → planner ≡ done rs
    → oracle ≡ done rs
    → Covers 0 (len s) rs
    → more rs ≡ done tt
    → compare_runs s planner oracle more ≡ done tt
compare_runs-done s planner oracle more rs planned expected c rest =
    rw (planned, expected, same_ranges_self rs, assert_cover-done s rs c, rest) refl

abbrev sub_slice : Slice → ℕ → ℕ → Slice
sub_slice s a b = record { addr = s.addr + a; bytes = take (b - a) (drop a s.bytes) }

module _ (s : Slice) (ok : IsSlice s) (a b : ℕ) where
  part_at_lem : a ≤ b → b ≤ len s → part_at s a b ≡ done (sub_slice s a b)
  unfolding part_at
  part_at_lem h k = rw (slice_range_lem s a b h k) refl

  sub_slice-IsSlice : IsSlice (sub_slice s a b)
  sub_slice-IsSlice = record {
    bytes = All-take IsByte (b - a) (drop a s.bytes) (All-drop IsByte a s.bytes ok.bytes);
    fits = omega (arith, ok.fits, length-drop a s.bytes, length-take (b - a) (drop a s.bytes));
  }

decode_delimiter-IsByte : (byte : ℕ) → IsByte byte → IsByte (decode_delimiter byte)
unfolding decode_delimiter
decode_delimiter-IsByte byte h = ground arith

module _ (rest : Slice) (ok : IsSlice rest) where
  fuzz_single-done : 9 ≤ len rest → fuzz_single rest ≡ done tt
  unfolding fuzz_single index
  fuzz_single-done h =
      let end = min (len rest) (9 + max_source_len) in
      let (byte, at) = get_elem?_lt rest.bytes 0 (omega arith) in
      let source = sub_slice rest 9 end in
      let source_ok = sub_slice-IsSlice rest ok 9 end in
      let d = decode_delimiter byte in
      let d_ok =
        decode_delimiter-IsByte byte (All-get_elem? IsByte rest.bytes 0 byte ok.bytes at) in
      let size = read_usize (take 8 (drop 1 rest.bytes)) in
      rw
        (
          at,
          slice_range_lem rest 1 9 (omega arith) h,
          part_at_lem rest ok 9 end (omega arith) (omega arith),
        )
        (compare_runs-done source _ _ (λ actual. done tt) (chunks_of (d ∷ []) size source.bytes)
          (find_chunk_boundaries-chunks_of source size d source_ok d_ok)
          (scalar_single-chunks_of source source_ok d size)
          (chunks_of-Covers (d ∷ []) size source.bytes) refl)

  fuzz_partition-done : 2 ≤ len rest → fuzz_partition rest ≡ done tt
  unfolding fuzz_partition index
  fuzz_partition-done h =
      let end = min (len rest) (2 + max_source_len) in
      let (byte, at) = get_elem?_lt rest.bytes 0 (omega arith) in
      let (requested, at_next) = get_elem?_lt rest.bytes 1 (omega arith) in
      let source = sub_slice rest 2 end in
      let source_ok = sub_slice-IsSlice rest ok 2 end in
      let d = decode_delimiter byte in
      let d_ok =
        decode_delimiter-IsByte byte (All-get_elem? IsByte rest.bytes 0 byte ok.bytes at) in
      let num = requested % 64 + 1 in
      let plan = partitions-IsPartition (d ∷ []) source.bytes num in
      let asked : (if num == 0 then 0 else len source) ≡ len source = ground arith in
      let covers : Covers 0 (len source) (partitions (d ∷ []) source.bytes num) =
        rw (← asked) plan.covers in
      rw (at, at_next, part_at_lem rest ok 2 end (omega arith) (omega arith))
        (compare_runs-done source _ _ _ (partitions (d ∷ []) source.bytes num)
          (find_partition_boundaries-partitions source num d source_ok d_ok)
          (scalar_partition-partitions source source_ok d num) covers
          (assert_delimited-done source d 0 _ covers plan.on_records))

  fuzz_pattern-done : 10 ≤ len rest → fuzz_pattern rest ≡ done tt
  unfolding fuzz_pattern index
  fuzz_pattern-done h =
      let (declared, at) = get_elem?_lt rest.bytes 0 (omega arith) in
      let pattern_len = min (declared % 32 + 1) (len rest - 9) in
      let start = 9 + pattern_len in
      let end = min (len rest) (start + max_source_len) in
      let p = take (start - 9) (drop 9 rest.bytes) in
      let p_len : length p ≡ start - 9 =
        omega (arith, length-take (start - 9) (drop 9 rest.bytes), length-drop 9 rest.bytes) in
      let del : IsDelimiter p = record {
        bytes =
            All-take IsByte (start - 9) (drop 9 rest.bytes) (All-drop IsByte 9 rest.bytes ok.bytes);
        fits = omega (arith, ok.fits);
        nonempty = omega arith;
      } in
      let source = sub_slice rest start end in
      let source_ok = sub_slice-IsSlice rest ok start end in
      let size = read_usize (take 8 (drop 1 rest.bytes)) in
      rw
        (
          at,
          slice_range_lem rest 9 start (omega arith) (omega arith),
          part_at_lem rest ok start end (omega arith) (omega arith),
          slice_range_lem rest 1 9 (omega arith) (omega arith),
        )
        (compare_runs-done source _ _ (λ actual. done tt) (chunks_of p size source.bytes)
          (find_chunk_boundaries_pattern-chunks_of source size p source_ok del)
          (scalar_pattern-chunks_of source source_ok p (omega arith) size)
          (chunks_of-Covers p size source.bytes) refl)

-- The fuzz target for the scanners ends without a panic and without a failed assertion, whatever its input
-- is: in the mode that the input chooses, the planner and its repetition return the ranges of the oracle
-- that looks at every byte, they cover the source, and each partition but the last ends behind a delimiter.
pub fuzz_scanner_differential_lem :
    (input : Slice) → IsSlice input → fuzz_scanner_differential input ≡ done tt
unfolding fuzz_scanner_differential index
fuzz_scanner_differential_lem input ok = elim (Bool-cases (len input == 0)) [
  | inl empty ↦ rw empty refl
  | inr filled ↦
      let rest = tail_at input 1 in
      let (mode, at) = get_elem?_lt input.bytes 0 (ground arith) in
      let rest_ok : IsSlice rest = record {
        bytes = All-drop IsByte 1 input.bytes ok.bytes;
        fits = omega (arith, ok.fits, length-drop 1 input.bytes);
      } in
      ground (
        arith,
        at,
        slice_from_lem input 1,
        fuzz_single-done rest rest_ok,
        fuzz_pattern-done rest rest_ok,
        fuzz_partition-done rest rest_ok,
      )
]
