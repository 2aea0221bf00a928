-- ===== src/Source/Equal.antt =====
-- The planner over reads computes what the planner on the whole slice computes.
use mmap_chunker_core.Base.{
  ℕ, ◌+◌, ◌-◌, ◌≤◌, ◌≡◌, refl, arith, true, Bool, Bool-cases, min, max, List, length, Option-cases,
  inl, inr, done, ◌>>=◌, ok, isize_max, ◌==◌, ◌||◌, All,
}
use mmap_chunker_core.Slice.{Slice, len, IsSlice}
use mmap_chunker_core.Bits.Zeros.{IsByte}
use mmap_chunker_core.Scanner.Chunks.Laws.{IsDelimiter}
use mmap_chunker_core.Scanner.Partition.{
  ranges_from_boundaries, ranges_from, find_partition_boundaries_pattern,
}
use mmap_chunker_core.Scanner.Partition.Reference.{cuts}
use mmap_chunker_core.Scanner.Partition.Correct.{
  guarded_partitions, find_partition_boundaries_pattern-partitions,
}
use mmap_chunker_core.Source.{ByteSource, Serves}
use mmap_chunker_core.Source.Reads.{Serves-MayServe, Serves-Settles}
use mmap_chunker_core.Source.FailingPlan.{buffered_loop-Settles}
use mmap_chunker_core.Source.Planner.{buffered_loop, plan_partition_boundaries}

module _ (source : ByteSource) (xs : List ℕ) (serves : Serves source xs) (p : List ℕ)
    (del : IsDelimiter p) (bytes : All IsByte xs) (small : length xs ≤ isize_max)
    (buffer_addr buffer_len : ℕ) (holds : length p ≤ buffer_len)
    (addressable : buffer_len ≤ isize_max) where
  buffered_loop-cuts :
      (n left i last : ℕ)
      → n ≤ length xs
      → i + left ≤ n
      → buffered_loop source buffer_addr buffer_len n p left i last
        ≡ done (ok (cuts p xs n left i last))
  buffered_loop-cuts n left i last capped h =
      Serves-Settles source xs serves (buffered_loop source buffer_addr buffer_len n p left i last)
        (cuts p xs n left i last)
        (buffered_loop-Settles source xs (Serves-MayServe source xs serves) p del bytes small
          buffer_addr buffer_len holds addressable n capped left i last h)

-- On every honest source of the bytes of a slice, whether it is read piece by piece or hands out a slice,
-- the planner returns what the slice planner returns on that slice: for every request, every non-empty
-- pattern and every scan buffer size that is addressable and can be allocated. It never panics and ends.
pub plan_partition_boundaries-find_partition_boundaries_pattern :
    (allocates : ℕ → Bool) (buffer_addr : ℕ) (source : ByteSource) (s : Slice) (num : ℕ)
    (p : List ℕ) (scan_buffer_bytes : ℕ)
    → Serves source s.bytes
    → IsSlice s
    → IsDelimiter p
    → scan_buffer_bytes ≤ isize_max
    → allocates (max (max scan_buffer_bytes (length p)) 1) ≡ true
    → plan_partition_boundaries allocates buffer_addr source num p scan_buffer_bytes
      ≡ (find_partition_boundaries_pattern s num p >>= λ rs. done (ok rs))
unfolding plan_partition_boundaries ranges_from_boundaries
plan_partition_boundaries-find_partition_boundaries_pattern allocates buffer_addr source s num p
      scan serves mapped del small allocated =
    let n = min num (len s) in
    let buffer_len = max (max scan (length p)) 1 in
    let sliced = find_partition_boundaries_pattern-partitions s num p mapped del in
    let cut = cuts p s.bytes n (n - 1) 1 0 in
    let guarded =
      guarded_partitions p s.bytes num (done (ranges_from (len s) 0 cut)) (λ a b. refl) in
    elim (Option-cases source.as_slice) [
      | inr (t, e) ↦
          let (whole, same) = serves.whole t e in
          let other = find_partition_boundaries_pattern-partitions t num p whole del in
          ground (arith, del.nonempty, sliced, rw same at other)
      | inl e ↦ elim (Bool-cases (len s == 0 || num == 0)) [
        | inl trivial ↦ ground (arith, del.nonempty, serves.size, sliced, guarded)
        | inr real ↦
            let looped =
              buffered_loop-cuts source s.bytes serves p del mapped.bytes mapped.fits buffer_addr
                buffer_len (omega arith) (omega (arith, del.fits)) n (n - 1) 1 0 (omega arith)
                (ground arith) in
            ground (arith, del.nonempty, del.fits, serves.size, sliced, guarded, looped)
      ]
    ]
