-- ===== src/Source/Fallible.antt =====
-- What the planner over reads returns when a read may fail.
use mmap_chunker_core.Base.{
  ℕ, ◌-◌, ◌≤◌, ◌≡◌, arith, refl, true, Bool, Bool-cases, min, max, List, length, none, inl, inr,
  done, Returns, isize_max, ◌==◌, ◌||◌,
}
use mmap_chunker_core.Slice.{Slice, len, IsSlice}
use mmap_chunker_core.Scanner.Chunks.Laws.{IsDelimiter}
use mmap_chunker_core.Scanner.Partition.{
  ranges_from, ranges_from_boundaries, find_partition_boundaries_pattern,
}
use mmap_chunker_core.Scanner.Partition.Reference.{cuts}
use mmap_chunker_core.Scanner.Partition.Correct.{
  guarded_partitions, find_partition_boundaries_pattern-partitions,
}
use mmap_chunker_core.Source.{ByteSource}
use mmap_chunker_core.Source.Planner.{plan_partition_boundaries}
use mmap_chunker_core.Source.Failures.{MayServe, Settles}
use mmap_chunker_core.Source.FailingPlan.{buffered_loop-Settles}

-- On a source that is read piece by piece and whose reads may fail, the planner ends without a panic,
-- and returns either the ranges of the slice planner on the bytes of the source or the error that one of
-- its reads has reported. A failure never gives other ranges.
pub plan_partition_boundaries-Settles :
    (allocates : ℕ → Bool) (buffer_addr : ℕ) (source : ByteSource) (s : Slice) (num : ℕ)
    (p : List ℕ) (scan_buffer_bytes : ℕ)
    → MayServe source s.bytes
    → source.as_slice ≡ none
    → IsSlice s
    → IsDelimiter p
    → scan_buffer_bytes ≤ isize_max
    → allocates (max (max scan_buffer_bytes (length p)) 1) ≡ true
    → Returns (find_partition_boundaries_pattern s num p) (λ rs.
      Settles source s.bytes
        (plan_partition_boundaries allocates buffer_addr source num p scan_buffer_bytes)
        rs)
unfolding plan_partition_boundaries ranges_from_boundaries
plan_partition_boundaries-Settles allocates buffer_addr source s num p scan serves unsliced mapped
      del small allocated =
    let n = min num (len s) in
    let buffer_len = max (max scan (length p)) 1 in
    let cut = cuts p s.bytes n (n - 1) 1 0 in
    let guarded =
      guarded_partitions p s.bytes num (done (ranges_from (len s) 0 cut)) (λ a b. refl) in
    let sliced = find_partition_boundaries_pattern-partitions s num p mapped del in
    rw sliced (elim (Bool-cases (len s == 0 || num == 0)) [
      | inl trivial ↦ inl (ground (arith, del.nonempty, serves.size, guarded))
      | inr real ↦ elim (Bool-cases (num == 1)) [
        | inl single ↦ inl (ground (arith, del.nonempty, serves.size, guarded))
        | inr many ↦
            elim (buffered_loop-Settles source s.bytes serves p del mapped.bytes mapped.fits
              buffer_addr buffer_len (omega arith) (omega (arith, del.fits)) n (omega arith) (n - 1)
              1 0 (ground arith)) [
                | inl looped ↦
                    inl (ground (arith, del.nonempty, del.fits, serves.size, guarded, looped))
                | inr (e, failed, f) ↦
                    inr (e, ground (arith, del.nonempty, del.fits, serves.size, failed), f)
              ]
      ]
    ])
