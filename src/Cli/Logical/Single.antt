-- ===== src/Cli/Logical/Single.antt =====
-- One file as a dataset: its workers are the partitions of the planner for a single file.
use mmap_chunker_core.Base.{
  ℕ, zero, suc, ◌+◌, ◌-◌, ◌*◌, ◌/◌, ◌≤◌, ◌<◌, ◌≡◌, refl, arith, min, List, [], ◌∷◌, length,
  length-append, Bool-cases, inl, inr, ◌==◌, done, ok,
}
use mmap_chunker_core.Slice.{Slice, IsSlice}
use mmap_chunker_core.Ranges.{Range, Covers}
use mmap_chunker_core.Ranges.Laws.{Covers-le}
use mmap_chunker_core.Scanner.Chunks.Laws.{IsDelimiter}
use mmap_chunker_core.Scanner.Partition.{ranges_from, find_partition_boundaries_pattern}
use mmap_chunker_core.Scanner.Partition.Reference.{snap_cut, cuts, cuts_end, target_lt}
use mmap_chunker_core.Scanner.Partition.Correct.{
  partitions, partitions_none, partitions-Covers, find_partition_boundaries_pattern-partitions,
}
use mmap_chunker_core.Cli.{◌>>=◌, returned}
use mmap_chunker_core.Cli.Logical.{WorkerAssignment, plan_logical_partitions}
use mmap_chunker_core.Cli.Logical.Reference.{
  total, logical_cut, inner_cuts, dataset_ranges, split, assignments,
}
use mmap_chunker_core.Cli.Logical.Assembly.{inner_cuts_none}
use mmap_chunker_core.Cli.Logical.Correct.{plan_logical_partitions-assignments}

-- The ranges of one file, one worker for each.
unfoldable pub one_each : ℕ → List Range → List WorkerAssignment
one_each worker [] = []
one_each worker ((start, end) ∷ rs) =
    record {
      worker_index = worker;
      ranges =
          record { source_index = 0; start = start; end_exclusive = end; length = end - start }
          ∷ [];
    }
    ∷ one_each (worker + 1) rs

module _ (p xs : List ℕ) where
  logical_cut_single : (t : ℕ) → 0 < t → t < length xs → logical_cut p (xs ∷ []) t ≡ snap_cut p xs t
  unfolding logical_cut
  logical_cut_single t pos below = ground arith

  -- A cut at the end of the file ends the loop, and adds no range.
  ranges_from-inner_cuts :
      (n : ℕ)
      → n ≤ length xs
      → (left i last prev : ℕ) → i + left ≤ n
      → ranges_from
          (length xs)
          prev
          (inner_cuts (logical_cut p (xs ∷ [])) (length xs) n left i last)
        ≡ ranges_from (length xs) prev (cuts p xs n left i last)
  unfolding inner_cuts cuts ranges_from
  ranges_from-inner_cuts n k zero i last prev h = refl
  ranges_from-inner_cuts n k (suc left) i last prev h =
      let t = length xs * i / n in
      let cut = snap_cut p xs t in
      ground (
        arith,
        target_lt p xs n i (omega arith) k,
        logical_cut_single t,
        cuts_end p xs n left (i + 1) (omega arith) k,
        ranges_from-inner_cuts n k left (i + 1) last prev (omega arith),
        ranges_from-inner_cuts n k left (i + 1) cut cut (omega arith),
      )

  dataset_ranges-partitions : (num : ℕ) → dataset_ranges p (xs ∷ []) num ≡ partitions p xs num
  unfolding dataset_ranges partitions ranges_from
  dataset_ranges-partitions num =
      let size : total (xs ∷ []) ≡ length xs = omega (arith, length-append xs []) in
      let n = min num (length xs) in
      let cut = logical_cut p (xs ∷ []) in
      elim (Bool-cases (length xs == 0)) [
        | inl empty ↦
            rw size (ground (arith, inner_cuts_none cut (length xs) n (n - 1) 1 0 (ground arith)))
        | inr some_bytes ↦ rw size (
            ground (
              arith,
              λ (pos : 0 < n). ranges_from-inner_cuts n (omega arith) (n - 1) 1 0 0 (omega arith),
            ))
      ]

  split_single :
      (start end : ℕ)
      → start < end
      → end ≤ length xs
      → split start end 0 0 (xs ∷ [])
        ≡ record { source_index = 0; start = start; end_exclusive = end; length = end - start } ∷ []
  unfolding split
  split_single start end lt le = ground arith

  assignments-one_each :
      (rs : List Range) (worker a : ℕ)
      → Covers a (length xs) rs
      → assignments (xs ∷ []) worker rs ≡ one_each worker rs
  unfolding assignments one_each
  assignments-one_each [] worker a c = refl
  assignments-one_each ((start, end) ∷ rs) worker a (e, lt, c) = ground (
    arith,
    split_single start end lt (Covers-le end (length xs) rs c),
    assignments-one_each rs (worker + 1) end c,
  )

  assignments-partitions :
      (num : ℕ)
      → assignments (xs ∷ []) 0 (dataset_ranges p (xs ∷ []) num) ≡ one_each 0 (partitions p xs num)
  assignments-partitions num = rw (dataset_ranges-partitions num) (elim (Bool-cases (num == 0)) [
    | inl unasked ↦
        let none_asked = partitions_none p xs num (ground arith) in
        unfold assignments one_each in rw none_asked refl
    | inr asked ↦
        assignments-one_each (partitions p xs num) 0 0 (partitions-Covers p xs num (ground arith))
  ])

-- `partition-files` on one file plans what `partition` plans: one worker for each partition of the planner
-- for a single file, with the partition as its only range. The file is a slice and the delimiter one that
-- the planner accepts.
pub plan_logical_partitions-find_partition_boundaries_pattern :
    (s : Slice) (num : ℕ) (p : List ℕ)
    → IsSlice s
    → IsDelimiter p
    → plan_logical_partitions (s ∷ []) num p
      ≡ (returned (find_partition_boundaries_pattern s num p) >>= λ rs. done (ok (one_each 0 rs)))
plan_logical_partitions-find_partition_boundaries_pattern s num p mapped del =
    let planned =
      plan_logical_partitions-assignments (s ∷ []) p num del (mapped, tt)
        (omega (arith, length-append s.bytes [], mapped.fits)) in
    let single = find_partition_boundaries_pattern-partitions s num p mapped del in
    rw (planned, assignments-partitions p s.bytes num, single) refl
