-- ===== src/Scanner/Partition/Correct.antt =====
-- What the two partition planners promise.
use mmap_chunker_core.Base.{
  ℕ, zero, suc, ◌-◌, ◌≤◌, ◌<◌, ◌≡◌, refl, arith, true, min, List, [], ◌∷◌, length, All, Bool-cases,
  inl, inr, if◌then◌else◌, ◌==◌, ◌||◌, Run, done, Returns, ◌>>=◌,
}
use mmap_chunker_core.Slice.{Slice, len, IsSlice}
use mmap_chunker_core.Ranges.{Range, Covers}
use mmap_chunker_core.Ranges.Laws.{Covers-length-le}
use mmap_chunker_core.Bits.Zeros.{IsByte}
use mmap_chunker_core.Scanner.Chunks.Laws.{IsDelimiter}
use mmap_chunker_core.Scanner.Partition.{
  ranges_from, ranges_from_boundaries, find_partition_boundaries, pattern_boundary_loop,
  find_partition_boundaries_pattern,
}
use mmap_chunker_core.Scanner.Partition.Reference.{
  cuts, cuts-Ascends, IsCut, cuts-IsCut, length-cuts-le,
}
use mmap_chunker_core.Scanner.Partition.Assembly.{
  ranges_from-Covers, length-ranges_from-le, ranges_from-ends,
}
use mmap_chunker_core.Scanner.Partition.Laws.{boundary_loop-cuts, pattern_boundary_loop-cuts}

-- The ranges of the reference cuts, for a request of `num` partitions.
unfoldable pub partitions : List ℕ → List ℕ → ℕ → List Range
partitions p xs num =
    let n = min num (length xs) in
    if length xs == 0 || num == 0 then [] else ranges_from (length xs) 0 (cuts p xs n (n - 1) 1 0)

-- A plan of at most `num` partitions and at most as many as there are bytes: none for a request of 0,
-- which covers nothing, and otherwise ranges that cover the file, each of which ends behind a whole
-- delimiter or with the file.
pub record IsPartition (p xs : List ℕ) (num : ℕ) (rs : List Range) : Type 0 where
  pub covers : Covers 0 (if num == 0 then 0 else length xs) rs
  pub at_most : length rs ≤ num
  pub at_most_bytes : length rs ≤ length xs
  pub on_records : All (λ (r : Range). IsCut p xs r.1) rs

module _ (p xs : List ℕ) (num : ℕ) where
  pub partitions-Covers : 0 < num → Covers 0 (length xs) (partitions p xs num)
  unfolding partitions
  partitions-Covers pos =
      let n = min num (length xs) in
      let ascends = cuts-Ascends p xs n (n - 1) 1 0 in
      ground (
        arith,
        cuts-Ascends p xs n (n - 1) 1 0,
        ranges_from-Covers (length xs) 0 (cuts p xs n (n - 1) 1 0) (omega arith),
      )

  partitions-at_most : length (partitions p xs num) ≤ num
  unfolding partitions
  partitions-at_most =
      let n = min num (length xs) in
      ground (
        arith,
        length-cuts-le p xs n (n - 1) 1 0,
        length-ranges_from-le (length xs) 0 (cuts p xs n (n - 1) 1 0),
      )

  pub partitions_none : num ≡ 0 → partitions p xs num ≡ []
  unfolding partitions
  partitions_none e = ground arith

  partitions-at_most_bytes : length (partitions p xs num) ≤ length xs
  partitions-at_most_bytes = ground (
    arith,
    partitions_none,
    partitions-Covers,
    Covers-length-le 0 (length xs) (partitions p xs num),
  )

  partitions-on_records : All (λ (r : Range). IsCut p xs r.1) (partitions p xs num)
  unfolding partitions
  partitions-on_records = elim (Bool-cases (length xs == 0 || num == 0)) [
    | inl e ↦ rw e tt
    | inr e ↦
        let n = min num (length xs) in
        rw e (
          ranges_from-ends (IsCut p xs) (length xs) 0 (cuts p xs n (n - 1) 1 0) (inl refl)
            (cuts-IsCut p xs n (n - 1) 1 0 (ground arith) (omega arith)))
  ]

  pub partitions-IsPartition : IsPartition p xs num (partitions p xs num)
  partitions-IsPartition = record {
    covers = elim (Bool-cases (num == 0)) [
      | inl none_asked ↦ rw (none_asked, partitions_none (ground arith)) refl
      | inr asked ↦ rw asked (partitions-Covers (ground arith))
    ];
    at_most = partitions-at_most;
    at_most_bytes = partitions-at_most_bytes;
    on_records = partitions-on_records;
  }

-- Without a round there is no cut.
cuts_none : (p xs : List ℕ) (n left i last : ℕ) → left ≡ 0 → cuts p xs n left i last ≡ []
unfolding cuts
cuts_none p xs n zero i last e = refl
cuts_none p xs n (suc left) i last e = absurd (omega arith)

pub partitions_single : (p xs : List ℕ) → 0 < length xs → partitions p xs 1 ≡ (0, length xs) ∷ []
unfolding partitions ranges_from
partitions_single p xs pos =
    let n = min 1 (length xs) in ground (arith, cuts_none p xs n (n - 1) 1 0)

pub partitions_many :
    (p xs : List ℕ) (num : ℕ)
    → 0 < length xs
    → 0 < num
    → let n = min num (length xs) in
      partitions p xs num ≡ ranges_from (length xs) 0 (cuts p xs n (n - 1) 1 0)
unfolding partitions
partitions_many p xs num pos some_asked = ground arith

pub partitions_empty :
    (p xs : List ℕ) (num : ℕ) → ((length xs == 0) || (num == 0)) ≡ true → partitions p xs num ≡ []
unfolding partitions
partitions_empty p xs num e = rw e

-- The guards of the planners choose as the reference does.
pub guarded_partitions :
    (p xs : List ℕ) (num : ℕ) (planned : Run (List Range))
    → (0 < length xs
        → 0 < num
        → let n = min num (length xs) in
          planned ≡ done (ranges_from (length xs) 0 (cuts p xs n (n - 1) 1 0)))
    → (if length xs == 0 || num == 0
        then done []
        else if num == 1
        then done ((0, length xs) ∷ [])
        else planned)
      ≡ done (partitions p xs num)
guarded_partitions p xs num planned h =
    ground (arith, h, partitions_empty p xs num, partitions_many p xs num, partitions_single p xs)

pub find_partition_boundaries-partitions :
    (s : Slice) (num d : ℕ)
    → IsSlice s
    → IsByte d
    → find_partition_boundaries s num d ≡ done (partitions (d ∷ []) s.bytes num)
unfolding find_partition_boundaries
find_partition_boundaries-partitions s num d ok byte =
    let n = min num (len s) in
    guarded_partitions (d ∷ []) s.bytes num _ λ pos asked.
      rw (boundary_loop-cuts s n ok (omega arith) d byte (n - 1) 1 0 (omega arith)) refl

pub find_partition_boundaries_pattern-partitions :
    (s : Slice) (num : ℕ) (p : List ℕ)
    → IsSlice s
    → IsDelimiter p
    → find_partition_boundaries_pattern s num p ≡ done (partitions p s.bytes num)
unfolding find_partition_boundaries_pattern
find_partition_boundaries_pattern-partitions s num [] ok del = absurd (omega (arith, del.nonempty))
find_partition_boundaries_pattern-partitions s num (d ∷ []) ok del =
    find_partition_boundaries-partitions s num d ok del.bytes.0
find_partition_boundaries_pattern-partitions s num (d ∷ e ∷ p) ok del =
    let q = d ∷ e ∷ p in
    let n = min num (len s) in
    let run : Run (List Range) =
      (pattern_boundary_loop s n q (n - 1) 1 0 >>= λ bs.
      done (ranges_from_boundaries (len s) bs)) in
    ground (
      arith,
      guarded_partitions q s.bytes num run λ pos asked.
          rw (pattern_boundary_loop-cuts s n ok (omega arith) q del (n - 1) 1 0 (omega arith)) refl,
    )

-- `find_partition_boundaries` never panics and ends, on every slice, request and delimiter byte. A
-- request of 0 gives no range. Any other gives ranges that follow one another from 0 to the end of the
-- data, none empty, at most as many as requested and at most as many as bytes, and each of them ends
-- behind a delimiter or with the data.
pub find_partition_boundaries_correct :
    (s : Slice) (num d : ℕ)
    → IsSlice s
    → IsByte d
    → Returns (find_partition_boundaries s num d) (IsPartition (d ∷ []) s.bytes num)
find_partition_boundaries_correct s num d ok byte =
    rw (find_partition_boundaries-partitions s num d ok byte)
      (partitions-IsPartition (d ∷ []) s.bytes num)

-- `find_partition_boundaries_pattern` never panics and ends, on every slice, request and non-empty
-- pattern. Its ranges are as those of `find_partition_boundaries`, and each ends behind a whole pattern
-- or with the data.
pub find_partition_boundaries_pattern_correct :
    (s : Slice) (num : ℕ) (p : List ℕ)
    → IsSlice s
    → IsDelimiter p
    → Returns (find_partition_boundaries_pattern s num p) (IsPartition p s.bytes num)
find_partition_boundaries_pattern_correct s num p ok del =
    rw (find_partition_boundaries_pattern-partitions s num p ok del)
      (partitions-IsPartition p s.bytes num)
