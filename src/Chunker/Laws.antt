-- ===== src/Chunker/Laws.antt =====
-- The invariant of `MmapChunker`, its gate, and what its chunks are.
use mmap_chunker_core.Base.{
  ℕ, zero, suc, ◌≤◌, ◌<◌, ◌≡◌, refl, arith, List, [], ◌∷◌, length, Bool-cases, inl, inr, ◌⊎◌, Io,
  isize_max,
}
use mmap_chunker_core.Slice.{len, IsSlice}
use mmap_chunker_core.Ranges.{Range}
use mmap_chunker_core.Scanner.Chunks.Laws.{chunks_of, chunks_of-Covers}
use mmap_chunker_core.Scanner.Partition.Correct.{partitions, partitions-Covers, partitions_none}
use mmap_chunker_core.Plan.{empty, from_ranges}
use mmap_chunker_core.Plan.Laws.{Plans, from_ranges-Plans, plan_fixed-Plans}
use mmap_chunker_core.Pin.{Metadata}
use mmap_chunker_core.Chunker.{MmapChunker, planned, check_pinned}
use mmap_chunker_core.Chunker.Ops.{
  Op, delimited, fixed_size, partition, partition_pattern, delimited_pattern, IsValidOp, plan_of,
  outcome, mmap-check_pinned,
}

-- A request that asks for something: not for 0 partitions.
abbrev pub Asks : Op → Type 0
Asks (delimited chunk_size d) = Unit {0}
Asks (fixed_size chunk_size) = Unit {0}
Asks (partition num d) = 0 < num
Asks (partition_pattern num p) = 0 < num
Asks (delimited_pattern chunk_size p) = Unit {0}

pub plan_of-Plans :
    (op : Op) (xs : List ℕ)
    → IsValidOp op
    → Asks op
    → length xs ≤ isize_max
    → (rs : List Range) × Plans (plan_of op xs) (length xs) rs
plan_of-Plans (delimited size d) xs valid asks h = (
  chunks_of (d ∷ []) size xs,
  from_ranges-Plans (length xs) (chunks_of (d ∷ []) size xs) (chunks_of-Covers (d ∷ []) size xs),
)
plan_of-Plans (fixed_size size) xs valid asks h =
    plan_fixed-Plans (length xs) size (omega arith) valid
plan_of-Plans (partition num d) xs valid asks h = (
  partitions (d ∷ []) xs num,
  from_ranges-Plans (length xs) (partitions (d ∷ []) xs num)
      (partitions-Covers (d ∷ []) xs num asks),
)
plan_of-Plans (partition_pattern num p) xs valid asks h = (
  partitions p xs num,
  from_ranges-Plans (length xs) (partitions p xs num) (partitions-Covers p xs num asks),
)
plan_of-Plans (delimited_pattern size p) xs valid asks h = (
  chunks_of p size xs,
  from_ranges-Plans (length xs) (chunks_of p size xs) (chunks_of-Covers p size xs),
)

pub plan_of_zero : (op : Op) (xs : List ℕ) → (Asks op → ⊥) → plan_of op xs ≡ empty
unfolding from_ranges
plan_of_zero (delimited size d) xs h = absurd (h tt)
plan_of_zero (fixed_size size) xs h = absurd (h tt)
plan_of_zero (partition num d) xs h = rw (partitions_none (d ∷ []) xs num (omega arith)) refl
plan_of_zero (partition_pattern num p) xs h = rw (partitions_none p xs num (omega arith)) refl
plan_of_zero (delimited_pattern size p) xs h = absurd (h tt)

-- The map is a slice, and the plan is empty or covers it.
pub record IsValid {FilePath : Type 0} (c : MmapChunker FilePath) : Type 0 where
  pub mapped : IsSlice c.mmap
  pub planned : (c.plan ≡ empty) ⊎ ((rs : List Range) × Plans c.plan (len c.mmap) rs)

Asks-cases : (op : Op) → Asks op ⊎ (Asks op → ⊥)
Asks-cases (delimited size d) = inl tt
Asks-cases (fixed_size size) = inl tt
Asks-cases (partition zero d) = inr (λ h. omega arith)
Asks-cases (partition (suc num) d) = inl (omega arith)
Asks-cases (partition_pattern zero p) = inr (λ h. omega arith)
Asks-cases (partition_pattern (suc num) p) = inl (omega arith)
Asks-cases (delimited_pattern size p) = inl tt

module _ {FilePath : Type 0} (metadata : FilePath → Io Metadata) where
  pub plan_of-IsValid :
      (op : Op) (c : MmapChunker FilePath)
      → IsValidOp op
      → IsSlice c.mmap
      → IsValid (planned c (plan_of op c.mmap.bytes)).1
  plan_of-IsValid op c valid mapped = record {
    mapped = mapped;
    planned = elim (Asks-cases op) [
      | inl asks ↦ inr (plan_of-Plans op c.mmap.bytes valid asks mapped.fits)
      | inr h ↦ inl (plan_of_zero op c.mmap.bytes h)
    ];
  }

  IsValid-subst :
      (c c' : MmapChunker FilePath)
      → c'.mmap ≡ c.mmap
      → (c'.plan ≡ c.plan) ⊎ (c'.plan ≡ empty)
      → IsValid c
      → IsValid c'
  IsValid-subst c c' e (inl p) v = record { mapped = rw e v.mapped; planned = rw (e, p) v.planned }
  IsValid-subst c c' e (inr p) v = record { mapped = rw e v.mapped; planned = inl p }

  plan-check_pinned :
      (c : MmapChunker FilePath)
      → let c' = (check_pinned metadata c).0 in (c'.plan ≡ c.plan) ⊎ (c'.plan ≡ empty)
  unfolding check_pinned
  plan-check_pinned c = ground arith

  pub pinned-check_pinned :
      (c : MmapChunker FilePath) → (check_pinned metadata c).0.pinned ≡ c.pinned
  unfolding check_pinned
  pinned-check_pinned c = ground arith

  check_pinned-IsValid :
      (c : MmapChunker FilePath) → IsValid c → IsValid (check_pinned metadata c).0
  check_pinned-IsValid c v =
      IsValid-subst c (check_pinned metadata c).0 (mmap-check_pinned metadata c)
        (plan-check_pinned c) v

  pub outcome-IsValid :
      (op : Op) (c : MmapChunker FilePath)
      → IsValidOp op
      → IsValid c
      → IsValid (outcome metadata op c).1
  outcome-IsValid op c valid v =
      let v' = check_pinned-IsValid c v in
      elim (Bool-cases (check_pinned metadata c).1) [
        | inl fine ↦ rw fine (plan_of-IsValid op (check_pinned metadata c).0 valid v'.mapped)
        | inr trip ↦ rw trip v'
      ]
