-- ===== src/Scanner/Partition/Assembly.antt =====
-- `ranges_from_boundaries`: cut points in order give covering ranges.
use mmap_chunker_core.Base.{
  ℕ, ◌+◌, ◌≤◌, arith, List, [], ◌∷◌, length, Bool-cases, inl, inr, ltb, All,
}
use mmap_chunker_core.Ranges.{Range, Covers}
use mmap_chunker_core.Scanner.Partition.{ranges_from}
use mmap_chunker_core.Scanner.Partition.Reference.{Ascends}

pub ranges_from-Covers :
    (n prev : ℕ) (bs : List ℕ)
    → prev ≤ n
    → Ascends n prev bs
    → Covers prev n (ranges_from n prev bs)
unfolding ranges_from
ranges_from-Covers n prev [] h a = ground arith
ranges_from-Covers n prev (b ∷ bs) h (lt, le, a) = ground (arith, ranges_from-Covers n b bs)

pub length-ranges_from-le :
    (n prev : ℕ) (bs : List ℕ) → length (ranges_from n prev bs) ≤ length bs + 1
unfolding ranges_from
length-ranges_from-le n prev [] = ground arith
length-ranges_from-le n prev (b ∷ bs) = ground (arith, length-ranges_from-le n b bs)

-- The ends of the ranges are the end of the file and the cut points.
pub ranges_from-ends :
    (P : ℕ → Type 0) (n prev : ℕ) (bs : List ℕ)
    → P n
    → All P bs
    → All (λ (r : Range). P r.1) (ranges_from n prev bs)
unfolding ranges_from
ranges_from-ends P n prev [] pn h = elim (Bool-cases (ltb prev n)) [
  | inl e ↦ rw e (pn, tt)
  | inr e ↦ rw e tt
]
ranges_from-ends P n prev (b ∷ bs) pn h = elim (Bool-cases (ltb prev b)) [
  | inl e ↦ rw e (h.0, ranges_from-ends P n b bs pn h.1)
  | inr e ↦ rw e (ranges_from-ends P n b bs pn h.1)
]
