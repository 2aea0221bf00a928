-- ===== src/Ranges.antt =====
-- Byte ranges `(start, end)`, as the planners return them, and what a plan of them must be.
pub mod Laws
use mmap_chunker_core.Base.{
  ℕ, zero, suc, ◌+◌, ◌-◌, ◌≤◌, ◌<◌, ◌≡◌, List, [], ◌∷◌, ◌++◌, take, drop, length,
}

abbrev pub Range : Type 0
Range = ℕ × ℕ

-- The ranges follow one another from `a` to `b` with no gap, no overlap and no empty range.
abbrev pub Covers : ℕ → ℕ → List Range → Type 0
Covers a b [] = a ≡ b
Covers a b ((start, end) ∷ rs) = (start ≡ a) × (start < end) × Covers end b rs

-- The bytes of a range, and those of all ranges in order.
abbrev pub part : List ℕ → Range → List ℕ
part xs (start, end) = take (end - start) (drop start xs)

abbrev pub parts : List ℕ → List Range → List (List ℕ)
parts xs [] = []
parts xs (r ∷ rs) = part xs r ∷ parts xs rs

abbrev pub concat : List (List ℕ) → List ℕ
concat [] = []
concat (x ∷ xs) = x ++ concat xs
