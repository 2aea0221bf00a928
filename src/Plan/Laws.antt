-- ===== src/Plan/Laws.antt =====
-- What every plan promises: its ranges, read by index, cover the source.
use native.Mathlib.Nat.{add-zero, zero-add}
use mathlib.Core.Path.{subst}
use mmap_chunker_core.Base.{
  ℕ, zero, suc, ◌+◌, ◌-◌, ◌*◌, ◌≤◌, ◌<◌, ◌≡◌, refl, sym, ap, ◌∙◌, arith, min, max, List, [], ◌∷◌,
  length, get_elem?, get_elem?_lt, get_elem?_ge, none, some, Bool-cases, leb, usize_max, inl, inr,
}
use mmap_chunker_core.Ranges.{Range, Covers}
use mmap_chunker_core.Ranges.Laws.{Covers-get_elem?}
use mmap_chunker_core.Scanner.Fixed.{fixed_chunk_count, fixed_chunk_bounds}
use mmap_chunker_core.Scanner.Fixed.Laws.{fixed_chunk_bounds_exact}
use mmap_chunker_core.Plan.{ChunkPlan, fixed, from_ranges, plan_fixed, count, range_at}

-- `rs` is what the plan answers by index on a source of `n` bytes, and covers that source.
pub record Plans (plan : ChunkPlan) (n : ℕ) (rs : List Range) : Type 0 where
  pub counted : count plan ≡ length rs
  pub answers : (i : ℕ) → range_at plan i n ≡ get_elem? rs i
  pub covers : Covers 0 n rs

-- The plan of covering ranges answers with these ranges.
pub from_ranges-Plans : (n : ℕ) (rs : List Range) → Covers 0 n rs → Plans (from_ranges rs) n rs
unfolding from_ranges count range_at
from_ranges-Plans n [] c = record { counted = refl; answers = λ i. refl; covers = c }
from_ranges-Plans n (r ∷ rs) c = record { counted = refl; answers = λ i. refl; covers = c }

-- The ranges of a fixed layout from index `i` on, `left` of them.
abbrev fixed_list : ℕ → ℕ → ℕ → ℕ → List Range
fixed_list n size zero i = []
fixed_list n size (suc left) i =
    (i * size, min (i * size + size) n) ∷ fixed_list n size left (i + 1)

fixed_list-length : (n size left i : ℕ) → length (fixed_list n size left i) ≡ left
fixed_list-length n size zero i = refl
fixed_list-length n size (suc left) i = ap suc (fixed_list-length n size left (i + 1))

fixed_list-get_elem? :
    (n size left i j : ℕ)
    → j < left
    → get_elem? (fixed_list n size left i) j ≡ some ((i + j) * size, min ((i + j) * size + size) n)
fixed_list-get_elem? n size zero i j h = absurd (omega arith)
fixed_list-get_elem? n size (suc left) i zero h =
    ap (λ k. some (k * size, min (k * size + size) n)) (sym (add-zero i))
fixed_list-get_elem? n size (suc left) i (suc j) h =
    let e : i + 1 + j ≡ i + suc j = omega arith in
    fixed_list-get_elem? n size left (i + 1) j (omega arith)
    ∙ ap (λ k. some (k * size, min (k * size + size) n)) e

module _ (n size : ℕ) (pos : 0 < n) (small : n ≤ usize_max) (size_small : size ≤ usize_max)
    (size_pos : 0 < size) where
  -- `fixed_chunk_bounds` without its clamp.
  bounds :
      (i : ℕ)
      → (i < fixed_chunk_count n size
          → (fixed_chunk_bounds n size i ≡ some (i * size, min (i * size + size) n))
            × (i * size < n))
        × (fixed_chunk_count n size ≤ i → (fixed_chunk_bounds n size i ≡ none) × (n ≤ i * size))
  bounds i =
      let e : max size 1 ≡ size = omega arith in
      rw e at (fixed_chunk_bounds_exact n size i small size_small)

  below : (i : ℕ) → i < fixed_chunk_count n size → i * size < n
  below i h = ((bounds i).0 h).1

  above : (i : ℕ) → fixed_chunk_count n size ≤ i → n ≤ i * size
  above i h = ((bounds i).1 h).1

  fixed_list-Covers :
      (left i : ℕ)
      → i + suc left ≡ fixed_chunk_count n size
      → Covers (i * size) n (fixed_list n size (suc left) i)
  fixed_list-Covers zero i e = omega (arith, below i (omega arith), above (i + 1) (omega arith))
  fixed_list-Covers (suc left) i e =
      let next : min (i * size + size) n ≡ (i + 1) * size =
        omega (arith, below (i + 1) (omega arith)) in
      (
        refl,
        omega (arith, below i (omega arith)),
        rw next (fixed_list-Covers left (i + 1) (omega arith)),
      )

  range_at-fixed_list :
      (i : ℕ)
      → range_at (fixed size (fixed_chunk_count n size)) i n
        ≡ get_elem? (fixed_list n size (fixed_chunk_count n size) 0) i
  unfolding range_at
  range_at-fixed_list i = elim (Bool-cases (leb (fixed_chunk_count n size) i)) [
    | inl past ↦ ground (
      arith,
      get_elem?_ge (fixed_list n size (fixed_chunk_count n size) 0) i,
      fixed_list-length n size (fixed_chunk_count n size) 0,
    )
    | inr inside ↦
        ground
          (arith, bounds i, fixed_list-get_elem? n size (fixed_chunk_count n size) 0 i, zero-add i)
  ]

  fixed_chunk_count_pos : 0 < fixed_chunk_count n size
  fixed_chunk_count_pos = ground (arith, above 0)

  fixed_list-Covers_all : Covers 0 n (fixed_list n size (fixed_chunk_count n size) 0)
  fixed_list-Covers_all =
      let left = fixed_chunk_count n size - 1 in
      let e : suc left ≡ fixed_chunk_count n size = omega (arith, fixed_chunk_count_pos) in
      let z : 0 * size ≡ 0 = omega arith in
      subst (λ k. Covers 0 n (fixed_list n size k 0)) e
        (subst (λ a. Covers a n (fixed_list n size (suc left) 0)) z
          (fixed_list-Covers left 0 (omega (arith, fixed_chunk_count_pos))))

  fixed-Plans :
      Plans
        (fixed size (fixed_chunk_count n size))
        n
        (fixed_list n size (fixed_chunk_count n size) 0)
  unfolding count
  fixed-Plans = record {
    counted = sym (fixed_list-length n size (fixed_chunk_count n size) 0);
    answers = range_at-fixed_list;
    covers = fixed_list-Covers_all;
  }

-- The plan of `ChunkPlan::fixed` on a file and a chunk size that fit `usize`.
pub plan_fixed-Plans :
    (n chunk_size : ℕ)
    → n ≤ usize_max
    → chunk_size ≤ usize_max
    → (rs : List Range) × Plans (plan_fixed n chunk_size) n rs
unfolding plan_fixed
plan_fixed-Plans zero chunk_size h k =
    ([], unfold count range_at in record { counted = refl; answers = λ i. refl; covers = refl })
plan_fixed-Plans (suc n) chunk_size h k =
    let size = max chunk_size 1 in
    let e : plan_fixed (suc n) chunk_size ≡ fixed size (fixed_chunk_count (suc n) size) =
      ground arith in
    (
      fixed_list (suc n) size (fixed_chunk_count (suc n) size) 0,
      subst (λ p. Plans p (suc n) (fixed_list (suc n) size (fixed_chunk_count (suc n) size) 0))
          (sym e) (fixed-Plans (suc n) size (omega arith) h (omega arith) (omega arith)),
    )

-- A plan that covers a source answers exactly the indices below its count, each with a non-empty range
-- inside the source.
pub Plans-range_at :
    {plan : ChunkPlan} {n : ℕ} {rs : List Range} (i : ℕ)
    → Plans plan n rs
    → (i < count plan
        → (start : ℕ) × (end : ℕ) × (range_at plan i n ≡ some (start, end))
          × (start < end)
          × (end ≤ n))
      × (count plan ≤ i → range_at plan i n ≡ none)
Plans-range_at {plan} {n} {rs} i p = (
  λ h.
      let ((start, end), e) = get_elem?_lt rs i (omega (arith, p.counted)) in
      let inside = Covers-get_elem? 0 n rs i start end p.covers e in
      (start, end, p.answers i ∙ e, inside.1, inside.2),
  λ h. p.answers i ∙ get_elem?_ge rs i (omega (arith, p.counted)),
)
