-- ===== src/Fuzz.antt =====
-- The fuzz targets, fuzz/fuzz_targets: what a target computes from an input. An assertion that fails is a
-- panic.
pub mod Extremes
pub mod Differential
use mmap_chunker_core.Base.{
  ℕ, Bool, true, false, ◌&&◌, List, [], ◌∷◌, take, Option, none, some, Run, panicked, ◌==◌,
}
use mmap_chunker_core.Ranges.{Range}
use mmap_chunker_core.Bits.Zeros.{le_value}

-- `assert!`, with the statements behind it.
abbrev pub assert {ℓ} : {A : Type ℓ} → Bool → Run A → Run A
assert true next = next
assert false next = panicked

-- `==` on ranges and on optional ranges
abbrev pub same_range : Range → Range → Bool
same_range (a, b) (c, d) = (a == c) && (b == d)

abbrev pub same_bounds : Option Range → Option Range → Bool
same_bounds none none = true
same_bounds none (some r) = false
same_bounds (some r) none = false
same_bounds (some r) (some q) = same_range r q

-- At most eight bytes, copied over the lowest bytes of zero.
abbrev pub padded_word : List ℕ → ℕ
padded_word bytes = le_value (take 8 bytes)

abbrev pub same_ranges : List Range → List Range → Bool
same_ranges [] [] = true
same_ranges [] (q ∷ qs) = false
same_ranges (r ∷ rs) [] = false
same_ranges (r ∷ rs) (q ∷ qs) = same_range r q && same_ranges rs qs
