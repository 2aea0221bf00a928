-- ===== src/Scanner/Fixed/Laws.antt =====
-- Fixed-size chunks: which indices have one, where it lies, and that they cover the file.
use native.Mathlib.Nat.{div-add-mod', mod-lt, mul-le-mul_right}
use mmap_chunker_core.Base.{
  if◌then◌else◌, Bool-cases, ◌↔◌, inl, inr, ltb, ℕ, ◌+◌, ◌*◌, ◌/◌, ◌≤◌, ◌<◌, ◌≡◌, arith, min, max,
  none, some, usize_max, saturating_add, saturating_mul,
}
use mmap_chunker_core.Scanner.Fixed.{div_ceil, fixed_chunk_count, fixed_chunk_bounds}

-- The rounded-up quotient is the least number of chunks that reaches the end.
pub div_ceil_lem :
    (a b i : ℕ) → 0 < b → (i < div_ceil a b → i * b < a) × (div_ceil a b ≤ i → a ≤ i * b)
unfolding div_ceil
div_ceil_lem a b i pos = ground (
  arith,
  div-add-mod' a b,
  mod-lt a pos,
  mul-le-mul_right {m = i} {n = a / b} b,
  mul-le-mul_right {m = i + 1} {n = a / b} b,
  mul-le-mul_right {m = a / b + 1} {n = i} b,
  mul-le-mul_right {m = a / b} {n = i} b,
)

-- The range at an index below the count, and what the count is.
pub fixed_chunk_bounds_exact :
    (file_len chunk_size index : ℕ)
    → file_len ≤ usize_max
    → chunk_size ≤ usize_max
    → let size = max chunk_size 1 in
      (index < fixed_chunk_count file_len chunk_size
        → (fixed_chunk_bounds file_len chunk_size index
            ≡ some (index * size, min (index * size + size) file_len))
          × (index * size < file_len))
      × (fixed_chunk_count file_len chunk_size ≤ index
          → (fixed_chunk_bounds file_len chunk_size index ≡ none) × (file_len ≤ index * size))
unfolding fixed_chunk_count fixed_chunk_bounds saturating_add saturating_mul
fixed_chunk_bounds_exact file_len chunk_size index h k =
    ground (arith, div_ceil_lem file_len (max chunk_size 1) index (omega arith))

-- `fixed_chunk_bounds` has a range for exactly the indices below `fixed_chunk_count`, and it is the
-- range that plain arithmetic gives: it starts at the index times the chunk size (0 counts as 1) and
-- ends one chunk size later or with the file. The indices below the count are those whose range starts
-- inside the file. No intermediate value saturates to another result, for every file length and chunk
-- size that fit `usize`.
pub fixed_chunk_bounds-fixed_chunk_count :
    (file_len chunk_size index : ℕ)
    → file_len ≤ usize_max
    → chunk_size ≤ usize_max
    → let size = max chunk_size 1 in
      (fixed_chunk_bounds file_len chunk_size index ≡ (
        if ltb index (fixed_chunk_count file_len chunk_size)
        then some (index * size, min (index * size + size) file_len)
        else none))
      × ((index < fixed_chunk_count file_len chunk_size) ↔ (index * size < file_len))
fixed_chunk_bounds-fixed_chunk_count file_len chunk_size index h k =
    let (inside, outside) = fixed_chunk_bounds_exact file_len chunk_size index h k in
    elim (Bool-cases (ltb index (fixed_chunk_count file_len chunk_size))) [
      | inl below ↦ (ground (arith, inside), (λ b. (inside b).1, λ b. ground arith))
      | inr above ↦
          (ground (arith, outside), (λ b. (inside b).1, λ b. absurd (ground (arith, outside))))
    ]
