-- ===== src/Fuzz/Extremes/Laws.antt =====
-- No assertion of the target fails.
use native.Mathlib.Nat.{div-lt_iff_lt-mul, mul-le-mul_left}
use mmap_chunker_core.Base.{
  ℕ, zero, suc, get_elem?, ◌+◌, ◌-◌, ◌/◌, ◌%◌, ◌^◌, ◌≤◌, ◌<◌, ◌≡◌, refl, arith, max, true, List, [],
  ◌∷◌, length, take, length-take, drop, All, All-drop, Option, none, some, Run, done, word,
  usize_max, saturating_add, All-take,
}
use mmap_chunker_core.Bits.Zeros.{byte_power, IsByte, le_value-lt}
use mmap_chunker_core.Ranges.{Range}
use mmap_chunker_core.Scanner.Fixed.{div_ceil, fixed_chunk_count, fixed_chunk_bounds}
use mmap_chunker_core.Scanner.Fixed.Laws.{fixed_chunk_bounds_exact, div_ceil_lem}
use mmap_chunker_core.Fuzz.{same_bounds, padded_word}
use mmap_chunker_core.Fuzz.Extremes.{
  read_usize, oracle_count, oracle_bounds, assert_case, for_each, extremes, fuzz_fixed_extremes,
}

-- The quotient rounded up, as one division.
div_ceil-div : (a b : ℕ) → 0 < b → ((a + b - 1) / b ≡ div_ceil a b) × (div_ceil a b ≤ a)
div_ceil-div a b pos =
    let c = div_ceil a b in
    let k = c - 1 in
    let reach = (div_ceil_lem a b c pos).1 (omega arith) in
    let short = (div_ceil_lem a b k pos).0 in
    let least = (div_ceil_lem a b a pos).0 in
    ground (
      arith,
      div-lt_iff_lt-mul {k = b} {x = a + b - 1} {y = c + 1} pos,
      div-lt_iff_lt-mul {k = b} {x = a + b - 1} {y = k + 1} pos,
      mul-le-mul_left {m = 1} {n = b} a,
    )

same_bounds_self : (b : Option Range) → same_bounds b b ≡ true
same_bounds_self none = refl
same_bounds_self (some (start, end)) = ground arith

module _ (file_len chunk_size : ℕ) (addressable : file_len ≤ usize_max)
    (representable : chunk_size ≤ usize_max) where
  oracle_count-fixed_chunk_count :
      oracle_count file_len chunk_size ≡ fixed_chunk_count file_len chunk_size
  unfolding oracle_count fixed_chunk_count
  oracle_count-fixed_chunk_count = ground (arith, div_ceil-div file_len (max chunk_size 1))

  oracle_bounds-fixed_chunk_bounds :
      (index : ℕ)
      → oracle_bounds file_len chunk_size index ≡ fixed_chunk_bounds file_len chunk_size index
  unfolding oracle_bounds
  oracle_bounds-fixed_chunk_bounds index = ground (
    arith,
    oracle_count-fixed_chunk_count,
    fixed_chunk_bounds_exact file_len chunk_size index addressable representable,
  )

  pub assert_case_lem : (index : ℕ) → assert_case file_len chunk_size index ≡ done tt
  unfolding assert_case
  assert_case_lem index =
      let count = fixed_chunk_count file_len chunk_size in
      let bounds =
        λ (i : ℕ). fixed_chunk_bounds_exact file_len chunk_size i addressable representable in
      rw (oracle_count-fixed_chunk_count, oracle_bounds-fixed_chunk_bounds index)
        (ground (
          arith,
          same_bounds_self (fixed_chunk_bounds file_len chunk_size index),
          bounds index,
          bounds count,
          bounds (count - 1),
          bounds (count - 1 + 1),
        ))

-- The word that is read fits `usize`.
byte_power_mono : (m n : ℕ) → m ≤ n → byte_power m ≤ byte_power n
byte_power_mono zero zero h = omega arith
byte_power_mono zero (suc n) h = omega (arith, byte_power_mono zero n (omega arith))
byte_power_mono (suc m) zero h = absurd (omega arith)
byte_power_mono (suc m) (suc n) h = omega (arith, byte_power_mono m n (omega arith))

pub padded_word-le : (bytes : List ℕ) → All IsByte bytes → padded_word bytes ≤ usize_max
padded_word-le bytes h =
    let short : length (take 8 bytes) ≤ 8 = omega (arith, length-take 8 bytes) in
    omega (
      arith,
      le_value-lt (take 8 bytes) (All-take IsByte 8 bytes h),
      byte_power_mono (length (take 8 bytes)) 8 short,
    )

read_usize-le :
    (input : List ℕ) (offset : ℕ) → All IsByte input → read_usize input offset ≤ usize_max
unfolding read_usize
read_usize-le input offset h = padded_word-le (drop offset input) (All-drop IsByte offset input h)

abbrev FitsUsize : ℕ → Type 0
FitsUsize n = n ≤ usize_max

for_each-done :
    (xs : List ℕ) (body : ℕ → Run (Unit {0}))
    → All FitsUsize xs
    → ((x : ℕ) → FitsUsize x → body x ≡ done tt)
    → for_each xs body ≡ done tt
unfolding for_each
for_each-done [] body h each = refl
for_each-done (x ∷ xs) body h each = rw (each x h.0) (for_each-done xs body h.1 each)

extremes-FitsUsize : (power : ℕ) → power ≤ usize_max → All FitsUsize (extremes power)
unfolding saturating_add
extremes-FitsUsize power h = (
  omega arith,
  (omega arith, (omega arith, (omega arith, (h, (omega arith, (omega arith, tt)))))),
)

-- The fuzz target for fixed chunks ends without a failed assertion, whatever its input is: for the lengths,
-- sizes and indices that it reads and for every pair of extremes, the count and the bounds are those of the
-- oracle in 128-bit arithmetic, the bounds lie in the file and are not empty, no chunk follows the last, and
-- the last ends with the file.
pub fuzz_fixed_extremes_lem :
    (input : List ℕ) → All IsByte input → fuzz_fixed_extremes input ≡ done tt
unfolding fuzz_fixed_extremes
fuzz_fixed_extremes_lem input h =
    let index = read_usize input 16 in
    let first : ℕ = elim (get_elem? input 0) [ none ↦ 0 | some b ↦ b ] in
    let power = 2 ^ (first % 64) % word in
    let fit = extremes-FitsUsize power (omega arith) in
    rw
      (assert_case_lem (read_usize input 0) (read_usize input 8) (read_usize-le input 0 h)
        (read_usize-le input 8 h) index)
      (for_each-done (extremes power) _ fit λ length length_fits.
        for_each-done (extremes power) _ fit
          λ size size_fits. assert_case_lem length size length_fits size_fits index)
