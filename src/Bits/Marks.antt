-- ===== src/Bits/Marks.antt =====
-- Eight bytes compared with a delimiter at once: the exclusive or of `find_byte_swar`'s word with its
-- pattern, and what the marks and their trailing zeros say of the first match.
use Prim.Native.Nat.{bit_xor}
use native.Mathlib.Nat.{mul-zero, pow-suc}
use mmap_chunker_core.Base.{
  ℕ, zero, suc, ◌+◌, ◌-◌, ◌*◌, ◌/◌, ◌%◌, ◌^◌, ◌<◌, ◌≡◌, ◌≢◌, refl, sym, ap, ◌∙◌, arith, List, [],
  ◌∷◌, length, All, Option, none, some, ◌==◌, if◌then◌else◌, Bool-cases, ==_iff, inl, inr,
}
use mmap_chunker_core.Search.{position, shift}
use mmap_chunker_core.Bits.Digits.{bit_xor_byte, bit_xor-lt, bit_xor-eq-zero_iff}
use mmap_chunker_core.Bits.Zeros.{
  byte_power, low_ones, IsByte, le_value, zero_marks, trailing_zeros, zero_marks_byte,
  zero_marks_zero_byte, zero_marks_empty,
}

-- The bytes with the delimiter taken out of each.
abbrev pub xor_value : ℕ → List ℕ → ℕ
xor_value d [] = 0
xor_value d (b ∷ bs) = bit_xor b d + 256 * xor_value d bs

-- The exclusive or with the repeated delimiter acts byte by byte.
pub bit_xor_repeated :
    (d : ℕ) (bs : List ℕ)
    → IsByte d
    → All IsByte bs
    → bit_xor (le_value bs) (d * low_ones (length bs)) ≡ xor_value d bs
bit_xor_repeated d [] hd h = rw mul-zero
bit_xor_repeated d (b ∷ bs) hd h = ground (
  arith,
  bit_xor_byte b (le_value bs) d (d * low_ones (length bs)) h.0 hd,
  bit_xor_repeated d bs hd h.1,
)

xor_value-lt :
    (d : ℕ) (bs : List ℕ) → IsByte d → All IsByte bs → xor_value d bs < byte_power (length bs)
xor_value-lt d [] hd h = omega arith
xor_value-lt d (b ∷ bs) hd h = omega (arith, bit_xor-lt 8 b d h.0 hd, xor_value-lt d bs hd h.1)

-- A mark at byte `i`, whatever stands above it.
abbrev pub marked : ℕ → ℕ → ℕ
marked zero t = 128 + 256 * t
marked (suc i) t = 256 * marked i t

-- What the marks say of the offset of the first match.
abbrev pub Marks : ℕ → Option ℕ → Type 0
Marks v none = v ≡ 0
Marks v (some i) = (t : ℕ) × (v ≡ marked i t)

Marks-shift : (v : ℕ) (o : Option ℕ) → Marks v o → Marks (256 * v) (shift 1 o)
Marks-shift v none m = omega arith
Marks-shift v (some i) (t, e) =
    let s : 1 + i ≡ suc i = omega arith in
    (t, ap (λ (k : ℕ). 256 * k) e ∙ ap (λ k. marked k t) (sym s))

Marks-byte :
    (d b : ℕ) (bs : List ℕ)
    → IsByte d
    → All IsByte (b ∷ bs)
    → b ≢ d
    → Marks (zero_marks (length bs) (xor_value d bs)) (position d bs)
    → Marks (zero_marks (length (b ∷ bs)) (xor_value d (b ∷ bs))) (shift 1 (position d bs))
Marks-byte d b bs hd h ne m =
    rw
      (zero_marks_byte (length bs) (bit_xor b d) (xor_value d bs) (bit_xor-lt 8 b d h.0 hd)
        (λ z. ne ((bit_xor-eq-zero_iff b d).0 z)) (xor_value-lt d bs hd h.1))
      (Marks-shift (zero_marks (length bs) (xor_value d bs)) (position d bs) m)

Marks-match :
    (d b : ℕ) (bs : List ℕ)
    → IsByte d
    → All IsByte (b ∷ bs)
    → b ≡ d
    → Marks (zero_marks (length (b ∷ bs)) (xor_value d (b ∷ bs))) (some 0)
Marks-match d b bs hd h e =
    rw ((bit_xor-eq-zero_iff b d).1 e)
      (zero_marks_zero_byte (length bs) (xor_value d bs) (xor_value-lt d bs hd h.1))

-- The marks vanish exactly where the delimiter is missing, and else begin at its first byte.
pub zero_marks-Marks :
    (d : ℕ) (bs : List ℕ)
    → IsByte d
    → All IsByte bs
    → Marks (zero_marks (length bs) (xor_value d bs)) (position d bs)
unfolding position
zero_marks-Marks d [] hd h = zero_marks_empty
zero_marks-Marks d (b ∷ bs) hd h = elim (Bool-cases (b == d)) [
  | inl e ↦ rw e (Marks-match d b bs hd h ((==_iff b d).0 e))
  | inr e ↦ rw e (Marks-byte d b bs hd h (ground arith) (zero_marks-Marks d bs hd h.1))
]

trailing_zeros_double : (w y : ℕ) → trailing_zeros (suc w) (2 * y) ≡ suc (trailing_zeros w y)
unfolding trailing_zeros
trailing_zeros_double w y =
    let odd : 2 * y % 2 ≡ 0 = omega arith in
    let half : 2 * y / 2 ≡ y = omega arith in rw (odd, half)

trailing_zeros_odd : (w y : ℕ) → trailing_zeros (suc w) (1 + 2 * y) ≡ 0
unfolding trailing_zeros
trailing_zeros_odd w y = let odd : (1 + 2 * y) % 2 ≡ 1 = omega arith in rw odd

-- A factor 2 ^ j adds `j` trailing zeros.
trailing_zeros_pow : (j w y : ℕ) → trailing_zeros (j + w) (2 ^ j * y) ≡ j + trailing_zeros w y
trailing_zeros_pow zero w y = ground arith
trailing_zeros_pow (suc j) w y = ground (
  arith,
  trailing_zeros_double (j + w) (2 ^ j * y),
  trailing_zeros_pow j w y,
  ap (λ (t : ℕ). t * y) (pow-suc 2 j),
)

-- Within the width the trailing zeros of a mark tell its byte.
pub trailing_zeros-marked : (i w t : ℕ) → trailing_zeros (8 + (8 * i + w)) (marked i t) ≡ 8 * i + 7
trailing_zeros-marked zero w t =
    ground (arith, trailing_zeros_pow 7 (suc w) (1 + 2 * t), trailing_zeros_odd w t)
trailing_zeros-marked (suc i) w t =
    ground (arith, trailing_zeros_pow 8 (8 + (8 * i + w)) (marked i t), trailing_zeros-marked i w t)

marked_pos : (i t : ℕ) → 0 < marked i t
marked_pos zero t = omega arith
marked_pos (suc i) t = omega (arith, marked_pos i t)

-- Read back from a word of `n` bytes: no mark, or the byte where the delimiter first stands.
pub Marks-read :
    (n v : ℕ) (o : Option ℕ)
    → Marks v o
    → ((i : ℕ) → o ≡ some i → i < n)
    → (if v == 0 then none else some (trailing_zeros (8 * n) v / 8)) ≡ o
Marks-read n v none m lt = ground arith
Marks-read n v (some i) (t, e) lt =
    ground (arith, lt i refl, marked_pos i t, trailing_zeros-marked i (8 * n - 8 * i - 8) t)
