-- ===== src/Bits/Zeros.antt =====
-- The zero-byte test of `find_byte_swar`: `(x - lo) & !x & hi` marks the lowest zero byte of `x`, and
-- the count of trailing zeros finds the mark. Words of any number of bytes, lowest byte first.
use Prim.Native.Nat.{bit_and}
use native.Mathlib.Nat.{mod-eq_of_lt, mod-eq-sub-mod}
use mmap_chunker_core.Base.{
  Bool-cases, inl, inr, ℕ, zero, suc, ◌+◌, ◌-◌, ◌*◌, ◌/◌, ◌%◌, ◌≤◌, ◌<◌, ◌≡◌, refl, arith, ◌≢◌,
  Bool, true, ◌&&◌, ◌||◌, ltb, leb, List, [], ◌∷◌, length, All, ◌==◌, if◌then◌else◌,
}
use mmap_chunker_core.Bits.Digits.{bit_and_byte, bit_and-le}

-- 256 ^ k, 0x01…01 and 0x80…80 on `k` bytes.
abbrev pub byte_power : ℕ → ℕ
byte_power zero = 1
byte_power (suc k) = 256 * byte_power k

abbrev pub low_ones : ℕ → ℕ
low_ones zero = 0
low_ones (suc k) = 1 + 256 * low_ones k

abbrev pub high_ones : ℕ → ℕ
high_ones zero = 0
high_ones (suc k) = 128 + 256 * high_ones k

abbrev pub IsByte : ℕ → Type 0
IsByte b = b < 256

-- The number whose bytes are listed, lowest first: `from_le_bytes`.
abbrev pub le_value : List ℕ → ℕ
le_value [] = 0
le_value (b ∷ bs) = b + 256 * le_value bs

-- `x.wrapping_sub(o)` on numbers below `m`.
unfoldable pub wrapping_sub : ℕ → ℕ → ℕ → ℕ
wrapping_sub m x o = (x + m - o) % m

-- `x.wrapping_sub(lo) & !x & hi` on words of `k` bytes.
unfoldable pub zero_marks : ℕ → ℕ → ℕ
zero_marks k x =
    bit_and (bit_and (wrapping_sub (byte_power k) x (low_ones k)) (byte_power k - 1 - x))
      (high_ones k)

-- `u64::trailing_zeros`, with the width as fuel.
unfoldable pub trailing_zeros : ℕ → ℕ → ℕ
trailing_zeros zero x = 0
trailing_zeros (suc w) x = if x % 2 == 1 then 0 else suc (trailing_zeros w (x / 2))

marks_example :
    (zero_marks 8 0x4142004300444546 ≡ 0x0000800080000000)
    × (trailing_zeros 64 0x0000800080000000 / 8 ≡ 3)
unfolding zero_marks wrapping_sub trailing_zeros
marks_example = (refl, refl)

low_ones-lt : (k : ℕ) → low_ones k < byte_power k
low_ones-lt zero = omega arith
low_ones-lt (suc k) = omega (arith, low_ones-lt k)

pub le_value-lt : (bs : List ℕ) → All IsByte bs → le_value bs < byte_power (length bs)
le_value-lt [] h = omega arith
le_value-lt (b ∷ bs) h = omega (arith, h.0, le_value-lt bs h.1)

-- The wrapped difference without the remainder.
wrapping_sub_cases :
    (m x o : ℕ) → x < m → o ≤ m → wrapping_sub m x o ≡ (if leb o x then x - o else x + m - o)
unfolding wrapping_sub
wrapping_sub_cases m x o hx ho = ground (
  arith,
  mod-eq_of_lt {n = x + m - o} {m = m},
  mod-eq-sub-mod {n = x + m - o} {m = m},
  mod-eq_of_lt {n = x + m - o - m} {m = m},
)

-- The lowest byte of the wrapped difference, when that byte is not 0: no borrow goes up.
wrapping_sub_byte :
    (m b r o : ℕ)
    → b < 256
    → b ≢ 0
    → r < m
    → o < m
    → wrapping_sub (256 * m) (b + 256 * r) (1 + 256 * o) ≡ (b - 1) + 256 * wrapping_sub m r o
wrapping_sub_byte m b r o hb nz hr ho = ground (
  arith,
  wrapping_sub_cases (256 * m) (b + 256 * r) (1 + 256 * o) (omega arith) (omega arith),
  wrapping_sub_cases m r o (omega arith) (omega arith),
)

-- And when it is 0: it becomes 255.
wrapping_sub_zero_byte :
    (m r o : ℕ)
    → r < m
    → o < m
    → (t : ℕ) × (wrapping_sub (256 * m) (0 + 256 * r) (1 + 256 * o) ≡ 255 + 256 * t)
wrapping_sub_zero_byte m r o hr ho = (
  if ltb o r then r - o - 1 else r + m - o - 1,
  ground
      (arith, wrapping_sub_cases (256 * m) (0 + 256 * r) (1 + 256 * o) (omega arith) (omega arith)),
)

pub zero_marks_empty : zero_marks 0 0 ≡ 0
unfolding zero_marks wrapping_sub
zero_marks_empty = refl

abbrev byte_mark : ℕ → ℕ
byte_mark b = bit_and (bit_and (b - 1) (255 - b)) 128

-- Every one of the bytes from `b` on, `left` of them, is 0 or unmarked.
unmarked_from : ℕ → ℕ → Bool
unmarked_from zero b = true
unmarked_from (suc left) b = ((b == 0) || (byte_mark b == 0)) && unmarked_from left (suc b)

unmarked_from_get :
    (left start b : ℕ)
    → unmarked_from left start ≡ true
    → start ≤ b
    → b < start + left
    → ((b == 0) || (byte_mark b == 0)) ≡ true
unfolding unmarked_from
unmarked_from_get zero start b checked low high = absurd (omega arith)
unmarked_from_get (suc left) start b checked low high = elim (Bool-cases (b == start)) [
  | inl here ↦ ground arith
  | inr later ↦ unmarked_from_get left (suc start) b (ground arith) (ground arith) (omega arith)
]

byte_marks : unmarked_from 256 0 ≡ true
unfolding unmarked_from
byte_marks = refl

-- A byte that is not 0 gets no mark.
byte_mark_none : (b : ℕ) → b < 256 → b ≢ 0 → byte_mark b ≡ 0
byte_mark_none b h nz = ground (arith, unmarked_from_get 256 0 b byte_marks (omega arith) h)

not_byte :
    (m b r : ℕ) → b < 256 → r < m → 256 * m - 1 - (b + 256 * r) ≡ (255 - b) + 256 * (m - 1 - r)
not_byte m b r hb hr = omega arith

-- The marks of a byte and of those above it, apart.
bit_and_three :
    (b c w n h : ℕ)
    → b < 256
    → c < 256
    → bit_and (bit_and (b + 256 * w) (c + 256 * n)) (128 + 256 * h)
      ≡ bit_and (bit_and b c) 128 + 256 * bit_and (bit_and w n) h
bit_and_three b c w n h hb hc =
    rw (bit_and_byte b w c n hb hc)
      (bit_and_byte (bit_and b c) (bit_and w n) 128 h (omega (arith, bit_and-le b c)) (omega arith))

-- A byte that is not 0 does not disturb the marks above it.
pub zero_marks_byte :
    (k b r : ℕ)
    → b < 256
    → b ≢ 0
    → r < byte_power k
    → zero_marks (suc k) (b + 256 * r) ≡ 256 * zero_marks k r
unfolding zero_marks
zero_marks_byte k b r hb nz hr =
    rw
      (
        wrapping_sub_byte (byte_power k) b r (low_ones k) hb nz hr (low_ones-lt k),
        not_byte (byte_power k) b r hb hr,
        bit_and_three (b - 1) (255 - b) (wrapping_sub (byte_power k) r (low_ones k))
            (byte_power k - 1 - r) (high_ones k) (omega arith) (omega arith),
        byte_mark_none b hb nz,
      )
      (omega arith)

-- A zero byte is marked, whatever the bytes above it.
pub zero_marks_zero_byte :
    (k r : ℕ) → r < byte_power k → (t : ℕ) × (zero_marks (suc k) (0 + 256 * r) ≡ 128 + 256 * t)
unfolding zero_marks
zero_marks_zero_byte k r hr =
    let (w, e) = wrapping_sub_zero_byte (byte_power k) r (low_ones k) hr (low_ones-lt k) in
    let n : ℕ = byte_power k - 1 - r in
    (
      bit_and (bit_and w n) (high_ones k),
      rw
          (
            e,
            not_byte (byte_power k) 0 r (omega arith) hr,
            bit_and_three 255 255 w n (high_ones k) (omega arith) (omega arith),
          )
          refl,
    )
