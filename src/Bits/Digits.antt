-- ===== src/Bits/Digits.antt =====
-- `&` and `^` of numbers split into a high and a low part: they act on the parts.
use Prim.Native.Nat.{bit_and, bit_xor, digits, bitwise, bit_and-bitwise, bit_xor-bitwise, differ}
use native.Mathlib.Nat.{pow-suc, one-le-pow, le_refl}
use mmap_chunker_core.Base.{
  ℕ, zero, suc, ◌+◌, ◌-◌, ◌*◌, ◌/◌, ◌%◌, ◌^◌, ◌≤◌, ◌<◌, min, ◌≡◌, refl, sym, ap, ap₂, ◌∙◌, arith,
  ◌↔◌,
}

-- The native operations recurse on binary digits with fuel. More fuel than the number changes nothing.
module _ (z : ℕ → ℕ) (f : ℕ → ℕ → ℕ) where
  deeper : (fuel more x y : ℕ) → x ≤ fuel → fuel ≤ more → digits z f more x y ≡ digits z f fuel x y
  deeper zero zero x y small k = refl
  deeper zero (suc more) zero y small k = refl
  deeper zero (suc more) (suc x) y small k = absurd (omega arith)
  deeper (suc fuel) zero x y small k = absurd (omega arith)
  deeper (suc fuel) (suc more) zero y small k = refl
  deeper (suc fuel) (suc more) (suc x) y small k =
      ap (λ (high : ℕ). high * 2 + f (suc x % 2) (y % 2))
        (deeper fuel more (suc x / 2) (y / 2) (omega arith) (omega arith))

  low_digit :
      (x y : ℕ)
      → bitwise z f (suc x) y ≡ bitwise z f (suc x / 2) (y / 2) * 2 + f (suc x % 2) (y % 2)
  low_digit x y =
      ap (λ (high : ℕ). high * 2 + f (suc x % 2) (y % 2))
        (deeper (suc x / 2) x (suc x / 2) (y / 2) (le_refl _) (omega arith))

bit_xor_step : (x y : ℕ) → bit_xor x y ≡ bit_xor (x / 2) (y / 2) * 2 + differ (x % 2) (y % 2)
bit_xor_step zero y = simp bit_xor-bitwise (omega arith)
bit_xor_step (suc x) y = simp bit_xor-bitwise (low_digit (λ t. t) differ x y)

bit_and_step : (x y : ℕ) → bit_and x y ≡ bit_and (x / 2) (y / 2) * 2 + min (x % 2) (y % 2)
bit_and_step zero y = simp bit_and-bitwise (omega arith)
bit_and_step (suc x) y = simp bit_and-bitwise (low_digit (λ t. 0) min x y)

double_shift : (x k : ℕ) → 2 * (x * 2 ^ k) ≡ x * 2 ^ suc k
double_shift x k =
    let doubled : x * 2 ^ suc k ≡ x * (2 ^ k * 2) = ap (λ (p : ℕ). x * p) (pow-suc 2 k) in
    omega arith

-- An operation on digits acts on a high part and a low part of `k` digits apart.
module _ (op f : ℕ → ℕ → ℕ) (start : op 0 0 ≡ 0)
    (step : (a b : ℕ) → op a b ≡ op (a / 2) (b / 2) * 2 + f (a % 2) (b % 2)) where
  op_fields :
      (k q r p s : ℕ)
      → r < 2 ^ k
      → s < 2 ^ k
      → op (q * 2 ^ k + r) (p * 2 ^ k + s) ≡ op q p * 2 ^ k + op r s
  op_fields zero q r p s hr hs = ground (arith, start)
  op_fields (suc k) q r p s hr hs = ground (
    arith,
    step (q * 2 ^ suc k + r) (p * 2 ^ suc k + s),
    step r s,
    double_shift q k,
    double_shift p k,
    double_shift (op q p) k,
    op_fields k q (r / 2) p (s / 2) (omega (arith, pow-suc 2 k)) (omega (arith, pow-suc 2 k)),
  )

pub bit_and_byte :
    (r q s p : ℕ)
    → r < 256
    → s < 256
    → bit_and (r + 256 * q) (s + 256 * p) ≡ bit_and r s + 256 * bit_and q p
bit_and_byte r q s p hr hs = ground (arith, op_fields bit_and min refl bit_and_step 8 q r p s hr hs)

pub bit_xor_byte :
    (r q s p : ℕ)
    → r < 256
    → s < 256
    → bit_xor (r + 256 * q) (s + 256 * p) ≡ bit_xor r s + 256 * bit_xor q p
bit_xor_byte r q s p hr hs =
    ground (arith, op_fields bit_xor differ refl bit_xor_step 8 q r p s hr hs)

differ-lt : (x y : ℕ) → x < 2 → y < 2 → differ x y < 2
differ-lt zero y hx hy = hy
differ-lt (suc zero) zero hx hy = omega arith
differ-lt (suc zero) (suc zero) hx hy = omega arith
differ-lt (suc zero) (suc (suc y)) hx hy = absurd (omega arith)
differ-lt (suc (suc x)) y hx hy = absurd (omega arith)

differ-eq-zero : (x y : ℕ) → differ x y ≡ 0 → x ≡ y
differ-eq-zero zero y h = omega arith
differ-eq-zero (suc x) zero h = h
differ-eq-zero (suc x) (suc y) h = ap suc (differ-eq-zero x y h)

differ_self : (x : ℕ) → differ x x ≡ 0
differ_self zero = refl
differ_self (suc x) = differ_self x

bit_and-le_rounds : (rounds x y : ℕ) → x ≤ rounds → bit_and x y ≤ x
bit_and-le_rounds rounds zero y small = simp bit_and-bitwise (omega arith)
bit_and-le_rounds zero (suc x) y small = absurd (omega arith)
bit_and-le_rounds (suc rounds) (suc x) y small =
    omega
      (arith, bit_and_step (suc x) y, bit_and-le_rounds rounds (suc x / 2) (y / 2) (omega arith))

pub bit_and-le : (a b : ℕ) → bit_and a b ≤ a
bit_and-le a b = bit_and-le_rounds a a b (le_refl a)

pub bit_xor_self : (rounds x : ℕ) → x ≤ rounds → bit_xor x x ≡ 0
bit_xor_self zero x small = let e : x ≡ 0 = omega arith in ap (λ (y : ℕ). bit_xor y y) e
bit_xor_self (suc rounds) x small =
    omega (arith, bit_xor_step x x, differ_self (x % 2), bit_xor_self rounds (x / 2) (omega arith))

pub bit_xor-lt : (k a b : ℕ) → a < 2 ^ k → b < 2 ^ k → bit_xor a b < 2 ^ k
bit_xor-lt zero a b ha hb = ground (arith, bit_xor_self a a (le_refl a))
bit_xor-lt (suc k) a b ha hb = omega (
  arith,
  bit_xor_step a b,
  pow-suc 2 k,
  differ-lt (a % 2) (b % 2) (omega arith) (omega arith),
  bit_xor-lt k (a / 2) (b / 2) (omega (arith, pow-suc 2 k)) (omega (arith, pow-suc 2 k)),
)

eq_of_bit_xor_fuel : (n a b : ℕ) → a ≤ n → bit_xor a b ≡ 0 → a ≡ b
eq_of_bit_xor_fuel n zero b h e = sym (simp bit_xor-bitwise at e)
eq_of_bit_xor_fuel zero (suc a) b h e = absurd (omega arith)
eq_of_bit_xor_fuel (suc n) (suc a) b h e =
    let s : bit_xor (suc a) b ≡ bit_xor (suc a / 2) (b / 2) * 2 + differ (suc a % 2) (b % 2) =
      bit_xor_step (suc a) b in
    omega (
      arith,
      eq_of_bit_xor_fuel n (suc a / 2) (b / 2) (omega arith) (omega arith),
      differ-eq-zero (suc a % 2) (b % 2) (omega arith),
    )

-- Exclusive or is 0 exactly on equal numbers.
pub bit_xor-eq-zero_iff : (a b : ℕ) → (bit_xor a b ≡ 0) ↔ (a ≡ b)
bit_xor-eq-zero_iff a b = (
  eq_of_bit_xor_fuel a a b (le_refl a),
  λ e. ap (λ t. bit_xor a t) (sym e) ∙ bit_xor_self a a (le_refl a),
)

bit_and-zero_rounds : (rounds x : ℕ) → x ≤ rounds → bit_and x 0 ≡ 0
bit_and-zero_rounds zero x small = let e : x ≡ 0 = omega arith in ap (λ (y : ℕ). bit_and y 0) e
bit_and-zero_rounds (suc rounds) x small =
    omega (arith, bit_and_step x 0, bit_and-zero_rounds rounds (x / 2) (omega arith))

bit_and-zero : (x : ℕ) → bit_and x 0 ≡ 0
bit_and-zero x = bit_and-zero_rounds x x (le_refl x)

-- A mask of `k` ones keeps a number of `k` bits.
bit_and_full : (k a : ℕ) → a < 2 ^ k → bit_and a (2 ^ k - 1) ≡ a
bit_and_full zero a h = omega (arith, bit_and-zero a)
bit_and_full (suc k) a h =
    let half : (2 ^ suc k - 1) / 2 ≡ 2 ^ k - 1 = omega (arith, pow-suc 2 k, one-le-pow k 2) in
    omega (
      arith,
      bit_and_step a (2 ^ suc k - 1),
      pow-suc 2 k,
      one-le-pow k 2,
      ap (λ (t : ℕ). bit_and (a / 2) t) half,
      bit_and_full k (a / 2) (omega (arith, pow-suc 2 k)),
    )

-- A mask without its three lowest bits drops those bits.
pub bit_and_high : (k a : ℕ) → a < 2 ^ k * 8 → bit_and a (2 ^ k * 8 - 8) ≡ a / 8 * 8
bit_and_high k a h =
    let low : a / 8 * 2 ^ 3 + a % 8 ≡ a = omega arith in
    let mask : (2 ^ k - 1) * 2 ^ 3 + 0 ≡ 2 ^ k * 8 - 8 = omega (arith, one-le-pow k 2) in
    omega (
      arith,
      op_fields bit_and min refl bit_and_step 3 (a / 8) (a % 8) (2 ^ k - 1) 0 (omega arith)
          (omega arith),
      ap₂ bit_and low mask,
      bit_and-zero (a % 8),
      bit_and_full k (a / 8) (omega arith),
    )
