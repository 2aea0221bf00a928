-- ===== src/Base/Words.antt =====
-- `usize` arithmetic on a 64-bit target: native numbers, with the wrap-around and the saturation
-- written out.
use Prim.Native.Nat.{ℕ, ◌+◌, ◌*◌, ◌%◌, ◌≤◌, ◌<◌, min}
use mathlib.Core.Path.{◌≡◌}
use native.Mathlib.Omega.{arith}

abbrev pub word : ℕ
word = 0x1_0000_0000_0000_0000

abbrev pub usize_max : ℕ
usize_max = 0xffff_ffff_ffff_ffff

-- No slice is longer: Rust guarantees it of every allocation.
abbrev pub isize_max : ℕ
isize_max = 0x7fff_ffff_ffff_ffff

-- `a + b`: it wraps in a release build, and panics in a debug build.
unfoldable pub add_usize : ℕ → ℕ → ℕ
add_usize a b = (a + b) % word

unfoldable pub saturating_add : ℕ → ℕ → ℕ
saturating_add a b = min (a + b) usize_max

unfoldable pub saturating_mul : ℕ → ℕ → ℕ
saturating_mul a b = min (a * b) usize_max

pub add_usize_lem : (a b : ℕ) → a + b < word → add_usize a b ≡ a + b
unfolding add_usize
add_usize_lem a b h = omega arith

-- Below a length that fits `usize` a saturated sum is the sum.
pub saturating_add_lem : (a b : ℕ) → a + b ≤ usize_max → saturating_add a b ≡ a + b
unfolding saturating_add
saturating_add_lem a b h = omega arith

pub saturating_add_max : (a b : ℕ) → usize_max < a + b → saturating_add a b ≡ usize_max
unfolding saturating_add
saturating_add_max a b h = omega arith
