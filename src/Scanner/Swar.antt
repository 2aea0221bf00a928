-- ===== src/Scanner/Swar.antt =====
-- `find_byte_swar` of src/scanner.rs: a scalar prefix up to an aligned address, eight bytes at a time,
-- and a scalar tail.
pub mod Laws
use Prim.Native.Nat.{bit_and, bit_xor}
use mmap_chunker_core.Base.{
  ℕ, zero, suc, ◌+◌, ◌-◌, ◌*◌, ◌/◌, ◌%◌, min, List, length, Option, none, some, Run, done, panicked,
  out_of_fuel, ◌>>=◌, ◌==◌, leb, if◌then◌else◌, word, usize_max,
}
use mmap_chunker_core.Slice.{Slice, len, index, slice_range}
use mmap_chunker_core.Bits.Zeros.{le_value, wrapping_sub, trailing_zeros}

-- A loop returns with a hit, or leaves its index variable at the end.
pub data Scan : Type 0 where
  hit : ℕ → Scan
  upto : ℕ → Scan

-- The code after a loop runs unless the loop has returned.
abbrev pub and_then : Run Scan → (ℕ → Run Scan) → Run Scan
and_then m k = m >>= λ r. elim r [ hit j ↦ done (hit j) | upto i ↦ k i ]

abbrev pub lo : ℕ
lo = 0x0101010101010101

abbrev pub hi : ℕ
hi = 0x8080808080808080

-- `xored.wrapping_sub(lo) & !xored & hi`
unfoldable pub has_zero : ℕ → ℕ
has_zero xored = bit_and (bit_and (wrapping_sub word xored lo) (usize_max - xored)) hi

-- `try_into().unwrap()` to an array of eight bytes
abbrev pub to_array : List ℕ → Run (List ℕ)
to_array chunk = if length chunk == 8 then done chunk else panicked

module _ (haystack : Slice) (delimiter : ℕ) where
  -- The loops of phases 1 and 3, with the rounds left.
  unfoldable pub scalar_scan : ℕ → ℕ → Run Scan
  scalar_scan zero i = done (upto i)
  scalar_scan (suc left) i = do
    b ← index haystack i
    if b == delimiter then done (hit i) else scalar_scan left (i + 1)

  -- The loop of phase 2, on fuel.
  unfoldable pub word_scan : ℕ → ℕ → Run Scan
  word_scan zero i = out_of_fuel
  word_scan (suc fuel) i =
      let pattern = delimiter * lo % word in
      let body = do
        slice ← slice_range haystack i (i + 8)
        chunk ← to_array slice
        let marks = has_zero (bit_xor (le_value chunk) pattern)
        let rest = word_scan fuel (i + 8)
        if marks == 0 then rest else done (hit (i + trailing_zeros 64 marks / 8))
      in if leb (i + 8) (len haystack) then body else done (upto i)

  -- Phase 1, which an aligned address skips.
  unfoldable pub prefix_scan : Run Scan
  unfolding scalar_scan
  prefix_scan =
      let align = haystack.addr % 8 in
      if align == 0 then done (upto 0) else scalar_scan (min (8 - align) (len haystack)) 0

  unfoldable pub find_byte_swar : Run (Option ℕ)
  unfolding scalar_scan word_scan prefix_scan
  find_byte_swar = if len haystack == 0 then done none else (do
    r ←
        and_then prefix_scan
          (λ i. and_then (word_scan (suc (len haystack)) i) (λ j. scalar_scan (len haystack - j) j))
    elim r [ hit j ↦ done (some j) | upto i ↦ done none ])
