-- ===== src/Scanner/Swar/Laws.antt =====
-- `find_byte_swar` returns the first offset of the delimiter, whatever the alignment.
use Prim.Native.Nat.{bit_xor}
use mmap_chunker_core.Base.{
  ℕ, zero, suc, ◌+◌, ◌-◌, ◌*◌, ◌/◌, ◌%◌, ◌≤◌, ◌<◌, ◌≡◌, refl, arith, min, List, length, take, drop,
  All, All-take, All-drop, Option, none, some, ◌==◌, if◌then◌else◌, Bool-cases, leb, inl, inr, Run,
  done, panicked, out_of_fuel, drop_all, Returns, get_elem?_lt, take_congr, length-take,
  length-drop, word, leb→le,
}
use mmap_chunker_core.Slice.{Slice, len, index, slice_range_lem}
use mmap_chunker_core.Search.{position}
use mmap_chunker_core.Search.Laws.{rest, rest_step, rest_block, position-lt, shift-zero}
use mmap_chunker_core.Bits.Zeros.{IsByte, le_value, zero_marks, wrapping_sub, trailing_zeros}
use mmap_chunker_core.Bits.Marks.{Marks, xor_value, bit_xor_repeated, zero_marks-Marks, Marks-read}
use mmap_chunker_core.Scanner.Swar.{
  Scan, hit, upto, and_then, has_zero, lo, scalar_scan, word_scan, prefix_scan, find_byte_swar,
}

-- Eight bytes at once: the marks say where the delimiter first stands among them.
word_block :
    (d : ℕ) (chunk : List ℕ)
    → IsByte d
    → All IsByte chunk
    → length chunk ≡ 8
    → let marks = has_zero (bit_xor (le_value chunk) (d * lo % word)) in
      (if marks == 0 then none else some (trailing_zeros 64 marks / 8)) ≡ position d chunk
unfolding has_zero wrapping_sub zero_marks
word_block d chunk hd h e =
    let small : d * lo % word ≡ d * lo = omega arith in
    let repeated : bit_xor (le_value chunk) (d * lo) ≡ xor_value d chunk =
      rw e at (bit_xor_repeated d chunk hd h) in
    let marks : Marks (zero_marks 8 (xor_value d chunk)) (position d chunk) =
      rw e at (zero_marks-Marks d chunk hd h) in
    rw (small, repeated)
      (Marks-read 8 (zero_marks 8 (xor_value d chunk)) (position d chunk) marks
        (λ i f. omega (arith, position-lt d chunk i f)))

module _ (s : Slice) (d : ℕ) where
  abbrev found : ℕ → Option ℕ
  found i = rest d s.bytes i

  -- A scan from `i` finds what the search from `i` finds, or leaves it for the index where it ends.
  abbrev Agrees : ℕ → Scan → Type 0
  Agrees i (hit j) = found i ≡ some j
  Agrees i (upto k) = (k ≤ len s) × (found i ≡ found k)

  -- The last scan leaves nothing to find.
  abbrev Settles : ℕ → Scan → Type 0
  Settles i (hit j) = found i ≡ some j
  Settles i (upto k) = found i ≡ none

  and_then-Settles :
      (i : ℕ) (m : Run Scan) (f : ℕ → Run Scan)
      → Returns m (Agrees i)
      → ((k : ℕ) → k ≤ len s → Returns (f k) (Settles k))
      → Returns (and_then m f) (Settles i)
  and_then-Settles i (done (hit j)) f h g = h
  and_then-Settles i (done (upto k)) f h g = ground (arith, g k h.0)
  and_then-Settles i panicked f h g = h
  and_then-Settles i out_of_fuel f h g = h

  found_end : found (len s) ≡ none
  unfolding position
  found_end = rw (drop_all s.bytes (len s) (omega arith))

  scalar_scan-Agrees :
      (left i last : ℕ)
      → i + left ≡ last
      → last ≤ len s
      → Returns
          (scalar_scan s d left i)
          (λ r. elim r [ hit j ↦ found i ≡ some j | upto k ↦ (k ≡ last) × (found i ≡ found k) ])
  unfolding scalar_scan index
  scalar_scan-Agrees zero i last e h = (omega arith, refl)
  scalar_scan-Agrees (suc left) i last e h =
      let (b, at) = get_elem?_lt s.bytes i (omega arith) in
      ground
        (arith, at, rest_step d s.bytes i at, scalar_scan-Agrees left (i + 1) last (omega arith) h)

  scalar_scan-Settles : (k : ℕ) → k ≤ len s → Returns (scalar_scan s d (len s - k) k) (Settles k)
  scalar_scan-Settles k h =
      ground
        (arith, scalar_scan-Agrees (len s - k) k (len s) (omega arith) (omega arith), found_end)

module _ (s : Slice) (d : ℕ) (bytes : All IsByte s.bytes) (byte : IsByte d) where
  -- A round of the word loop, read as a search of the next eight bytes.
  word_scan-suc :
      (fuel i : ℕ)
      → i + 8 ≤ len s
      → word_scan s d (suc fuel) i ≡ elim (position d (take 8 (drop i s.bytes))) [
        | none ↦ word_scan s d fuel (i + 8)
        | some j ↦ done (hit (i + j))
      ]
  unfolding word_scan
  word_scan-suc fuel i h =
      let chunk = take 8 (drop i s.bytes) in
      let eight : length chunk ≡ 8 =
        omega (arith, length-take 8 (drop i s.bytes), length-drop i s.bytes) in
      ground (
        arith,
        slice_range_lem s i (i + 8),
        take_congr (drop i s.bytes) (i + 8 - i) 8 (omega arith),
        eight,
        word_block d chunk byte
            (All-take IsByte 8 (drop i s.bytes) (All-drop IsByte i s.bytes bytes)) eight,
      )

  word_scan-Agrees :
      (fuel i : ℕ) → i ≤ len s → len s < i + fuel → Returns (word_scan s d fuel i) (Agrees s d i)
  word_scan-Agrees zero i h f = absurd (omega arith)
  word_scan-Agrees (suc fuel) i h f = elim (Bool-cases (leb (i + 8) (len s))) [
    | inr stop ↦ unfold word_scan in rw stop (h, refl)
    | inl more ↦
        let fits : i + 8 ≤ len s = leb→le (i + 8) (len s) more in
        ground (
          arith,
          word_scan-suc fuel i fits,
          rest_block d s.bytes i 8 fits,
          word_scan-Agrees fuel (i + 8) fits (omega arith),
        )
  ]

  prefix_scan-Agrees : Returns (prefix_scan s d) (Agrees s d 0)
  unfolding prefix_scan
  prefix_scan-Agrees =
      let last = min (8 - s.addr % 8) (len s) in
      ground (arith, scalar_scan-Agrees s d last 0 last (omega arith) (omega arith))

  scans-Settle :
      Returns
        (and_then
          (prefix_scan s d)
          (λ i. and_then (word_scan s d (suc (len s)) i) (λ j. scalar_scan s d (len s - j) j)))
        (Settles s d 0)
  scans-Settle = and_then-Settles s d 0 (prefix_scan s d) _ prefix_scan-Agrees λ i h.
      and_then-Settles s d i (word_scan s d (suc (len s)) i) _
        (word_scan-Agrees (suc (len s)) i h (omega arith)) (scalar_scan-Settles s d)

-- `find_byte_swar` never panics and ends, and returns the least offset at which the delimiter stands,
-- or none where it does not stand, at every address of the slice. The bytes and the delimiter are
-- below 256.
pub find_byte_swar_lem :
    (s : Slice) (d : ℕ)
    → All IsByte s.bytes
    → IsByte d
    → find_byte_swar s d ≡ done (position d s.bytes)
unfolding find_byte_swar
find_byte_swar_lem s d bytes byte =
    ground (arith, scans-Settle s d bytes byte, shift-zero (position d s.bytes), found_end s d)
