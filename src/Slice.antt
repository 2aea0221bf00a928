-- ===== src/Slice.antt =====
-- Rust slices of bytes: an address and the bytes that stand there. Indexing and slicing panic out of
-- range, as the language has it.
use mmap_chunker_core.Bits.Zeros.{IsByte}
use mmap_chunker_core.Base.{
  All, isize_max, ℕ, ◌+◌, ◌-◌, ◌≤◌, ◌≡◌, ◌&&◌, List, length, take, drop, get_elem?, Run, done,
  panicked, leb, le→leb, if◌then◌else◌, unwrap,
}

pub record Slice : Type 0 where
  pub addr : ℕ
  pub bytes : List ℕ

abbrev pub len : Slice → ℕ
len s = length s.bytes

-- The sub-slice in bounds: it stands `n` bytes further on.
abbrev pub tail_at : Slice → ℕ → Slice
tail_at s n = record { addr = s.addr + n; bytes = drop n s.bytes }

-- `s[i]`
unfoldable pub index : Slice → ℕ → Run ℕ
index s i = unwrap (get_elem? s.bytes i)

-- `s[n..]`
unfoldable pub slice_from : Slice → ℕ → Run Slice
slice_from s n = if leb n (len s) then done (tail_at s n) else panicked

-- `s[a..b]`
unfoldable pub slice_range : Slice → ℕ → ℕ → Run (List ℕ)
slice_range s a b =
    if leb a b && leb b (len s) then done (take (b - a) (drop a s.bytes)) else panicked

pub slice_from_lem : (s : Slice) (n : ℕ) → n ≤ len s → slice_from s n ≡ done (tail_at s n)
unfolding slice_from
slice_from_lem s n h = simp (le→leb n (len s) h)

pub slice_range_lem :
    (s : Slice) (a b : ℕ)
    → a ≤ b
    → b ≤ len s
    → slice_range s a b ≡ done (take (b - a) (drop a s.bytes))
unfolding slice_range
slice_range_lem s a b h k = simp (le→leb a b h, le→leb b (len s) k)

-- What Rust guarantees of a slice: its elements are bytes, and it is not longer than `isize::MAX`.
pub record IsSlice (s : Slice) : Type 0 where
  pub bytes : All IsByte s.bytes
  pub fits : len s ≤ isize_max
