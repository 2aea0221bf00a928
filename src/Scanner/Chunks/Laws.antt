-- ===== src/Scanner/Chunks/Laws.antt =====
-- The two chunkers compute the reference chunks, without a panic and without an overflow.
use mmap_chunker_core.Base.{
  ℕ, zero, suc, ◌+◌, ◌≤◌, ◌<◌, ◌≡◌, refl, sym, ◌∙◌, arith, max, List, [], ◌∷◌, length, drop, All,
  All-drop, length-drop, Option, none, some, Bool-cases, inl, inr, leb, done, panicked, Returns,
  isize_max, add_usize_lem, saturating_add,
}
use mmap_chunker_core.Slice.{Slice, len, IsSlice, tail_at, slice_from_lem}
use mmap_chunker_core.Ranges.{Range, Covers}
use mmap_chunker_core.Search.{position, search}
use mmap_chunker_core.Search.Laws.{search-singleton, search_fits, position-lt}
use mmap_chunker_core.Bits.Zeros.{IsByte}
use mmap_chunker_core.Scanner.Swar.Laws.{find_byte_swar_lem}
use mmap_chunker_core.Scanner.Pattern.Laws.{find_pattern_in_slice_lem}
use mmap_chunker_core.Scanner.Chunks.{
  end_after, chunk_end, chunk_loop, find_chunk_boundaries, pattern_chunk_end, pattern_chunk_loop,
  find_chunk_boundaries_pattern,
}
use mmap_chunker_core.Scanner.Chunks.Reference.{
  snap, snap_bounds, chunks_empty, chunks, IsChunk, chunks-Covers, chunks-IsChunk,
}

-- What the program relies on of a delimiter pattern.
pub record IsDelimiter (p : List ℕ) : Type 0 where
  pub bytes : All IsByte p
  pub fits : length p ≤ isize_max
  pub nonempty : 0 < length p

-- Saturation does not change on which side of the end of the file a target falls.
pub target_cases :
    (s : Slice) (start step : ℕ)
    → len s ≤ isize_max
    → (leb (len s) (saturating_add start step) ≡ leb (len s) (start + step))
      × (start + step < len s → saturating_add start step ≡ start + step)
unfolding saturating_add
target_cases s start step h = (ground arith, λ k. omega arith)

-- Behind a delimiter found in the rest of the file nothing is cut off.
pub end_after_lem :
    (n p target : ℕ) (o : Option ℕ)
    → n ≤ isize_max
    → p ≤ isize_max
    → ((i : ℕ) → o ≡ some i → target + i + p ≤ n)
    → end_after n p target o ≡ elim o [ none ↦ n | some i ↦ target + i + p ]
end_after_lem n p target none hn hp fit = refl
end_after_lem n p target (some i) hn hp fit =
    ground (arith, fit i refl, add_usize_lem target i, add_usize_lem (target + i) p)

module _ (s : Slice) (step : ℕ) (ok : IsSlice s) where
  chunk_end-snap :
      (d start : ℕ) → IsByte d → chunk_end s step d start ≡ done (snap (d ∷ []) s.bytes step start)
  unfolding chunk_end snap
  chunk_end-snap d start byte = elim (Bool-cases (leb (len s) (start + step))) [
    | inl past ↦ ground (arith, target_cases s start step ok.fits)
    | inr inside ↦
        let from = start + step in
        let rest = drop from s.bytes in
        ground (
          arith,
          target_cases s start step ok.fits,
          slice_from_lem s from,
          find_byte_swar_lem (tail_at s from) d (All-drop IsByte from s.bytes ok.bytes) byte,
          search-singleton d rest,
          end_after_lem (len s) 1 from (position d rest) ok.fits (omega arith)
              (λ i e. omega (arith, position-lt d rest i e, length-drop from s.bytes)),
        )
  ]

  pattern_chunk_end-snap :
      (p : List ℕ) (start : ℕ)
      → IsDelimiter p
      → pattern_chunk_end s step p start ≡ done (snap p s.bytes step start)
  unfolding pattern_chunk_end snap
  pattern_chunk_end-snap p start del = elim (Bool-cases (leb (len s) (start + step))) [
    | inl past ↦ ground (arith, target_cases s start step ok.fits)
    | inr inside ↦
        let from = start + step in
        let rest = drop from s.bytes in
        ground (
          arith,
          target_cases s start step ok.fits,
          slice_from_lem s from,
          find_pattern_in_slice_lem (tail_at s from) p (All-drop IsByte from s.bytes ok.bytes)
              del.bytes,
          del.nonempty,
          end_after_lem (len s) (length p) from (search p rest) ok.fits del.fits
              (λ i e. omega (arith, search_fits p rest i e, length-drop from s.bytes)),
        )
  ]

  module _ (pos : 0 < step) where
    chunk_loop-chunks :
        (d fuel start : ℕ)
        → IsByte d
        → start ≤ len s
        → len s < start + fuel
        → chunk_loop s step d fuel start ≡ done (chunks (d ∷ []) s.bytes step fuel start)
    unfolding chunk_loop chunks
    chunk_loop-chunks d zero start byte h f = absurd (omega arith)
    chunk_loop-chunks d (suc fuel) start byte h f = ground (
      arith,
      chunk_end-snap d start byte,
      snap_bounds (d ∷ []) s.bytes step start pos,
      chunk_loop-chunks d fuel (snap (d ∷ []) s.bytes step start) byte,
    )

    pattern_chunk_loop-chunks :
        (p : List ℕ) (fuel start : ℕ)
        → IsDelimiter p
        → start ≤ len s
        → len s < start + fuel
        → pattern_chunk_loop s step p fuel start ≡ done (chunks p s.bytes step fuel start)
    unfolding pattern_chunk_loop chunks
    pattern_chunk_loop-chunks p zero start del h f = absurd (omega arith)
    pattern_chunk_loop-chunks p (suc fuel) start del h f = ground (
      arith,
      pattern_chunk_end-snap p start del,
      snap_bounds p s.bytes step start pos,
      pattern_chunk_loop-chunks p fuel (snap p s.bytes step start) del,
    )

-- The chunks of a file at a chunk size, where 0 counts as 1.
abbrev pub chunks_of : List ℕ → ℕ → List ℕ → List Range
chunks_of p chunk_size xs = chunks p xs (max chunk_size 1) (suc (length xs)) 0

pub find_chunk_boundaries-chunks_of :
    (s : Slice) (chunk_size d : ℕ)
    → IsSlice s
    → IsByte d
    → find_chunk_boundaries s chunk_size d ≡ done (chunks_of (d ∷ []) chunk_size s.bytes)
unfolding find_chunk_boundaries
find_chunk_boundaries-chunks_of s chunk_size d ok byte = ground (
  arith,
  chunks_empty (d ∷ []) s.bytes (max chunk_size 1) (suc (len s)),
  chunk_loop-chunks s (max chunk_size 1) ok (omega arith) d (suc (len s)) 0 byte (omega arith)
      (omega arith),
)

pub find_chunk_boundaries_pattern-chunks_of :
    (s : Slice) (chunk_size : ℕ) (p : List ℕ)
    → IsSlice s
    → IsDelimiter p
    → find_chunk_boundaries_pattern s chunk_size p ≡ done (chunks_of p chunk_size s.bytes)
unfolding find_chunk_boundaries_pattern
find_chunk_boundaries_pattern-chunks_of s chunk_size p ok del = ground (
  arith,
  del.nonempty,
  chunks_empty p s.bytes (max chunk_size 1) (suc (len s)),
  pattern_chunk_loop-chunks s (max chunk_size 1) ok (omega arith) p (suc (len s)) 0 del
      (omega arith) (omega arith),
)

pub chunks_of-Covers :
    (p : List ℕ) (chunk_size : ℕ) (xs : List ℕ) → Covers 0 (length xs) (chunks_of p chunk_size xs)
chunks_of-Covers p chunk_size xs =
    chunks-Covers p xs (max chunk_size 1) (suc (length xs)) 0 (omega arith) (omega arith)
      (omega arith)

-- `find_chunk_boundaries` never panics and ends, on every slice, chunk size and delimiter byte. Its
-- ranges follow one another from 0 to the end of the data, none empty, and each ends behind the first
-- delimiter at or after its start plus the chunk size (0 counts as 1), or with the data where no
-- delimiter stands from there on.
pub find_chunk_boundaries_correct :
    (s : Slice) (chunk_size d : ℕ)
    → IsSlice s
    → IsByte d
    → Returns
        (find_chunk_boundaries s chunk_size d)
        (λ rs. Covers 0 (len s) rs × All (IsChunk (d ∷ []) s.bytes (max chunk_size 1)) rs)
find_chunk_boundaries_correct s chunk_size d ok byte =
    rw (find_chunk_boundaries-chunks_of s chunk_size d ok byte) (
      chunks_of-Covers (d ∷ []) chunk_size s.bytes,
      chunks-IsChunk (d ∷ []) s.bytes (max chunk_size 1) (suc (len s)) 0,
    )

-- `find_chunk_boundaries_pattern` never panics and ends, on every slice, chunk size and non-empty
-- delimiter pattern. Its ranges cover the data as those of `find_chunk_boundaries` do, and each ends
-- behind the first whole pattern at or after its start plus the chunk size (0 counts as 1), or with
-- the data where the pattern does not stand from there on.
pub find_chunk_boundaries_pattern_correct :
    (s : Slice) (chunk_size : ℕ) (p : List ℕ)
    → IsSlice s
    → IsDelimiter p
    → Returns
        (find_chunk_boundaries_pattern s chunk_size p)
        (λ rs. Covers 0 (len s) rs × All (IsChunk p s.bytes (max chunk_size 1)) rs)
find_chunk_boundaries_pattern_correct s chunk_size p ok del =
    rw (find_chunk_boundaries_pattern-chunks_of s chunk_size p ok del) (
      chunks_of-Covers p chunk_size s.bytes,
      chunks-IsChunk p s.bytes (max chunk_size 1) (suc (len s)) 0,
    )

pub IsDelimiter-singleton : (d : ℕ) → IsByte d → IsDelimiter (d ∷ [])
IsDelimiter-singleton d byte = record {
  bytes = (byte, tt);
  fits = omega arith;
  nonempty = omega arith;
}

-- With a pattern of one byte the pattern chunker returns what the byte chunker returns, and with an
-- empty pattern it panics.
pub find_chunk_boundaries_pattern-short :
    (s : Slice) (chunk_size d : ℕ)
    → IsSlice s
    → IsByte d
    → (find_chunk_boundaries_pattern s chunk_size (d ∷ []) ≡ find_chunk_boundaries s chunk_size d)
      × (find_chunk_boundaries_pattern s chunk_size [] ≡ panicked)
find_chunk_boundaries_pattern-short s chunk_size d ok byte = (
  find_chunk_boundaries_pattern-chunks_of s chunk_size (d ∷ []) ok (IsDelimiter-singleton d byte)
      ∙ sym (find_chunk_boundaries-chunks_of s chunk_size d ok byte),
  unfold find_chunk_boundaries_pattern in refl,
)
