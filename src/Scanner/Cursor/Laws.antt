-- ===== src/Scanner/Cursor/Laws.antt =====
-- The cursors yield the chunks of the eager chunkers.
use mmap_chunker_core.Base.{
  ℕ, zero, suc, ◌+◌, ◌-◌, ◌≤◌, ◌<◌, ◌≡◌, refl, ap, arith, max, List, [], ◌∷◌, length, drop,
  All-drop, length-drop, Option, none, some, Bool-cases, inl, inr, ltb, leb, if◌then◌else◌, ◌>>=◌,
  Run, done, Returns, isize_max, add_usize_lem,
}
use mmap_chunker_core.Slice.{Slice, len, IsSlice, tail_at, slice_from_lem, slice_range_lem}
use mmap_chunker_core.Ranges.{Range, Covers, part, parts, concat}
use mmap_chunker_core.Ranges.Laws.{concat-parts, Covers-length-le}
use mmap_chunker_core.Search.{position, search}
use mmap_chunker_core.Search.Laws.{search-singleton, search_fits, position-lt}
use mmap_chunker_core.Bits.Zeros.{IsByte}
use mmap_chunker_core.Scanner.Swar.Laws.{find_byte_swar_lem}
use mmap_chunker_core.Scanner.Pattern.Laws.{find_pattern_in_slice_lem}
use mmap_chunker_core.Scanner.Chunks.{find_chunk_boundaries, find_chunk_boundaries_pattern}
use mmap_chunker_core.Scanner.Chunks.Reference.{snap, snap_bounds, chunks, chunks-Covers}
use mmap_chunker_core.Scanner.Chunks.Laws.{
  IsDelimiter, target_cases, chunks_of, chunks_of-Covers, find_chunk_boundaries-chunks_of,
  find_chunk_boundaries_pattern-chunks_of,
}
use mmap_chunker_core.Scanner.Cursor.{
  Cursor, ChunkCursor, PatternChunkCursor, new, new_pattern, end_within, next_end, next_pattern_end,
  next, next_pattern, size_hint, collect,
}

end_within_lem :
    (n p target : ℕ) (o : Option ℕ)
    → n ≤ isize_max
    → p ≤ isize_max
    → ((i : ℕ) → o ≡ some i → target + i + p ≤ n)
    → end_within n p target o ≡ elim o [ none ↦ n | some i ↦ target + i + p ]
end_within_lem n p target none hn hp fit = refl
end_within_lem n p target (some i) hn hp fit =
    ground (arith, fit i refl, add_usize_lem target i, add_usize_lem (target + i) p)

next_end-snap :
    (c : ChunkCursor)
    → IsSlice c.input
    → IsByte c.delimiter
    → next_end c ≡ done (snap (c.delimiter ∷ []) c.input.bytes (max c.chunk_size 1) c.position)
unfolding next_end snap
next_end-snap c ok byte =
    let step = max c.chunk_size 1 in
    let from = c.position + step in
    let rest = drop from c.input.bytes in
    elim (Bool-cases (leb (len c.input) from)) [
      | inl past ↦ ground (arith, target_cases c.input c.position step ok.fits)
      | inr inside ↦ ground (
        arith,
        target_cases c.input c.position step ok.fits,
        slice_from_lem c.input from,
        find_byte_swar_lem (tail_at c.input from) c.delimiter
            (All-drop IsByte from c.input.bytes ok.bytes) byte,
        search-singleton c.delimiter rest,
        end_within_lem (len c.input) 1 from (position c.delimiter rest) ok.fits (omega arith)
            (λ i e.
              omega (arith, position-lt c.delimiter rest i e, length-drop from c.input.bytes)),
      )
    ]

next_pattern_end-snap :
    (c : PatternChunkCursor)
    → IsSlice c.input
    → IsDelimiter c.delimiter
    → next_pattern_end c ≡ done (snap c.delimiter c.input.bytes (max c.chunk_size 1) c.position)
unfolding next_pattern_end snap
next_pattern_end-snap c ok del =
    let step = max c.chunk_size 1 in
    let from = c.position + step in
    let rest = drop from c.input.bytes in
    elim (Bool-cases (leb (len c.input) from)) [
      | inl past ↦ ground (arith, target_cases c.input c.position step ok.fits)
      | inr inside ↦ ground (
        arith,
        target_cases c.input c.position step ok.fits,
        slice_from_lem c.input from,
        find_pattern_in_slice_lem (tail_at c.input from) c.delimiter
            (All-drop IsByte from c.input.bytes ok.bytes) del.bytes,
        del.nonempty,
        end_within_lem (len c.input) (length c.delimiter) from (search c.delimiter rest) ok.fits
            del.fits
            (λ i e.
              omega (arith, search_fits c.delimiter rest i e, length-drop from c.input.bytes)),
      )
    ]

-- What a step of a cursor with the delimiter pattern `p` does: the reference chunk, or the end.
abbrev advanced : {D : Type 0} → List ℕ → Cursor D → Option (List ℕ) × Cursor D
advanced p c =
    let xs = c.input.bytes in
    let end = snap p xs (max c.chunk_size 1) c.position in
    if ltb c.position (length xs)
    then (some (part xs (c.position, end)), record c { position = end })
    else (none, c)

next-advanced :
    (c : ChunkCursor)
    → IsSlice c.input
    → IsByte c.delimiter
    → next c ≡ done (advanced (c.delimiter ∷ []) c)
unfolding next
next-advanced c ok byte =
    let end = snap (c.delimiter ∷ []) c.input.bytes (max c.chunk_size 1) c.position in
    ground (
      arith,
      next_end-snap c ok byte,
      snap_bounds (c.delimiter ∷ []) c.input.bytes (max c.chunk_size 1) c.position,
      slice_range_lem c.input c.position end,
    )

next_pattern-advanced :
    (c : PatternChunkCursor)
    → IsSlice c.input
    → IsDelimiter c.delimiter
    → next_pattern c ≡ done (advanced c.delimiter c)
unfolding next_pattern
next_pattern-advanced c ok del =
    let end = snap c.delimiter c.input.bytes (max c.chunk_size 1) c.position in
    ground (
      arith,
      next_pattern_end-snap c ok del,
      snap_bounds c.delimiter c.input.bytes (max c.chunk_size 1) c.position,
      slice_range_lem c.input c.position end,
    )

abbrev pub cursor_at : {D : Type 0} → Slice → ℕ → D → ℕ → Cursor D
cursor_at input size d i = record { input = input; chunk_size = size; delimiter = d; position = i }

-- Iterating such a step from a cursor yields the parts of the reference chunks from its position on.
module _ {D : Type 0} (step : Cursor D → Run (Option (List ℕ) × Cursor D)) (p : List ℕ)
    (input : Slice) (size : ℕ) (d : D)
    (steps : (i : ℕ)
      → step (cursor_at input size d i) ≡ done (advanced p (cursor_at input size d i))) where
  collect-chunks :
      (fuel i : ℕ)
      → i ≤ len input
      → len input < i + fuel
      → collect step fuel (cursor_at input size d i)
        ≡ done (parts input.bytes (chunks p input.bytes (max size 1) fuel i))
  unfolding collect chunks
  collect-chunks zero i h f = absurd (omega arith)
  collect-chunks (suc fuel) i h f = ground (
    arith,
    steps i,
    snap_bounds p input.bytes (max size 1) i,
    collect-chunks fuel (snap p input.bytes (max size 1) i),
  )

collect-next :
    (s : Slice) (size d fuel i : ℕ)
    → IsSlice s
    → IsByte d
    → i ≤ len s
    → len s < i + fuel
    → collect next fuel (cursor_at s size d i)
      ≡ done (parts s.bytes (chunks (d ∷ []) s.bytes (max size 1) fuel i))
collect-next s size d fuel i ok byte h f =
    collect-chunks next (d ∷ []) s size d (λ j. next-advanced (cursor_at s size d j) ok byte) fuel i
      h f

-- Iterating a `ChunkCursor` over a slice never panics and ends within one call of `next` more than the
-- slice has bytes. It yields the parts of the slice that `find_chunk_boundaries` cuts out, in order,
-- and they concatenate to the whole slice.
pub ChunkCursor-find_chunk_boundaries :
    (s : Slice) (chunk_size d : ℕ)
    → IsSlice s
    → IsByte d
    → Returns (find_chunk_boundaries s chunk_size d) (λ rs.
      (collect next (suc (len s)) (new s chunk_size d) ≡ done (parts s.bytes rs))
      × (concat (parts s.bytes rs) ≡ s.bytes))
unfolding new
ChunkCursor-find_chunk_boundaries s chunk_size d ok byte =
    rw (find_chunk_boundaries-chunks_of s chunk_size d ok byte) (
      collect-next s chunk_size d (suc (len s)) 0 ok byte (omega arith) (omega arith),
      concat-parts s.bytes 0 (chunks_of (d ∷ []) chunk_size s.bytes)
          (chunks_of-Covers (d ∷ []) chunk_size s.bytes),
    )

-- Iterating a `PatternChunkCursor` over a slice never panics and ends within one call of `next` more
-- than the slice has bytes, for a non-empty pattern. It yields the parts of the slice that
-- `find_chunk_boundaries_pattern` cuts out, in order, and they concatenate to the whole slice.
pub PatternChunkCursor-find_chunk_boundaries_pattern :
    (s : Slice) (chunk_size : ℕ) (p : List ℕ)
    → IsSlice s
    → IsDelimiter p
    → Returns (find_chunk_boundaries_pattern s chunk_size p) (λ rs.
      ((new_pattern s chunk_size p >>= collect next_pattern (suc (len s)))
        ≡ done (parts s.bytes rs))
      × (concat (parts s.bytes rs) ≡ s.bytes))
unfolding new_pattern
PatternChunkCursor-find_chunk_boundaries_pattern s chunk_size p ok del =
    rw (find_chunk_boundaries_pattern-chunks_of s chunk_size p ok del) (
      ground (
        arith,
        del.nonempty,
        collect-chunks next_pattern p s chunk_size p
            (λ j. next_pattern-advanced (cursor_at s chunk_size p j) ok del) (suc (len s)) 0
            (omega arith) (omega arith),
      ),
      concat-parts s.bytes 0 (chunks_of p chunk_size s.bytes)
          (chunks_of-Covers p chunk_size s.bytes),
    )

length-parts : (xs : List ℕ) (rs : List Range) → length (parts xs rs) ≡ length rs
length-parts xs [] = refl
length-parts xs (r ∷ rs) = ap suc (length-parts xs rs)

chunks_pos :
    (p xs : List ℕ) (step fuel i : ℕ) → i < length xs → 0 < length (chunks p xs step (suc fuel) i)
unfolding chunks
chunks_pos p xs step fuel i h = ground arith

-- At every position of a `ChunkCursor` the two bounds of `size_hint` hold of the chunks that are left.
pub size_hint_bounds :
    (s : Slice) (chunk_size d i : ℕ)
    → IsSlice s
    → IsByte d
    → i ≤ len s
    → Returns (collect next (suc (len s)) (cursor_at s chunk_size d i)) (λ left.
      (upper : ℕ) × ((size_hint (cursor_at s chunk_size d i)).1 ≡ some upper)
      × ((size_hint (cursor_at s chunk_size d i)).0 ≤ length left)
      × (length left ≤ upper))
unfolding size_hint
size_hint_bounds s chunk_size d i ok byte h =
    let cs = chunks (d ∷ []) s.bytes (max chunk_size 1) (suc (len s)) i in
    let covers : Covers i (len s) cs =
      chunks-Covers (d ∷ []) s.bytes (max chunk_size 1) (suc (len s)) i (omega arith) h
        (omega arith) in
    rw (collect-next s chunk_size d (suc (len s)) i ok byte h (omega arith), length-parts)
      (
        len s - i,
        ground arith,
        ground (arith, chunks_pos (d ∷ []) s.bytes (max chunk_size 1) (len s) i),
        Covers-length-le i (len s) cs covers,
      )
