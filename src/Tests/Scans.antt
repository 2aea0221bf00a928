-- ===== src/Tests/Scans.antt =====
-- The scanners on "a\nbb\nc" and on records that end in "\r\n".
use mmap_chunker_core.Base.{
  ℕ, List, [], ◌∷◌, length, ◌≤◌, ◌<◌, ◌≡◌, refl, arith, All, none, some, done, Returns, ◌↔◌, ◌+◌,
  ◌*◌, min, max, if◌then◌else◌, ltb, ◌==◌, add_usize, saturating_add, ◌>>=◌,
}
use mmap_chunker_core.Slice.{Slice, index, slice_from, slice_range, len, IsSlice}
use mmap_chunker_core.Bits.Zeros.{IsByte}
use mmap_chunker_core.Ranges.{Covers, parts, concat}
use mmap_chunker_core.Search.{starts_with, position, search}
use mmap_chunker_core.Scanner.Swar.{find_byte_swar}
use mmap_chunker_core.Scanner.Swar.Laws.{find_byte_swar_lem}
use mmap_chunker_core.Scanner.Pattern.{find_pattern_in_slice}
use mmap_chunker_core.Scanner.Pattern.Laws.{find_pattern_in_slice_lem}
use mmap_chunker_core.Scanner.Chunks.{find_chunk_boundaries, find_chunk_boundaries_pattern}
use mmap_chunker_core.Scanner.Chunks.Reference.{IsChunk}
use mmap_chunker_core.Scanner.Chunks.Laws.{
  IsDelimiter, find_chunk_boundaries_correct, find_chunk_boundaries_pattern_correct,
}
use mmap_chunker_core.Scanner.Cursor.{new, new_pattern, next, next_pattern, collect, size_hint}
use mmap_chunker_core.Scanner.Cursor.Laws.{
  cursor_at, ChunkCursor-find_chunk_boundaries, PatternChunkCursor-find_chunk_boundaries_pattern,
  size_hint_bounds,
}
use mmap_chunker_core.Scanner.Fixed.{fixed_chunk_count, fixed_chunk_bounds}
use mmap_chunker_core.Scanner.Fixed.Laws.{fixed_chunk_bounds-fixed_chunk_count}
use mmap_chunker_core.Scanner.Partition.{
  ideal_target, find_partition_boundaries, find_partition_boundaries_pattern,
}
use mmap_chunker_core.Scanner.Partition.Correct.{
  IsPartition, find_partition_boundaries_correct, find_partition_boundaries_pattern_correct,
}

-- Three records at an address that is not a multiple of 8.
abbrev pub lines : Slice
lines = record { addr = 5; bytes = 97 ∷ 10 ∷ 98 ∷ 98 ∷ 10 ∷ 99 ∷ [] }

abbrev pub crlf : Slice
crlf = record { addr = 8; bytes = 97 ∷ 13 ∷ 10 ∷ 98 ∷ 13 ∷ 10 ∷ 99 ∷ [] }

abbrev pub eol : List ℕ
eol = 13 ∷ 10 ∷ []

pub lines-IsSlice : IsSlice lines
lines-IsSlice = record {
  bytes =
      (omega arith, (omega arith, (omega arith, (omega arith, (omega arith, (omega arith, tt))))));
  fits = omega arith;
}

pub crlf-IsSlice : IsSlice crlf
crlf-IsSlice = record {
  bytes = (
    omega arith,
    (omega arith, (omega arith, (omega arith, (omega arith, (omega arith, (omega arith, tt)))))),
  );
  fits = omega arith;
}

pub eol-IsDelimiter : IsDelimiter eol
eol-IsDelimiter = record {
  bytes = (omega arith, (omega arith, tt));
  fits = omega arith;
  nonempty = omega arith;
}

newline-IsByte : IsByte 10
newline-IsByte = omega arith

find_byte_swar_test : find_byte_swar lines 99 ≡ done (some 5)
unfolding find_byte_swar index
find_byte_swar_test = refl

find_chunk_boundaries_test : find_chunk_boundaries lines 1 10 ≡ done ((0, 2) ∷ (2, 5) ∷ (5, 6) ∷ [])
unfolding find_chunk_boundaries saturating_add slice_from find_byte_swar index add_usize
find_chunk_boundaries_test = refl

find_chunk_boundaries_pattern_test :
    find_chunk_boundaries_pattern crlf 2 eol ≡ done ((0, 6) ∷ (6, 7) ∷ [])
unfolding find_chunk_boundaries_pattern saturating_add slice_from find_pattern_in_slice
    find_byte_swar index starts_with add_usize
find_chunk_boundaries_pattern_test = refl

find_partition_boundaries_test :
    find_partition_boundaries lines 3 10 ≡ done ((0, 2) ∷ (2, 5) ∷ (5, 6) ∷ [])
unfolding find_partition_boundaries ideal_target slice_from find_byte_swar index add_usize
find_partition_boundaries_test = refl

find_byte_swar_lem_example : find_byte_swar lines 99 ≡ done (position 99 lines.bytes)
find_byte_swar_lem_example = find_byte_swar_lem lines 99 lines-IsSlice.bytes (omega arith)

find_pattern_in_slice_lem_example :
    find_pattern_in_slice crlf eol ≡ done (if length eol == 0 then none else search eol crlf.bytes)
find_pattern_in_slice_lem_example =
    find_pattern_in_slice_lem crlf eol crlf-IsSlice.bytes eol-IsDelimiter.bytes

find_chunk_boundaries_correct_example :
    Returns
      (find_chunk_boundaries lines 1 10)
      (λ rs. Covers 0 (len lines) rs × All (IsChunk (10 ∷ []) lines.bytes (max 1 1)) rs)
find_chunk_boundaries_correct_example =
    find_chunk_boundaries_correct lines 1 10 lines-IsSlice newline-IsByte

find_chunk_boundaries_pattern_correct_example :
    Returns
      (find_chunk_boundaries_pattern crlf 2 eol)
      (λ rs. Covers 0 (len crlf) rs × All (IsChunk eol crlf.bytes (max 2 1)) rs)
find_chunk_boundaries_pattern_correct_example =
    find_chunk_boundaries_pattern_correct crlf 2 eol crlf-IsSlice eol-IsDelimiter

ChunkCursor-find_chunk_boundaries_example : Returns (find_chunk_boundaries lines 1 10) (λ rs.
    (collect next 7 (new lines 1 10) ≡ done (parts lines.bytes rs))
    × (concat (parts lines.bytes rs) ≡ lines.bytes))
ChunkCursor-find_chunk_boundaries_example =
    ChunkCursor-find_chunk_boundaries lines 1 10 lines-IsSlice newline-IsByte

PatternChunkCursor-find_chunk_boundaries_pattern_example :
    Returns (find_chunk_boundaries_pattern crlf 2 eol) (λ rs.
      ((new_pattern crlf 2 eol >>= collect next_pattern 8) ≡ done (parts crlf.bytes rs))
      × (concat (parts crlf.bytes rs) ≡ crlf.bytes))
PatternChunkCursor-find_chunk_boundaries_pattern_example =
    PatternChunkCursor-find_chunk_boundaries_pattern crlf 2 eol crlf-IsSlice eol-IsDelimiter

size_hint_bounds_example : Returns (collect next 7 (cursor_at lines 1 10 2)) (λ left.
    (upper : ℕ) × ((size_hint {D = ℕ} (cursor_at lines 1 10 2)).1 ≡ some upper)
    × ((size_hint {D = ℕ} (cursor_at lines 1 10 2)).0 ≤ length left)
    × (length left ≤ upper))
size_hint_bounds_example = size_hint_bounds lines 1 10 2 lines-IsSlice newline-IsByte (omega arith)

fixed_chunk_bounds-fixed_chunk_count_example :
    (fixed_chunk_bounds 10 4 2 ≡ (
      if ltb 2 (fixed_chunk_count 10 4)
      then some (2 * max 4 1, min (2 * max 4 1 + max 4 1) 10)
      else none))
    × ((2 < fixed_chunk_count 10 4) ↔ (2 * max 4 1 < 10))
fixed_chunk_bounds-fixed_chunk_count_example =
    fixed_chunk_bounds-fixed_chunk_count 10 4 2 (omega arith) (omega arith)

find_partition_boundaries_correct_example :
    Returns (find_partition_boundaries lines 3 10) (IsPartition (10 ∷ []) lines.bytes 3)
find_partition_boundaries_correct_example =
    find_partition_boundaries_correct lines 3 10 lines-IsSlice newline-IsByte

find_partition_boundaries_pattern_correct_example :
    Returns (find_partition_boundaries_pattern crlf 3 eol) (IsPartition eol crlf.bytes 3)
find_partition_boundaries_pattern_correct_example =
    find_partition_boundaries_pattern_correct crlf 3 eol crlf-IsSlice eol-IsDelimiter

-- The target 2 stands behind "\r\n", but the search from the target 1 has gone past it.
straddled_test :
    find_partition_boundaries_pattern (record { addr = 0; bytes = 13 ∷ 10 ∷ 97 ∷ 97 ∷ [] }) 4 eol
    ≡ done ((0, 4) ∷ [])
unfolding find_partition_boundaries_pattern find_pattern_in_slice ideal_target slice_from
    slice_range starts_with find_byte_swar index add_usize
straddled_test = refl
