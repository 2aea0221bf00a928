-- ===== src/Scanner/Cursor.antt =====
-- The lazy cursors of src/scanner.rs, `ChunkCursor` and `PatternChunkCursor`.
pub mod Laws
use mmap_chunker_core.Base.{
  ℕ, zero, suc, ◌-◌, min, max, List, [], ◌∷◌, length, Option, none, some, Bool, Run, done, panicked,
  out_of_fuel, ◌>>=◌, ◌==◌, leb, if◌then◌else◌, saturating_add, add_usize,
}
use mmap_chunker_core.Slice.{Slice, len, slice_from, slice_range}
use mmap_chunker_core.Scanner.Swar.{find_byte_swar}
use mmap_chunker_core.Scanner.Pattern.{find_pattern_in_slice}

-- One record for the two cursors: their fields differ in the delimiter alone.
pub record Cursor (D : Type 0) : Type 0 where
  pub input : Slice
  pub chunk_size : ℕ
  pub delimiter : D
  pub position : ℕ

abbrev pub ChunkCursor : Type 0
ChunkCursor = Cursor ℕ

abbrev pub PatternChunkCursor : Type 0
PatternChunkCursor = Cursor (List ℕ)

unfoldable pub new : Slice → ℕ → ℕ → ChunkCursor
new input chunk_size delimiter = record {
  input = input;
  chunk_size = chunk_size;
  delimiter = delimiter;
  position = 0;
}

unfoldable pub new_pattern : Slice → ℕ → List ℕ → Run PatternChunkCursor
new_pattern input chunk_size delimiter =
    if length delimiter == 0
    then panicked
    else done
        (record { input = input; chunk_size = chunk_size; delimiter = delimiter; position = 0 })

unfoldable pub is_empty : {D : Type 0} → Cursor D → Bool
is_empty c = leb (len c.input) c.position

-- `(target + rel_pos + dlen).min(len)`, or the end of the data.
abbrev pub end_within : (len dlen target : ℕ) → Option ℕ → ℕ
end_within len dlen target none = len
end_within len dlen target (some rel_pos) = min (add_usize (add_usize target rel_pos) dlen) len

-- The `let end` of `next`: where the chunk at the position ends.
unfoldable pub next_end : ChunkCursor → Run ℕ
next_end c =
    let target = saturating_add c.position (max c.chunk_size 1) in
    let snapped = do
      remainder ← slice_from c.input target
      found ← find_byte_swar remainder c.delimiter
      done (end_within (len c.input) 1 target found)
    in if leb (len c.input) target then done (len c.input) else snapped

unfoldable pub next_pattern_end : PatternChunkCursor → Run ℕ
next_pattern_end c =
    let target = saturating_add c.position (max c.chunk_size 1) in
    let snapped = do
      remainder ← slice_from c.input target
      found ← find_pattern_in_slice remainder c.delimiter
      done (end_within (len c.input) (length c.delimiter) target found)
    in if leb (len c.input) target then done (len c.input) else snapped

-- `Iterator::next`: the chunk, if there is one left, and the cursor behind it.
unfoldable pub next : ChunkCursor → Run (Option (List ℕ) × ChunkCursor)
next c =
    let advance = do
      end ← next_end c
      chunk ← slice_range c.input c.position end
      done (some chunk, record c { position = end })
    in if leb (len c.input) c.position then done (none, c) else advance

unfoldable pub next_pattern : PatternChunkCursor → Run (Option (List ℕ) × PatternChunkCursor)
next_pattern c =
    let advance = do
      end ← next_pattern_end c
      chunk ← slice_range c.input c.position end
      done (some chunk, record c { position = end })
    in if leb (len c.input) c.position then done (none, c) else advance

-- `Iterator::size_hint`
unfoldable pub size_hint : {D : Type 0} → Cursor D → ℕ × Option ℕ
size_hint c =
    if leb (len c.input) c.position then (0, some 0) else (1, some (len c.input - c.position))

-- What a `for` loop or `collect` over a cursor takes from it: calls of `next` until it returns `None`,
-- on fuel.
module _ {D : Type 0} (step : Cursor D → Run (Option (List ℕ) × Cursor D)) where
  unfoldable pub collect : ℕ → Cursor D → Run (List (List ℕ))
  collect zero c = out_of_fuel
  collect (suc fuel) c = do
    (item, c') ← step c
    elim item [ none ↦ done [] | some chunk ↦ collect fuel c' >>= λ chunks. done (chunk ∷ chunks) ]
