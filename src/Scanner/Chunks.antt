-- ===== src/Scanner/Chunks.antt =====
-- `find_chunk_boundaries` and `find_chunk_boundaries_pattern` of src/scanner.rs.
pub mod Reference
pub mod Laws
use mmap_chunker_core.Base.{
  ℕ, zero, suc, max, List, [], ◌∷◌, length, Option, none, some, Run, done, panicked, out_of_fuel,
  ◌>>=◌, ◌==◌, ltb, leb, if◌then◌else◌, saturating_add, add_usize,
}
use mmap_chunker_core.Slice.{Slice, len, slice_from}
use mmap_chunker_core.Ranges.{Range}
use mmap_chunker_core.Scanner.Swar.{find_byte_swar}
use mmap_chunker_core.Scanner.Pattern.{find_pattern_in_slice}

-- The end of a chunk behind a delimiter that was found `rel_pos` bytes after `target`, or the end of
-- the data.
abbrev pub end_after : (len dlen target : ℕ) → Option ℕ → ℕ
end_after len dlen target none = len
end_after len dlen target (some rel_pos) =
    let end = add_usize (add_usize target rel_pos) dlen in if ltb len end then len else end

module _ (input : Slice) (step delimiter : ℕ) where
  -- The body of the loop up to the push: where the chunk that begins at `start` ends.
  unfoldable pub chunk_end : ℕ → Run ℕ
  chunk_end start =
      let end = saturating_add start step in
      let snapped = do
        remainder ← slice_from input end
        found ← find_byte_swar remainder delimiter
        done (end_after (len input) 1 end found)
      in if leb (len input) end then done (len input) else snapped

  -- The `while` loop, on fuel.
  unfoldable pub chunk_loop : ℕ → ℕ → Run (List Range)
  chunk_loop zero start = out_of_fuel
  chunk_loop (suc fuel) start =
      let body = do
        end ← chunk_end start
        chunks ← chunk_loop fuel end
        done ((start, end) ∷ chunks)
      in if ltb start (len input) then body else done []

unfoldable pub find_chunk_boundaries : Slice → ℕ → ℕ → Run (List Range)
unfolding chunk_end chunk_loop
find_chunk_boundaries input chunk_size delimiter =
    if len input == 0
    then done []
    else chunk_loop input (max chunk_size 1) delimiter (suc (len input)) 0

module _ (input : Slice) (step : ℕ) (delimiter : List ℕ) where
  unfoldable pub pattern_chunk_end : ℕ → Run ℕ
  pattern_chunk_end start =
      let end = saturating_add start step in
      let snapped = do
        remainder ← slice_from input end
        found ← find_pattern_in_slice remainder delimiter
        done (end_after (len input) (length delimiter) end found)
      in if leb (len input) end then done (len input) else snapped

  unfoldable pub pattern_chunk_loop : ℕ → ℕ → Run (List Range)
  pattern_chunk_loop zero start = out_of_fuel
  pattern_chunk_loop (suc fuel) start =
      let body = do
        end ← pattern_chunk_end start
        chunks ← pattern_chunk_loop fuel end
        done ((start, end) ∷ chunks)
      in if ltb start (len input) then body else done []

-- The assertion on the delimiter comes first.
unfoldable pub find_chunk_boundaries_pattern : Slice → ℕ → List ℕ → Run (List Range)
unfolding pattern_chunk_end pattern_chunk_loop
find_chunk_boundaries_pattern input chunk_size delimiter =
    if length delimiter == 0
    then panicked
    else if len input == 0
    then done []
    else pattern_chunk_loop input (max chunk_size 1) delimiter (suc (len input)) 0
