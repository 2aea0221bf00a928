-- ===== src/Cli/Emission.antt =====
-- The rows of `partition`, of src/bin/mmap-chunker.rs: those of the current plan of a handle, and those of
-- ranges. The rows are the result; a failure of the standard output is left out.
pub mod Laws
use mmap_chunker_core.Base.{
  ℕ, zero, suc, ◌+◌, ◌-◌, List, [], ◌∷◌, length, get_elem?, Option, none, some, Run, done, panicked,
  ◌>>=◌, unwrap, ltb, leb, if◌then◌else◌, usize_max,
}
use mmap_chunker_core.Slice.{len, slice_range}
use mmap_chunker_core.Ranges.{Range}
use mmap_chunker_core.Plan.{range_at}
use mmap_chunker_core.Chunker.{MmapChunker}

pub record Row : Type 0 where
  pub index : ℕ
  pub start : ℕ
  pub end_exclusive : ℕ
  pub length : ℕ

-- `i..i + n`
abbrev pub upto : ℕ → ℕ → List ℕ
upto i zero = []
upto i (suc n) = i ∷ upto (i + 1) n

-- The indices of all rows, or that of one worker if it has a row.
unfoldable pub indices : ℕ → Option ℕ → List ℕ
indices count none = upto 0 count
indices count (some index) = if ltb index count then index ∷ [] else []

-- The loop over the indices.
unfoldable pub collect : (ℕ → Run Row) → List ℕ → Run (List Row)
collect row [] = done []
collect row (index ∷ rest) = do r ← row index; rows ← collect row rest; done (r ∷ rows)

-- The chunk of `get_chunk` begins `start` bytes behind the first of the map.
unfoldable pub chunk_row : {FilePath : Type 0} → MmapChunker FilePath → ℕ → Run Row
chunk_row chunker index = do
  (start, end) ← unwrap (range_at chunker.plan index (len chunker.mmap))
  chunk ← slice_range chunker.mmap start end
  let sum = start + length chunk
  end_exclusive ← unwrap (if leb sum usize_max then some sum else none)
  done (record {
    index = index;
    start = start;
    end_exclusive = end_exclusive;
    length = length chunk;
  })

unfoldable pub emit_indexed_chunks :
    {FilePath : Type 0} → MmapChunker FilePath → ℕ → Option ℕ → Run (List Row)
emit_indexed_chunks chunker count worker = collect (chunk_row chunker) (indices count worker)

-- `ranges[index]`
unfoldable pub range_row : List Range → ℕ → Run Row
range_row ranges index = do
  (start, end) ← unwrap (get_elem? ranges index)
  done (record { index = index; start = start; end_exclusive = end; length = end - start })

unfoldable pub emit_ranges : List Range → Option ℕ → Run (List Row)
emit_ranges ranges worker = collect (range_row ranges) (indices (length ranges) worker)
