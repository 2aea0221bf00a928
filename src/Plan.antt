-- ===== src/Plan.antt =====
-- src/plan.rs: the chunk plan that both surfaces keep, and its three constructors.
pub mod Laws
use mmap_chunker_core.Base.{
  ℕ, max, List, [], ◌∷◌, length, get_elem?, Option, none, some, ◌==◌, leb, if◌then◌else◌,
}
use mmap_chunker_core.Ranges.{Range}
use mmap_chunker_core.Scanner.Fixed.{fixed_chunk_count, fixed_chunk_bounds}

-- `fixed` holds the chunk size and the chunk count.
pub data ChunkPlan : Type 0 where
  empty : ChunkPlan
  ranges : List Range → ChunkPlan
  fixed : ℕ → ℕ → ChunkPlan

unfoldable pub from_ranges : List Range → ChunkPlan
from_ranges [] = empty
from_ranges (r ∷ rs) = ranges (r ∷ rs)

-- `ChunkPlan::fixed`
unfoldable pub plan_fixed : ℕ → ℕ → ChunkPlan
plan_fixed file_len chunk_size =
    let size = max chunk_size 1 in
    if file_len == 0 then empty else fixed size (fixed_chunk_count file_len size)

-- `ChunkPlan::len`
unfoldable pub count : ChunkPlan → ℕ
count empty = 0
count (ranges rs) = length rs
count (fixed chunk_size chunk_count) = chunk_count

unfoldable pub range_at : ChunkPlan → ℕ → ℕ → Option Range
range_at empty index source_len = none
range_at (ranges rs) index source_len = get_elem? rs index
range_at (fixed chunk_size chunk_count) index source_len =
    if leb chunk_count index then none else fixed_chunk_bounds source_len chunk_size index
