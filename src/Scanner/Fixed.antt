-- ===== src/Scanner/Fixed.antt =====
-- `fixed_chunk_count` and `fixed_chunk_bounds` of src/scanner.rs.
pub mod Laws
use mmap_chunker_core.Base.{
  ℕ, ◌+◌, ◌/◌, ◌%◌, max, Option, none, some, ◌==◌, ltb, leb, if◌then◌else◌, saturating_add,
  saturating_mul,
}
use mmap_chunker_core.Ranges.{Range}

-- `usize::div_ceil`
unfoldable pub div_ceil : ℕ → ℕ → ℕ
div_ceil a b = if ltb 0 (a % b) then a / b + 1 else a / b

unfoldable pub fixed_chunk_count : ℕ → ℕ → ℕ
fixed_chunk_count file_len chunk_size =
    if file_len == 0 then 0 else div_ceil file_len (max chunk_size 1)

unfoldable pub fixed_chunk_bounds : ℕ → ℕ → ℕ → Option Range
fixed_chunk_bounds file_len chunk_size index =
    let effective_size = max chunk_size 1 in
    let count = div_ceil file_len effective_size in
    let start = saturating_mul index effective_size in
    let raw_end = saturating_add start effective_size in
    let end = if ltb file_len raw_end then file_len else raw_end in
    if file_len == 0 then none else if leb count index then none else some (start, end)
