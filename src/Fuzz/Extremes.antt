-- ===== src/Fuzz/Extremes.antt =====
-- fuzz/fuzz_targets/fixed_extremes.rs: the fixed chunks beside an oracle in 128-bit arithmetic.
pub mod Laws
use mmap_chunker_core.Base.{
  ℕ, ◌+◌, ◌-◌, ◌*◌, ◌/◌, ◌%◌, ◌^◌, max, min, List, [], ◌∷◌, get_elem?, drop, Option, none, some,
  Run, done, ◌>>=◌, unwrap, ◌==◌, ltb, leb, if◌then◌else◌, word, usize_max, saturating_add,
}
use mmap_chunker_core.Ranges.{Range}
use mmap_chunker_core.Scanner.Fixed.{fixed_chunk_count, fixed_chunk_bounds}
use mmap_chunker_core.Fuzz.{assert, same_bounds, padded_word}

-- An offset behind the input reads as no bytes.
unfoldable pub read_usize : List ℕ → ℕ → ℕ
read_usize input offset = padded_word (drop offset input)

unfoldable pub oracle_count : ℕ → ℕ → ℕ
oracle_count file_len chunk_size =
    let size = max chunk_size 1 in
    if file_len == 0 then 0 else ((file_len + size) % 2 ^ 128 - 1) / size % word

unfoldable pub oracle_bounds : ℕ → ℕ → ℕ → Option Range
oracle_bounds file_len chunk_size index =
    let size = max chunk_size 1 in
    let start = index * size % 2 ^ 128 in
    let end = min ((start + size) % 2 ^ 128) file_len in
    if leb (oracle_count file_len chunk_size) index then none else some (start % word, end % word)

unfoldable pub assert_case : ℕ → ℕ → ℕ → Run (Unit {0})
assert_case file_len chunk_size index =
    let actual_count = fixed_chunk_count file_len chunk_size in
    let actual = fixed_chunk_bounds file_len chunk_size index in
    let last = (do
      bounds ← unwrap (fixed_chunk_bounds file_len chunk_size (actual_count - 1))
      assert (bounds.1 == file_len) (done tt)) in
    let behind =
      assert (same_bounds (fixed_chunk_bounds file_len chunk_size actual_count) none) last in
    let checked : Run (Unit {0}) = elim actual [
      | none ↦ behind
      | some (start, end) ↦ assert (ltb start end) (assert (leb end file_len) behind)
    ] in
    let empty = assert (actual_count == 0) (assert (same_bounds actual none) (done tt)) in
    assert (actual_count == oracle_count file_len chunk_size) (
      assert (same_bounds actual (oracle_bounds file_len chunk_size index))
        (if file_len == 0 then empty else checked))

-- `for x in list { body }`
unfoldable pub for_each : List ℕ → (ℕ → Run (Unit {0})) → Run (Unit {0})
for_each [] body = done tt
for_each (x ∷ xs) body = body x >>= λ u. for_each xs body

abbrev pub extremes : ℕ → List ℕ
extremes power =
    0 ∷ 1 ∷ usize_max ∷ (usize_max - 1) ∷ power ∷ (power - 1) ∷ saturating_add power 1 ∷ []

unfoldable pub fuzz_fixed_extremes : List ℕ → Run (Unit {0})
fuzz_fixed_extremes input =
    let file_len = read_usize input 0 in
    let chunk_size = read_usize input 8 in
    let index = read_usize input 16 in
    let first : ℕ = elim (get_elem? input 0) [ none ↦ 0 | some b ↦ b ] in
    let power = 2 ^ (first % 64) % word in
    assert_case file_len chunk_size index >>= λ u.
    for_each (extremes power)
      λ length. for_each (extremes power) λ size. assert_case length size index
