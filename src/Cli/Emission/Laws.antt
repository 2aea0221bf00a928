-- ===== src/Cli/Emission/Laws.antt =====
-- The rows of a plan are its ranges, numbered.
use mmap_chunker_core.Base.{
  ℕ, ◌+◌, ◌-◌, ◌≡◌, refl, sym, ap, ◌∙◌, arith, List, [], ◌∷◌, length, drop, drop-drop, length-take,
  length-drop, get_elem?, get_elem?-drop, get_elem?_congr, get_elem?_lt, get_elem?_ge, Option, none,
  some, Bool-cases, inl, inr, Run, done, ltb,
}
use mmap_chunker_core.Slice.{len, IsSlice, slice_range_lem}
use mmap_chunker_core.Ranges.{Range}
use mmap_chunker_core.Ranges.Laws.{Covers-get_elem?}
use mmap_chunker_core.Plan.Laws.{Plans}
use mmap_chunker_core.Chunker.{MmapChunker}
use mmap_chunker_core.Cli.Emission.{
  Row, upto, indices, collect, chunk_row, emit_indexed_chunks, range_row, emit_ranges,
}

abbrev pub row_of : ℕ → Range → Row
row_of i (start, end) = record {
  index = i;
  start = start;
  end_exclusive = end;
  length = end - start;
}

unfoldable pub rows_from : ℕ → List Range → List Row
rows_from i [] = []
rows_from i (r ∷ rs) = row_of i r ∷ rows_from (i + 1) rs

-- All rows, or that of one worker, if it has one.
unfoldable pub chosen_rows : List Range → Option ℕ → List Row
chosen_rows rs none = rows_from 0 rs
chosen_rows rs (some k) = elim (get_elem? rs k) [ none ↦ [] | some r ↦ row_of k r ∷ [] ]

module _ (row : ℕ → Run Row) (all : List Range)
    (gives : (i : ℕ) (r : Range) → get_elem? all i ≡ some r → row i ≡ done (row_of i r)) where
  collect-rows_from :
      (rs : List Range) (i : ℕ)
      → drop i all ≡ rs
      → collect row (upto i (length rs)) ≡ done (rows_from i rs)
  unfolding collect rows_from
  collect-rows_from [] i e = refl
  collect-rows_from (r ∷ rs) i e =
      let at : get_elem? all i ≡ some r =
        get_elem?_congr all i (i + 0) (omega arith)
        ∙ (sym (get_elem?-drop i 0 all) ∙ ap (λ ps. get_elem? ps 0) e) in
      rw (gives i r at, collect-rows_from rs (i + 1) (sym (drop-drop 1 i all) ∙ ap (drop 1) e)) refl

  collect-chosen_rows :
      (worker : Option ℕ)
      → collect row (indices (length all) worker) ≡ done (chosen_rows all worker)
  unfolding indices collect chosen_rows
  collect-chosen_rows none = collect-rows_from all 0 refl
  collect-chosen_rows (some k) = elim (Bool-cases (ltb k (length all))) [
    | inl inside ↦
        let (r, at) = get_elem?_lt all k (ground arith) in ground (arith, at, gives k r at)
    | inr outside ↦ ground (arith, get_elem?_ge all k)
  ]

pub emit_ranges-chosen_rows :
    (rs : List Range) (worker : Option ℕ) → emit_ranges rs worker ≡ done (chosen_rows rs worker)
unfolding emit_ranges range_row
emit_ranges-chosen_rows rs worker =
    collect-chosen_rows (range_row rs) rs (λ i r at. rw at refl) worker

-- On a handle whose plan covers its map with the ranges `rs`.
pub emit_indexed_chunks-chosen_rows :
    {FilePath : Type 0} (c : MmapChunker FilePath) (rs : List Range) (worker : Option ℕ)
    → IsSlice c.mmap
    → Plans c.plan (len c.mmap) rs
    → emit_indexed_chunks c (length rs) worker ≡ done (chosen_rows rs worker)
unfolding emit_indexed_chunks chunk_row
emit_indexed_chunks-chosen_rows c rs worker mapped plans =
    collect-chosen_rows (chunk_row c) rs (λ i r at. chunk i r at) worker
  where
    chunk : (i : ℕ) (r : Range) → get_elem? rs i ≡ some r → chunk_row c i ≡ done (row_of i r)
    chunk i (start, end) at =
        let (lo, lt, hi) = Covers-get_elem? 0 (len c.mmap) rs i start end plans.covers at in
        let size = length-take (end - start) (drop start c.mmap.bytes) in
        ground (
          arith,
          mapped.fits,
          plans.answers i,
          at,
          slice_range_lem c.mmap start end,
          size,
          length-drop start c.mmap.bytes,
        )
