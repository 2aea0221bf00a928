-- ===== src/Ffi/View.antt =====
-- `mmap_engine_get_chunk` beside `get_chunk` of the library.
use mmap_chunker_core.Base.{
  ℕ, ◌+◌, ◌-◌, ◌≤◌, ◌<◌, ◌≡◌, refl, ap, ◌∙◌, arith, List, take, drop, none, some, Bool-cases, done,
  Returns, get_elem?, get_elem?_lt, leb, inl, inr,
}
use mmap_chunker_core.Slice.{Slice, len}
use mmap_chunker_core.Ranges.{Range}
use mmap_chunker_core.Ranges.Laws.{Covers-get_elem?}
use mmap_chunker_core.Plan.{ChunkPlan, empty, count, range_at}
use mmap_chunker_core.Plan.Laws.{Plans}
use mmap_chunker_core.Chunker.{chunk_count, get_chunk}
use mmap_chunker_core.Chunker.Laws.{IsValid}
use mmap_chunker_core.Chunker.Correct.{get_chunk-part, get_chunk_cases}
use mmap_chunker_core.Ffi.{Message, index_out_of_bounds, report, cleared, Engine}
use mmap_chunker_core.Ffi.Entries.{CChunkView, mmap_engine_get_chunk}
use mmap_chunker_core.Ffi.Parity.{library, holding}

-- The bytes that a view of the map shows.
abbrev pub view_bytes : Slice → CChunkView → List ℕ
view_bytes s v = take v.len (drop (v.data_ptr - s.addr) s.bytes)

count_empty : (plan : ChunkPlan) → plan ≡ empty → count plan ≡ 0
unfolding count
count_empty plan e = rw e refl

module _ {FilePath : Type 0} (text : Message → List ℕ) where
  view_none :
      (engine : Engine FilePath) (buf : List ℕ) (i : ℕ)
      → count engine.plan ≤ i
      → mmap_engine_get_chunk text i (some tt) (holding engine buf)
        ≡ done (none, report text index_out_of_bounds (cleared text (holding engine buf)))
  unfolding mmap_engine_get_chunk
  view_none engine buf i h = ground arith

  view_some :
      (engine : Engine FilePath) (buf : List ℕ) (i start end : ℕ)
      → i < count engine.plan
      → range_at engine.plan i (len engine.mmap) ≡ some (start, end)
      → mmap_engine_get_chunk text i (some tt) (holding engine buf)
        ≡ done (
          some (record { data_ptr = engine.mmap.addr + start; len = end - start }),
          cleared text (holding engine buf),
        )
  unfolding mmap_engine_get_chunk
  view_some engine buf i start end h e = ground arith

  view_part :
      (engine : Engine FilePath) (rs : List Range) (i start end : ℕ)
      → Plans engine.plan (len engine.mmap) rs
      → get_elem? rs i ≡ some (start, end)
      → get_chunk (library engine) i
        ≡ done (
            some (
              view_bytes engine.mmap
                (record { data_ptr = engine.mmap.addr + start; len = end - start })))
  view_part engine rs i start end p e =
      let shift : start ≡ engine.mmap.addr + start - engine.mmap.addr = omega arith in
      get_chunk-part (library engine) rs i (start, end) p e
      ∙ ap (λ k. done (some (take (end - start) (drop k engine.mmap.bytes)))) shift

  -- `mmap_engine_get_chunk` on a valid engine shows the chunk that `get_chunk` of the library returns
  -- for the same map and plan, and fails where that returns none. It never panics, its view lies inside
  -- the map, and it leaves the engine alone.
  pub mmap_engine_get_chunk-get_chunk :
      (engine : Engine FilePath) (buf : List ℕ) (i : ℕ)
      → IsValid (library engine)
      → Returns (mmap_engine_get_chunk text i (some tt) (holding engine buf)) (λ (view, w').
        (get_chunk (library engine) i
          ≡ done (elim view [ none ↦ none | some v ↦ some (view_bytes engine.mmap v) ]))
        × (w'.handle ≡ some engine)
        × (elim view [
          | none ↦ count engine.plan ≤ i
          | some v ↦
              (engine.mmap.addr ≤ v.data_ptr)
              × (v.data_ptr + v.len ≤ engine.mmap.addr + len engine.mmap)
        ]))
  mmap_engine_get_chunk-get_chunk engine buf i v = elim (Bool-cases (leb (count engine.plan) i)) [
    | inl past ↦
        let (inside, outside) = get_chunk_cases (library engine) i v in
        rw (view_none engine buf i (ground arith))
          (unfold chunk_count in outside (ground arith), refl, ground arith)
    | inr before ↦ elim v.planned [
      | inl e ↦ absurd (ground (arith, count_empty engine.plan e))
      | inr (rs, p) ↦
          let ((start, end), e) = get_elem?_lt rs i (ground (arith, p.counted)) in
          let within = Covers-get_elem? 0 (len engine.mmap) rs i start end p.covers e in
          rw (view_some engine buf i start end (ground arith) (p.answers i ∙ e))
            (view_part engine rs i start end p e, refl, (omega arith, omega arith))
    ]
  ]
