-- ===== src/Scanner/Pattern/Laws.antt =====
-- `find_pattern_in_slice` returns the first offset at which the whole pattern stands.
use mmap_chunker_core.Base.{
  ℕ, zero, suc, ◌+◌, ◌-◌, ◌≤◌, ◌<◌, ◌≡◌, refl, arith, List, [], ◌∷◌, length, drop, length-drop,
  Option, none, some, Option-cases, Bool-cases, inl, inr, ltb, if◌then◌else◌, All, All-drop, Run,
  done, ◌==◌,
}
use mmap_chunker_core.Slice.{Slice, len, tail_at, slice_from_lem}
use mmap_chunker_core.Search.{starts_with, position, search}
use mmap_chunker_core.Search.Laws.{search-singleton, position-lt}
use mmap_chunker_core.Search.From.{
  search_from, search_from-zero, search_short, search_from_short, search_from_candidate,
  search_from_no_candidate, search_from_hit, search_from_miss,
}
use mmap_chunker_core.Bits.Zeros.{IsByte}
use mmap_chunker_core.Scanner.Swar.Laws.{find_byte_swar_lem}
use mmap_chunker_core.Scanner.Pattern.{candidate_loop, find_pattern_in_slice}

module _ (s : Slice) (d : ℕ) (ps : List ℕ) (bytes : All IsByte s.bytes) (byte : IsByte d) where
  abbrev max_search : ℕ
  max_search = len s - length (d ∷ ps)

  abbrev loop : ℕ → ℕ → Run (Option ℕ)
  loop fuel i = candidate_loop s (d ∷ ps) d max_search fuel i

  loop_stop : (fuel i : ℕ) → max_search < i → loop (suc fuel) i ≡ done none
  unfolding candidate_loop
  loop_stop fuel i h = ground arith

  loop_no_candidate :
      (fuel i : ℕ)
      → i ≤ max_search
      → position d (drop i s.bytes) ≡ none
      → loop (suc fuel) i ≡ done none
  unfolding candidate_loop
  loop_no_candidate fuel i h e = ground (
    arith,
    slice_from_lem s i (omega arith),
    find_byte_swar_lem (tail_at s i) d (All-drop IsByte i s.bytes bytes) byte,
  )

  -- A round with a candidate: it verifies it, and goes on behind it if it was false.
  loop_candidate :
      (fuel i r : ℕ)
      → i ≤ max_search
      → position d (drop i s.bytes) ≡ some r
      → loop (suc fuel) i ≡ (
          if ltb max_search (i + r)
          then done none
          else if starts_with (d ∷ ps) (drop (i + r) s.bytes)
          then done (some (i + r))
          else loop fuel (i + r + 1))
  unfolding candidate_loop
  loop_candidate fuel i r h e = ground (
    arith,
    slice_from_lem s i (omega arith),
    slice_from_lem s (i + r),
    find_byte_swar_lem (tail_at s i) d (All-drop IsByte i s.bytes bytes) byte,
  )

  loop-search_from :
      (fuel i : ℕ)
      → length (d ∷ ps) ≤ len s
      → i ≤ len s
      → len s < i + fuel
      → loop fuel i ≡ done (search_from (d ∷ ps) s.bytes i)
  loop-search_from zero i fits h f = absurd (omega arith)
  loop-search_from (suc fuel) i fits h f = elim (Bool-cases (ltb max_search i)) [
    | inl past ↦ ground (arith, loop_stop fuel i, search_from_short (d ∷ ps) s.bytes i h)
    | inr inside ↦ elim (Option-cases (position d (drop i s.bytes))) [
      | inl e ↦ ground (arith, loop_no_candidate fuel i, search_from_no_candidate d ps s.bytes i)
      | inr (r, e) ↦ ground (
        arith,
        loop_candidate fuel i r,
        search_from_candidate d ps s.bytes i r,
        position-lt d (drop i s.bytes) r e,
        length-drop i s.bytes,
        search_from_short (d ∷ ps) s.bytes (i + r),
        search_from_hit (d ∷ ps) s.bytes (i + r),
        search_from_miss (d ∷ ps) s.bytes (i + r),
        loop-search_from fuel (i + r + 1),
      )
    ]
  ]

-- `find_pattern_in_slice` never panics and ends, and returns the least offset at which the whole
-- pattern stands, or none where it stands nowhere or is empty. The bytes and those of the pattern
-- are below 256.
pub find_pattern_in_slice_lem :
    (s : Slice) (p : List ℕ)
    → All IsByte s.bytes
    → All IsByte p
    → find_pattern_in_slice s p ≡ done (if length p == 0 then none else search p s.bytes)
unfolding find_pattern_in_slice
find_pattern_in_slice_lem s [] bytes pattern = refl
find_pattern_in_slice_lem s (d ∷ []) bytes (byte, _) = ground (
  arith,
  find_byte_swar_lem s d bytes byte,
  search-singleton d s.bytes,
  search_short (d ∷ []) s.bytes,
)
find_pattern_in_slice_lem s (d ∷ e ∷ ps) bytes (byte, more) = ground (
  arith,
  search_short (d ∷ e ∷ ps) s.bytes,
  loop-search_from s d (e ∷ ps) bytes byte (suc (len s)) 0,
  search_from-zero (d ∷ e ∷ ps) s.bytes,
)
