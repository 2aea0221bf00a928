-- ===== src/Cli/Boundary/Laws.antt =====
-- Behind targets that have been searched the state changes no answer: the boundary is the reference cut.
use mmap_chunker_core.Base.{
  ℕ, zero, suc, ◌+◌, ◌-◌, ◌≤◌, ◌<◌, ◌≡◌, refl, arith, List, [], ◌∷◌, length, drop, length-drop,
  get_elem?_lt, some, Option-cases, inl, inr, le→ltb, done, saturating_add_lem, max,
}
use mmap_chunker_core.Slice.{Slice, len, IsSlice, index, slice_from_lem, slice_range_lem}
use mmap_chunker_core.Search.{starts_with, position, search}
use mmap_chunker_core.Search.Laws.{search-singleton, search_fits, position-lt}
use mmap_chunker_core.Search.From.{
  search_from, search_short, search_from_short, search_from-zero, search_from_hit, search_from_miss,
}
use mmap_chunker_core.Scanner.Partition.Reference.{ends_at, snap_cut}
use mmap_chunker_core.Scanner.Partition.Laws.{ends_at-singleton, slices_equal-take}
use mmap_chunker_core.Cli.Boundary.{
  BoundarySearchState, cached_or, settled, find_offset, find_first_pattern_from,
  next_record_boundary, next_record_boundary_pattern,
}

find_offset-search_from :
    (p xs : List ℕ) (rounds i : ℕ)
    → 0 < length p
    → length p ≤ length xs
    → i + rounds ≡ length xs - length p + 1
    → find_offset (λ offset. starts_with p (drop offset xs)) rounds i ≡ search_from p xs i
unfolding find_offset
find_offset-search_from p xs zero i pos fits h =
    ground (arith, search_from_short p xs i (omega arith) (omega arith))
find_offset-search_from p xs (suc rounds) i pos fits h = ground (
  arith,
  search_from_hit p xs i (omega arith),
  search_from_miss p xs i (omega arith),
  find_offset-search_from p xs rounds (i + 1) pos fits (omega arith),
)

-- The linear scan of the program finds what the search finds.
pub find_first_pattern_from-search :
    (p xs : List ℕ) → 0 < length p → find_first_pattern_from xs p ≡ search p xs
unfolding find_first_pattern_from
find_first_pattern_from-search p xs pos = ground (
  arith,
  search_short p xs,
  find_offset-search_from p xs (length xs - length p + 1) 0 pos,
  search_from-zero p xs,
)

-- No target that has been searched lies past this one.
abbrev pub IsBehind : BoundarySearchState → ℕ → Type 0
IsBehind state target =
    (state.scan_from ≤ target) × ((c : ℕ) → state.cached_boundary ≡ some c → c ≤ target)

pub cached_or-IsBehind {ℓ} :
    {A : Type ℓ} (state : BoundarySearchState) (t : ℕ) (hit : ℕ → A) (searched : A)
    → IsBehind state t
    → cached_or state t hit searched ≡ searched
unfolding cached_or
cached_or-IsBehind state t hit searched behind = elim (Option-cases state.cached_boundary) [
  | inl e ↦ rw e refl
  | inr (c, e) ↦ let past : c ≤ t = behind.1 c e in rw (e, le→ltb t c past) refl
]

module _ (s : Slice) (ok : IsSlice s) (t : ℕ) (state : BoundarySearchState)
    (behind : IsBehind state t) (inside : t < len s) where
  pub next_record_boundary_lem :
      (d : ℕ)
      → 0 < t
      → let b = snap_cut (d ∷ []) s.bytes t in
        next_record_boundary s t d state ≡ done (b, settled b)
  unfolding next_record_boundary snap_cut index
  next_record_boundary_lem d pos =
      let rest = drop t s.bytes in
      let (b, at) = get_elem?_lt s.bytes (t - 1) (omega arith) in
      let exact = ends_at-singleton d s.bytes t b pos at in
      let from : max t state.scan_from ≡ t = omega (arith, behind.0) in
      elim (Option-cases (position d rest)) [
        | inl e ↦
            rw (cached_or-IsBehind state t _ _ behind, from)
              (ground (arith, at, exact, slice_from_lem s t, search-singleton d rest))
        | inr (r, e) ↦
            rw (cached_or-IsBehind state t _ _ behind, from)
              (ground (
                arith,
                ok.fits,
                at,
                exact,
                slice_from_lem s t,
                search-singleton d rest,
                position-lt d rest r e,
                length-drop t s.bytes,
                saturating_add_lem t r,
                saturating_add_lem (t + r) 1,
              ))
      ]

  pub next_record_boundary_pattern_lem :
      (p : List ℕ)
      → 0 < length p
      → let b = snap_cut p s.bytes t in
        next_record_boundary_pattern s t p state ≡ done (b, settled b)
  unfolding next_record_boundary_pattern snap_cut ends_at
  next_record_boundary_pattern_lem p pos =
      let rest = drop t s.bytes in
      let from : max t state.scan_from ≡ t = omega (arith, behind.0) in
      let tail = slice_range_lem s (t - length p) t in
      let exact = slices_equal-take p (drop (t - length p) s.bytes) (t - (t - length p)) in
      let found = find_first_pattern_from-search p rest pos in
      elim (Option-cases (search p rest)) [
        | inl e ↦
            rw (cached_or-IsBehind state t _ _ behind, from)
              (ground
                (arith, tail, exact, length-drop (t - length p) s.bytes, slice_from_lem s t, found))
        | inr (r, e) ↦
            rw (cached_or-IsBehind state t _ _ behind, from)
              (ground (
                arith,
                ok.fits,
                tail,
                exact,
                length-drop (t - length p) s.bytes,
                slice_from_lem s t,
                found,
                search_fits p rest r e,
                length-drop t s.bytes,
                saturating_add_lem t r,
                saturating_add_lem (t + r) (length p),
              ))
      ]
