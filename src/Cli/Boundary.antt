-- ===== src/Cli/Boundary.antt =====
-- The record boundary at or behind a target, with the search state that is kept for each source:
-- `next_record_boundary` and `next_record_boundary_pattern` of src/bin/mmap-chunker.rs.
pub mod Laws
use mmap_chunker_core.Base.{
  ℕ, zero, suc, ◌+◌, ◌-◌, min, max, List, length, drop, Bool, ◌&&◌, ◌||◌, Option, none, some, Run,
  done, ◌>>=◌, ◌==◌, ltb, leb, if◌then◌else◌, saturating_add,
}
use mmap_chunker_core.Slice.{Slice, len, index, slice_from, slice_range}
use mmap_chunker_core.Search.{starts_with, position}
use mmap_chunker_core.Scanner.Partition.{slices_equal}

pub record BoundarySearchState : Type 0 where
  pub scan_from : ℕ
  pub cached_boundary : Option ℕ

abbrev pub initial : BoundarySearchState
initial = record { scan_from = 0; cached_boundary = none }

-- The state behind a search that ended at a boundary.
abbrev pub settled : ℕ → BoundarySearchState
settled boundary = record { scan_from = boundary; cached_boundary = some boundary }

-- A cached boundary ahead of the target is the answer.
unfoldable pub cached_or {ℓ} : {A : Type ℓ} → BoundarySearchState → ℕ → (ℕ → A) → A → A
cached_or state target hit search = elim state.cached_boundary [
  | some cached ↦ if ltb target cached then hit cached else search
  | none ↦ search
]

-- `(offset..offset + rounds).find(test)`
unfoldable pub find_offset : (ℕ → Bool) → ℕ → ℕ → Option ℕ
find_offset test zero offset = none
find_offset test (suc rounds) offset =
    let rest = find_offset test rounds (offset + 1) in if test offset then some offset else rest

unfoldable pub find_first_pattern_from : List ℕ → List ℕ → Option ℕ
find_first_pattern_from haystack pattern =
    if length pattern == 0 || ltb (length haystack) (length pattern)
    then none
    else find_offset (λ offset. starts_with pattern (drop offset haystack))
        (length haystack - length pattern + 1) 0

module _ (input : Slice) (target : ℕ) where
  unfoldable pub next_record_boundary : ℕ → BoundarySearchState → Run (ℕ × BoundarySearchState)
  next_record_boundary delimiter state =
      let scan_from = max target state.scan_from in
      let accepted : ℕ × BoundarySearchState =
        (target, record { scan_from = scan_from; cached_boundary = some target }) in
      let forward = do
        remainder ← slice_from input scan_from
        boundary ← done (elim (position delimiter remainder.bytes) [
          | some relative ↦ min (saturating_add (saturating_add scan_from relative) 1) (len input)
          | none ↦ len input
        ])
        done (boundary, settled boundary)
      in let exact = do
        before ← index input (target - 1)
        if before == delimiter then done accepted else forward
        in cached_or state target (λ cached. done (cached, state))
          (if leb 1 target && leb target (len input) then exact else forward)

  unfoldable pub next_record_boundary_pattern :
      List ℕ → BoundarySearchState → Run (ℕ × BoundarySearchState)
  unfolding find_first_pattern_from
  next_record_boundary_pattern delimiter state =
      let dlen = length delimiter in
      let scan_from = max target state.scan_from in
      let accepted : ℕ × BoundarySearchState =
        (target, record { scan_from = scan_from; cached_boundary = some target }) in
      let searched = do
        remainder ← slice_from input scan_from
        done (elim (find_first_pattern_from remainder.bytes delimiter) [
          | some relative ↦
              min (saturating_add (saturating_add scan_from relative) dlen) (len input)
          | none ↦ len input
        ])
      in let forward = do
        boundary ← if leb (len input) scan_from then done (len input) else searched
        done (boundary, settled boundary)
        in let exact = do
          tail ← slice_range input (target - dlen) target
          if slices_equal tail delimiter then done accepted else forward
          in cached_or state target (λ cached. done (cached, state))
            (if leb dlen target && leb target (len input) then exact else forward)
