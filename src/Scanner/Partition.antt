-- ===== src/Scanner/Partition.antt =====
-- The record-aligned partition planners of src/scanner.rs.
pub mod Reference
pub mod Assembly
pub mod Rounds
pub mod Laws
pub mod Correct
use mmap_chunker_core.Base.{
  ℕ, zero, suc, ◌+◌, ◌-◌, ◌*◌, ◌/◌, ◌%◌, ◌^◌, min, List, [], ◌∷◌, length, Bool, true, false, ◌&&◌,
  ◌||◌, Option, none, some, Run, done, panicked, ◌>>=◌, unwrap, get_elem?, ◌==◌, ltb, leb,
  if◌then◌else◌, word, add_usize, saturating_add,
}
use mmap_chunker_core.Slice.{Slice, len, index, slice_from, slice_range}
use mmap_chunker_core.Ranges.{Range}
use mmap_chunker_core.Scanner.Swar.{find_byte_swar}
use mmap_chunker_core.Scanner.Pattern.{find_pattern_in_slice}

-- `((file_len as u128) * (i as u128) / (n as u128)) as usize`
unfoldable pub ideal_target : ℕ → ℕ → ℕ → ℕ
ideal_target file_len n i = file_len * i % 2 ^ 128 / n % word

-- The loop of `ranges_from_boundaries` over the cut points that are left.
unfoldable pub ranges_from : ℕ → ℕ → List ℕ → List Range
ranges_from file_len prev [] = if ltb prev file_len then (prev, file_len) ∷ [] else []
ranges_from file_len prev (boundary ∷ boundaries) =
    let rest = ranges_from file_len boundary boundaries in
    if ltb prev boundary then (prev, boundary) ∷ rest else rest

unfoldable pub ranges_from_boundaries : ℕ → List ℕ → List Range
unfolding ranges_from
ranges_from_boundaries file_len boundaries = ranges_from file_len 0 boundaries

-- `==` on byte slices
abbrev pub slices_equal : List ℕ → List ℕ → Bool
slices_equal [] [] = true
slices_equal [] (y ∷ ys) = false
slices_equal (x ∷ xs) [] = false
slices_equal (x ∷ xs) (y ∷ ys) = (x == y) && slices_equal xs ys

module _ (input : Slice) (n delimiter : ℕ) where
  -- The loop over `1..n` at `i`, with the rounds left. Its result is what the loop pushes.
  unfoldable pub boundary_loop : ℕ → ℕ → ℕ → Run (List ℕ)
  boundary_loop zero i last_boundary = done []
  boundary_loop (suc left) i last_boundary =
      let target = ideal_target (len input) n i in
      let skip = boundary_loop left (i + 1) last_boundary in
      let push = λ (boundary : ℕ).
        (boundary_loop left (i + 1) boundary >>= λ boundaries. done (boundary ∷ boundaries)) in
      let forward = do
        remainder ← slice_from input target
        found ← find_byte_swar remainder delimiter
        elim found [
          | some rel_pos ↦ push (min (add_usize (add_usize target rel_pos) 1) (len input))
          | none ↦ done (len input ∷ [])
        ]
      in let round = do
        before ← index input (target - 1)
        if before == delimiter then push target else forward
        in if leb target last_boundary then skip else round

unfoldable pub find_partition_boundaries : Slice → ℕ → ℕ → Run (List Range)
unfolding boundary_loop ranges_from_boundaries
find_partition_boundaries input num_partitions delimiter =
    let file_len = len input in
    let n = min num_partitions file_len in
    let planned = do
      boundaries ← boundary_loop input n delimiter (n - 1) 1 0
      done (ranges_from_boundaries file_len boundaries)
    in if file_len == 0 || num_partitions == 0
      then done []
      else if num_partitions == 1
      then done ((0, file_len) ∷ [])
      else planned

module _ (input : Slice) (n : ℕ) (delimiter : List ℕ) where
  unfoldable pub pattern_boundary_loop : ℕ → ℕ → ℕ → Run (List ℕ)
  pattern_boundary_loop zero i last_boundary = done []
  pattern_boundary_loop (suc left) i last_boundary =
      let target = ideal_target (len input) n i in
      let dlen = length delimiter in
      let skip = pattern_boundary_loop left (i + 1) last_boundary in
      let push = λ (boundary : ℕ).
        (pattern_boundary_loop left (i + 1) boundary >>= λ boundaries.
        done (boundary ∷ boundaries)) in
      let forward = do
        remainder ← slice_from input target
        found ← find_pattern_in_slice remainder delimiter
        elim found [
          | some rel_pos ↦
              push (min (saturating_add (saturating_add target rel_pos) dlen) (len input))
          | none ↦ done (len input ∷ [])
        ]
      in let exact = do
        tail ← slice_range input (target - dlen) target
        if slices_equal tail delimiter then push target else forward
        in if leb target last_boundary then skip else if leb dlen target then exact else forward

-- The assertion on the delimiter comes first; a pattern of one byte goes to the byte planner.
unfoldable pub find_partition_boundaries_pattern : Slice → ℕ → List ℕ → Run (List Range)
unfolding pattern_boundary_loop ranges_from_boundaries find_partition_boundaries
find_partition_boundaries_pattern input num_partitions delimiter =
    let file_len = len input in
    let n = min num_partitions file_len in
    let single = do
      byte ← unwrap (get_elem? delimiter 0)
      find_partition_boundaries input num_partitions byte
    in let planned = do
      boundaries ← pattern_boundary_loop input n delimiter (n - 1) 1 0
      done (ranges_from_boundaries file_len boundaries)
      in if length delimiter == 0
        then panicked
        else if length delimiter == 1
        then single
        else if file_len == 0 || num_partitions == 0
        then done []
        else if num_partitions == 1
        then done ((0, file_len) ∷ [])
        else planned
