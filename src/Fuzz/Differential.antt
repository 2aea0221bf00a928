-- ===== src/Fuzz/Differential.antt =====
-- The oracles of fuzz/fuzz_targets/scanner_differential.rs, which look at every byte.
pub mod Oracles
pub mod Target
pub mod Laws
use mmap_chunker_core.Base.{
  ℕ, zero, suc, ◌+◌, ◌-◌, ◌%◌, max, min, List, [], ◌∷◌, length, Bool, false, ◌&&◌, ◌||◌, not,
  Option, none, some, Run, done, panicked, out_of_fuel, ◌>>=◌, unwrap, ◌==◌, ltb, leb,
  if◌then◌else◌, usize_max, saturating_add,
}
use mmap_chunker_core.Slice.{Slice, len, index, slice_from, slice_range}
use mmap_chunker_core.Ranges.{Range}
use mmap_chunker_core.Scanner.Chunks.{find_chunk_boundaries, find_chunk_boundaries_pattern}
use mmap_chunker_core.Scanner.Partition.{
  ideal_target, ranges_from, slices_equal, find_partition_boundaries,
}
use mmap_chunker_core.Fuzz.{assert, same_ranges, padded_word}

module _ (source : Slice) (delimiter : ℕ) where
  -- `while position < data.len() && data[position] != delimiter`, on fuel.
  unfoldable pub position_loop : ℕ → ℕ → Run ℕ
  position_loop zero position = out_of_fuel
  position_loop (suc fuel) position =
      let body = do
        b ← index source position
        if b == delimiter then done position else position_loop fuel (position + 1)
      in if ltb position (len source) then body else done position

  -- The end behind the position where the loop stops.
  unfoldable pub scalar_end : ℕ → Run ℕ
  unfolding position_loop
  scalar_end target = do
    position ← position_loop (suc (len source)) target
    done (min (saturating_add position 1) (len source))

  -- The outer `while` loop, on fuel.
  unfoldable pub scalar_single_loop : ℕ → ℕ → ℕ → Run (List Range)
  unfolding scalar_end
  scalar_single_loop step zero start = out_of_fuel
  scalar_single_loop step (suc fuel) start =
      let target = saturating_add start step in
      let body = do
        end ← (if leb (len source) target then done (len source) else scalar_end target)
        ranges ← scalar_single_loop step fuel end
        done ((start, end) ∷ ranges)
      in if ltb start (len source) then body else done []

  unfoldable pub scalar_single : ℕ → Run (List Range)
  unfolding scalar_single_loop
  scalar_single chunk_size = scalar_single_loop (max chunk_size 1) (suc (len source)) 0

  -- The loop over `1..n` of `scalar_partition` at `i`, with the rounds left. Its result is what it pushes.
  unfoldable pub scalar_cuts : ℕ → ℕ → ℕ → ℕ → Run (List ℕ)
  unfolding scalar_end
  scalar_cuts n zero i last_cut = done []
  scalar_cuts n (suc left) i last_cut =
      let target = ideal_target (len source) n i in
      let skip = scalar_cuts n left (i + 1) last_cut in
      let push = λ (cut : ℕ). (scalar_cuts n left (i + 1) cut >>= λ cuts. done (cut ∷ cuts)) in
      let forward = do
        cut ← scalar_end target
        if cut == len source then done (cut ∷ []) else push cut
      in let round = do
        before ← index source (target - 1)
        if before == delimiter then push target else forward
        in if leb target last_cut then skip else round

  -- The ranges between the cuts are made as in `ranges_from_boundaries`.
  unfoldable pub scalar_partition : ℕ → Run (List Range)
  unfolding scalar_cuts
  scalar_partition partitions =
      let n = min partitions (len source) in
      let planned = do cuts ← scalar_cuts n (n - 1) 1 0; done (ranges_from (len source) 0 cuts)
      in if len source == 0 || partitions == 0
        then done []
        else if partitions == 1
        then done ((0, len source) ∷ [])
        else planned

module _ (source : Slice) (pattern : List ℕ) where
  -- The loop over the candidates, on fuel. Without a `break` the boundary is the end of the data.
  unfoldable pub boundary_scan : ℕ → ℕ → Run ℕ
  boundary_scan zero candidate = out_of_fuel
  boundary_scan (suc fuel) candidate =
      let body = do
        there ← slice_range source candidate (candidate + length pattern)
        if slices_equal there pattern
            then done (candidate + length pattern)
            else boundary_scan fuel (candidate + 1)
      in if leb candidate (len source - length pattern) then body else done (len source)

  unfoldable pub scalar_pattern_loop : ℕ → ℕ → ℕ → Run (List Range)
  unfolding boundary_scan
  scalar_pattern_loop step zero start = out_of_fuel
  scalar_pattern_loop step (suc fuel) start =
      let target = saturating_add start step in
      let body = do
        end ←
            (if leb (len source) target
              then done (len source)
              else boundary_scan (suc (len source)) target)
        ranges ← scalar_pattern_loop step fuel end
        done ((start, end) ∷ ranges)
      in if ltb start (len source) then body else done []

  unfoldable pub scalar_pattern : ℕ → Run (List Range)
  unfolding scalar_pattern_loop
  scalar_pattern chunk_size =
      assert (not (length pattern == 0))
        (scalar_pattern_loop (max chunk_size 1) (suc (len source)) 0)
