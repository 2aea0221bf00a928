-- ===== src/Cli/Logical.antt =====
-- The plan over several files as one logical dataset, of src/bin/mmap-chunker.rs: the prefix sums, the
-- loop over the targets, and the ranges of each worker. The loop is that of `plan_logical_partitions` and
-- of `plan_logical_partitions_sourced`, which differ in how a target is projected.
pub mod Reference
pub mod Intervals
pub mod Rounds
pub mod Projection
pub mod Mapped
pub mod Assembly
pub mod Rows
pub mod Correct
pub mod Single
use mmap_chunker_core.Base.{
  ℕ, zero, suc, ◌+◌, ◌-◌, ◌/◌, min, max, List, [], ◌∷◌, ◌++◌, length, get_elem?, Bool, false, ◌||◌,
  none, some, done, ok, unwrap, ◌==◌, leb, if◌then◌else◌, usize_max,
}
use mmap_chunker_core.Slice.{Slice, len}
use mmap_chunker_core.Cli.{
  Attempt, dataset_too_large, target_overflow, offset_too_large, no_source, no_state,
  before_first_source, length_underflow, ◌>>=◌, ok_or, returned, checked_add, checked_mul,
  try_usize, usize_to_u128,
}
use mmap_chunker_core.Cli.Boundary.{
  BoundarySearchState, initial, next_record_boundary, next_record_boundary_pattern,
}

pub record SourceRange : Type 0 where
  pub source_index : ℕ
  pub start : ℕ
  pub end_exclusive : ℕ
  pub length : ℕ

pub record WorkerAssignment : Type 0 where
  pub worker_index : ℕ
  pub ranges : List SourceRange

-- What the loop over the sources pushes behind the sum so far.
unfoldable pub push_prefixes : ℕ → List ℕ → Attempt (List ℕ)
push_prefixes previous [] = done (ok [])
push_prefixes previous (size ∷ sizes) = do
  n ← usize_to_u128 size
  next ← ok_or (checked_add previous n) dataset_too_large
  rest ← push_prefixes next sizes
  done (ok (next ∷ rest))

-- `*prefixes.last()`, of the prefixes that begin with `first`.
abbrev pub last : ℕ → List ℕ → ℕ
last first [] = first
last first (x ∷ xs) = last x xs

unfoldable pub logical_target : ℕ → ℕ → ℕ → Attempt ℕ
unfolding usize_to_u128
logical_target total partition effective_parts = do
  i ← usize_to_u128 partition
  product ← ok_or (checked_mul total i) target_overflow
  n ← usize_to_u128 effective_parts
  done (ok (product / n))

module _ {State : Type 0} (project : ℕ → State → Attempt (ℕ × State)) (total n : ℕ) where
  -- The loop over `1..n` at `partition`, with the rounds left.
  unfoldable pub cut_loop : ℕ → ℕ → ℕ → State → Attempt (List ℕ)
  unfolding logical_target
  cut_loop zero partition last_cut state = done (ok [])
  cut_loop (suc left) partition last_cut state =
      let skip = λ (state' : State). cut_loop left (partition + 1) last_cut state' in
      let push = λ (projected : ℕ) (state' : State). (do
        cut_points ← cut_loop left (partition + 1) projected state'
        done (ok (projected ∷ cut_points))) in
      let keep = λ (projected : ℕ) (state' : State).
        (if leb projected last_cut
          then skip state'
          else if projected == total
          then done (ok [])
          else push projected state') in
      logical_target total partition n >>= λ target.
      if leb target last_cut
      then skip state
      else project target state >>= λ (projected, state'). keep projected state'

module _ (start end : ℕ) (prefixes : List ℕ) where
  -- The loop over the sources from `source_index` on, with the sources left.
  unfoldable pub range_loop : ℕ → ℕ → Attempt (List SourceRange)
  range_loop zero source_index = done (ok [])
  range_loop (suc left) source_index =
      let rest = range_loop left (source_index + 1) in
      returned (unwrap (get_elem? prefixes source_index)) >>= λ source_start.
      returned (unwrap (get_elem? prefixes (source_index + 1))) >>= λ source_end.
      let range_start = max start source_start in
      let range_end = min end source_end in
      let push = do
        local_start ← ok_or (try_usize (range_start - source_start)) offset_too_large
        local_end ← ok_or (try_usize (range_end - source_start)) offset_too_large
        size ←
            ok_or (if leb local_start local_end then some (local_end - local_start) else none)
              length_underflow
        ranges ← rest
        done (
            ok (
              record {
                source_index = source_index;
                start = local_start;
                end_exclusive = local_end;
                length = size;
              }
              ∷ ranges))
      in if leb range_end range_start then rest else push

  unfoldable pub ranges_for_interval : ℕ → Attempt (List SourceRange)
  unfolding range_loop
  ranges_for_interval source_count =
      if leb end start then done (ok []) else range_loop source_count 0

-- The loop over the ends of the intervals. `worker` is the number of assignments so far.
unfoldable pub assign : List ℕ → ℕ → ℕ → ℕ → List ℕ → Attempt (List WorkerAssignment)
unfolding ranges_for_interval
assign prefixes source_count worker start [] = done (ok [])
assign prefixes source_count worker start (end ∷ ends) = do
  ranges ← ranges_for_interval start end prefixes source_count
  elim ranges [
    | [] ↦ assign prefixes source_count worker end ends
    | r ∷ rs ↦ do
      rest ← assign prefixes source_count (worker + 1) end ends
      done (ok (record { worker_index = worker; ranges = r ∷ rs } ∷ rest))
  ]

-- Both planners behind the sum of the sizes. `source_count` is the number of sources.
unfoldable pub plan_prefixes :
    {State : Type 0}
    → (ℕ → State → Attempt (ℕ × State))
    → State
    → List ℕ
    → ℕ
    → ℕ
    → ℕ
    → Attempt (List WorkerAssignment)
unfolding cut_loop assign
plan_prefixes project state prefixes total source_count requested_parts = do
  let n = min requested_parts (min total usize_max)
  cut_points ← cut_loop project total n (n - 1) 1 0 state
  assign prefixes source_count 0 0 (cut_points ++ total ∷ [])

-- Both planners, given the run that pushes the prefixes behind the first.
unfoldable pub plan_over :
    {State : Type 0}
    → (List ℕ → ℕ → State → Attempt (ℕ × State))
    → State
    → Attempt (List ℕ)
    → ℕ
    → ℕ
    → Attempt (List WorkerAssignment)
plan_over project state pushing source_count requested_parts =
    let planned = do
      pushed ← pushing
      let prefixes = 0 ∷ pushed
      let total = last 0 pushed
      let rest = plan_prefixes (project prefixes) state prefixes total source_count requested_parts
      if total == 0 then done (ok []) else rest
    in if requested_parts == 0 then done (ok []) else planned

-- `prefixes.binary_search(&target).is_ok()` and `partition_point`, of prefixes in order.
abbrev pub contains : ℕ → List ℕ → Bool
contains target [] = false
contains target (x ∷ xs) = x == target || contains target xs

abbrev pub partition_point : ℕ → List ℕ → ℕ
partition_point target [] = 0
partition_point target (x ∷ xs) = if leb x target then suc (partition_point target xs) else 0

abbrev pub map {ℓ κ} : {A : Type ℓ} {B : Type κ} → (A → B) → List A → List B
map f [] = []
map f (x ∷ xs) = f x ∷ map f xs

-- `states[i] = state`
abbrev pub put {ℓ} : {A : Type ℓ} → List A → ℕ → A → List A
put [] i a = []
put (x ∷ xs) zero a = a ∷ xs
put (x ∷ xs) (suc i) a = x ∷ put xs i a

-- The choice of the search by the length of the delimiter.
unfoldable pub local_boundary :
    List ℕ → Slice → ℕ → BoundarySearchState → Attempt (ℕ × BoundarySearchState)
local_boundary delimiter source local_target state =
    let single = do
      byte ← returned (unwrap (get_elem? delimiter 0))
      returned (next_record_boundary source local_target byte state)
    in if length delimiter == 1
      then single
      else returned (next_record_boundary_pattern source local_target delimiter state)

unfoldable pub project_logical_target :
    List Slice
    → List ℕ
    → List ℕ
    → ℕ
    → List BoundarySearchState
    → Attempt (ℕ × List BoundarySearchState)
unfolding usize_to_u128 local_boundary
project_logical_target sources delimiter prefixes target states =
    let inside = do
      source_index ←
          ok_or (elim (partition_point target prefixes) [ zero ↦ none | suc upper ↦ some upper ])
            before_first_source
      source_start ← returned (unwrap (get_elem? prefixes source_index))
      local_target ← ok_or (try_usize (target - source_start)) offset_too_large
      source ← ok_or (get_elem? sources source_index) no_source
      state ← ok_or (get_elem? states source_index) no_state
      (boundary, state') ← local_boundary delimiter source local_target state
      widened ← usize_to_u128 boundary
      done (ok (source_start + widened, put states source_index state'))
    in if contains target prefixes then done (ok (target, states)) else inside

unfoldable pub plan_logical_partitions : List Slice → ℕ → List ℕ → Attempt (List WorkerAssignment)
unfolding plan_over project_logical_target push_prefixes
plan_logical_partitions sources requested_parts delimiter =
    plan_over (project_logical_target sources delimiter) (map (λ source. initial) sources)
      (push_prefixes 0 (map len sources)) (length sources) requested_parts
