-- ===== src/Cli/Sourced.antt =====
-- The plan over several files that are opened one after another and read piece by piece, of
-- src/bin/mmap-chunker.rs. What the system answers about a path, its size and the source that is opened,
-- is an argument, and so is the length of the buffer. A buffer is the bytes that are filled in.
pub mod Search
pub mod Boundary
pub mod Answers
pub mod Projection
pub mod Correct
use mmap_chunker_core.Base.{
  ℕ, zero, suc, ◌+◌, ◌-◌, min, max, List, [], ◌∷◌, length, get_elem?, Bool, false, ◌&&◌, ◌||◌,
  Option, none, some, Run, done, out_of_fuel, Io, ok, err, ErrorKind, unwrap, ◌==◌, ltb, leb,
  if◌then◌else◌, saturating_add,
}
use mmap_chunker_core.Search.{position}
use mmap_chunker_core.Scanner.Partition.{slices_equal}
use mmap_chunker_core.Source.{ByteSource}
use mmap_chunker_core.Source.Read.{fill}
use mmap_chunker_core.Source.Planner.{
  SourceMode, mmap_mode, windowed_mode, pread_mode, PlannerOptions,
}
use mmap_chunker_core.Cli.{
  Attempt, dataset_too_large, offset_too_large, no_source, before_first_source, legacy_engine,
  failed_to_open, failed_to_read, source_length_changed, ◌>>=◌, ok_or, returned, map_err,
  checked_add, try_usize, usize_to_u128,
}
use mmap_chunker_core.Cli.Boundary.{
  BoundarySearchState, initial, settled, cached_or, find_first_pattern_from,
}
use mmap_chunker_core.Cli.Logical.{WorkerAssignment, contains, partition_point, plan_over}

module _ (source : ByteSource) where
  -- The buffer is the one that is filled; it has room for `want` bytes.
  unfoldable pub fill_from : ℕ → ℕ → Run (Io (List ℕ))
  fill_from offset want = fill source (suc want) offset want []

  module _ (buffer_len : ℕ) where
    -- A round of the `loop` for a delimiter of one byte; `next` is the rounds behind it.
    unfoldable pub byte_round : ℕ → (ℕ → Attempt ℕ) → ℕ → Attempt ℕ
    byte_round byte next offset =
        let file_len = source.len in
        let want = min buffer_len (file_len - offset) in
        let searched : List ℕ → Attempt ℕ = λ buffer.
          (let filled = length buffer in
            elim (position byte buffer) [
              | some relative ↦
                  done (ok (min (saturating_add (saturating_add offset relative) 1) file_len))
              | none ↦
                  if leb file_len (saturating_add offset filled)
                  then done (ok file_len)
                  else next (saturating_add offset filled)
            ]) in
        let round = do
          buffer ← map_err failed_to_read (fill_from offset want)
          if length buffer == 0 then done (ok file_len) else searched buffer
        in if leb file_len offset then done (ok file_len) else round

    -- The `loop`, on fuel.
    unfoldable pub byte_scan : ℕ → ℕ → ℕ → Attempt ℕ
    byte_scan byte zero offset = out_of_fuel
    byte_scan byte (suc fuel) offset = byte_round byte (byte_scan byte fuel) offset

    -- A round of the `loop` for a longer delimiter.
    unfoldable pub pattern_round : List ℕ → (ℕ → Attempt ℕ) → ℕ → Attempt ℕ
    pattern_round delimiter next offset =
        let file_len = source.len in
        let dlen = length delimiter in
        let want = min buffer_len (file_len - offset) in
        let searched : List ℕ → Attempt ℕ = λ buffer.
          (let filled = length buffer in
            let advance = max (filled - (dlen - 1)) 1 in
            let found =
              if leb dlen filled then find_first_pattern_from buffer delimiter else none in
            elim found [
              | some relative ↦
                  done (ok (min (saturating_add (saturating_add offset relative) dlen) file_len))
              | none ↦
                  if leb file_len (saturating_add offset filled)
                  then done (ok file_len)
                  else next (saturating_add offset advance)
            ]) in
        let round = do
          buffer ← map_err failed_to_read (fill_from offset want)
          if length buffer == 0 then done (ok file_len) else searched buffer
        in if leb file_len offset then done (ok file_len) else round

    unfoldable pub pattern_scan : List ℕ → ℕ → ℕ → Attempt ℕ
    pattern_scan delimiter zero offset = out_of_fuel
    pattern_scan delimiter (suc fuel) offset =
        pattern_round delimiter (pattern_scan delimiter fuel) offset

    -- The end of the search: the boundary is kept in the state.
    abbrev pub keep : Attempt ℕ → Attempt (ℕ × BoundarySearchState)
    keep scan = scan >>= λ boundary. done (ok (boundary, settled boundary))

    module _ (target : ℕ) (state : BoundarySearchState) where
      abbrev pub accept : ℕ × BoundarySearchState
      accept =
          (target, record { scan_from = max target state.scan_from; cached_boundary = some target })

      unfoldable pub byte_boundary_sourced : ℕ → Attempt (ℕ × BoundarySearchState)
      byte_boundary_sourced byte =
          let forward = keep (byte_scan byte (suc source.len) (max target state.scan_from)) in
          let exact = do
            buffer ← map_err failed_to_read (fill_from (target - 1) 1)
            let matches : Bool = elim buffer [ [] ↦ false | b ∷ bs ↦ b == byte ]
            if length buffer == 1 && matches then done (ok accept) else forward
          in if leb 1 target && leb target source.len then exact else forward

      unfoldable pub pattern_boundary_sourced : List ℕ → Attempt (ℕ × BoundarySearchState)
      pattern_boundary_sourced delimiter =
          let dlen = length delimiter in
          let forward =
            keep (pattern_scan delimiter (suc source.len) (max target state.scan_from)) in
          let exact = do
            buffer ← map_err failed_to_read (fill_from (target - dlen) dlen)
            let matches = slices_equal buffer delimiter
            if length buffer == dlen && matches then done (ok accept) else forward
          in if leb dlen target && leb target source.len then exact else forward

      unfoldable pub next_record_boundary_sourced : List ℕ → Attempt (ℕ × BoundarySearchState)
      next_record_boundary_sourced delimiter =
          let single = (do
            byte ← returned (unwrap (get_elem? delimiter 0))
            byte_boundary_sourced byte) in
          cached_or state target (λ cached. done (ok (cached, state)))
            (if length delimiter == 1 then single else pattern_boundary_sourced delimiter)

-- What the first phase pushes behind the sum so far: the sizes that `stat` tells.
unfoldable pub stat_prefixes :
    {FilePath : Type 0} → (FilePath → Io ℕ) → ℕ → List FilePath → Attempt (List ℕ)
stat_prefixes stat previous [] = done (ok [])
stat_prefixes stat previous (path ∷ paths) = do
  size ← map_err failed_to_open (done (stat path))
  next ← ok_or (checked_add previous size) dataset_too_large
  rest ← stat_prefixes stat next paths
  done (ok (next ∷ rest))

pub record OpenSourced : Type 0 where
  pub index : ℕ
  pub source : ByteSource
  pub state : BoundarySearchState

module _ {FilePath : Type 0} (open_windowed : FilePath → ℕ → Io ByteSource)
    (open_pread : FilePath → Io ByteSource) (options : PlannerOptions) where
  unfoldable pub open_sourced : FilePath → Attempt ByteSource
  open_sourced path = elim options.mode [
    | mmap_mode ↦ done (err legacy_engine)
    | windowed_mode ↦ map_err failed_to_open (done (open_windowed path options.window_bytes))
    | pread_mode ↦ map_err failed_to_open (done (open_pread path))
  ]

  -- A source of another length than the path had in the first phase is refused.
  unfoldable pub open_fresh : ℕ → FilePath → ℕ → Attempt OpenSourced
  open_fresh source_index path expected_len = do
    source ← open_sourced path
    size ← usize_to_u128 source.len
    let opened : OpenSourced = record { index = source_index; source = source; state = initial }
    if size == expected_len then done (ok opened) else done (err source_length_changed)

  -- The source that is open is kept for its own targets; another is closed before the next is opened.
  unfoldable pub reopen : Option OpenSourced → ℕ → FilePath → ℕ → Attempt OpenSourced
  reopen current source_index path expected_len =
      let fresh = open_fresh source_index path expected_len in
      elim current [
        | none ↦ fresh
        | some opened ↦ if opened.index == source_index then done (ok opened) else fresh
      ]

  unfoldable pub project_sourced_target :
      ℕ
      → List FilePath
      → List ℕ
      → List ℕ
      → ℕ
      → Option OpenSourced
      → Attempt (ℕ × Option OpenSourced)
  project_sourced_target buffer_len paths delimiter prefixes target current =
      let inside = do
        source_index ←
            ok_or (elim (partition_point target prefixes) [ zero ↦ none | suc upper ↦ some upper ])
              before_first_source
        source_start ← returned (unwrap (get_elem? prefixes source_index))
        source_end ← returned (unwrap (get_elem? prefixes (source_index + 1)))
        local_target ← ok_or (try_usize (target - source_start)) offset_too_large
        path ← ok_or (get_elem? paths source_index) no_source
        opened ← reopen current source_index path (source_end - source_start)
        (boundary, state) ←
            next_record_boundary_sourced opened.source buffer_len local_target opened.state
              delimiter
        widened ← usize_to_u128 boundary
        done (ok (source_start + widened, some (record opened { state = state })))
      in if contains target prefixes then done (ok (target, current)) else inside

  unfoldable pub plan_logical_partitions_sourced :
      (FilePath → Io ℕ) → List FilePath → ℕ → List ℕ → Attempt (List WorkerAssignment)
  plan_logical_partitions_sourced stat paths requested_parts delimiter =
      let buffer_len = max (max options.scan_buffer_bytes (length delimiter)) 1 in
      plan_over (project_sourced_target buffer_len paths delimiter) none
        (stat_prefixes stat 0 paths) (length paths) requested_parts
