-- ===== src/Ffi.antt =====
-- src/ffi.rs, the C surface: an engine behind a handle, a null pointer as `none`, and the thread's error
-- buffer. The text of a message is an argument; a message keeps the values that its text shows. No entry
-- point changes the engine before its planner has returned, so a caught panic leaves it as it was.
pub mod Errors
pub mod Entries
pub mod Open
pub mod Refinement
pub mod Parity
pub mod View
pub mod Plans
pub mod Opens
use mmap_chunker_core.Base.{
  ℕ, ◌-◌, ◌≡◌, List, length, take, Option, none, some, Run, done, panicked, out_of_fuel, Result, ok,
  err, ErrorKind, isize_max, ltb, ◌==◌, if◌then◌else◌,
}
use mmap_chunker_core.Slice.{Slice}
use mmap_chunker_core.Plan.{ChunkPlan, count}
use mmap_chunker_core.Pin.{Metadata, PinMismatch, PinnedFile, revalidate}
use mmap_chunker_core.Base.{Io}
use mmap_chunker_core.Ffi.Errors.{set_error, clear_error}

-- The calls of `set_error`, in the order of the source.
pub data Message : Type 0 where
  path_null handle_null open_failed unknown_pin_bits : Message
  open_refused capture_failed : ErrorKind → Message
  identity_changed : PinMismatch → Message
  delimiter_len_zero delimiter_null delimiter_len_range requested_zero : Message
  out_chunk_null index_out_of_bounds bounds_overflow : Message
  out_count_null out_ranges_null source_mode_unknown : Message
  planning_failed : ErrorKind → Message
  panic_open panic_open_pinned panic_scan_chunks panic_scan_chunks_pattern panic_scan_fixed :
      Message
  panic_partition_records panic_partition_records_pattern panic_get_chunk : Message
  panic_plan_partition_ranges : Message

pub record Engine (FilePath : Type 0) : Type 0 where
  pub mmap : Slice
  pub plan : ChunkPlan
  pub pin : Option (PinnedFile FilePath)

-- What an entry point works on: the handle that it is given and the error buffer of its thread.
pub record World (FilePath : Type 0) : Type 0 where
  pub handle : Option (Engine FilePath)
  pub last_error : List ℕ

module _ {FilePath : Type 0} (metadata : FilePath → Io Metadata) where
  unfoldable pub check_engine_pin : Engine FilePath → Result PinMismatch (Unit {0})
  check_engine_pin engine = elim engine.pin [
    | none ↦ ok tt
    | some pinned ↦ revalidate metadata pinned
  ]

module _ {FilePath : Type 0} (text : Message → List ℕ) where
  abbrev pub report : Message → World FilePath → World FilePath
  report m w = record w { last_error = set_error (text m) w.last_error }

  abbrev pub cleared : World FilePath → World FilePath
  cleared w = record w { last_error = clear_error w.last_error }

  -- `set_error(…); return 0;`
  abbrev pub refuse : Message → World FilePath → Run (ℕ × World FilePath)
  refuse m w = done (0, report m w)

  -- `clear_error()`, the body, and `catch_unwind` around them.
  abbrev pub caught :
      {A : Type 0}
      → Message
      → A
      → Run (A × World FilePath)
      → World FilePath
      → Run (A × World FilePath)
  caught m fallback (done r) w = done r
  caught m fallback panicked w = done (fallback, report m w)
  caught m fallback out_of_fuel w = out_of_fuel

  abbrev pub entry :
      {A : Type 0}
      → Message
      → A
      → (World FilePath → Run (A × World FilePath))
      → World FilePath
      → Run (A × World FilePath)
  entry m fallback body w = caught m fallback (body (cleared w)) (cleared w)

  -- `if handle.is_null() { … }` and the engine behind the handle.
  abbrev pub with_engine :
      (Engine FilePath → Run (ℕ × World FilePath)) → World FilePath → Run (ℕ × World FilePath)
  with_engine body w = elim w.handle [ none ↦ refuse handle_null w | some engine ↦ body engine ]

  -- The checks of a delimiter given by pointer and length, and the slice that they make up. The pointer
  -- stands for the bytes that can be read there.
  abbrev pub with_delimiter :
      Option (List ℕ)
      → ℕ
      → (List ℕ → Run (ℕ × World FilePath))
      → World FilePath
      → Run (ℕ × World FilePath)
  with_delimiter delimiter delimiter_len body w =
      let some_delimiter : Run (ℕ × World FilePath) = elim delimiter [
        | none ↦ refuse delimiter_null w
        | some bytes ↦
            let body_run = body (take delimiter_len bytes) in
            if ltb isize_max delimiter_len then refuse delimiter_len_range w else body_run
      ] in
      if delimiter_len == 0 then refuse delimiter_len_zero w else some_delimiter

  abbrev pub with_pin :
      (FilePath → Io Metadata)
      → Engine FilePath
      → Run (ℕ × World FilePath)
      → World FilePath
      → Run (ℕ × World FilePath)
  with_pin metadata engine body w = elim (check_engine_pin metadata engine) [
    | err mismatch ↦ refuse (identity_changed mismatch) w
    | ok u ↦ body
  ]

  -- `engine.plan = …; engine.plan.len()`
  abbrev pub set_plan : Engine FilePath → World FilePath → ChunkPlan → ℕ × World FilePath
  set_plan engine w plan = (count plan, record w { handle = some (record engine { plan = plan }) })
