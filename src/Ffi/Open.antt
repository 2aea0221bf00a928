-- ===== src/Ffi/Open.antt =====
-- The entry points of src/ffi.rs that make, free and describe engines. Mapping a path gives a slice or
-- nothing, and the probe of src/mmap.rs says whether a path may be mapped; both are arguments.
use Prim.Native.Nat.{bit_or}
use mmap_chunker_core.Base.{
  ℕ, List, Option, none, some, Run, done, ok, err, Io, invalid_input, if◌then◌else◌,
}
use mmap_chunker_core.Slice.{Slice}
use mmap_chunker_core.Plan.{empty}
use mmap_chunker_core.Pin.{Metadata, PinnedFile, capture, has_unknown_bits}
use mmap_chunker_core.Ffi.{
  Message, path_null, open_failed, unknown_pin_bits, open_refused, capture_failed, panic_open,
  panic_open_pinned, Engine, World, report, entry,
}

abbrev pub abi_version : ℕ
abi_version = 0x0001_0006

unfoldable pub mmap_engine_abi_version : ℕ
mmap_engine_abi_version = abi_version

-- `CAP_ZERO_COPY | … | CAP_FILE_PIN`, bits 0 to 8.
unfoldable pub mmap_engine_capabilities : ℕ
mmap_engine_capabilities =
    bit_or (bit_or (bit_or (bit_or (bit_or (bit_or (bit_or (bit_or 1 2) 4) 8) 16) 32) 64) 128) 256

module _ {FilePath : Type 0} (text : Message → List ℕ) (map_file : FilePath → Option Slice)
    (probe : FilePath → Io (Unit {0})) where
  -- What is reported when a path cannot be mapped.
  abbrev pub failure : FilePath → Message
  failure path = elim (probe path) [
    | ok u ↦ open_failed
    | err invalid_input ↦ open_refused invalid_input
    | err e ↦ open_failed
  ]

  -- The match on `MmapFile::open`: an engine with an empty plan, or the failure.
  abbrev opened :
      FilePath
      → Option (PinnedFile FilePath)
      → World FilePath
      → Run (Option (Engine FilePath) × World FilePath)
  opened path pin w = elim (map_file path) [
    | some mmap ↦ done (some (record { mmap = mmap; plan = empty; pin = pin }), w)
    | none ↦ done (none, report text (failure path) w)
  ]

  unfoldable pub mmap_engine_open :
      Option FilePath → World FilePath → Run (Option (Engine FilePath) × World FilePath)
  mmap_engine_open path =
      entry text panic_open none
        λ w. elim path [ none ↦ done (none, report text path_null w) | some p ↦ opened p none w ]

  unfoldable pub mmap_engine_open_pinned :
      (FilePath → Io Metadata)
      → Option FilePath
      → ℕ
      → World FilePath
      → Run (Option (Engine FilePath) × World FilePath)
  mmap_engine_open_pinned metadata path flags = entry text panic_open_pinned none λ w. elim path [
    | none ↦ done (none, report text path_null w)
    | some p ↦
        let captured : Run (Option (Engine FilePath) × World FilePath) =
          elim (capture metadata p flags) [
            | err e ↦ done (none, report text (capture_failed e) w)
            | ok pinned ↦ opened p (some pinned) w
          ] in
        if has_unknown_bits flags then done (none, report text unknown_pin_bits w) else captured
  ]

  -- The engine is dropped; a null handle is left alone. The error buffer is not touched.
  unfoldable pub mmap_engine_free : World FilePath → World FilePath
  mmap_engine_free w = record w { handle = none }
