-- ===== src/Ffi/Opens.antt =====
-- Opening through the C surface beside opening through `MmapChunker`.
use mmap_chunker_core.Base.{
  ℕ, ◌≡◌, refl, arith, List, Option, none, some, Run, done, Returns, Result-cases, ok, err, Io,
  ErrorKind, invalid_input, Bool-cases, inl, inr,
}
use mmap_chunker_core.Slice.{Slice}
use mmap_chunker_core.Plan.{empty}
use mmap_chunker_core.Pin.{Metadata, capture, effective_flags, has_unknown_bits}
use mmap_chunker_core.Chunker.{open_pinned}
use mmap_chunker_core.Ffi.{
  Message, unknown_pin_bits, capture_failed, cleared, report, World, Engine,
}
use mmap_chunker_core.Ffi.Open.{failure, mmap_engine_open_pinned}
use mmap_chunker_core.Ffi.Parity.{library}

-- `MmapFile::open` answers no reason for a failure.
abbrev pub forget : {A : Type 0} → Io A → Option A
forget (ok a) = some a
forget (err e) = none

module _ {FilePath : Type 0} (text : Message → List ℕ) (map_file : FilePath → Io Slice)
    (probe : FilePath → Io (Unit {0})) where
  abbrev pub mapped : FilePath → Option Slice
  mapped path = forget (map_file path)

  module _ (metadata : FilePath → Io Metadata) (path : FilePath) (flags : ℕ)
      (w : World FilePath) where
    abbrev from_c : Run (Option (Engine FilePath) × World FilePath)
    from_c = mmap_engine_open_pinned text mapped probe metadata (some path) flags w

    refused :
        (m : Message) (k : ErrorKind)
        → from_c ≡ done (none, report text m (cleared text w))
        → open_pinned map_file metadata path flags ≡ err k
        → Returns from_c (λ (engine, w'). elim engine [
          | some e ↦ open_pinned map_file metadata path flags ≡ ok (library e)
          | none ↦ (k : ErrorKind) × (open_pinned map_file metadata path flags ≡ err k)
        ])
    refused m k c l = rw (c, l) (k, refl)

  -- `mmap_engine_open_pinned` gives an engine exactly where `open_pinned` of the library gives a handle,
  -- and it is that handle: the same map, an empty plan and the same pin. Unknown flag bits, a path that
  -- cannot be read and a file that cannot be mapped give a null handle there and an error here.
  pub mmap_engine_open_pinned-open_pinned :
      (metadata : FilePath → Io Metadata) (path : FilePath) (flags : ℕ) (w : World FilePath)
      → Returns
          (mmap_engine_open_pinned text mapped probe metadata (some path) flags w)
          (λ (engine, w'). elim engine [
            | some e ↦ open_pinned map_file metadata path flags ≡ ok (library e)
            | none ↦ (k : ErrorKind) × (open_pinned map_file metadata path flags ≡ err k)
          ])
  unfolding mmap_engine_open_pinned open_pinned
  mmap_engine_open_pinned-open_pinned metadata path flags w =
      elim (Bool-cases (has_unknown_bits flags)) [
        | inl unknown ↦
            refused metadata path flags w unknown_pin_bits invalid_input (ground arith)
              (unfold capture effective_flags in ground arith)
        | inr known ↦ elim (Result-cases (capture metadata path flags)) [
          | inr (e, p) ↦
              refused metadata path flags w (capture_failed e) e (ground arith) (ground arith)
          | inl (pinned, p) ↦ elim (Result-cases (map_file path)) [
            | inr (e, q) ↦
                refused metadata path flags w (failure text mapped probe path) e (ground arith)
                  (ground arith)
            | inl (s, q) ↦
                let engine : Engine FilePath = record {
                  mmap = s;
                  plan = empty;
                  pin = some pinned;
                } in
                let c : from_c metadata path flags w ≡ done (some engine, cleared text w) =
                  ground arith in
                let l : open_pinned map_file metadata path flags ≡ ok (library engine) =
                  ground arith in
                rw (c, l) refl
          ]
        ]
      ]
