-- ===== src/Tests/Opens.antt =====
-- Opening "a\nbb\nc" with a pin on all classes.
use mmap_chunker_core.Base.{◌≡◌, none, some, Returns, ok, err, Io, ErrorKind}
use mmap_chunker_core.Chunker.{open_pinned}
use mmap_chunker_core.Ffi.Open.{mmap_engine_open_pinned}
use mmap_chunker_core.Ffi.Parity.{library}
use mmap_chunker_core.Ffi.Opens.{mapped, mmap_engine_open_pinned-open_pinned}
use mmap_chunker_core.Tests.Handles.{stat, map_lines}
use mmap_chunker_core.Tests.Engines.{text, world}

abbrev eligible : Unit {0} → Io (Unit {0})
eligible u = ok tt

mmap_engine_open_pinned-open_pinned_example :
    Returns
      (mmap_engine_open_pinned text
        (mapped text map_lines eligible)
        eligible
        stat
        (some tt)
        0
        world)
      (λ (engine, w'). elim engine [
        | some e ↦ open_pinned map_lines stat tt 0 ≡ ok (library e)
        | none ↦ (k : ErrorKind) × (open_pinned map_lines stat tt 0 ≡ err k)
      ])
mmap_engine_open_pinned-open_pinned_example =
    mmap_engine_open_pinned-open_pinned text map_lines eligible stat tt 0 world
