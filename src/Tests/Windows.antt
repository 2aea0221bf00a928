-- ===== src/Tests/Windows.antt =====
-- A windowed file of the bytes "a\r\nb\r\nc" with nothing cached.
use mmap_chunker_core.Base.{ℕ, ◌-◌, ◌≡◌, refl, arith, List, min, take, drop, none, some, ok, Io}
use mathlib.Core.Path.{subst}
use mmap_chunker_core.Source.{Serves}
use mmap_chunker_core.Windowed.{WindowView, WindowedMmapFile, read_at}
use mmap_chunker_core.Windowed.Laws.{Maps, IsView, IsWindow, Contains, Remapped, read_at_lem}
use mmap_chunker_core.Windowed.Source.{windowed_source, windowed_source-Serves}
use mmap_chunker_core.Tests.Scans.{crlf, crlf-IsSlice}

abbrev mmap : ℕ → ℕ → Io (List ℕ)
mmap start n = ok (take n (drop start crlf.bytes))

mmap-Maps : Maps mmap crlf.bytes
mmap-Maps start n aligned pos inside = refl

abbrev file : WindowedMmapFile
file = record { size = 7; window_bytes = 65536; view = none }

file-IsWindow : IsWindow crlf.bytes 131071 file
file-IsWindow = record { size = refl; viewed = λ view e. absurd cc }

-- A cached view of the whole file, which holds the request of 5 bytes at 2.
abbrev cached : WindowedMmapFile
cached = record file { view = some (record { aligned_start = 0; mapped = crlf.bytes }) }

same_view :
    (view : WindowView)
    → cached.view ≡ some view
    → record { aligned_start = 0; mapped = crlf.bytes } ≡ view
same_view view e = cc

cached-IsWindow : IsWindow crlf.bytes 131071 cached
cached-IsWindow = record {
  size = refl;
  viewed = λ view e.
      subst (IsView crlf.bytes 131071) (same_view view e)
        (record { aligned = refl; inside = omega arith; shows = refl; bounded = omega arith });
}

read_at_lem_example :
    (file' : WindowedMmapFile) × (read_at mmap cached 2 9
      ≡ ok (take (min 9 (7 - 2)) (drop 2 crlf.bytes), file'))
    × IsWindow crlf.bytes 131071 file'
    × ((view : WindowView) → cached.view ≡ some view → Contains view 2 5 → file' ≡ cached)
    × (((view : WindowView) → cached.view ≡ some view → ¬ Contains view 2 5)
        → Remapped cached 2 5 9 file')
read_at_lem_example =
    read_at_lem mmap crlf.bytes mmap-Maps crlf-IsSlice.fits 131071 cached 2 9 cached-IsWindow
      (omega arith) (omega arith) (omega arith)

windowed_source-Serves_example : Serves (windowed_source mmap file) crlf.bytes
windowed_source-Serves_example =
    windowed_source-Serves mmap crlf.bytes 131071 file mmap-Maps crlf-IsSlice.fits file-IsWindow
