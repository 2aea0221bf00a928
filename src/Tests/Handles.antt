-- ===== src/Tests/Handles.antt =====
-- Handles on "a\nbb\nc", pinned and unpinned, under a `stat` that tells of one file.
use mmap_chunker_core.Base.{
  ℕ, length, ◌≤◌, ◌<◌, ◌≡◌, refl, arith, none, some, true, done, Returns, ◌↔◌, ok, err, Io, inl,
}
use mmap_chunker_core.Slice.{Slice, IsSlice}
use mmap_chunker_core.Ranges.{concat}
use mathlib.Core.Path.{subst}
use mmap_chunker_core.Scanner.Fixed.{fixed_chunk_count, div_ceil}
use mmap_chunker_core.Plan.{plan_fixed, count}
use mmap_chunker_core.Pin.{
  Metadata, PinMismatch, PinnedFile, effective_flags, capture, capture_from_metadata, revalidate,
  compare_identity, size_changed, truncated,
}
use mmap_chunker_core.Pin.Laws.{Holds, Trips, revalidate_iff, capture-revalidate}
use mmap_chunker_core.Chunker.{
  MmapChunker, gated, scan_fixed, fresh, open_pinned, get_chunk, chunk_count, check_pinned,
  pin_status, take_pin_error,
}
use mmap_chunker_core.Chunker.Ops.{delimited, fixed_size, plan_of, perform}
use mmap_chunker_core.Chunker.Laws.{IsValid}
use mmap_chunker_core.Chunker.Correct.{
  perform_correct, perform-Trips, perform_holds, get_chunk_total, read_chunks, read_chunks_all,
}
use mmap_chunker_core.Chunker.Reaches.{Reaches, opened, used, scan, Keeps, Reaches-Keeps}
use mmap_chunker_core.Tests.Scans.{lines, lines-IsSlice}

-- What `stat` tells of the one path, before and after a truncation.
abbrev pub stat : Unit {0} → Io Metadata
stat u = ok (record { size = 6; modified = some 1; dev = 2; ino = 3 })

abbrev stat_short : Unit {0} → Io Metadata
stat_short u = ok (record { size = 5; modified = some 1; dev = 2; ino = 3 })

abbrev pub pin : PinnedFile (Unit {0})
pin = record {
  path = tt;
  identity = record { size = 6; mtime = some 1; dev = 2; ino = 3 };
  flags = 0;
}

abbrev pub map_lines : Unit {0} → Io Slice
map_lines u = ok lines

abbrev handle : MmapChunker (Unit {0})
handle = fresh lines (some pin)

handle-IsValid : IsValid handle
handle-IsValid = record { mapped = lines-IsSlice; planned = inl refl }

capture_test : capture stat tt 0 ≡ ok pin
unfolding capture effective_flags capture_from_metadata
capture_test = refl

revalidate_test : revalidate stat pin ≡ ok tt
unfolding revalidate effective_flags capture_from_metadata compare_identity
revalidate_test = refl

-- The file has become shorter.
abbrev shorter : PinMismatch
shorter = record { kind = truncated; detail = size_changed 6 5 }

revalidate_short_test : revalidate stat_short pin ≡ err shorter
unfolding revalidate effective_flags capture_from_metadata compare_identity
revalidate_short_test = refl

revalidate_iff_example : (revalidate stat pin ≡ ok tt) ↔ Holds stat pin
revalidate_iff_example = revalidate_iff stat pin (omega arith)

capture-revalidate_example : revalidate stat pin ≡ ok tt
capture-revalidate_example = capture-revalidate stat tt 0 pin (omega arith) capture_test

perform_correct_example :
    Returns
      (perform stat (delimited 1 10) handle)
      (λ (n, c'). IsValid c' × (n ≡ count c'.plan) × (c'.mmap ≡ lines) × (c'.pinned ≡ some pin))
perform_correct_example = perform_correct stat (delimited 1 10) handle (omega arith) handle-IsValid

-- The handle after a scan for chunks of 4 bytes.
abbrev scanned : MmapChunker (Unit {0})
scanned = record handle { plan = plan_fixed 6 4 }

-- The pin compares sizes, and the size has changed.
pin-not_Holds : ¬ Holds stat_short pin
pin-not_Holds (known, (meta, read, agrees)) =
    let same = agrees.size (inl refl) in absurd (ground (arith, read))

perform-Trips_example : Returns (perform stat_short (delimited 1 10) scanned) (λ (n, c').
    (n ≡ 0)
    × ((i : ℕ) → get_chunk c' i ≡ done none)
    × (c'.mmap ≡ lines)
    × (c'.pinned ≡ some pin)
    × ((e : PinMismatch) × Trips stat_short pin e.kind
        × (pin_status c' ≡ err e)
        × ((take_pin_error c').0 ≡ some e)
        × ((take_pin_error (take_pin_error c').1).0 ≡ none)))
perform-Trips_example =
    perform-Trips stat_short (delimited 1 10) scanned pin (omega arith) lines-IsSlice refl
      (omega arith) pin-not_Holds

perform_holds_example :
    perform stat (delimited 1 10) handle
    ≡ done (
      count (plan_of (delimited 1 10) lines.bytes),
      record handle { plan = plan_of (delimited 1 10) lines.bytes; pin_error = none },
    )
perform_holds_example =
    perform_holds stat (delimited 1 10) handle pin (omega arith) lines-IsSlice refl revalidate_test

check_pinned_test : (check_pinned stat handle).1 ≡ true
unfolding check_pinned revalidate effective_flags capture_from_metadata compare_identity
check_pinned_test = refl

read_chunks_all_example :
    Returns
      (perform stat (delimited 1 10) handle)
      (λ (n, c'). Returns (read_chunks c' 0 n) (λ chunks. concat chunks ≡ lines.bytes))
read_chunks_all_example =
    read_chunks_all stat (delimited 1 10) handle (omega arith) tt lines-IsSlice check_pinned_test

scan_test : perform stat (fixed_size 4) handle ≡ done (2, scanned)
unfolding check_pinned gated scan_fixed revalidate effective_flags capture_from_metadata
    compare_identity plan_fixed fixed_chunk_count div_ceil count
scan_test = refl

scanned-Reaches : Reaches handle scanned
scanned-Reaches = used opened (scan stat (fixed_size 4) 2 (omega arith) scan_test)

Reaches-Keeps_example : Keeps handle scanned
Reaches-Keeps_example = Reaches-Keeps handle scanned handle-IsValid scanned-Reaches

scanned-IsValid : IsValid scanned
scanned-IsValid = (Reaches-Keeps handle scanned handle-IsValid scanned-Reaches).0

get_chunk_total_example : Returns (get_chunk scanned 1) (λ answer. elim answer [
  | none ↦ chunk_count scanned ≤ 1
  | some bytes ↦ (1 < chunk_count scanned) × (0 < length bytes)
])
get_chunk_total_example = get_chunk_total scanned 1 scanned-IsValid

map_lines_maps : (path : Unit {0}) (s : Slice) → map_lines path ≡ ok s → IsSlice s
map_lines_maps path s e = let same : lines ≡ s = ground arith in subst IsSlice same lines-IsSlice

open_test : open_pinned map_lines stat tt 0 ≡ ok handle
unfolding open_pinned capture effective_flags capture_from_metadata
open_test = refl
