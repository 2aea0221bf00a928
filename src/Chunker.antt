-- ===== src/Chunker.antt =====
-- `MmapChunker` of src/lib.rs: a mapped file, its current plan, and the pin that gates every scan.
-- The mapping of a file, and what `stat` tells of a path at the time of a call, are arguments.
pub mod Ops
pub mod Laws
pub mod Correct
pub mod Reaches
use mmap_chunker_core.Base.{
  ℕ, List, length, take, drop, Bool, true, false, Option, none, some, Run, done, ◌>>=◌, ◌==◌, ◌||◌,
  if◌then◌else◌, Result, ok, err, Io,
}
use mmap_chunker_core.Slice.{Slice, len, slice_range}
use mmap_chunker_core.Ranges.{Range}
use mmap_chunker_core.Scanner.Chunks.{find_chunk_boundaries, find_chunk_boundaries_pattern}
use mmap_chunker_core.Scanner.Partition.{
  find_partition_boundaries, find_partition_boundaries_pattern,
}
use mmap_chunker_core.Scanner.Cursor
use mmap_chunker_core.Scanner.Cursor.{ChunkCursor, PatternChunkCursor}
use mmap_chunker_core.Plan.{ChunkPlan, empty, from_ranges, plan_fixed, count, range_at}
use mmap_chunker_core.Pin.{Metadata, PinMismatch, PinnedFile, capture, revalidate}

pub record MmapChunker (FilePath : Type 0) : Type 0 where
  pub mmap : Slice
  pub plan : ChunkPlan
  pub pinned : Option (PinnedFile FilePath)
  pub pin_error : Option PinMismatch

abbrev pub fresh : {FilePath : Type 0} → Slice → Option (PinnedFile FilePath) → MmapChunker FilePath
fresh mmap pinned = record { mmap = mmap; plan = empty; pinned = pinned; pin_error = none }

module _ {FilePath : Type 0} (map_file : FilePath → Io Slice) where
  unfoldable pub open_path : FilePath → Io (MmapChunker FilePath)
  open_path path = elim (map_file path) [ err e ↦ err e | ok mmap ↦ ok (fresh mmap none) ]

  unfoldable pub open_pinned : (FilePath → Io Metadata) → FilePath → ℕ → Io (MmapChunker FilePath)
  open_pinned metadata path flags = elim (capture metadata path flags) [
    | err e ↦ err e
    | ok pinned ↦ elim (map_file path) [ err e ↦ err e | ok mmap ↦ ok (fresh mmap (some pinned)) ]
  ]

module _ {FilePath : Type 0} where
  unfoldable pub take_pin_error : MmapChunker FilePath → Option PinMismatch × MmapChunker FilePath
  take_pin_error c = (c.pin_error, record c { pin_error = none })

  unfoldable pub pin_status : MmapChunker FilePath → Result PinMismatch (Unit {0})
  pin_status c = elim c.pin_error [ some e ↦ err e | none ↦ ok tt ]

  unfoldable pub chunk_count : MmapChunker FilePath → ℕ
  chunk_count c = count c.plan

  unfoldable pub delimited_cursor : MmapChunker FilePath → ℕ → ℕ → ChunkCursor
  delimited_cursor c chunk_size delimiter = Cursor.new c.mmap chunk_size delimiter

  unfoldable pub delimited_cursor_pattern :
      MmapChunker FilePath → ℕ → List ℕ → Run PatternChunkCursor
  delimited_cursor_pattern c chunk_size delimiter = Cursor.new_pattern c.mmap chunk_size delimiter

  -- `&data[start..end]` of the range that the plan gives, if it gives one.
  unfoldable pub get_chunk : MmapChunker FilePath → ℕ → Run (Option (List ℕ))
  get_chunk c i = elim (range_at c.plan i (len c.mmap)) [
    | none ↦ done none
    | some (start, end) ↦ slice_range c.mmap start end >>= λ bytes. done (some bytes)
  ]

  -- A new plan replaces the old one, and its count is returned.
  abbrev pub planned : MmapChunker FilePath → ChunkPlan → ℕ × MmapChunker FilePath
  planned c plan = (count plan, record c { plan = plan })

  abbrev pub planned_empty : MmapChunker FilePath → ℕ × MmapChunker FilePath
  planned_empty c = (0, record c { plan = empty })

module _ {FilePath : Type 0} (metadata : FilePath → Io Metadata) where
  unfoldable pub check_pinned : MmapChunker FilePath → MmapChunker FilePath × Bool
  check_pinned c = elim c.pinned [
    | none ↦ (c, true)
    | some pinned ↦ elim (revalidate metadata pinned) [
      | ok u ↦ (record c { pin_error = none }, true)
      | err e ↦ (record c { plan = empty; pin_error = some e }, false)
    ]
  ]

  -- Every scan begins with `if !self.check_pinned() { return 0; }`.
  unfoldable pub gated :
      MmapChunker FilePath
      → (MmapChunker FilePath → Run (ℕ × MmapChunker FilePath))
      → Run (ℕ × MmapChunker FilePath)
  unfolding check_pinned
  gated c scan = let (c', fine) = check_pinned c in if fine then scan c' else done (0, c')

  unfoldable pub scan_delimited : MmapChunker FilePath → ℕ → ℕ → Run (ℕ × MmapChunker FilePath)
  scan_delimited c chunk_size delimiter = gated c λ c'.
      (let scanned = do
        chunks ← find_chunk_boundaries c'.mmap chunk_size delimiter
        done (planned c' (from_ranges chunks))
        in if len c'.mmap == 0 then done (planned_empty c') else scanned)

  unfoldable pub scan_fixed : MmapChunker FilePath → ℕ → Run (ℕ × MmapChunker FilePath)
  scan_fixed c chunk_size = gated c λ c'. done (planned c' (plan_fixed (len c'.mmap) chunk_size))

  unfoldable pub partition_records : MmapChunker FilePath → ℕ → ℕ → Run (ℕ × MmapChunker FilePath)
  partition_records c num_partitions delimiter = gated c λ c'.
      (let scanned = do
        partitions ← find_partition_boundaries c'.mmap num_partitions delimiter
        done (planned c' (from_ranges partitions))
        in if len c'.mmap == 0 || num_partitions == 0 then done (planned_empty c') else scanned)

  unfoldable pub partition_records_pattern :
      MmapChunker FilePath → ℕ → List ℕ → Run (ℕ × MmapChunker FilePath)
  partition_records_pattern c num_partitions delimiter = gated c λ c'.
      (let scanned = do
        partitions ← find_partition_boundaries_pattern c'.mmap num_partitions delimiter
        done (planned c' (from_ranges partitions))
        in if len c'.mmap == 0 || num_partitions == 0 then done (planned_empty c') else scanned)

  unfoldable pub scan_delimited_pattern :
      MmapChunker FilePath → ℕ → List ℕ → Run (ℕ × MmapChunker FilePath)
  scan_delimited_pattern c chunk_size delimiter = gated c λ c'.
      (let scanned = do
        chunks ← find_chunk_boundaries_pattern c'.mmap chunk_size delimiter
        done (planned c' (from_ranges chunks))
        in if len c'.mmap == 0 then done (planned_empty c') else scanned)
