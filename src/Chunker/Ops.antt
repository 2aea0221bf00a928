-- ===== src/Chunker/Ops.antt =====
-- The scans of `MmapChunker` as requests, and the plan that each of them calls for.
use mmap_chunker_core.Base.{
  ℕ, suc, ◌≤◌, ◌≡◌, refl, arith, max, List, [], ◌∷◌, length, Run, done, ◌>>=◌, ◌==◌, ◌||◌,
  if◌then◌else◌, Io, usize_max,
}
use mmap_chunker_core.Slice.{len, IsSlice}
use mmap_chunker_core.Ranges.{Range}
use mmap_chunker_core.Bits.Zeros.{IsByte}
use mmap_chunker_core.Scanner.Chunks.Reference.{chunks_empty}
use mmap_chunker_core.Scanner.Chunks.Laws.{
  IsDelimiter, chunks_of, find_chunk_boundaries-chunks_of, find_chunk_boundaries_pattern-chunks_of,
}
use mmap_chunker_core.Scanner.Partition.Correct.{
  partitions, partitions_empty, find_partition_boundaries-partitions,
  find_partition_boundaries_pattern-partitions,
}
use mmap_chunker_core.Scanner.Chunks.{find_chunk_boundaries, find_chunk_boundaries_pattern}
use mmap_chunker_core.Scanner.Partition.{
  find_partition_boundaries, find_partition_boundaries_pattern,
}
use mmap_chunker_core.Plan.{ChunkPlan, from_ranges, plan_fixed, count}
use mmap_chunker_core.Pin.{Metadata}
use mmap_chunker_core.Chunker.{
  MmapChunker, planned, planned_empty, check_pinned, gated, scan_delimited, scan_fixed,
  partition_records, partition_records_pattern, scan_delimited_pattern,
}

pub data Op : Type 0 where
  delimited : ℕ → ℕ → Op
  fixed_size : ℕ → Op
  partition : ℕ → ℕ → Op
  partition_pattern : ℕ → List ℕ → Op
  delimited_pattern : ℕ → List ℕ → Op

-- Arguments that Rust's types allow, and for a pattern that the assertions accept.
abbrev pub IsValidOp : Op → Type 0
IsValidOp (delimited chunk_size delimiter) = IsByte delimiter
IsValidOp (fixed_size chunk_size) = chunk_size ≤ usize_max
IsValidOp (partition num delimiter) = IsByte delimiter
IsValidOp (partition_pattern num delimiter) = IsDelimiter delimiter
IsValidOp (delimited_pattern chunk_size delimiter) = IsDelimiter delimiter

-- The plan that a request calls for on the bytes of a file.
abbrev pub plan_of : Op → List ℕ → ChunkPlan
plan_of (delimited chunk_size d) xs = from_ranges (chunks_of (d ∷ []) chunk_size xs)
plan_of (fixed_size chunk_size) xs = plan_fixed (length xs) chunk_size
plan_of (partition num d) xs = from_ranges (partitions (d ∷ []) xs num)
plan_of (partition_pattern num p) xs = from_ranges (partitions p xs num)
plan_of (delimited_pattern chunk_size p) xs = from_ranges (chunks_of p chunk_size xs)

module _ {FilePath : Type 0} (metadata : FilePath → Io Metadata) where
  abbrev pub perform : Op → MmapChunker FilePath → Run (ℕ × MmapChunker FilePath)
  perform (delimited chunk_size d) c = scan_delimited metadata c chunk_size d
  perform (fixed_size chunk_size) c = scan_fixed metadata c chunk_size
  perform (partition num d) c = partition_records metadata c num d
  perform (partition_pattern num p) c = partition_records_pattern metadata c num p
  perform (delimited_pattern chunk_size p) c = scan_delimited_pattern metadata c chunk_size p

  pub mmap-check_pinned : (c : MmapChunker FilePath) → (check_pinned metadata c).0.mmap ≡ c.mmap
  unfolding check_pinned
  mmap-check_pinned c = ground arith

  -- The guard on an empty file chooses what the planner returns for it anyway.
  chunks_guard :
      (c : MmapChunker FilePath) (p : List ℕ) (chunk_size : ℕ) (scan : Run (List Range))
      → scan ≡ done (chunks_of p chunk_size c.mmap.bytes)
      → (if len c.mmap == 0
          then done (planned_empty c)
          else (scan >>= λ chunks. done (planned c (from_ranges chunks))))
        ≡ done (planned c (from_ranges (chunks_of p chunk_size c.mmap.bytes)))
  unfolding from_ranges count
  chunks_guard c p chunk_size scan e =
      ground (arith, chunks_empty p c.mmap.bytes (max chunk_size 1) (suc (len c.mmap)))

  partitions_guard :
      (c : MmapChunker FilePath) (p : List ℕ) (num : ℕ) (scan : Run (List Range))
      → scan ≡ done (partitions p c.mmap.bytes num)
      → (if len c.mmap == 0 || num == 0
          then done (planned_empty c)
          else (scan >>= λ parts. done (planned c (from_ranges parts))))
        ≡ done (planned c (from_ranges (partitions p c.mmap.bytes num)))
  unfolding from_ranges count
  partitions_guard c p num scan e = ground (arith, partitions_empty p c.mmap.bytes num)

  -- What every scan does: behind an open gate it makes the plan that its request calls for.
  abbrev pub outcome : Op → MmapChunker FilePath → ℕ × MmapChunker FilePath
  outcome op c =
      let (c', fine) = check_pinned metadata c in
      if fine then planned c' (plan_of op c'.mmap.bytes) else (0, c')

  gated_lem :
      (op : Op) (c : MmapChunker FilePath)
      (scan : MmapChunker FilePath → Run (ℕ × MmapChunker FilePath))
      → ((c' : MmapChunker FilePath)
          → c'.mmap ≡ c.mmap
          → scan c' ≡ done (planned c' (plan_of op c'.mmap.bytes)))
      → gated metadata c scan ≡ done (outcome op c)
  unfolding gated
  gated_lem op c scan h = ground (arith, h (check_pinned metadata c).0, mmap-check_pinned c)

  pub perform_lem :
      (op : Op) (c : MmapChunker FilePath)
      → IsValidOp op
      → IsSlice c.mmap
      → perform op c ≡ done (outcome op c)
  unfolding scan_delimited scan_fixed partition_records partition_records_pattern
      scan_delimited_pattern
  perform_lem (delimited size d) c valid ok = gated_lem (delimited size d) c _ λ c' e.
      chunks_guard c' (d ∷ []) size (find_chunk_boundaries c'.mmap size d)
        (find_chunk_boundaries-chunks_of c'.mmap size d (rw e ok) valid)
  perform_lem (fixed_size size) c valid ok = gated_lem (fixed_size size) c _ λ c' e. refl
  perform_lem (partition num d) c valid ok = gated_lem (partition num d) c _ λ c' e.
      partitions_guard c' (d ∷ []) num (find_partition_boundaries c'.mmap num d)
        (find_partition_boundaries-partitions c'.mmap num d (rw e ok) valid)
  perform_lem (partition_pattern num p) c valid ok = gated_lem (partition_pattern num p) c _ λ c' e.
      partitions_guard c' p num (find_partition_boundaries_pattern c'.mmap num p)
        (find_partition_boundaries_pattern-partitions c'.mmap num p (rw e ok) valid)
  perform_lem (delimited_pattern size p) c valid ok =
      gated_lem (delimited_pattern size p) c _ λ c' e.
        chunks_guard c' p size (find_chunk_boundaries_pattern c'.mmap size p)
          (find_chunk_boundaries_pattern-chunks_of c'.mmap size p (rw e ok) valid)
