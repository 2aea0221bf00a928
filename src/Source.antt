-- ===== src/Source.antt =====
-- src/source.rs: sources of bytes that are read piece by piece, and the planner over them.
pub mod Read
pub mod Reads
pub mod Planner
pub mod Equal
pub mod Sources
pub mod Failures
pub mod FailingPlan
pub mod Fallible
use mmap_chunker_core.Base.{ℕ, ◌+◌, ◌≤◌, ◌<◌, ◌≡◌, List, length, take, drop, Option, some, Io, ok}
use mmap_chunker_core.Slice.{Slice, IsSlice}

-- The trait `ByteSource`. `read_at` is given an offset and the length of the buffer, and answers the
-- bytes that it has written to the front of the buffer.
pub record ByteSource : Type 0 where
  pub len : ℕ
  pub read_at : ℕ → ℕ → Io (List ℕ)
  pub as_slice : Option Slice

-- What the trait asks of a source of the bytes `xs`: a read into a buffer inside the file gives some of
-- the bytes that stand there, at least one, and a slice is the whole file.
pub record Serves (source : ByteSource) (xs : List ℕ) : Type 0 where
  pub size : source.len ≡ length xs
  pub reads :
      (offset n : ℕ)
      → 0 < n
      → offset < length xs
      → (k : ℕ) × (0 < k)
        × (k ≤ n)
        × (offset + k ≤ length xs)
        × (source.read_at offset n ≡ ok (take k (drop offset xs)))
  pub whole : (s : Slice) → source.as_slice ≡ some s → IsSlice s × (s.bytes ≡ xs)
