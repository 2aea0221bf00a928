-- ===== src/Tests/Sources.antt =====
-- Sources of the bytes "a\r\nb\r\nc" whose reads give one byte each, or fail.
use mmap_chunker_core.Base.{
  leb, err, other_kind, Bool-cases, inl, inr, Returns, if◌then◌else◌, ℕ, ◌≡◌, refl, arith, List,
  take, drop, Bool, true, none, done, ◌>>=◌, ok, Io,
}
use mmap_chunker_core.Search.From.{search_from}
use mmap_chunker_core.Scanner.Partition.{find_partition_boundaries_pattern}
use mmap_chunker_core.Source.{ByteSource, Serves}
use mmap_chunker_core.Source.Read.{find_pattern_from}
use mmap_chunker_core.Source.Reads.{find_pattern_from_lem}
use mmap_chunker_core.Source.Planner.{plan_partition_boundaries}
use mmap_chunker_core.Source.Failures.{MayServe, Settles}
use mmap_chunker_core.Source.Fallible.{plan_partition_boundaries-Settles}
use mmap_chunker_core.Source.Equal.{plan_partition_boundaries-find_partition_boundaries_pattern}
use mmap_chunker_core.Source.Sources.{pread_source, Reads, pread_source-take}
use mmap_chunker_core.Tests.Scans.{crlf, crlf-IsSlice, eol, eol-IsDelimiter}

-- A read of one byte.
abbrev dribble : ℕ → ℕ → Io (List ℕ)
dribble offset n = ok (take 1 (drop offset crlf.bytes))

dribble-Reads : Reads dribble crlf.bytes
dribble-Reads offset n pos inside = (1, omega arith, omega arith, omega arith, refl)

abbrev pub dribbled : ByteSource
dribbled = record { len = 7; read_at = dribble; as_slice = none }

pub dribbled-Serves : Serves dribbled crlf.bytes
dribbled-Serves = record { size = refl; reads = dribble-Reads; whole = λ s e. absurd cc }

abbrev pub always : ℕ → Bool
always n = true

pread_source-take_example :
    Serves (pread_source dribble 7) crlf.bytes
    × ((offset n : ℕ)
        → (pread_source dribble 7).read_at offset n ≡ ok (take n (drop offset crlf.bytes)))
pread_source-take_example = pread_source-take dribble crlf.bytes dribble-Reads

find_pattern_from_lem_example :
    find_pattern_from dribbled 8 3 2 eol ≡ done (ok (search_from eol crlf.bytes 2))
find_pattern_from_lem_example =
    find_pattern_from_lem dribbled crlf.bytes dribbled-Serves eol eol-IsDelimiter crlf-IsSlice.bytes
      crlf-IsSlice.fits 8 3 2 (omega arith) (omega arith) (omega arith)

plan_partition_boundaries-find_partition_boundaries_pattern_example :
    plan_partition_boundaries always 8 dribbled 3 eol 2
    ≡ (find_partition_boundaries_pattern crlf 3 eol >>= λ rs. done (ok rs))
plan_partition_boundaries-find_partition_boundaries_pattern_example =
    plan_partition_boundaries-find_partition_boundaries_pattern always 8 dribbled crlf 3 eol 2
      dribbled-Serves crlf-IsSlice eol-IsDelimiter (omega arith) refl

-- Reads that fail from the offset 5 on.
abbrev flaky : ℕ → ℕ → Io (List ℕ)
flaky offset n = if leb 5 offset then err other_kind else dribble offset n

abbrev pub flaking : ByteSource
flaking = record { len = 7; read_at = flaky; as_slice = none }

pub flaking-MayServe : MayServe flaking crlf.bytes
flaking-MayServe = record {
  size = refl;
  reads = λ offset n pos inside. elim (Bool-cases (leb 5 offset)) [
    | inl late ↦ inr (other_kind, ground arith)
    | inr early ↦ inl (1, omega arith, omega arith, omega arith, ground arith)
  ];
}

plan_partition_boundaries-Settles_example :
    Returns
      (find_partition_boundaries_pattern crlf 3 eol)
      (λ rs. Settles flaking crlf.bytes (plan_partition_boundaries always 8 flaking 3 eol 2) rs)
plan_partition_boundaries-Settles_example =
    plan_partition_boundaries-Settles always 8 flaking crlf 3 eol 2 flaking-MayServe refl
      crlf-IsSlice eol-IsDelimiter (omega arith) refl
