-- ===== src/Ffi/Refinement.antt =====
-- The six scans of the C surface as calls, what each of them asks for, and that the entry points do it.
use mathlib.Core.Path.{subst}
use mmap_chunker_core.Base.{
  All, All-take, length-take, Bool, false, not, ◌&&◌, All, ℕ, suc, ◌≤◌, ◌≡◌, arith, max, List, [],
  ◌∷◌, length, take, Option, none, some, Option-cases, Run, done, Result, Result-cases, ok, err, Io,
  isize_max, usize_max, ltb, ◌==◌, if◌then◌else◌, inl, inr,
}
use mmap_chunker_core.Slice.{len, IsSlice}
use mmap_chunker_core.Bits.Zeros.{IsByte}
use mmap_chunker_core.Scanner.Chunks.Reference.{chunks_empty}
use mmap_chunker_core.Scanner.Chunks.Laws.{
  IsDelimiter, find_chunk_boundaries-chunks_of, find_chunk_boundaries_pattern-chunks_of,
}
use mmap_chunker_core.Scanner.Partition.Correct.{
  partitions_empty, find_partition_boundaries-partitions,
  find_partition_boundaries_pattern-partitions,
}
use mmap_chunker_core.Plan.{ChunkPlan, from_ranges, count}
use mmap_chunker_core.Pin.{Metadata}
use mmap_chunker_core.Chunker.Ops.{
  Op, delimited, fixed_size, partition, partition_pattern, delimited_pattern, plan_of,
}
use mmap_chunker_core.Ffi.{
  Message, handle_null, identity_changed, delimiter_len_zero, delimiter_null, delimiter_len_range,
  requested_zero, Engine, World, check_engine_pin, report, cleared, set_plan,
}
use mmap_chunker_core.Ffi.Entries.{
  mmap_engine_scan_chunks, mmap_engine_scan_chunks_ex, mmap_engine_scan_chunks_pattern,
  mmap_engine_scan_fixed, mmap_engine_partition_records, mmap_engine_partition_records_pattern,
}

-- A delimiter pointer is the bytes that can be read there, and comes with the length that is passed.
pub data Call : Type 0 where
  scan_chunks : ℕ → Call
  scan_chunks_ex : ℕ → ℕ → Call
  scan_chunks_pattern : ℕ → Option (List ℕ) → ℕ → Call
  scan_fixed : ℕ → Call
  partition_records : ℕ → ℕ → Call
  partition_records_pattern : ℕ → Option (List ℕ) → ℕ → Call

-- The delimiter that a pointer and a length make up, or why it is refused.
abbrev pub delimiter_of : Option (List ℕ) → ℕ → Result Message (List ℕ)
delimiter_of delimiter delimiter_len =
    if delimiter_len == 0 then err delimiter_len_zero else elim delimiter [
      | none ↦ err delimiter_null
      | some bytes ↦
          if ltb isize_max delimiter_len
          then err delimiter_len_range
          else ok (take delimiter_len bytes)
    ]

-- What a call asks for, if its arguments are accepted.
abbrev pub request : Call → Result Message Op
request (scan_chunks chunk_size) = ok (delimited chunk_size 10)
request (scan_chunks_ex chunk_size d) = ok (delimited chunk_size d)
request (scan_chunks_pattern chunk_size p n) = elim (delimiter_of p n) [
  | err m ↦ err m
  | ok pattern ↦ ok (delimited_pattern chunk_size pattern)
]
request (scan_fixed chunk_size) = ok (fixed_size chunk_size)
request (partition_records num d) = ok (partition num d)
request (partition_records_pattern num p n) = elim (delimiter_of p n) [
  | err m ↦ err m
  | ok pattern ↦ ok (partition_pattern num pattern)
]

-- A request of 0 partitions of a file that has bytes.
abbrev pub asks_zero : Op → List ℕ → Bool
asks_zero (delimited chunk_size d) xs = false
asks_zero (fixed_size chunk_size) xs = false
asks_zero (partition num d) xs = not (length xs == 0) && (num == 0)
asks_zero (partition_pattern num p) xs = not (length xs == 0) && (num == 0)
asks_zero (delimited_pattern chunk_size p) xs = false

-- The safety contract of a call: bytes are bytes, and a pointer can be read as far as its length.
abbrev pub IsReadable : Option (List ℕ) → ℕ → Type 0
IsReadable none n = Unit {0}
IsReadable (some bytes) n = All IsByte bytes × (n ≤ length bytes)

abbrev pub IsValidCall : Call → Type 0
IsValidCall (scan_chunks chunk_size) = Unit {0}
IsValidCall (scan_chunks_ex chunk_size d) = IsByte d
IsValidCall (scan_chunks_pattern chunk_size p n) = IsReadable p n
IsValidCall (scan_fixed chunk_size) = chunk_size ≤ usize_max
IsValidCall (partition_records num d) = IsByte d
IsValidCall (partition_records_pattern num p n) = IsReadable p n

-- A delimiter that is accepted is one that the planners take.
pub delimiter_of-IsDelimiter :
    (bytes : List ℕ) (n : ℕ) (pattern : List ℕ)
    → IsReadable (some bytes) n
    → delimiter_of (some bytes) n ≡ ok pattern
    → IsDelimiter pattern
delimiter_of-IsDelimiter bytes n pattern (all, fits) h =
    let same : take n bytes ≡ pattern = ground arith in
    subst IsDelimiter same (record {
      bytes = All-take IsByte n bytes all;
      fits = ground (arith, length-take n bytes);
      nonempty = ground (arith, length-take n bytes);
    })

module _ {FilePath : Type 0} (text : Message → List ℕ) (metadata : FilePath → Io Metadata) where
  abbrev pub enter : Call → World FilePath → Run (ℕ × World FilePath)
  enter (scan_chunks chunk_size) = mmap_engine_scan_chunks text metadata chunk_size
  enter (scan_chunks_ex chunk_size d) = mmap_engine_scan_chunks_ex text metadata chunk_size d
  enter (scan_chunks_pattern chunk_size p n) =
      mmap_engine_scan_chunks_pattern text metadata chunk_size p n
  enter (scan_fixed chunk_size) = mmap_engine_scan_fixed text metadata chunk_size
  enter (partition_records num d) = mmap_engine_partition_records text metadata num d
  enter (partition_records_pattern num p n) =
      mmap_engine_partition_records_pattern text metadata num p n

  -- The first reason to refuse a call, in the order of the checks, or the engine and the plan that it
  -- gets.
  abbrev pub decide : Call → World FilePath → Result Message (Engine FilePath × ChunkPlan)
  decide call w = elim w.handle [
    | none ↦ err handle_null
    | some engine ↦ elim (request call) [
      | err m ↦ err m
      | ok op ↦ elim (check_engine_pin metadata engine) [
        | err mismatch ↦ err (identity_changed mismatch)
        | ok u ↦
            if asks_zero op engine.mmap.bytes
            then err requested_zero
            else ok (engine, plan_of op engine.mmap.bytes)
      ]
    ]
  ]

  -- What a call does: a refused one reports the reason and changes nothing else; an accepted one clears
  -- the error, gives the engine its new plan, and answers the count.
  abbrev pub response : Call → World FilePath → ℕ × World FilePath
  response call w = elim (decide call w) [
    | err m ↦ (0, report text m (cleared text w))
    | ok (engine, plan) ↦ set_plan text engine (cleared text w) plan
  ]

  enter_ex :
      (chunk_size d : ℕ) (w : World FilePath)
      → IsByte d
      → ((engine : Engine FilePath) → w.handle ≡ some engine → IsSlice engine.mmap)
      → enter (scan_chunks_ex chunk_size d) w ≡ done (response (scan_chunks_ex chunk_size d) w)
  unfolding mmap_engine_scan_chunks_ex from_ranges count
  enter_ex chunk_size d w byte mapped = elim (Option-cases w.handle) [
    | inl e ↦ ground arith
    | inr (engine, e) ↦ ground (
      arith,
      find_chunk_boundaries-chunks_of engine.mmap chunk_size d (mapped engine e) byte,
      chunks_empty (d ∷ []) engine.mmap.bytes (max chunk_size 1) (suc (len engine.mmap)),
    )
  ]

  enter_fixed :
      (chunk_size : ℕ) (w : World FilePath)
      → enter (scan_fixed chunk_size) w ≡ done (response (scan_fixed chunk_size) w)
  unfolding mmap_engine_scan_fixed
  enter_fixed chunk_size w = ground arith

  enter_partition :
      (num d : ℕ) (w : World FilePath)
      → IsByte d
      → ((engine : Engine FilePath) → w.handle ≡ some engine → IsSlice engine.mmap)
      → enter (partition_records num d) w ≡ done (response (partition_records num d) w)
  unfolding mmap_engine_partition_records from_ranges count
  enter_partition num d w byte mapped = elim (Option-cases w.handle) [
    | inl e ↦ ground arith
    | inr (engine, e) ↦ ground (
      arith,
      find_partition_boundaries-partitions engine.mmap num d (mapped engine e) byte,
      partitions_empty (d ∷ []) engine.mmap.bytes num,
    )
  ]

  enter_pattern :
      (chunk_size : ℕ) (p : Option (List ℕ)) (n : ℕ) (w : World FilePath)
      → IsReadable p n
      → ((engine : Engine FilePath) → w.handle ≡ some engine → IsSlice engine.mmap)
      → enter (scan_chunks_pattern chunk_size p n) w
        ≡ done (response (scan_chunks_pattern chunk_size p n) w)
  unfolding mmap_engine_scan_chunks_pattern
  enter_pattern chunk_size none n w readable mapped = ground arith
  enter_pattern chunk_size (some bytes) n w readable mapped = elim (Option-cases w.handle) [
    | inl e ↦ ground arith
    | inr (engine, e) ↦ elim (Result-cases (delimiter_of (some bytes) n)) [
      | inr (m, q) ↦ ground arith
      | inl (pattern, q) ↦ ground (
        arith,
        find_chunk_boundaries_pattern-chunks_of engine.mmap chunk_size pattern (mapped engine e)
            (delimiter_of-IsDelimiter bytes n pattern readable q),
      )
    ]
  ]

  enter_partition_pattern :
      (num : ℕ) (p : Option (List ℕ)) (n : ℕ) (w : World FilePath)
      → IsReadable p n
      → ((engine : Engine FilePath) → w.handle ≡ some engine → IsSlice engine.mmap)
      → enter (partition_records_pattern num p n) w
        ≡ done (response (partition_records_pattern num p n) w)
  unfolding mmap_engine_partition_records_pattern from_ranges count
  enter_partition_pattern num none n w readable mapped = ground arith
  enter_partition_pattern num (some bytes) n w readable mapped = elim (Option-cases w.handle) [
    | inl e ↦ ground arith
    | inr (engine, e) ↦ elim (Result-cases (delimiter_of (some bytes) n)) [
      | inr (m, q) ↦ ground arith
      | inl (pattern, q) ↦ ground (
        arith,
        find_partition_boundaries_pattern-partitions engine.mmap num pattern (mapped engine e)
            (delimiter_of-IsDelimiter bytes n pattern readable q),
        partitions_empty pattern engine.mmap.bytes num,
      )
    ]
  ]

  -- Every scan entry point, on a null handle or an engine whose map is a slice and on arguments that keep
  -- the safety contract, returns what the calls ask for in one place: the reasons to refuse in their
  -- order, the null handle, the delimiter, the pin, the request of 0 partitions of a file with bytes,
  -- each with its message and nothing else changed; and otherwise the plan of the request, its count,
  -- and a cleared error. No planner panics behind these checks.
  pub enter_lem :
      (call : Call) (w : World FilePath)
      → IsValidCall call
      → ((engine : Engine FilePath) → w.handle ≡ some engine → IsSlice engine.mmap)
      → enter call w ≡ done (response call w)
  unfolding mmap_engine_scan_chunks
  enter_lem (scan_chunks chunk_size) w valid mapped = enter_ex chunk_size 10 w (omega arith) mapped
  enter_lem (scan_chunks_ex chunk_size d) w valid mapped = enter_ex chunk_size d w valid mapped
  enter_lem (scan_chunks_pattern chunk_size p n) w valid mapped =
      enter_pattern chunk_size p n w valid mapped
  enter_lem (scan_fixed chunk_size) w valid mapped = enter_fixed chunk_size w
  enter_lem (partition_records num d) w valid mapped = enter_partition num d w valid mapped
  enter_lem (partition_records_pattern num p n) w valid mapped =
      enter_partition_pattern num p n w valid mapped
