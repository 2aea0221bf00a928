-- ===== src/Cli/Requests/Laws.antt =====
-- Every request that is accepted is one that the planners accept.
use mmap_chunker_core.Base.{
  ℕ, ◌≤◌, ◌<◌, ◌≡◌, ◌≢◌, refl, arith, List, [], ◌∷◌, length, Bool-cases, Option, none, some,
  Option-cases, inl, inr, Result-cases, ok, leb, All, isize_max, usize_max,
}
use mmap_chunker_core.Scanner.Chunks.Laws.{IsDelimiter}
use mmap_chunker_core.Source.Planner.{
  SourceMode, mmap_mode, windowed_mode, pread_mode, new_options, with_window_bytes,
}
use mmap_chunker_core.Cli.Values.{min_window_bytes}
use mmap_chunker_core.Cli.Arguments.{
  Options, unset, partition_flags, partition_files_flags, argument_loop, replace_file, push_file,
}
use mmap_chunker_core.Cli.Requests.{
  Engine, mapped, sourced, select_engine, Request, request, check_partition, check_partition_files,
  partition_request, partition_files_request,
}
use mmap_chunker_core.Cli.Arguments.Laws.{IsInRange, unset-IsInRange, argument_loop-IsInRange}

-- An engine whose window and buffer are in range.
abbrev pub IsEngine : Engine → Type 0
IsEngine mapped = Unit {0}
IsEngine (sourced options) =
    (options.mode ≢ mmap_mode)
    × (min_window_bytes ≤ options.window_bytes)
    × (options.window_bytes ≤ usize_max)
    × (0 < options.scan_buffer_bytes)
    × (options.scan_buffer_bytes ≤ isize_max)

-- A request that the planners accept: some partitions, a delimiter of bytes that is not empty, a worker
-- that is one of the partitions, and an engine in range.
pub record IsRequest {Operands : Type 0} (r : Request Operands) : Type 0 where
  pub some_parts : 0 < r.parts
  pub addressable : r.parts ≤ usize_max
  pub delimited : IsDelimiter r.delimiter
  pub one_of_them : (k : ℕ) → r.worker ≡ some k → k < r.parts
  pub engine : IsEngine r.engine

select_engine-IsEngine :
    (window : Option ℕ) (source : SourceMode) (engine : Engine)
    → ((w : ℕ) → window ≡ some w → (min_window_bytes ≤ w) × (w ≤ usize_max))
    → select_engine window source ≡ ok engine
    → IsEngine engine
unfolding select_engine with_window_bytes new_options
select_engine-IsEngine (some w) mmap_mode engine set e = absurd cc
select_engine-IsEngine (some w) windowed_mode engine set e =
    let same : sourced
          (record { mode = windowed_mode; window_bytes = w; scan_buffer_bytes = 1048576 })
        ≡ engine =
      cc in
    let (least, most) = set w refl in
    rw (← same) (λ clash. cc, least, most, omega arith, omega arith)
select_engine-IsEngine (some w) pread_mode engine set e = absurd cc
select_engine-IsEngine none mmap_mode engine set e =
    let same : mapped ≡ engine = cc in rw (← same) tt
select_engine-IsEngine none windowed_mode engine set e =
    let same : sourced (new_options windowed_mode) ≡ engine = cc in
    rw (← same) (λ clash. cc, omega arith, omega arith, omega arith, omega arith)
select_engine-IsEngine none pread_mode engine set e =
    let same : sourced (new_options pread_mode) ≡ engine = cc in
    rw (← same) (λ clash. cc, omega arith, omega arith, omega arith, omega arith)

request-IsRequest :
    {Operands : Type 0} (operands : Operands) (parts : ℕ) (worker : Option ℕ) (s : Options)
    (r : Request Operands)
    → IsInRange s
    → s.parts ≡ some parts
    → ((k : ℕ) → worker ≡ some k → k < parts)
    → request operands parts worker s ≡ ok r
    → IsRequest r
request-IsRequest operands parts worker s r set asked chosen e =
    elim (Result-cases (select_engine s.window s.source)) [
      | inr (m, refused) ↦ absurd (ground arith)
      | inl (engine, selected) ↦
          let same : record {
            operands = operands;
            parts = parts;
            delimiter = s.delimiter;
            worker = worker;
            engine = engine;
          }
              ≡ r =
            ground arith in
          let (some_parts, addressable) = set.some_parts parts asked in
          rw (← same) (record {
            some_parts = some_parts;
            addressable = addressable;
            delimited = set.delimited;
            one_of_them = chosen;
            engine = select_engine-IsEngine s.window s.source engine set.some_window selected;
          })
    ]

check_partition-IsRequest :
    (s : Options) (file : Option (List ℕ)) (r : Request (List ℕ))
    → IsInRange s
    → check_partition s file ≡ ok r
    → IsRequest r
unfolding check_partition
check_partition-IsRequest s none r set e = absurd cc
check_partition-IsRequest s (some file) r set e = elim (Option-cases s.parts) [
  | inl unasked ↦ absurd (ground arith)
  | inr (parts, asked) ↦ elim (Option-cases s.worker) [
    | inl all_workers ↦
        request-IsRequest file parts none s r set asked (λ k f. absurd cc) (ground arith)
    | inr (worker, chosen) ↦ elim (Bool-cases (leb parts worker)) [
      | inl beyond ↦ absurd (ground arith)
      | inr below ↦
          request-IsRequest file parts (some worker) s r set asked (λ k f. ground arith)
            (ground arith)
    ]
  ]
]

-- Every `partition` command line that is accepted, whatever its arguments are and in which order they come,
-- asks for something that the planners accept: at least one partition, a delimiter of bytes that is not
-- empty, a worker that is one of the partitions, and for a sourced engine a window of at least 64 KiB and
-- a buffer. The arguments are as long as memory can hold.
pub partition_request-IsRequest :
    (arguments : List (List ℕ)) (r : Request (List ℕ))
    → All (λ (argument : List ℕ). length argument ≤ isize_max) arguments
    → partition_request arguments ≡ ok r
    → IsRequest r
unfolding partition_request
partition_request-IsRequest arguments r small e =
    elim (Result-cases (argument_loop partition_flags replace_file arguments unset none)) [
      | inr (m, refused) ↦ absurd (ground arith)
      | inl ((s, file), looped) ↦
          check_partition-IsRequest s file r
            (argument_loop-IsInRange partition_flags replace_file arguments unset s none file small
              unset-IsInRange looped)
            (ground arith)
    ]

check_partition_files-IsRequest :
    (s : Options) (files : List (List ℕ)) (r : Request (List (List ℕ)))
    → IsInRange s
    → check_partition_files s files ≡ ok r
    → IsRequest r
unfolding check_partition_files
check_partition_files-IsRequest s [] r set e = absurd (ground arith)
check_partition_files-IsRequest s (f ∷ fs) r set e = elim (Option-cases s.parts) [
  | inl unasked ↦ absurd (ground arith)
  | inr (parts, asked) ↦
      request-IsRequest (f ∷ fs) parts none s r set asked (λ k g. absurd cc) (ground arith)
]

-- The same of every `partition-files` command line that is accepted.
pub partition_files_request-IsRequest :
    (arguments : List (List ℕ)) (r : Request (List (List ℕ)))
    → All (λ (argument : List ℕ). length argument ≤ isize_max) arguments
    → partition_files_request arguments ≡ ok r
    → IsRequest r
unfolding partition_files_request
partition_files_request-IsRequest arguments r small e =
    elim (Result-cases (argument_loop partition_files_flags push_file arguments unset [])) [
      | inr (m, refused) ↦ absurd (ground arith)
      | inl ((s, files), looped) ↦
          check_partition_files-IsRequest s files r
            (argument_loop-IsInRange partition_files_flags push_file arguments unset s [] files
              small unset-IsInRange looped)
            (ground arith)
    ]
