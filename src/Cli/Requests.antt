-- ===== src/Cli/Requests.antt =====
-- What `run_partition` and `run_partition_files` of src/bin/mmap-chunker.rs make of their arguments: the
-- checks behind the loop, and the choice of the engine.
pub mod Laws
use mmap_chunker_core.Base.{
  ℕ, List, [], ◌∷◌, Bool, true, false, ◌||◌, Option, none, some, Result, ok, err, leb,
  if◌then◌else◌,
}
use mmap_chunker_core.Scanner.Partition.{slices_equal}
use mmap_chunker_core.Source.Planner.{
  SourceMode, mmap_mode, windowed_mode, pread_mode, PlannerOptions, new_options, with_window_bytes,
}
use mmap_chunker_core.Cli.{
  Message, missing_file, missing_parts, worker_too_large, window_needs_windowed,
}
use mmap_chunker_core.Cli.Arguments.{
  Options, unset, partition_flags, partition_files_flags, argument_loop, replace_file, push_file,
}

-- The whole maps, or sources that are opened with options.
pub data Engine : Type 0 where
  mapped : Engine
  sourced : PlannerOptions → Engine

-- A window asks for the windowed mode.
unfoldable pub select_engine : Option ℕ → SourceMode → Result Message Engine
select_engine (some window_bytes) mmap_mode = err window_needs_windowed
select_engine (some window_bytes) windowed_mode =
    ok (sourced (with_window_bytes (new_options windowed_mode) window_bytes))
select_engine (some window_bytes) pread_mode = err window_needs_windowed
select_engine none mmap_mode = ok mapped
select_engine none windowed_mode = ok (sourced (new_options windowed_mode))
select_engine none pread_mode = ok (sourced (new_options pread_mode))

-- What a command asks for; `Operands` is the file of `partition`, or the files of `partition-files`.
pub record Request (Operands : Type 0) : Type 0 where
  pub operands : Operands
  pub parts : ℕ
  pub delimiter : List ℕ
  pub worker : Option ℕ
  pub engine : Engine

abbrev pub request :
    {Operands : Type 0} → Operands → ℕ → Option ℕ → Options → Result Message (Request Operands)
request operands parts worker s = elim (select_engine s.window s.source) [
  | err e ↦ err e
  | ok engine ↦ ok (record {
    operands = operands;
    parts = parts;
    delimiter = s.delimiter;
    worker = worker;
    engine = engine;
  })
]

-- The checks of `run_partition` behind its loop.
unfoldable pub check_partition : Options → Option (List ℕ) → Result Message (Request (List ℕ))
check_partition s none = err missing_file
check_partition s (some file) = elim s.parts [
  | none ↦ err missing_parts
  | some parts ↦ elim s.worker [
    | none ↦ request file parts none s
    | some worker ↦
        if leb parts worker then err worker_too_large else request file parts (some worker) s
  ]
]

-- Those of `run_partition_files`.
unfoldable pub check_partition_files :
    Options → List (List ℕ) → Result Message (Request (List (List ℕ)))
check_partition_files s files = elim s.parts [
  | none ↦ err missing_parts
  | some parts ↦ elim files [ [] ↦ err missing_file | f ∷ fs ↦ request (f ∷ fs) parts none s ]
]

unfoldable pub partition_request : List (List ℕ) → Result Message (Request (List ℕ))
partition_request arguments =
    elim (argument_loop partition_flags replace_file arguments unset none) [
      | err e ↦ err e
      | ok (s, file) ↦ check_partition s file
    ]

unfoldable pub partition_files_request : List (List ℕ) → Result Message (Request (List (List ℕ)))
partition_files_request arguments =
    elim (argument_loop partition_files_flags push_file arguments unset []) [
      | err e ↦ err e
      | ok (s, files) ↦ check_partition_files s files
    ]

-- "--help" and "-h"
unfoldable pub is_help : List ℕ → Bool
is_help argument =
    slices_equal argument (45 ∷ 45 ∷ 104 ∷ 101 ∷ 108 ∷ 112 ∷ [])
    || slices_equal argument (45 ∷ 104 ∷ [])

-- `arguments.len() == 1 && (…)`
unfoldable pub asks_help : List (List ℕ) → Bool
asks_help [] = false
asks_help (argument ∷ []) = is_help argument
asks_help (argument ∷ other ∷ rest) = false
