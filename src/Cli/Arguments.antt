-- ===== src/Cli/Arguments.antt =====
-- The loops over the arguments of `run_partition` and `run_partition_files` of src/bin/mmap-chunker.rs.
-- They differ in the options that they know and in what they do with an operand.
pub mod Laws
use mmap_chunker_core.Base.{
  ℕ, List, [], ◌∷◌, ◌++◌, Bool, true, false, Option, none, some, Result, ok, err, ◌==◌,
  if◌then◌else◌,
}
use mmap_chunker_core.Scanner.Partition.{slices_equal}
use mmap_chunker_core.Source.Planner.{SourceMode, mmap_mode}
use mmap_chunker_core.Cli.{
  Flag, Message, duplicate_option, duplicate_delimiter, missing_value, unexpected_option,
  unexpected_argument,
}
use mmap_chunker_core.Cli.Values.{
  parse_parts, parse_worker, parse_window, parse_source, parse_delimiter_byte, parse_delimiter_hex,
}

-- The variables that the options set.
pub record Options : Type 0 where
  pub parts : Option ℕ
  pub delimiter : List ℕ
  pub delimiter_seen : Bool
  pub worker : Option ℕ
  pub source : SourceMode
  pub source_seen : Bool
  pub window : Option ℕ

-- The line feed is the delimiter that no option names.
abbrev pub unset : Options
unset = record {
  parts = none;
  delimiter = 0x0A ∷ [];
  delimiter_seen = false;
  worker = none;
  source = mmap_mode;
  source_seen = false;
  window = none;
}

-- "--parts" and the others
abbrev pub flag_text : Flag → List ℕ
flag_text Flag.parts = 45 ∷ 45 ∷ 112 ∷ 97 ∷ 114 ∷ 116 ∷ 115 ∷ []
flag_text Flag.delimiter_byte =
    45 ∷ 45 ∷ 100 ∷ 101 ∷ 108 ∷ 105 ∷ 109 ∷ 105 ∷ 116 ∷ 101 ∷ 114 ∷ 45 ∷ 98 ∷ 121 ∷ 116 ∷ 101 ∷ []
flag_text Flag.delimiter_hex =
    45 ∷ 45 ∷ 100 ∷ 101 ∷ 108 ∷ 105 ∷ 109 ∷ 105 ∷ 116 ∷ 101 ∷ 114 ∷ 45 ∷ 104 ∷ 101 ∷ 120 ∷ []
flag_text Flag.worker = 45 ∷ 45 ∷ 119 ∷ 111 ∷ 114 ∷ 107 ∷ 101 ∷ 114 ∷ []
flag_text Flag.source = 45 ∷ 45 ∷ 115 ∷ 111 ∷ 117 ∷ 114 ∷ 99 ∷ 101 ∷ []
flag_text Flag.window = 45 ∷ 45 ∷ 119 ∷ 105 ∷ 110 ∷ 100 ∷ 111 ∷ 119 ∷ []

-- The first of the options whose name the argument is.
unfoldable pub flag_of : List Flag → List ℕ → Option Flag
flag_of [] argument = none
flag_of (flag ∷ flags) argument =
    let rest = flag_of flags argument in
    if slices_equal argument (flag_text flag) then some flag else rest

-- The options in the order of the tests; only `partition` has `--worker`.
abbrev pub partition_flags : List Flag
partition_flags =
    Flag.parts ∷ Flag.delimiter_byte ∷ Flag.delimiter_hex ∷ Flag.worker ∷ Flag.source ∷ Flag.window
    ∷ []

abbrev pub partition_files_flags : List Flag
partition_files_flags =
    Flag.parts ∷ Flag.delimiter_byte ∷ Flag.delimiter_hex ∷ Flag.source ∷ Flag.window ∷ []

abbrev pub is_some {ℓ} : {A : Type ℓ} → Option A → Bool
is_some none = false
is_some (some a) = true

-- Whether an option has been given before.
unfoldable pub is_seen : Flag → Options → Bool
is_seen Flag.parts s = is_some s.parts
is_seen Flag.delimiter_byte s = s.delimiter_seen
is_seen Flag.delimiter_hex s = s.delimiter_seen
is_seen Flag.worker s = is_some s.worker
is_seen Flag.source s = s.source_seen
is_seen Flag.window s = is_some s.window

unfoldable pub duplicate : Flag → Message
duplicate Flag.delimiter_byte = duplicate_delimiter
duplicate Flag.delimiter_hex = duplicate_delimiter
duplicate Flag.parts = duplicate_option Flag.parts
duplicate Flag.worker = duplicate_option Flag.worker
duplicate Flag.source = duplicate_option Flag.source
duplicate Flag.window = duplicate_option Flag.window

abbrev pub and_set {ℓ} : {A : Type ℓ} → Result Message A → (A → Options) → Result Message Options
and_set (ok a) set = ok (set a)
and_set (err e) set = err e

-- The value of an option is read, and set.
unfoldable pub set_value : Flag → List ℕ → Options → Result Message Options
set_value Flag.parts value s = and_set (parse_parts value) λ n. record s { parts = some n }
set_value Flag.delimiter_byte value s =
    and_set (parse_delimiter_byte value)
      λ byte. record s { delimiter = byte ∷ []; delimiter_seen = true }
set_value Flag.delimiter_hex value s =
    and_set (parse_delimiter_hex value)
      λ bytes. record s { delimiter = bytes; delimiter_seen = true }
set_value Flag.worker value s = and_set (parse_worker value) λ n. record s { worker = some n }
set_value Flag.source value s =
    and_set (parse_source value) λ mode. record s { source = mode; source_seen = true }
set_value Flag.window value s = and_set (parse_window value) λ n. record s { window = some n }

-- `starts_with('-')`
abbrev pub is_dashed : List ℕ → Bool
is_dashed [] = false
is_dashed (b ∷ bs) = b == 45

module _ {Operands : Type 0} (flags : List Flag)
    (push : List ℕ → Operands → Result Message Operands) where
  unfoldable pub argument_loop :
      List (List ℕ) → Options → Operands → Result Message (Options × Operands)
  argument_loop [] s operands = ok (s, operands)
  argument_loop (argument ∷ []) s operands = elim (flag_of flags argument) [
    | some flag ↦ if is_seen flag s then err (duplicate flag) else err (missing_value flag)
    | none ↦
        if is_dashed argument
        then err (unexpected_option argument)
        else elim (push argument operands) [ err e ↦ err e | ok operands' ↦ ok (s, operands') ]
  ]
  argument_loop (argument ∷ value ∷ rest) s operands = elim (flag_of flags argument) [
    | some flag ↦ if is_seen flag s then err (duplicate flag) else elim (set_value flag value s) [
      | err e ↦ err e
      | ok s' ↦ argument_loop rest s' operands
    ]
    | none ↦
        if is_dashed argument
        then err (unexpected_option argument)
        else elim (push argument operands) [
          | err e ↦ err e
          | ok operands' ↦ argument_loop (value ∷ rest) s operands'
        ]
  ]

-- `file.replace(argument).is_some()`
unfoldable pub replace_file : List ℕ → Option (List ℕ) → Result Message (Option (List ℕ))
replace_file argument none = ok (some argument)
replace_file argument (some file) = err (unexpected_argument argument)

-- `files.push(argument)`
unfoldable pub push_file : List ℕ → List (List ℕ) → Result Message (List (List ℕ))
push_file argument files = ok (files ++ argument ∷ [])
