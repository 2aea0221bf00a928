-- ===== src/Tests/Commands.antt =====
-- Command lines on the file "a\r\nb\r\nc", mapped and read one byte at a time.
use mmap_chunker_core.Base.{ℕ, ◌≡◌, refl, List, [], ◌∷◌, none, Io, ok, err, arith, done, other_kind}
use mmap_chunker_core.Slice.{Slice}
use mmap_chunker_core.Pin.{Metadata}
use mmap_chunker_core.Scanner.Partition.Correct.{partitions}
use mmap_chunker_core.Source.{ByteSource}
use mmap_chunker_core.Source.Planner.{new_options, pread_mode, with_window_bytes}
use mmap_chunker_core.Cli.{
  Flag, worker_too_large, window_needs_windowed, duplicate_delimiter, missing_value,
  unexpected_option, unexpected_argument, missing_file,
}
use mmap_chunker_core.Cli.Values.{
  utf8_from, is_utf8, parse_digits, parse_unsigned, number, parse_parts, parse_worker, parse_window,
  parse_source, parse_delimiter_byte, decode_hex_pair, decode_hex, parse_delimiter_hex,
}
use mmap_chunker_core.Cli.Values.Laws.{value_from, parse_delimiter_hex-encode_hex}
use mmap_chunker_core.Cli.Arguments.{
  flag_of, is_seen, duplicate, set_value, argument_loop, replace_file, push_file, flag_text,
}
use mmap_chunker_core.Cli.Requests.{
  mapped, sourced, select_engine, Request, check_partition, check_partition_files,
  partition_request, partition_files_request, is_help, asks_help,
}
use mmap_chunker_core.Cli.Requests.Laws.{IsRequest, partition_request-IsRequest}
use mmap_chunker_core.Cli.Emission.Laws.{chosen_rows}
use mmap_chunker_core.Cli.Commands.{
  rows, assignment_rows, write_assignments, run_partition, run_partition_files,
}
use mmap_chunker_core.Cli.Commands.Laws.{IsFound, run_partition-chosen_rows}
use mmap_chunker_core.Cli.Commands.Datasets.{run_partition_files-IsDatasetPlan}
use mmap_chunker_core.Cli.Logical.{WorkerAssignment}
use mmap_chunker_core.Cli.Logical.Mapped.{contents}
use mmap_chunker_core.Cli.Logical.Correct.{IsDatasetPlan}
use mmap_chunker_core.Tests.Scans.{crlf, crlf-IsSlice, eol}
use mmap_chunker_core.Tests.Sources.{dribbled, dribbled-Serves, always}

program : Unit {0}
unfolding utf8_from is_utf8 parse_digits parse_unsigned number parse_parts parse_worker parse_window
    parse_source parse_delimiter_byte decode_hex_pair decode_hex parse_delimiter_hex flag_of is_seen
    duplicate set_value argument_loop replace_file push_file select_engine check_partition
    check_partition_files partition_request partition_files_request is_help asks_help new_options
    with_window_bytes value_from
program = tt

-- "3", "0d0a", "pread", "f"
abbrev three : List ℕ
three = 51 ∷ []

abbrev crlf_hex : List ℕ
crlf_hex = 48 ∷ 100 ∷ 48 ∷ 97 ∷ []

abbrev pread_text : List ℕ
pread_text = 112 ∷ 114 ∷ 101 ∷ 97 ∷ 100 ∷ []

abbrev file : List ℕ
file = 102 ∷ []

-- f --parts 3 --delimiter-hex 0d0a --source pread
abbrev by_reads : List (List ℕ)
by_reads =
    file
    ∷ flag_text Flag.parts
    ∷ three
    ∷ flag_text Flag.delimiter_hex
    ∷ crlf_hex
    ∷ flag_text Flag.source
    ∷ pread_text
    ∷ []

abbrev read_request : Request (List ℕ)
read_request = record {
  operands = file;
  parts = 3;
  delimiter = eol;
  worker = none;
  engine = sourced (new_options pread_mode);
}

accepted : partition_request by_reads ≡ ok read_request
unfolding program
accepted = refl

partition_request-IsRequest_example : IsRequest read_request
partition_request-IsRequest_example =
    partition_request-IsRequest by_reads read_request (omega arith) accepted

-- --parts 3 f f --delimiter-hex 0d0a
abbrev two_files : List (List ℕ)
two_files =
    flag_text Flag.parts ∷ three ∷ file ∷ file ∷ flag_text Flag.delimiter_hex ∷ crlf_hex ∷ []

abbrev files_request : Request (List (List ℕ))
files_request = record {
  operands = file ∷ file ∷ [];
  parts = 3;
  delimiter = eol;
  worker = none;
  engine = mapped;
}

files_accepted : partition_files_request two_files ≡ ok files_request
unfolding program
files_accepted = refl

-- What is refused: a worker past the parts, a window without its mode, the same option twice, an option
-- without its value, an unknown option, a second file.
refusals :
    (partition_request (file ∷ flag_text Flag.parts ∷ three ∷ flag_text Flag.worker ∷ three ∷ [])
      ≡ err worker_too_large)
    × (partition_request (
          file
          ∷ flag_text Flag.parts
          ∷ three
          ∷ flag_text Flag.window
          ∷ (54 ∷ 53 ∷ 53 ∷ 51 ∷ 54 ∷ [])
          ∷ [])
        ≡ err window_needs_windowed)
    × (partition_request
          (flag_text Flag.delimiter_hex ∷ crlf_hex ∷ flag_text Flag.delimiter_byte ∷ three ∷ [])
        ≡ err duplicate_delimiter)
    × (partition_request (file ∷ flag_text Flag.parts ∷ []) ≡ err (missing_value Flag.parts))
    × (partition_files_request (flag_text Flag.worker ∷ three ∷ [])
        ≡ err (unexpected_option (flag_text Flag.worker)))
    × (partition_request (file ∷ three ∷ []) ≡ err (unexpected_argument three))
    × (partition_request (flag_text Flag.parts ∷ three ∷ []) ≡ err missing_file)
unfolding program
refusals = (refl, refl, refl, refl, refl, refl, refl)

parse_delimiter_hex-encode_hex_example : parse_delimiter_hex crlf_hex ≡ ok eol
parse_delimiter_hex-encode_hex_example =
    parse_delimiter_hex-encode_hex eol (omega arith) (omega arith)

abbrev map_file : List ℕ → Io Slice
map_file path = ok crlf

abbrev no_metadata : List ℕ → Io Metadata
no_metadata path = err other_kind

abbrev window : List ℕ → ℕ → Io ByteSource
window path bytes = ok dribbled

abbrev reads : List ℕ → Io ByteSource
reads path = ok dribbled

abbrev size_of : List ℕ → Io ℕ
size_of path = ok 7

found : IsFound map_file window reads file crlf
found = record {
  found = refl;
  held = crlf-IsSlice;
  windowed = λ w least. (dribbled, refl, dribbled-Serves);
  pread = (dribbled, refl, dribbled-Serves);
}

run_partition-chosen_rows_example :
    run_partition map_file no_metadata always 8 reads window reads size_of by_reads
    ≡ done (ok (rows (chosen_rows (partitions eol crlf.bytes 3) none)))
unfolding asks_help
run_partition-chosen_rows_example =
    run_partition-chosen_rows map_file no_metadata always 8 reads window reads size_of
      (λ n small. refl) by_reads read_request crlf (omega arith) refl accepted found

run_partition_files-IsDatasetPlan_example :
    (workers : List WorkerAssignment) × (run_partition_files map_file no_metadata always 8 reads
        window reads size_of two_files
      ≡ done (ok (assignment_rows (write_assignments workers))))
    × IsDatasetPlan eol (contents (crlf ∷ crlf ∷ [])) 3 workers
unfolding asks_help
run_partition_files-IsDatasetPlan_example =
    run_partition_files-IsDatasetPlan map_file window reads size_of no_metadata always 8 reads
      two_files files_request (crlf ∷ crlf ∷ []) (omega arith) refl files_accepted
      (found, refl, (found, refl, tt)) (omega arith)
