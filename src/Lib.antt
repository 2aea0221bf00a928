-- ===== src/Lib.antt =====
-- Verification of mmap-chunker-core: record-aligned byte-range planning over memory-mapped files.
--
-- The program cuts a file into byte ranges that end at record delimiters. src/scanner.rs holds the
-- searches and planners on a byte slice, src/plan.rs the plan that a handle keeps, src/pin.rs the
-- identity of a file that gates each scan, and src/source.rs plans over reads of bounded size.
-- src/lib.rs has the handle `MmapChunker` that puts them together, and src/ffi.rs the same for C: a
-- scan checks the pin, calls a planner on the mapped bytes, stores the plan and returns its count;
-- chunks are then read by index. src/bin/mmap-chunker.rs is the command line: `partition` plans over one
-- file, through the handle or over a source, and `partition-files` over several files as one dataset.
--
-- Where each part is modelled:
--   Base, Base/*     shared: Boolean tests, lists, runs that may panic, results, machine words. A value
--                    of `usize` is a natural number below 2^64 with its wrap or saturation written out.
--   Bits, Bits/*     the digits of a machine word, and what the SWAR mask of zero bytes marks
--   Search, Search/* naive search for a byte and for a pattern, the reference of the searches
--   Slice            Rust byte slices: an address and bytes, with the panics of indexing and slicing
--   Ranges           byte ranges and what it means that they cover a file
--   Scanner/Swar     find_byte_swar: aligned prefix, eight bytes at a time, tail
--   Scanner/Pattern  find_pattern_in_slice
--   Scanner/Chunks   find_chunk_boundaries, find_chunk_boundaries_pattern
--   Scanner/Cursor   ChunkCursor, PatternChunkCursor
--   Scanner/Fixed    fixed_chunk_count, fixed_chunk_bounds
--   Scanner/Partition  find_partition_boundaries, find_partition_boundaries_pattern
--   Plan             ChunkPlan of src/plan.rs
--   Pin              src/pin.rs on Unix
--   Chunker          MmapChunker of src/lib.rs; Chunker/Ops names its five scans as requests, and
--                    Chunker/Reaches the states that a handle can be in
--   Source           ByteSource of src/source.rs and what it asks of a source; Source/Read the search over
--                    reads, Source/Planner the buffered planner, Source/Failures to Source/Fallible
--                    their proofs for reads that may fail, Source/Reads and Source/Equal what follows
--                    for reads that do not, and Source/Sources the whole map and positional reads
--   Windowed         WindowedMmapFile::read_at of src/mmap.rs with its cached view; Windowed/Source the
--                    windowed source of src/source.rs
--   Ffi              src/ffi.rs: the engine behind a C handle and the pieces that its entry points share;
--                    Ffi/Errors the error buffer, Ffi/Entries the scans and get_chunk, Ffi/Open opening,
--                    Ffi/Refinement what the scans promise, Ffi/Parity and Ffi/View the C surface beside
--                    MmapChunker, Ffi/Plans planning over a path, Ffi/Opens opening beside the library.
--                    A null pointer is `none`, and a panic is caught as in the source.
--   Cli              src/bin/mmap-chunker.rs: the errors of its functions and its checked arithmetic.
--                    Cli/Values the values of the options, Cli/Arguments the loops over the arguments of
--                    run_partition and run_partition_files, which are one function `argument_loop` of the
--                    options that are known and of what is done with an operand, Cli/Requests the checks
--                    behind these loops with select_engine, Cli/Boundary the search state of a source and
--                    next_record_boundary, next_record_boundary_pattern, Cli/Logical
--                    plan_logical_partitions and ranges_for_interval, Cli/Sourced
--                    plan_logical_partitions_sourced and its searches over reads, Cli/Emission the rows,
--                    Cli/Commands run, its commands and what they emit. Both planners share the loop over
--                    the targets (`cut_loop`), the assignment of the parts (`assign`) and the cases before
--                    them (`plan_over`), which the source writes twice.
--                    Cli/Logical/Reference is the plan as a function of the bytes of the files, and
--                    Cli/Logical/* and Cli/Sourced/* the proofs that both planners compute it.
--   Fuzz             fuzz/fuzz_targets: Fuzz/Extremes is fixed_extremes.rs, Fuzz/Differential the oracles of
--                    scanner_differential.rs and Fuzz/Differential/Target what that asserts of an input
--   Tests            runs on small files, and the theorems applied to concrete values
-- The Scanner files, Plan, Pin, Chunker and Windowed hold code, and the files below them proofs and
-- the references of these. In Source, Ffi, Cli and Fuzz the code is in the files named for it above.
--
-- Loops. The `for` loops over 1..n and the scalar scans recurse on the rounds left. The `while`
-- loops run on fuel, one round more than the slice, or the buffer to fill, has bytes: each round
-- moves at least one byte forward, so the fuel does not run out, and the theorems that say what a
-- run returns exclude `out_of_fuel`. The loops of the command line over the reads of a source have one
-- round more than the source has bytes.
--
-- Assumptions. A slice holds bytes and is not longer than `isize::MAX`, as Rust guarantees, and so
-- is a delimiter pattern. `usize` has 64 bits and words are read in little-endian order, as the
-- source asks for. The capacity of a vector is not modelled, nor running out of memory, except for
-- the scan buffer, whose allocation the source checks.
--
-- Arguments of the model: what mapping a path returns (`map_file`), and what `stat` tells of a path
-- at the time of a call (`metadata`), which may change from call to call; for the C surface also
-- whether a path may be mapped (`probe`) and the text of a message (`text`); for planning over a
-- path what the system reads and maps (`read_exact_at`, `mmap`), how a path is opened, where the
-- scan buffer stands and whether it can be allocated (`allocates`). A buffer is the bytes filled
-- in. For the command line also the size that the system gives for a path (`stat`). Its arguments and
-- its paths are their bytes, and what std does with them (UTF-8, decimal and hexadecimal digits, the
-- binary search in the ordered prefix sums) is written out.
--
-- A source answers a read by its offset and its length alone, so one whose short reads vary from call to
-- call is not covered. `windowed_source` reads through the view that it is given and drops the new one,
-- which the laws allow since they hold for every cached view.
--
-- Not modelled: the opening and closing of files and maps in src/mmap.rs, the text of error messages
-- and of the help, the branches for Windows, and the bindings, examples, tests and benchmarks. Of the
-- command line, the rows are the result of a run: their text and a failure to write it are left out, as
-- are its debug assertions and the message for a source that is not open where one has just been opened.
pub mod Base
pub mod Bits
pub mod Search
pub mod Slice
pub mod Ranges
pub mod Scanner
pub mod Plan
pub mod Pin
pub mod Chunker
pub mod Source
pub mod Windowed
pub mod Ffi
pub mod Cli
pub mod Fuzz
mod Tests
