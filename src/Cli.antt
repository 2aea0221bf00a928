-- ===== src/Cli.antt =====
-- src/bin/mmap-chunker.rs: the command line program. What its functions return: a message that ends the
-- program, or a value. The texts of the messages are left out, their values are kept where a path or an
-- argument stands in them.
pub mod Values
pub mod Arguments
pub mod Requests
pub mod Boundary
pub mod Logical
pub mod Sourced
pub mod Emission
pub mod Commands
use mmap_chunker_core.Base.{
  ℕ, ◌+◌, ◌*◌, ◌^◌, List, Option, none, some, Run, done, panicked, out_of_fuel, Result, ok, err,
  ErrorKind, Io, ltb, leb, if◌then◌else◌, usize_max,
}

-- The options that take a value.
pub data Flag : Type 0 where
  parts delimiter_byte delimiter_hex worker source window : Flag

-- The errors of the arguments, and those of the planners. A list of bytes is the argument that is named.
pub data Message : Type 0 where
  missing_command missing_file missing_parts : Message
  unknown_command unexpected_option unexpected_argument : List ℕ → Message
  duplicate_option missing_value not_text : Flag → Message
  invalid_value : Flag → List ℕ → Message
  duplicate_delimiter zero_parts small_window worker_too_large window_needs_windowed : Message
  failed_to_plan : ErrorKind → Message
  dataset_too_large target_overflow offset_too_large value_too_large : Message
  no_source no_state before_first_source length_underflow legacy_engine : Message
  failed_to_open failed_to_read : ErrorKind → Message
  source_length_changed : Message

abbrev pub Attempt : Type 0 → Type 0
Attempt A = Run (Result Message A)

-- `?`
infixl 5 ◌>>=◌
abbrev pub ◌>>=◌ : {A B : Type 0} → Attempt A → (A → Attempt B) → Attempt B
done (ok a) >>= f = f a
done (err e) >>= f = done (err e)
panicked >>= f = panicked
out_of_fuel >>= f = out_of_fuel

-- `ok_or_else`
abbrev pub ok_or : {A : Type 0} → Option A → Message → Attempt A
ok_or none e = done (err e)
ok_or (some a) e = done (ok a)

-- An expression that may panic, and has no error.
abbrev pub returned : {A : Type 0} → Run A → Attempt A
returned (done a) = done (ok a)
returned panicked = panicked
returned out_of_fuel = out_of_fuel

-- A read or an opening whose error is put into a message.
abbrev pub map_err : {A : Type 0} → (ErrorKind → Message) → Run (Io A) → Attempt A
map_err message (done (ok a)) = done (ok a)
map_err message (done (err e)) = done (err (message e))
map_err message panicked = panicked
map_err message out_of_fuel = out_of_fuel

-- `u128::checked_add` and `u128::checked_mul`
abbrev pub checked_add : ℕ → ℕ → Option ℕ
checked_add a b = if ltb (a + b) (2 ^ 128) then some (a + b) else none

abbrev pub checked_mul : ℕ → ℕ → Option ℕ
checked_mul a b = if ltb (a * b) (2 ^ 128) then some (a * b) else none

-- `usize::try_from` of a `u128`
abbrev pub try_usize : ℕ → Option ℕ
try_usize a = if leb a usize_max then some a else none

unfoldable pub usize_to_u128 : ℕ → Attempt ℕ
usize_to_u128 value = ok_or (try_usize value) value_too_large
