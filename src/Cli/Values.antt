-- ===== src/Cli/Values.antt =====
-- The values of the options, of src/bin/mmap-chunker.rs. An argument is its bytes; `to_str` asks whether
-- they are UTF-8.
pub mod Laws
use mmap_chunker_core.Base.{
  ℕ, zero, suc, ◌+◌, ◌-◌, ◌*◌, ◌%◌, List, [], ◌∷◌, length, Bool, true, false, ◌&&◌, ◌||◌, not,
  Option, none, some, Result, ok, err, ◌==◌, ltb, leb, if◌then◌else◌, usize_max,
}
use mmap_chunker_core.Scanner.Partition.{slices_equal}
use mmap_chunker_core.Source.Planner.{SourceMode, mmap_mode, windowed_mode, pread_mode}
use mmap_chunker_core.Cli.{Flag, Message, not_text, invalid_value, zero_parts, small_window}

-- `from_utf8` on the bytes that follow, of which `missing` continue a character, the next one in `lo..=hi`.
unfoldable pub utf8_from : ℕ → ℕ → ℕ → List ℕ → Bool
utf8_from missing lo hi [] = missing == 0
utf8_from (suc missing) lo hi (b ∷ bs) = leb lo b && leb b hi && utf8_from missing 0x80 0xBF bs
utf8_from zero lo hi (b ∷ bs) =
    let one = utf8_from 0 0x80 0xBF bs in
    let two = utf8_from 1 0x80 0xBF bs in
    let three =
      utf8_from 2 (if b == 0xE0 then 0xA0 else 0x80) (if b == 0xED then 0x9F else 0xBF) bs in
    let four =
      utf8_from 3 (if b == 0xF0 then 0x90 else 0x80) (if b == 0xF4 then 0x8F else 0xBF) bs in
    if ltb b 0x80
    then one
    else if leb 0xC2 b && leb b 0xDF
    then two
    else if leb 0xE0 b && leb b 0xEF
    then three
    else if leb 0xF0 b && leb b 0xF4
    then four
    else false

unfoldable pub is_utf8 : List ℕ → Bool
is_utf8 value = utf8_from 0 0x80 0xBF value

abbrev pub is_ascii_digit : ℕ → Bool
is_ascii_digit b = leb 48 b && leb b 57

-- The digits of `str::parse` behind the sign, with the number so far; `limit` is the largest number.
unfoldable pub parse_digits : ℕ → ℕ → List ℕ → Option ℕ
parse_digits limit n [] = some n
parse_digits limit n (b ∷ bs) =
    let n' = n * 10 + (b - 48) in
    let rest = parse_digits limit n' bs in if is_ascii_digit b && leb n' limit then rest else none

-- `str::parse` of an unsigned integer: a `+` may come first, and a digit has to follow.
unfoldable pub parse_unsigned : ℕ → List ℕ → Option ℕ
parse_unsigned limit [] = none
parse_unsigned limit (b ∷ bs) =
    let signed : Option ℕ = elim bs [ [] ↦ none | d ∷ ds ↦ parse_digits limit 0 (d ∷ ds) ] in
    let plain = parse_digits limit 0 (b ∷ bs) in if b == 43 then signed else plain

abbrev pub parse_usize : List ℕ → Option ℕ
parse_usize = parse_unsigned usize_max

-- The text of a value as a number, or a message.
unfoldable pub number : Flag → List ℕ → Result Message ℕ
number flag value =
    let parsed : Result Message ℕ = elim (parse_usize value) [
      | none ↦ err (invalid_value flag value)
      | some n ↦ ok n
    ] in
    if is_utf8 value then parsed else err (not_text flag)

unfoldable pub parse_parts : List ℕ → Result Message ℕ
parse_parts value = elim (number Flag.parts value) [
  | err e ↦ err e
  | ok n ↦ if n == 0 then err zero_parts else ok n
]

unfoldable pub parse_worker : List ℕ → Result Message ℕ
parse_worker value = number Flag.worker value

-- `MIN_WINDOW_BYTES`
abbrev pub min_window_bytes : ℕ
min_window_bytes = 65536

unfoldable pub parse_window : List ℕ → Result Message ℕ
parse_window value = elim (number Flag.window value) [
  | err e ↦ err e
  | ok n ↦ if ltb n min_window_bytes then err small_window else ok n
]

-- "mmap", "windowed" and "pread"
unfoldable pub parse_source : List ℕ → Result Message SourceMode
parse_source value =
    if slices_equal value (109 ∷ 109 ∷ 97 ∷ 112 ∷ [])
    then ok mmap_mode
    else if slices_equal value (119 ∷ 105 ∷ 110 ∷ 100 ∷ 111 ∷ 119 ∷ 101 ∷ 100 ∷ [])
    then ok windowed_mode
    else if slices_equal value (112 ∷ 114 ∷ 101 ∷ 97 ∷ 100 ∷ [])
    then ok pread_mode
    else err (invalid_value Flag.source value)

-- `bytes().all(test)`
abbrev pub all {ℓ} : {A : Type ℓ} → (A → Bool) → List A → Bool
all test [] = true
all test (x ∷ xs) = test x && all test xs

abbrev pub is_empty_text : List ℕ → Bool
is_empty_text value = length value == 0

unfoldable pub parse_delimiter_byte : List ℕ → Result Message ℕ
parse_delimiter_byte value =
    let invalid = invalid_value Flag.delimiter_byte value in
    let parsed : Result Message ℕ = elim (parse_unsigned 65535 value) [
      | none ↦ err invalid
      | some n ↦ if leb n 255 then ok n else err invalid
    ] in
    if not (is_utf8 value)
    then err (not_text Flag.delimiter_byte)
    else if is_empty_text value || not (all is_ascii_digit value)
    then err invalid
    else parsed

abbrev pub is_ascii_hexdigit : ℕ → Bool
is_ascii_hexdigit b = is_ascii_digit b || (leb 65 b && leb b 70) || (leb 97 b && leb b 102)

-- The value of a hexadecimal digit.
abbrev pub hex_value : ℕ → ℕ
hex_value b = if leb b 57 then b - 48 else if leb b 70 then b - 55 else b - 87

unfoldable pub decode_hex_pair : ℕ → ℕ → ℕ
decode_hex_pair hi lo = hex_value hi * 16 + hex_value lo

-- `chunks_exact(2).map(decode_hex_pair)`
unfoldable pub decode_hex : List ℕ → List ℕ
decode_hex [] = []
decode_hex (a ∷ []) = []
decode_hex (a ∷ b ∷ rest) = decode_hex_pair a b ∷ decode_hex rest

unfoldable pub parse_delimiter_hex : List ℕ → Result Message (List ℕ)
parse_delimiter_hex value =
    let invalid = err (invalid_value Flag.delimiter_hex value) in
    if not (is_utf8 value)
    then invalid
    else if is_empty_text value || not (length value % 2 == 0) || not (all is_ascii_hexdigit value)
    then invalid
    else ok (decode_hex value)
