-- ===== src/Cli/Values/Laws.antt =====
-- What the values of the options are read as.
use mmap_chunker_core.Base.{
  ℕ, ◌+◌, ◌-◌, ◌*◌, ◌/◌, ◌%◌, ◌≤◌, ◌<◌, ◌≡◌, refl, arith, List, [], ◌∷◌, length, true, ◌&&◌, not,
  none, some, ok, err, ◌==◌, ltb, leb, if◌then◌else◌, All, usize_max,
}
use mmap_chunker_core.Bits.Zeros.{IsByte}
use mmap_chunker_core.Cli.{Flag, not_text, invalid_value, zero_parts}
use mmap_chunker_core.Cli.Values.{
  utf8_from, is_utf8, is_ascii_digit, parse_digits, parse_unsigned, number, parse_parts, all,
  parse_delimiter_byte, is_ascii_hexdigit, hex_value, decode_hex_pair, decode_hex,
  parse_delimiter_hex,
}

-- The number that digits stand for, behind `n`.
unfoldable pub value_from : ℕ → List ℕ → ℕ
value_from n [] = n
value_from n (b ∷ bs) = value_from (n * 10 + (b - 48)) bs

value_from-le : (n : ℕ) (bs : List ℕ) → n ≤ value_from n bs
unfolding value_from
value_from-le n [] = omega arith
value_from-le n (b ∷ bs) = omega (arith, value_from-le (n * 10 + (b - 48)) bs)

-- The digits are read to the number that they stand for, as long as it does not pass the limit.
parse_digits-value_from :
    (limit n : ℕ) (bs : List ℕ)
    → n ≤ limit
    → parse_digits limit n bs ≡ (
        if all is_ascii_digit bs && leb (value_from n bs) limit
        then some (value_from n bs)
        else none)
unfolding parse_digits value_from
parse_digits-value_from limit n [] h = ground arith
parse_digits-value_from limit n (b ∷ bs) h = ground (
  arith,
  value_from-le (n * 10 + (b - 48)) bs,
  parse_digits-value_from limit (n * 10 + (b - 48)) bs,
)

parse_unsigned-value_from :
    (limit : ℕ) (text : List ℕ)
    → 0 < length text
    → all is_ascii_digit text ≡ true
    → parse_unsigned limit text
      ≡ (if leb (value_from 0 text) limit then some (value_from 0 text) else none)
unfolding parse_unsigned
parse_unsigned-value_from limit [] pos digits = absurd (omega arith)
parse_unsigned-value_from limit (b ∷ bs) pos digits =
    ground (arith, parse_digits-value_from limit 0 (b ∷ bs))

-- ASCII is UTF-8.
digits-is_utf8 : (text : List ℕ) → all is_ascii_digit text ≡ true → is_utf8 text ≡ true
unfolding is_utf8 utf8_from
digits-is_utf8 [] digits = refl
digits-is_utf8 (b ∷ bs) digits = ground (arith, digits-is_utf8 bs)

-- `--parts` with a text of decimal digits, however many: the number that they stand for, unless it is 0 or
-- does not fit `usize`, each with its message.
pub parse_parts-value_from :
    (text : List ℕ)
    → 0 < length text
    → all is_ascii_digit text ≡ true
    → let n = value_from 0 text in
      parse_parts text ≡ (
        if ltb usize_max n
        then err (invalid_value Flag.parts text)
        else if n == 0
        then err zero_parts
        else ok n)
unfolding parse_parts number
parse_parts-value_from text pos digits =
    ground (arith, digits-is_utf8 text, parse_unsigned-value_from usize_max text)

-- `--delimiter-byte` on every value: what is not text has its message, a text of decimal digits that stand
-- for at most 255 is that byte, and everything else, an empty text, a sign or a number that does not fit,
-- is invalid.
pub parse_delimiter_byte-value_from :
    (value : List ℕ)
    → parse_delimiter_byte value ≡ (
        if not (is_utf8 value)
        then err (not_text Flag.delimiter_byte)
        else if ltb 0 (length value) && all is_ascii_digit value && leb (value_from 0 value) 255
        then ok (value_from 0 value)
        else err (invalid_value Flag.delimiter_byte value))
unfolding parse_delimiter_byte
parse_delimiter_byte-value_from value = ground (arith, parse_unsigned-value_from 65535 value)

-- Two lower case digits for each byte.
abbrev pub hex_digit : ℕ → ℕ
hex_digit n = if ltb n 10 then 48 + n else 87 + n

abbrev pub encode_hex : List ℕ → List ℕ
encode_hex [] = []
encode_hex (b ∷ bs) = hex_digit (b / 16) ∷ hex_digit (b % 16) ∷ encode_hex bs

hex_value-hex_digit :
    (n : ℕ)
    → n < 16
    → (hex_value (hex_digit n) ≡ n)
      × (is_ascii_hexdigit (hex_digit n) ≡ true)
      × (hex_digit n < 0x80)
hex_value-hex_digit n h = ground arith

encode_hex_lem :
    (bs : List ℕ)
    → All IsByte bs
    → (decode_hex (encode_hex bs) ≡ bs)
      × (all is_ascii_hexdigit (encode_hex bs) ≡ true)
      × (length (encode_hex bs) ≡ 2 * length bs)
      × (is_utf8 (encode_hex bs) ≡ true)
unfolding decode_hex decode_hex_pair is_utf8 utf8_from
encode_hex_lem [] h = (refl, refl, omega arith, refl)
encode_hex_lem (b ∷ bs) (byte, h) =
    ground (arith, hex_value-hex_digit (b / 16), hex_value-hex_digit (b % 16), encode_hex_lem bs h)

-- `--delimiter-hex` reads back every delimiter that is written in hexadecimal.
pub parse_delimiter_hex-encode_hex :
    (bs : List ℕ) → All IsByte bs → 0 < length bs → parse_delimiter_hex (encode_hex bs) ≡ ok bs
unfolding parse_delimiter_hex
parse_delimiter_hex-encode_hex bs bytes pos = ground (arith, encode_hex_lem bs bytes)
