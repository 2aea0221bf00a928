-- ===== src/Cli/Arguments/Laws.antt =====
-- What the options that are accepted have been set to.
use mmap_chunker_core.Base.{
  ℕ, ◌+◌, ◌-◌, ◌*◌, ◌%◌, ◌≤◌, ◌<◌, ◌≡◌, refl, arith, List, [], ◌∷◌, length, Bool, true, ◌&&◌,
  Bool-cases, some, Option-cases, inl, inr, Result, Result-cases, ok, err, All, isize_max,
  usize_max,
}
use mmap_chunker_core.Bits.Zeros.{IsByte}
use mmap_chunker_core.Scanner.Chunks.Laws.{IsDelimiter}
use mmap_chunker_core.Cli.{Flag, Message}
use mmap_chunker_core.Cli.Values.{
  number, parse_digits, parse_unsigned, parse_parts, parse_worker, parse_window, parse_source,
  parse_delimiter_byte, parse_delimiter_hex, decode_hex, decode_hex_pair, hex_value, all,
  is_ascii_hexdigit, min_window_bytes,
}
use mmap_chunker_core.Cli.Arguments.{Options, unset, and_set, set_value, flag_of, argument_loop}

parse_digits-le :
    (limit n : ℕ) (bs : List ℕ) (m : ℕ) → n ≤ limit → parse_digits limit n bs ≡ some m → m ≤ limit
unfolding parse_digits
parse_digits-le limit n [] m h e = ground arith
parse_digits-le limit n (b ∷ bs) m h e =
    ground (arith, parse_digits-le limit (n * 10 + (b - 48)) bs m)

parse_unsigned-le :
    (limit : ℕ) (text : List ℕ) (m : ℕ) → parse_unsigned limit text ≡ some m → m ≤ limit
unfolding parse_unsigned
parse_unsigned-le limit [] m e = cc
parse_unsigned-le limit (b ∷ []) m e = ground (arith, parse_digits-le limit 0 (b ∷ []) m)
parse_unsigned-le limit (b ∷ c ∷ bs) m e =
    ground (arith, parse_digits-le limit 0 (b ∷ c ∷ bs) m, parse_digits-le limit 0 (c ∷ bs) m)

number-le : (flag : Flag) (value : List ℕ) (n : ℕ) → number flag value ≡ ok n → n ≤ usize_max
unfolding number
number-le flag value n e = ground (arith, parse_unsigned-le usize_max value n)

hex_value-lt : (b : ℕ) → is_ascii_hexdigit b ≡ true → hex_value b < 16
hex_value-lt b h = ground arith

decode_hex-bytes :
    (text : List ℕ)
    → all is_ascii_hexdigit text ≡ true
    → All IsByte (decode_hex text) × (length (decode_hex text) ≤ length text)
unfolding decode_hex
decode_hex-bytes [] h = (tt, omega arith)
decode_hex-bytes (a ∷ []) h = (tt, omega arith)
decode_hex-bytes (a ∷ b ∷ text) h =
    let (hi, t) = &&-true (is_ascii_hexdigit a) _ h in
    let (lo, rest) = &&-true (is_ascii_hexdigit b) (all is_ascii_hexdigit text) t in
    let (bytes, shorter) = decode_hex-bytes text rest in
    let pair : decode_hex_pair a b < 256 =
      unfold decode_hex_pair in omega (arith, hex_value-lt a hi, hex_value-lt b lo) in
    ((pair, bytes), omega arith)
  where
    &&-true : (a b : Bool) → (a && b) ≡ true → (a ≡ true) × (b ≡ true)
    &&-true a b h = ground arith

decode_hex_pos :
    (text : List ℕ) → 0 < length text → length text % 2 ≡ 0 → 0 < length (decode_hex text)
unfolding decode_hex
decode_hex_pos [] pos even = absurd (omega arith)
decode_hex_pos (a ∷ []) pos even = absurd (omega arith)
decode_hex_pos (a ∷ b ∷ text) pos even = omega arith

parse_delimiter_hex-IsDelimiter :
    (value : List ℕ) (bytes : List ℕ)
    → length value ≤ isize_max
    → parse_delimiter_hex value ≡ ok bytes
    → IsDelimiter bytes
unfolding parse_delimiter_hex
parse_delimiter_hex-IsDelimiter value bytes small e =
    elim (Bool-cases (all is_ascii_hexdigit value)) [
      | inr other ↦ absurd (ground arith)
      | inl digits ↦
          let (are_bytes, shorter) = decode_hex-bytes value digits in
          let some_text : 0 < length value = ground arith in
          let even : length value % 2 ≡ 0 = ground arith in
          let same : decode_hex value ≡ bytes = ground arith in
          rw (← same) (record {
            bytes = are_bytes;
            fits = omega arith;
            nonempty = decode_hex_pos value some_text even;
          })
    ]

-- What the loop keeps of the variables, whatever the arguments are.
pub record IsInRange (s : Options) : Type 0 where
  pub delimited : IsDelimiter s.delimiter
  pub some_parts : (n : ℕ) → s.parts ≡ some n → (0 < n) × (n ≤ usize_max)
  pub some_window : (w : ℕ) → s.window ≡ some w → (min_window_bytes ≤ w) × (w ≤ usize_max)

pub unset-IsInRange : IsInRange unset
unset-IsInRange = record {
  delimited = record { bytes = (omega arith, tt); fits = omega arith; nonempty = omega arith };
  some_parts = λ n e. absurd cc;
  some_window = λ w e. absurd cc;
}

parse_parts_bounds : (value : List ℕ) (n : ℕ) → parse_parts value ≡ ok n → (0 < n) × (n ≤ usize_max)
unfolding parse_parts
parse_parts_bounds value n e = ground (arith, number-le Flag.parts value n)

parse_window_bounds :
    (value : List ℕ) (n : ℕ) → parse_window value ≡ ok n → (min_window_bytes ≤ n) × (n ≤ usize_max)
unfolding parse_window
parse_window_bounds value n e = ground (arith, number-le Flag.window value n)

parse_delimiter_byte-IsByte :
    (value : List ℕ) (n : ℕ) → parse_delimiter_byte value ≡ ok n → IsByte n
unfolding parse_delimiter_byte
parse_delimiter_byte-IsByte value n e = ground arith

and_set-ok :
    {A : Type 0} (parsed : Result Message A) (set : A → Options) (s' : Options)
    → and_set parsed set ≡ ok s'
    → (a : A) × (parsed ≡ ok a) × (set a ≡ s')
and_set-ok (ok a) set s' e = (a, refl, cc)
and_set-ok (err m) set s' e = absurd cc

-- What one option keeps of them.
set_value-IsInRange :
    (flag : Flag) (value : List ℕ) (s s' : Options)
    → length value ≤ isize_max
    → IsInRange s
    → set_value flag value s ≡ ok s'
    → IsInRange s'
unfolding set_value
set_value-IsInRange Flag.parts value s s' small set e =
    let (n, parsed, same) = and_set-ok (parse_parts value) _ s' e in
    rw (← same) (record {
      delimited = set.delimited;
      some_parts = λ m f. ground (arith, parse_parts_bounds value n parsed);
      some_window = set.some_window;
    })
set_value-IsInRange Flag.delimiter_byte value s s' small set e =
    let (byte, parsed, same) = and_set-ok (parse_delimiter_byte value) _ s' e in
    rw (← same) (record {
      delimited = record {
        bytes = (parse_delimiter_byte-IsByte value byte parsed, tt);
        fits = omega arith;
        nonempty = omega arith;
      };
      some_parts = set.some_parts;
      some_window = set.some_window;
    })
set_value-IsInRange Flag.delimiter_hex value s s' small set e =
    let (bytes, parsed, same) = and_set-ok (parse_delimiter_hex value) _ s' e in
    rw (← same) (record {
      delimited = parse_delimiter_hex-IsDelimiter value bytes small parsed;
      some_parts = set.some_parts;
      some_window = set.some_window;
    })
set_value-IsInRange Flag.worker value s s' small set e =
    let (n, parsed, same) = and_set-ok (parse_worker value) _ s' e in
    rw (← same) (record {
      delimited = set.delimited;
      some_parts = set.some_parts;
      some_window = set.some_window;
    })
set_value-IsInRange Flag.source value s s' small set e =
    let (mode, parsed, same) = and_set-ok (parse_source value) _ s' e in
    rw (← same) (record {
      delimited = set.delimited;
      some_parts = set.some_parts;
      some_window = set.some_window;
    })
set_value-IsInRange Flag.window value s s' small set e =
    let (n, parsed, same) = and_set-ok (parse_window value) _ s' e in
    rw (← same) (record {
      delimited = set.delimited;
      some_parts = set.some_parts;
      some_window = λ w f. ground (arith, parse_window_bounds value n parsed);
    })

module _ {Operands : Type 0} (flags : List Flag)
    (push : List ℕ → Operands → Result Message Operands) where
  pub argument_loop-IsInRange :
      (arguments : List (List ℕ)) (s s' : Options) (operands operands' : Operands)
      → All (λ (argument : List ℕ). length argument ≤ isize_max) arguments
      → IsInRange s
      → argument_loop flags push arguments s operands ≡ ok (s', operands')
      → IsInRange s'
  unfolding argument_loop
  argument_loop-IsInRange [] s s' operands operands' small set e =
      let same : s ≡ s' = cc in rw (← same) set
  argument_loop-IsInRange (argument ∷ []) s s' operands operands' small set e =
      elim (Option-cases (flag_of flags argument)) [
        | inr (flag, known) ↦ absurd (ground arith)
        | inl other ↦ elim (Result-cases (push argument operands)) [
          | inl (next, pushed) ↦ let same : s ≡ s' = ground arith in rw (← same) set
          | inr (m, refused) ↦ absurd (ground arith)
        ]
      ]
  argument_loop-IsInRange (argument ∷ value ∷ rest) s s' operands operands' (a, (b, small)) set e =
      elim (Option-cases (flag_of flags argument)) [
        | inr (flag, known) ↦ elim (Result-cases (set_value flag value s)) [
          | inl (t, given) ↦
              argument_loop-IsInRange rest t s' operands operands' small
                (set_value-IsInRange flag value s t b set given) (ground arith)
          | inr (m, refused) ↦ absurd (ground arith)
        ]
        | inl other ↦ elim (Result-cases (push argument operands)) [
          | inl (next, pushed) ↦
              argument_loop-IsInRange (value ∷ rest) s s' next operands' (b, small) set
                (ground arith)
          | inr (m, refused) ↦ absurd (ground arith)
        ]
      ]
