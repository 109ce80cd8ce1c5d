-- ===== src/Dump/Unquote.antt =====
-- A reader of the quoted lines of internal/display/dump.go: what `strconv.Unquote` does with a text in
-- double quotes that is ASCII and has its hexadecimal digits in lower case.
pub mod Escapes
pub mod RoundTrip
use mqtt_load_generator.Base.{
  ℕ, zero, suc, ◌+◌, ◌-◌, ◌*◌, ltb, leb, ◌==◌, if◌then◌else◌, Bool, true, false, ◌&&◌, ◌||◌, [],
  ◌∷◌, ◌++◌, Option, none, some,
}
use mqtt_load_generator.Base.Text.{Bytes}
use mqtt_load_generator.Dump.Quote.{is_surrogate}
use mqtt_load_generator.Dump.Escape.{digit_value}
use mqtt_load_generator.Dump.Json.{rune_bytes}

-- Where the reader stands. In `digits`, `left` more digits are to come behind the value so far, of a
-- byte or of a character.
pub data Mode : Type 0 where
  outside : Mode
  plain : Mode
  escaped : Mode
  digits : (of_byte : Bool) (left value : ℕ) → Mode
  closed : Mode
  failed : Mode

abbrev pub Reader : Type 0
Reader = Mode × Bytes

-- The character that a letter stands for behind a backslash.
abbrev pub letter_meaning : ℕ → Option ℕ
letter_meaning c =
    if c == b'a'
    then some 7
    else if c == b'b'
    then some 8
    else if c == b'f'
    then some 12
    else if c == b'n'
    then some 10
    else if c == b'r'
    then some 13
    else if c == b't'
    then some 9
    else if c == b'v'
    then some 11
    else if c == b'"' || c == b'\\'
    then some c
    else none

abbrev pub digits_behind : ℕ → Mode
digits_behind c =
    if c == b'x'
    then digits true 2 0
    else if c == b'u'
    then digits false 4 0
    else if c == b'U'
    then digits false 8 0
    else failed

abbrev pub read_escaped : Bytes → ℕ → Option ℕ → Reader
read_escaped out c (some meaning) = (plain, out ++ (meaning ∷ []))
read_escaped out c none = (digits_behind c, out)

abbrev pub is_hex_digit : ℕ → Bool
is_hex_digit c = leb b'0' c && leb c b'9' || leb b'a' c && leb c b'f'

-- What the digits of an escape stand for.
abbrev pub finish_digits : Bool → ℕ → Bytes → Reader
finish_digits true value out = (plain, out ++ (value ∷ []))
finish_digits false value out =
    if is_surrogate value || ltb 1114111 value
    then (failed, out)
    else (plain, out ++ rune_bytes value)

abbrev pub read_digit : Bool → ℕ → ℕ → Bytes → Reader
read_digit of_byte left value out =
    if leb left 1 then finish_digits of_byte value out else (digits of_byte (left - 1) value, out)

abbrev pub read_plain : Bytes → ℕ → Reader
read_plain out c =
    if c == b'"'
    then (closed, out)
    else if c == b'\\'
    then (escaped, out)
    else if leb 32 c && leb c 126
    then (plain, out ++ (c ∷ []))
    else (failed, out)

-- One byte.
abbrev pub read_byte : Mode → Bytes → ℕ → Reader
read_byte outside out c = if c == b'"' then (plain, out) else (failed, out)
read_byte plain out c = read_plain out c
read_byte escaped out c = read_escaped out c (letter_meaning c)
read_byte (digits of_byte left value) out c =
    if is_hex_digit c
    then read_digit of_byte left (value * 16 + digit_value c) out
    else (failed, out)
read_byte closed out c = (failed, out)
read_byte failed out c = (failed, out)

unfoldable pub read_all : Reader → Bytes → Reader
read_all reader [] = reader
read_all reader (c ∷ s) = read_all (read_byte reader.0 reader.1 c) s

abbrev pub result : Reader → Option Bytes
result (closed, out) = some out
result (_, out) = none

unfoldable pub unquote : Bytes → Option Bytes
unfolding read_all
unquote s = result (read_all (outside, []) s)
