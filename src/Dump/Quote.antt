-- ===== src/Dump/Quote.antt =====
-- `strconv.QuoteToASCII`, which internal/display/dump.go prints payloads and topics with.
use mqtt_load_generator.Base.{
  ℕ, zero, suc, ◌+◌, ◌-◌, ◌/◌, ◌%◌, ltb, leb, ◌==◌, if◌then◌else◌, Bool, ◌&&◌, ◌||◌, [], ◌∷◌, ◌++◌,
  Option, none, some,
}
use mqtt_load_generator.Base.Text.{Bytes}
use mqtt_load_generator.Dump.Utf8.{decode_rune}

abbrev pub hex_digit : ℕ → ℕ
hex_digit d = if ltb d 10 then b'0' + d else b'a' + (d - 10)

-- The hexadecimal digits of a number, as many as asked for.
unfoldable pub hex : ℕ → ℕ → Bytes
hex zero n = []
hex (suc digits) n = hex digits (n / 16) ++ (hex_digit (n % 16) ∷ [])

abbrev pub is_ascii_print : ℕ → Bool
is_ascii_print r = leb 32 r && leb r 126

-- The letter of a one-letter escape.
abbrev pub letter_escape : ℕ → Option ℕ
letter_escape r =
    if r == 7
    then some b'a'
    else if r == 8
    then some b'b'
    else if r == 12
    then some b'f'
    else if r == 10
    then some b'n'
    else if r == 13
    then some b'r'
    else if r == 9
    then some b't'
    else if r == 11
    then some b'v'
    else none

abbrev pub is_surrogate : ℕ → Bool
is_surrogate r = leb 55296 r && leb r 57343

abbrev pub numeric_escape : ℕ → Bytes
numeric_escape r =
    if ltb r 32 || r == 127
    then b'\\' ∷ b'x' ∷ hex 2 r
    else if is_surrogate r || ltb 1114111 r
    then b'\\' ∷ b'u' ∷ hex 4 65533
    else if ltb r 65536
    then b'\\' ∷ b'u' ∷ hex 4 r
    else b'\\' ∷ b'U' ∷ hex 8 r

abbrev pub other_escape : ℕ → Option ℕ → Bytes
other_escape r (some letter) = b'\\' ∷ letter ∷ []
other_escape r none = numeric_escape r

-- One character.
unfoldable pub escape_rune : ℕ → Bytes
escape_rune r =
    if r == b'"' || r == b'\\'
    then b'\\' ∷ r ∷ []
    else if is_ascii_print r
    then r ∷ []
    else other_escape r (letter_escape r)

-- What the loop writes for the character that begins with byte `b`, and how many of the bytes behind
-- it to leave out; a byte of no character is written as it is, in hexadecimal.
abbrev pub quote_step : ℕ → Option (ℕ × ℕ) → Bytes × ℕ
quote_step b none = (b'\\' ∷ b'x' ∷ hex 2 b, 0)
quote_step b (some (r, more)) = (escape_rune r, more)

-- The loop, where the first `skipped` bytes belong to a character already written.
unfoldable pub quote_loop : ℕ → Bytes → Bytes
quote_loop skipped [] = []
quote_loop (suc skipped) (b ∷ s) = quote_loop skipped s
quote_loop zero (b ∷ s) =
    let (text, more) = quote_step b (decode_rune b s) in text ++ quote_loop more s

unfoldable pub quote_to_ascii : Bytes → Bytes
quote_to_ascii s = b'"' ∷ quote_loop 0 s ++ (b'"' ∷ [])
