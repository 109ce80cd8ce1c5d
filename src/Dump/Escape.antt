-- ===== src/Dump/Escape.antt =====
-- `appendUnicodeEscape` of internal/display/dump.go, with `utf16.EncodeRune`.
use mqtt_load_generator.Base.{
  ℕ, zero, suc, ◌+◌, ◌-◌, ◌*◌, ◌/◌, ◌%◌, ◌^◌, ◌≤◌, ◌<◌, ◌≡◌, ltb, if◌then◌else◌, [], ◌∷◌, ◌++◌,
  length, refl, arith, length-append, lt→ltb, le→not_ltb,
}
use native.Mathlib.Nat.{pow-suc}
use mathlib.Core.List.{append_assoc}
use mqtt_load_generator.Base.Text.{Bytes, All}
use mqtt_load_generator.Dump.Quote.{hex_digit, hex}
use mqtt_load_generator.Dump.Printable.{IsPrintable, hex-IsPrintable}

-- The high and the low surrogate of a character above U+FFFF.
abbrev pub encode_rune : ℕ → ℕ × ℕ
encode_rune r = (55296 + (r - 65536) / 1024, 56320 + (r - 65536) % 1024)

abbrev pub unicode_escape : ℕ → Bytes
unicode_escape n = b'\\' ∷ b'u' ∷ hex 4 n

unfoldable pub append_unicode_escape : Bytes → ℕ → Bytes
append_unicode_escape escaped character =
    let (high, low) = encode_rune character in
    if ltb 65535 character
    then (escaped ++ unicode_escape high) ++ unicode_escape low
    else escaped ++ unicode_escape character

-- What a hexadecimal digit stands for.
abbrev pub digit_value : ℕ → ℕ
digit_value c = if ltb c b'a' then c - b'0' else c - b'a' + 10

-- The number that hexadecimal digits spell behind `n`.
abbrev pub hex_value : ℕ → Bytes → ℕ
hex_value n [] = n
hex_value n (c ∷ s) = hex_value (n * 16 + digit_value c) s

hex_value-append : (n : ℕ) (xs ys : Bytes) → hex_value n (xs ++ ys) ≡ hex_value (hex_value n xs) ys
hex_value-append n [] ys = refl
hex_value-append n (x ∷ xs) ys = hex_value-append (n * 16 + digit_value x) xs ys

digit_value-hex_digit : (d : ℕ) → d < 16 → digit_value (hex_digit d) ≡ d
digit_value-hex_digit d h = ground arith

pub hex_value-hex : (digits n : ℕ) → n < 16 ^ digits → hex_value 0 (hex digits n) ≡ n
unfolding hex
hex_value-hex zero n h = omega arith
hex_value-hex (suc digits) n h =
    let rest = hex_value-hex digits (n / 16) (omega (arith, pow-suc 16 digits)) in
    let digit = digit_value-hex_digit (n % 16) (omega arith) in
    let split = hex_value-append 0 (hex digits (n / 16)) (hex_digit (n % 16) ∷ []) in
    omega (arith, rest, digit, split)

length-hex : (digits n : ℕ) → length (hex digits n) ≡ digits
unfolding hex
length-hex zero n = refl
length-hex (suc digits) n = omega (
  arith,
  length-append (hex digits (n / 16)) (hex_digit (n % 16) ∷ []),
  length-hex digits (n / 16),
)

-- Four printable hexadecimal digits that spell `n`.
pub record FourDigits (n : ℕ) (digits : Bytes) : Type 0 where
  pub four : length digits ≡ 4
  pub exact : hex_value 0 digits ≡ n
  pub printable : All IsPrintable digits

hex-FourDigits : (n : ℕ) → n < 65536 → FourDigits n (hex 4 n)
hex-FourDigits n h = record {
  four = length-hex 4 n;
  exact = hex_value-hex 4 n (omega arith);
  printable = hex-IsPrintable 4 n;
}

-- `appendUnicodeEscape` keeps what was written. A character up to U+FFFF becomes one \uXXXX whose
-- four digits spell it; one above becomes two, whose digits spell a high and a low surrogate, from
-- which a JSON reader computes the character again.
pub unicode_escape_exact :
    (escaped : Bytes) (character : ℕ)
    → character < 1114112
    → let out = append_unicode_escape escaped character in
      (character < 65536
        → (digits : Bytes) × (out ≡ escaped ++ (b'\\' ∷ b'u' ∷ digits))
          × FourDigits character digits)
      × (65536 ≤ character
          → (high : ℕ) × (low : ℕ) × (first : Bytes) × (second : Bytes) × (out
              ≡ escaped ++ (b'\\' ∷ b'u' ∷ first ++ (b'\\' ∷ b'u' ∷ second)))
            × FourDigits high first
            × FourDigits low second
            × (55296 ≤ high)
            × (high < 56320)
            × (56320 ≤ low)
            × (low < 57344)
            × ((high - 55296) * 1024 + (low - 56320) + 65536 ≡ character))
unfolding append_unicode_escape
unicode_escape_exact escaped character h = (
  λ small. (
    hex 4 character,
    rw (le→not_ltb 65535 character (omega arith)) refl,
    hex-FourDigits character small,
  ),
  λ large.
      let (high, low) = encode_rune character in
      (
        high,
        low,
        hex 4 high,
        hex 4 low,
        rw (lt→ltb 65535 character (omega arith))
            (append_assoc escaped (unicode_escape high) (unicode_escape low)),
        hex-FourDigits high (omega arith),
        hex-FourDigits low (omega arith),
        omega arith,
        omega arith,
        omega arith,
        omega arith,
        omega arith,
      ),
)
