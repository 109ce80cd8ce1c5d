-- ===== src/Dump/Unquote/Escapes.antt =====
-- Reading back the escapes that `QuoteToASCII` writes (internal/display/dump.go).
use native.Mathlib.Decide.{dec_lt}
use native.Mathlib.Nat.{pow-suc}
use mqtt_load_generator.Base.{
  ℕ, zero, suc, ◌+◌, ◌-◌, ◌*◌, ◌/◌, ◌%◌, ◌^◌, ◌<◌, ◌≡◌, lt→ltb, le→not_ltb, ltb, leb, ◌==◌, ◌||◌,
  Bool, true, false, [], ◌∷◌, ◌++◌, some, Bool-cases, Option-cases, refl, sym, ap, ap₂, ◌∙◌, arith,
  inl, inr,
}
use mqtt_load_generator.Base.Text.{Bytes}
use mqtt_load_generator.Dump.Quote.{
  hex_digit, hex, is_ascii_print, letter_escape, numeric_escape, other_escape, escape_rune,
}
use mqtt_load_generator.Dump.Escape.{digit_value}
use mqtt_load_generator.Dump.Json.{rune_bytes}
use mqtt_load_generator.Dump.Characters.{IsScalar}
use mqtt_load_generator.Dump.Unquote.{
  plain, digits, Reader, letter_meaning, read_escaped, is_hex_digit, finish_digits, read_digit,
  read_plain, read_byte, read_all,
}

pub read_all-append :
    (reader : Reader) (xs ys : Bytes)
    → read_all reader (xs ++ ys) ≡ read_all (read_all reader xs) ys
unfolding read_all
read_all-append reader [] ys = refl
read_all-append reader (x ∷ xs) ys = read_all-append (read_byte reader.0 reader.1 x) xs ys

hex_digit_lem :
    (d : ℕ) → d < 16 → (is_hex_digit (hex_digit d) ≡ true) × (digit_value (hex_digit d) ≡ d)
hex_digit_lem d h = ground arith

digit_read :
    (of_byte : Bool) (left value d : ℕ) (out : Bytes)
    → d < 16
    → read_byte (digits of_byte left value) out (hex_digit d)
      ≡ read_digit of_byte left (value * 16 + d) out
digit_read of_byte left value d out h =
    let (is_digit, same) = hex_digit_lem d h in
    rw (is_digit) (ap (λ e. read_digit of_byte left (value * 16 + e) out) same)

digit_goes_on :
    (of_byte : Bool) (left value : ℕ) (out : Bytes)
    → 1 < left
    → read_digit of_byte left value out ≡ (digits of_byte (left - 1) value, out)
digit_goes_on of_byte left value out h = let e : leb left 1 ≡ false = ground arith in rw (e) refl

-- Digits that are not the last.
more_digits :
    (of_byte : Bool) (j left value n : ℕ) (out : Bytes)
    → j < left
    → n < 16 ^ j
    → read_all (digits of_byte left value, out) (hex j n)
      ≡ (digits of_byte (left - j) (value * 16 ^ j + n), out)
unfolding read_all hex
more_digits of_byte zero left value n out h small =
    ap₂ (λ l v. (digits of_byte l v, out)) (omega arith) (omega arith)
more_digits of_byte (suc j) left value n out h small =
    let d = n % 16 in
    let rest =
      more_digits of_byte j left value (n / 16) out (omega arith) (omega (arith, pow-suc 16 j)) in
    let v = value * 16 ^ j + n / 16 in
    let p : value * 16 ^ suc j ≡ value * 16 ^ j * 16 = rw (pow-suc 16 j) (grind arith) in
    let e : v * 16 + d ≡ value * 16 ^ suc j + n = omega (arith, p) in
    read_all-append (digits of_byte left value, out) (hex j (n / 16)) (hex_digit d ∷ [])
    ∙ ap (λ r. read_all r (hex_digit d ∷ [])) rest
    ∙ digit_read of_byte (left - j) v d out (omega arith)
    ∙ digit_goes_on of_byte (left - j) (v * 16 + d) out (omega arith)
    ∙ ap₂ (λ l v. (digits of_byte l v, out)) (omega arith) e

-- All digits of an escape.
all_digits :
    (of_byte : Bool) (j n : ℕ) (out : Bytes)
    → n < 16 ^ suc j
    → read_all (digits of_byte (suc j) 0, out) (hex (suc j) n) ≡ finish_digits of_byte n out
unfolding read_all hex
all_digits of_byte j n out small =
    let d = n % 16 in
    let rest =
      more_digits of_byte j (suc j) 0 (n / 16) out (omega arith) (omega (arith, pow-suc 16 j)) in
    let v = 0 * 16 ^ j + n / 16 in
    let e : v * 16 + d ≡ n = omega arith in
    let one_left : suc j - j ≡ 1 = omega arith in
    read_all-append (digits of_byte (suc j) 0, out) (hex j (n / 16)) (hex_digit d ∷ [])
    ∙ ap (λ r. read_all r (hex_digit d ∷ [])) rest
    ∙ digit_read of_byte (suc j - j) v d out (omega arith)
    ∙ ap₂ (λ l v. read_digit of_byte l v out) one_left e

pub byte_read :
    (b : ℕ) (out : Bytes)
    → b < 256
    → read_all (plain, out) (b'\\' ∷ b'x' ∷ hex 2 b) ≡ (plain, out ++ (b ∷ []))
unfolding read_all
byte_read b out h = all_digits true 1 b out (omega arith)

-- The escape of a character.
ascii_bytes : (r : ℕ) → r < 128 → rune_bytes r ≡ r ∷ []
ascii_bytes r h = rw (lt→ltb r 128 h) refl

character_finished :
    (r : ℕ) (out : Bytes) → IsScalar r → finish_digits false r out ≡ (plain, out ++ rune_bytes r)
character_finished r out h = rw (h.0, le→not_ltb 1114111 r (omega arith)) refl

unfoldable pub Reads : ℕ → Bytes → Bytes → Type 0
Reads r out text = read_all (plain, out) text ≡ (plain, out ++ rune_bytes r)

letter_reads :
    (r letter : ℕ) → letter_escape r ≡ some letter → (r < 128) × (letter_meaning letter ≡ some r)
letter_reads r letter e = ground (arith, e)

Reads-same : (r : ℕ) (out text shown : Bytes) → shown ≡ text → Reads r out text → Reads r out shown
unfolding Reads
Reads-same r out text shown e h = ap (read_all (plain, out)) e ∙ h

numeric-Reads : (r : ℕ) (out : Bytes) → IsScalar r → Reads r out (numeric_escape r)
unfolding Reads read_all
numeric-Reads r out scalar = elim (Bool-cases (ltb r 32 || r == 127)) [
  | inl e ↦
      let small : r < 128 = ground (arith, e) in
      Reads-same r out (b'\\' ∷ b'x' ∷ hex 2 r) (numeric_escape r) (rw (e) refl) (
        byte_read r out (omega arith)
        ∙ ap (λ (t : Bytes). (plain, out ++ t)) (sym (ascii_bytes r small)))
  | inr e ↦ elim (dec_lt r 65536) [
    | yes low ↦
        Reads-same r out (b'\\' ∷ b'u' ∷ hex 4 r) (numeric_escape r)
          (rw (e, scalar.0, le→not_ltb 1114111 r (omega arith), lt→ltb r 65536 low) refl)
          (all_digits false 3 r out (omega arith) ∙ character_finished r out scalar)
    | no high ↦
        Reads-same r out (b'\\' ∷ b'U' ∷ hex 8 r) (numeric_escape r)
          (rw (e, scalar.0, le→not_ltb 1114111 r (omega arith), le→not_ltb r 65536 (omega arith))
            refl)
          (all_digits false 7 r out (omega arith) ∙ character_finished r out scalar)
  ]
]

plain_read :
    (r : ℕ) (out : Bytes)
    → (r == b'"' || r == b'\\') ≡ false
    → is_ascii_print r ≡ true
    → read_plain out r ≡ (plain, out ++ (r ∷ []))
plain_read r out special printed =
    let quote : (r == b'"') ≡ false = ground (arith, special) in
    let backslash : (r == b'\\') ≡ false = ground (arith, special) in
    rw (quote, backslash, printed) refl

-- A backslash and a letter, and a character as itself.
letter_read :
    (r letter : ℕ) (out : Bytes)
    → letter_meaning letter ≡ some r
    → r < 128
    → Reads r out (b'\\' ∷ letter ∷ [])
unfolding Reads read_all
letter_read r letter out e small =
    ap (read_escaped out letter) e
    ∙ ap (λ (t : Bytes). (plain, out ++ t)) (sym (ascii_bytes r small))

print_read :
    (r : ℕ) (out : Bytes)
    → (r == b'"' || r == b'\\') ≡ false
    → is_ascii_print r ≡ true
    → Reads r out (r ∷ [])
unfolding Reads read_all
print_read r out special printed =
    let small : r < 128 = ground (arith, printed) in
    plain_read r out special printed
    ∙ ap (λ (t : Bytes). (plain, out ++ t)) (sym (ascii_bytes r small))

pub escape_rune-Reads : (r : ℕ) (out : Bytes) → IsScalar r → Reads r out (escape_rune r)
unfolding escape_rune
escape_rune-Reads r out scalar = elim (Bool-cases (r == b'"' || r == b'\\')) [
  | inl e ↦
      Reads-same r out (b'\\' ∷ r ∷ []) (escape_rune r) (rw (e) refl)
        (letter_read r r out (ground (arith, e)) (ground (arith, e)))
  | inr e ↦ elim (Bool-cases (is_ascii_print r)) [
    | inl p ↦ Reads-same r out (r ∷ []) (escape_rune r) (rw (e, p) refl) (print_read r out e p)
    | inr p ↦ elim (Option-cases (letter_escape r)) [
      | inl l ↦
          Reads-same r out (numeric_escape r) (escape_rune r) (rw (e, p) (ap (other_escape r) l))
            (numeric-Reads r out scalar)
      | inr (letter, l) ↦
          let meaning = letter_reads r letter l in
          Reads-same r out (b'\\' ∷ letter ∷ []) (escape_rune r) (rw (e, p) (ap (other_escape r) l))
            (letter_read r letter out meaning.1 meaning.0)
    ]
  ]
]
