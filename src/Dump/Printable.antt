-- ===== src/Dump/Printable.antt =====
-- What can reach the terminal through the lines of internal/display/dump.go.
use mqtt_load_generator.Base.{
  ℕ, zero, suc, ◌/◌, ◌%◌, ◌≤◌, ◌≡◌, ltb, ◌==◌, if◌then◌else◌, Bool, true, false, ◌||◌, [], ◌∷◌,
  ◌++◌, Option, none, some, arith, refl,
}
use mqtt_load_generator.Base.Text.{Bytes, All, All-append}
use mqtt_load_generator.Dump.{format_dump_line}
use mqtt_load_generator.Dump.Utf8.{decode_rune}
use mqtt_load_generator.Dump.Quote.{
  hex_digit, hex, is_ascii_print, letter_escape, is_surrogate, numeric_escape, other_escape,
  escape_rune, quote_step, quote_loop, quote_to_ascii,
}

-- An ASCII character that a terminal prints as itself.
abbrev pub IsPrintable : ℕ → Type 0
IsPrintable c = (32 ≤ c) × (c ≤ 126)

pub hex-IsPrintable : (digits n : ℕ) → All IsPrintable (hex digits n)
unfolding hex
hex-IsPrintable zero n = tt
hex-IsPrintable (suc digits) n =
    All-append IsPrintable (hex digits (n / 16)) (hex_digit (n % 16) ∷ [])
      (hex-IsPrintable digits (n / 16)) (ground arith)

either :
    (b : Bool) (x y : Bytes)
    → All IsPrintable x
    → All IsPrintable y
    → All IsPrintable (if b then x else y)
either true x y hx hy = hx
either false x y hx hy = hy

either_when :
    (b : Bool) (x y : Bytes)
    → (b ≡ true → All IsPrintable x)
    → All IsPrintable y
    → All IsPrintable (if b then x else y)
either_when true x y hx hy = hx refl
either_when false x y hx hy = hy

abbrev backslash_and : (letter : ℕ) (s : Bytes) → Bytes
backslash_and letter s = b'\\' ∷ letter ∷ s

escaped :
    (letter : ℕ) (s : Bytes)
    → IsPrintable letter
    → All IsPrintable s
    → All IsPrintable (backslash_and letter s)
escaped letter s hl hs = (omega arith, (hl, hs))

numeric_escape-IsPrintable : (r : ℕ) → All IsPrintable (numeric_escape r)
numeric_escape-IsPrintable r =
    either (ltb r 32 || r == 127) _ _ (escaped b'x' (hex 2 r) (omega arith) (hex-IsPrintable 2 r)) (
      either (is_surrogate r || ltb 1114111 r) _ _
        (escaped b'u' (hex 4 65533) (omega arith) (hex-IsPrintable 4 65533))
        (either (ltb r 65536) _ _ (escaped b'u' (hex 4 r) (omega arith) (hex-IsPrintable 4 r))
          (escaped b'U' (hex 8 r) (omega arith) (hex-IsPrintable 8 r))))

other_escape-IsPrintable :
    (r : ℕ) (o : Option ℕ) → letter_escape r ≡ o → All IsPrintable (other_escape r o)
other_escape-IsPrintable r none e = numeric_escape-IsPrintable r
other_escape-IsPrintable r (some letter) e = ground (arith, e)

escape_rune-IsPrintable : (r : ℕ) → All IsPrintable (escape_rune r)
unfolding escape_rune
escape_rune-IsPrintable r =
    either_when (r == b'"' || r == b'\\') _ _ (λ e. ground arith)
      (either_when (is_ascii_print r) _ _ (λ e. ground arith)
        (other_escape-IsPrintable r (letter_escape r) refl))

step-IsPrintable :
    (b : ℕ) (s : Bytes) (o : Option (ℕ × ℕ))
    → ((skipped : ℕ) → All IsPrintable (quote_loop skipped s))
    → All IsPrintable ((quote_step b o).0 ++ quote_loop (quote_step b o).1 s)
step-IsPrintable b s none rest =
    All-append IsPrintable (backslash_and b'x' (hex 2 b)) (quote_loop 0 s)
      (escaped b'x' (hex 2 b) (omega arith) (hex-IsPrintable 2 b)) (rest 0)
step-IsPrintable b s (some (r, more)) rest =
    All-append IsPrintable (escape_rune r) (quote_loop more s) (escape_rune-IsPrintable r)
      (rest more)

quote_loop-IsPrintable : (s : Bytes) (skipped : ℕ) → All IsPrintable (quote_loop skipped s)
unfolding quote_loop
quote_loop-IsPrintable [] skipped = tt
quote_loop-IsPrintable (b ∷ s) (suc skipped) = quote_loop-IsPrintable s skipped
quote_loop-IsPrintable (b ∷ s) zero =
    step-IsPrintable b s (decode_rune b s) (quote_loop-IsPrintable s)

pub quote-IsPrintable : (s : Bytes) → All IsPrintable (quote_to_ascii s)
unfolding quote_to_ascii
quote-IsPrintable s = (
  omega arith,
  All-append IsPrintable (quote_loop 0 s) (b'"' ∷ []) (quote_loop-IsPrintable s 0) (omega arith),
)

-- Whatever a publisher puts into a topic or a payload, a line of dump in its default format is
-- printable ASCII, but for the newline that ends it and, with --show-topic, the one tab behind the
-- topic: no control byte and no byte above 126 reaches the terminal.
pub line_printable :
    (topic payload : Bytes) (show_topic : Bool)
    → (shown : Bytes) × (text : Bytes) × (format_dump_line topic payload show_topic
        ≡ (if show_topic then shown ++ (b'\t' ∷ text ++ (b'\n' ∷ [])) else text ++ (b'\n' ∷ [])))
      × All IsPrintable shown
      × All IsPrintable text
unfolding format_dump_line
line_printable topic payload true = (
  quote_to_ascii topic,
  quote_to_ascii payload,
  refl,
  quote-IsPrintable topic,
  quote-IsPrintable payload,
)
line_printable topic payload false = (
  quote_to_ascii topic,
  quote_to_ascii payload,
  refl,
  quote-IsPrintable topic,
  quote-IsPrintable payload,
)
