-- ===== src/Dump/Shown.antt =====
-- What the loop of `escapeUnprintable` in internal/display/dump.go writes.
use native.Mathlib.Decide.{dec_lt}
use mqtt_load_generator.Base.{
  ℕ, zero, suc, ◌≤◌, ◌<◌, ◌⊎◌, ◌≡◌, lt→ltb, ◌==◌, ◌||◌, Bool, true, List, [], ◌∷◌, ◌++◌, Bool-cases,
  Option-cases, refl, sym, ap, subst, ◌∙◌, arith, inl, inr,
}
use mqtt_load_generator.Base.Text.{Bytes, All, All-append}
use mathlib.Core.List.{append_assoc, append-nil}
use mqtt_load_generator.Dump.Utf8.{decode_rune}
use mqtt_load_generator.Dump.Printable.{IsPrintable}
use mqtt_load_generator.Dump.Escape.{append_unicode_escape, unicode_escape_exact}
use mqtt_load_generator.Dump.Json.{rune_bytes, runes_from, append_escaped, escape_loop}
use mqtt_load_generator.Dump.Characters.{IsScalar, decode_rune-Decoded}
use mqtt_load_generator.Dump.Reading.{text_of}

-- `unicode.IsPrint` accepts the printable ASCII characters.
abbrev pub AcceptsAscii : (ℕ → Bool) → Type 0
AcceptsAscii is_print = (c : ℕ) → 32 ≤ c → c ≤ 126 → is_print c ≡ true

-- No ASCII control character but newlines, which is what encoding/json promises of its output.
abbrev pub NoControl : Bytes → Type 0
NoControl = All λ c. (c ≡ 10) ⊎ (32 ≤ c)

-- A newline, or a character that is printable.
abbrev pub Safe : (ℕ → Bool) → ℕ → Type 0
Safe is_print r = (r ≡ 10) ⊎ (is_print r ≡ true)

-- A text of safe characters.
pub record Shown (is_print : ℕ → Bool) (out : Bytes) : Type 0 where
  pub characters : List ℕ
  pub text : out ≡ text_of characters
  pub scalar : All IsScalar characters
  pub safe : All (Safe is_print) characters

text_of-append : (xs ys : List ℕ) → text_of (xs ++ ys) ≡ text_of xs ++ text_of ys
text_of-append [] ys = refl
text_of-append (x ∷ xs) ys =
    ap (λ t. rune_bytes x ++ t) (text_of-append xs ys)
    ∙ sym (append_assoc (rune_bytes x) (text_of xs) (text_of ys))

pub text_of_ascii : (bs : Bytes) → All (λ c. c < 128) bs → text_of bs ≡ bs
text_of_ascii [] h = refl
text_of_ascii (b ∷ bs) h = rw (lt→ltb b 128 h.0) (ap (◌∷◌ b) (text_of_ascii bs h.1))

pub ascii-IsScalar : (c : ℕ) → c < 128 → IsScalar c
ascii-IsScalar c h = (ground arith, omega arith)

backslash_u : (digits : Bytes) → All IsPrintable digits → All IsPrintable (b'\\' ∷ b'u' ∷ digits)
backslash_u digits h = (omega arith, (omega arith, h))

module _ (is_print : ℕ → Bool) (ascii : AcceptsAscii is_print) where
  printable_all :
      (bs : Bytes)
      → All IsPrintable bs
      → All (λ c. c < 128) bs × All IsScalar bs × All (Safe is_print) bs
  printable_all [] h = (tt, tt, tt)
  printable_all (b ∷ bs) h =
      let (small, scalar, safe) = printable_all bs h.1 in
      (
        (omega arith, small),
        (ascii-IsScalar b (omega arith), scalar),
        (inr (ascii b h.0.0 h.0.1), safe),
      )

  append_text :
      (out : Bytes) (rs : List ℕ)
      → Shown is_print out
      → All IsScalar rs
      → All (Safe is_print) rs
      → Shown is_print (out ++ text_of rs)
  append_text out rs shown scalar safe = record {
    characters = shown.characters ++ rs;
    text = ap (λ t. t ++ text_of rs) shown.text ∙ sym (text_of-append shown.characters rs);
    scalar = All-append IsScalar shown.characters rs shown.scalar scalar;
    safe = All-append (Safe is_print) shown.characters rs shown.safe safe;
  }

  append_printable :
      (out bs : Bytes) → Shown is_print out → All IsPrintable bs → Shown is_print (out ++ bs)
  append_printable out bs shown h =
      let (small, scalar, safe) = printable_all bs h in
      subst (λ t. Shown is_print (out ++ t)) (text_of_ascii bs small)
        (append_text out bs shown scalar safe)

  unicode_escape-Shown :
      (out : Bytes) (r : ℕ)
      → r < 1114112
      → Shown is_print out
      → Shown is_print (append_unicode_escape out r)
  unicode_escape-Shown out r h shown =
      let (small, large) = unicode_escape_exact out r h in
      elim (dec_lt r 65536) [
        | yes below ↦
            let (digits, e, four) = small below in
            rw (e) (append_printable out _ shown (backslash_u digits four.printable))
        | no above ↦
            let exact = large (omega arith) in
            let first = backslash_u exact.2 exact.5.printable in
            let second = backslash_u exact.3 exact.6.printable in
            rw (exact.4) (
              append_printable out _ shown
                (All-append IsPrintable (b'\\' ∷ b'u' ∷ exact.2) _ first second))
      ]

  step-Shown :
      (out : Bytes) (r : ℕ)
      → Shown is_print out
      → IsScalar r
      → Shown is_print (append_escaped is_print out r)
  step-Shown out r shown scalar = elim (Bool-cases (r == b'\n' || is_print r)) [
    | inl e ↦ rw (e) (
        subst (λ t. Shown is_print (out ++ t)) (append-nil (rune_bytes r))
          (append_text out (r ∷ []) shown (scalar, tt) (safe_test r e, tt)))
    | inr e ↦ rw (e) (unicode_escape-Shown out r scalar.1 shown)
  ]
    where
      safe_test : (r : ℕ) → (r == b'\n' || is_print r) ≡ true → Safe is_print r
      safe_test r e = ground (arith, e)

  pub escape_loop-Shown :
      (rs : List ℕ) (out : Bytes)
      → Shown is_print out
      → All IsScalar rs
      → Shown is_print (escape_loop is_print out rs)
  unfolding escape_loop
  escape_loop-Shown [] out shown h = shown
  escape_loop-Shown (r ∷ rs) out shown h =
      escape_loop-Shown rs (append_escaped is_print out r) (step-Shown out r shown h.0) h.1

-- The characters of any text are Unicode characters: a byte of no character counts as U+FFFD.
pub runes_from-IsScalar : (s : Bytes) (skipped : ℕ) → All IsScalar (runes_from skipped s)
unfolding runes_from
runes_from-IsScalar [] skipped = tt
runes_from-IsScalar (b ∷ s) (suc skipped) = runes_from-IsScalar s skipped
runes_from-IsScalar (b ∷ s) zero = elim (Option-cases (decode_rune b s)) [
  | inl e ↦ rw (e) (ground arith, runes_from-IsScalar s 0)
  | inr ((r, more), e) ↦
      rw (e) ((decode_rune-Decoded b s r more e).scalar, runes_from-IsScalar s more)
]
