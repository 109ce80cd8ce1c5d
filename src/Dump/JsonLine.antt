-- ===== src/Dump/JsonLine.antt =====
-- The lines of dump with --json, and the fast path of `escapeUnprintable` (internal/display/dump.go).
use native.Mathlib.Decide.{dec_lt}
use mqtt_load_generator.Base.{
  ℕ, ◌≤◌, ◌<◌, ◌⊎◌, ◌≡◌, ◌↔◌, lt→ltb, ◌==◌, ◌||◌, Bool, true, false, List, [], ◌∷◌, ◌++◌, Option,
  none, some, Bool-cases, Option-cases, refl, sym, ap, subst, ◌∙◌, arith, inl, inr,
}
use mqtt_load_generator.Base.Text.{Bytes, All}
use mathlib.Core.List.{append_assoc, append-nil}
use mqtt_load_generator.Dump.Utf8.{decode_rune}
use mqtt_load_generator.Dump.Json.{
  rune_bytes, valid_from, rune_or_error, runes_from, runes, any_above, escape_loop,
  escape_unprintable, format_json_line,
}
use mqtt_load_generator.Dump.Characters.{decode_rune-Decoded}
use mqtt_load_generator.Dump.Reading.{text_of, runes-text_of}
use mqtt_load_generator.Dump.Shown.{
  AcceptsAscii, NoControl, Safe, Shown, escape_loop-Shown, runes_from-IsScalar,
}

small_bytes : (r : ℕ) → r < 128 → rune_bytes r ≡ r ∷ []
small_bytes r h = rw (lt→ltb r 128 h) refl

-- A character of a first byte that is not ASCII is not ASCII.
above_ascii :
    (b : ℕ) (s : Bytes) (r more : ℕ) → 128 ≤ b → decode_rune b s ≡ some (r, more) → 128 ≤ r
above_ascii b s r more h e = elim (dec_lt r 128) [
  | yes small ↦
      let d = decode_rune-Decoded b s r more e in
      let single = sym (small_bytes r small) ∙ d.bytes in absurd (ground (arith, single))
  | no large ↦ omega arith
]

decode_ascii : (b : ℕ) (s : Bytes) → b < 128 → decode_rune b s ≡ some (b, 0)
unfolding decode_rune
decode_ascii b s h = rw (lt→ltb b 128 h) refl

runes_cons :
    (b : ℕ) (s : Bytes) (o : Option (ℕ × ℕ))
    → decode_rune b s ≡ o
    → runes (b ∷ s) ≡ (rune_or_error o).0 ∷ runes_from (rune_or_error o).1 s
unfolding runes runes_from
runes_cons b s o e = ap (λ o. (rune_or_error o).0 ∷ runes_from (rune_or_error o).1 s) e

above_cons : (r : ℕ) (rs : List ℕ) → any_above (r ∷ rs) ≡ false → (r < 127) × (any_above rs ≡ false)
above_cons r rs e = ground (arith, e)

-- The first character of a text that begins with a byte above ASCII.
first_above :
    (b : ℕ) (s : Bytes) (o : Option (ℕ × ℕ))
    → 128 ≤ b
    → decode_rune b s ≡ o
    → 127 ≤ (rune_or_error o).0
first_above b s none h e = omega arith
first_above b s (some (r, more)) h e = omega (arith, above_ascii b s r more h e)

-- Characters below 0x7F are their bytes.
runes_below : (s : Bytes) → any_above (runes s) ≡ false → (runes s ≡ s) × All (λ c. c < 127) s
unfolding runes runes_from
runes_below [] e = (refl, tt)
runes_below (b ∷ s) e = elim (dec_lt b 128) [
  | yes small ↦
      let split = runes_cons b s (some (b, 0)) (decode_ascii b s small) in
      let (below, rest) = above_cons b (runes s) (sym (ap any_above split) ∙ e) in
      let (same, all) = runes_below s rest in (split ∙ ap (◌∷◌ b) same, (below, all))
  | no large ↦
      let split = runes_cons b s (decode_rune b s) refl in
      let r = rune_or_error (decode_rune b s) in
      let (below, rest) = above_cons r.0 (runes_from r.1 s) (sym (ap any_above split) ∙ e) in
      absurd (omega (arith, below, first_above b s (decode_rune b s) (omega arith) refl))
]

-- Plain characters are appended as they are.
module _ (is_print : ℕ → Bool) (ascii : AcceptsAscii is_print) where
  plain_test : (c : ℕ) → c < 127 → (c ≡ 10) ⊎ (32 ≤ c) → (c == b'\n' || is_print c) ≡ true
  plain_test c h (inl e) = rw (e) refl
  plain_test c h (inr low) = let accepted = ascii c low (omega arith) in ground (arith, accepted)

  escape_loop_plain :
      (s out : Bytes) → All (λ c. c < 127) s → NoControl s → escape_loop is_print out s ≡ out ++ s
  unfolding escape_loop
  escape_loop_plain [] out h safe = sym (append-nil out)
  escape_loop_plain (c ∷ s) out h safe =
      rw (plain_test c h.0 safe.0, small_bytes c (omega arith))
        (escape_loop_plain s (out ++ (c ∷ [])) h.1 safe.1 ∙ append_assoc out (c ∷ []) s)

  -- The fast path of `escapeUnprintable` changes nothing: a line without control characters but
  -- newlines, which the JSON encoder writes, becomes what the loop makes of it in any case.
  pub escape-fast_path :
      (line : Bytes)
      → NoControl line
      → escape_unprintable is_print line ≡ escape_loop is_print [] (runes line)
  unfolding escape_unprintable
  escape-fast_path line safe = elim (Bool-cases (any_above (runes line))) [
    | inl e ↦ rw (e) refl
    | inr e ↦
        let (same, below) = runes_below line e in
        rw (e) (sym (ap (escape_loop is_print []) same ∙ escape_loop_plain line [] below safe))
  ]

  line-Shown : (line : Bytes) → NoControl line → Shown is_print (escape_unprintable is_print line)
  unfolding runes
  line-Shown line safe = subst (Shown is_print) (sym (escape-fast_path line safe)) (
      escape_loop-Shown is_print ascii (runes line) []
        (record { characters = []; text = refl; scalar = tt; safe = tt })
        (runes_from-IsScalar line 0))

  Shown-runes :
      (out : Bytes)
      → Shown is_print out
      → (out ≡ text_of (runes out)) × All (Safe is_print) (runes out)
  Shown-runes out shown =
      let read = ap runes shown.text ∙ runes-text_of shown.characters shown.scalar in
      (shown.text ∙ ap text_of (sym read), subst (All (Safe is_print)) (sym read) shown.safe)

  -- Whatever a publisher sends, a line of dump with --json is valid UTF-8 of printable characters and
  -- newlines, where the JSON encoder writes no other control characters. A message is skipped exactly
  -- if its payload is not valid UTF-8 or the encoder rejects it.
  pub json_line-Safe :
      (encode : Bytes → Bytes → Option Bytes)
      → ((topic payload line : Bytes) → encode topic payload ≡ some line → NoControl line)
      → (topic payload : Bytes)
      → let out = format_json_line is_print encode topic payload in
        ((line : Bytes)
          → out ≡ some line
          → (line ≡ text_of (runes line)) × All (Safe is_print) (runes line))
        × ((out ≡ none) ↔ ((valid_from 0 payload ≡ false) ⊎ (encode topic payload ≡ none)))
  unfolding format_json_line
  json_line-Safe encode encoder topic payload = elim (Bool-cases (valid_from 0 payload)) [
    | inr invalid ↦ rw (invalid) (λ line e. absurd (ground (arith, e)), (λ e. inl refl, λ e. refl))
    | inl valid ↦ elim (Option-cases (encode topic payload)) [
      | inl rejected ↦
          rw (valid, rejected) (λ line e. absurd (ground (arith, e)), (λ e. inr refl, λ e. refl))
      | inr (encoded, e) ↦
          let shown = line-Shown encoded (encoder topic payload encoded e) in
          rw (valid, e)
            (
              λ line same.
                  let written : escape_unprintable is_print encoded ≡ line = ground (arith, same) in
                  Shown-runes line (subst (Shown is_print) written shown),
              (λ f. absurd (ground (arith, f)), λ f. absurd (ground (arith, f))),
            )
    ]
  ]
