-- ===== src/Dump/Characters.antt =====
-- Characters and their bytes in UTF-8: reading what was written, and the other way round.
use native.Mathlib.Decide.{ℕ_discrete, dec_lt}
use mqtt_load_generator.Base.{
  ℕ, ◌+◌, ◌-◌, ◌*◌, ◌/◌, ◌%◌, ◌&&◌, lt→ltb, le→not_ltb, ◌≤◌, ◌<◌, ◌⊎◌, ◌≡◌, if◌then◌else◌, Bool,
  true, false, [], ◌∷◌, ◌++◌, Option, none, some, length, refl, ap₂, ◌∙◌, arith, inl, inr,
}
use mqtt_load_generator.Base.Text.{Bytes}
use mqtt_load_generator.Dump.Utf8.{
  First, one, two, three, four, none_begins, first_kind, is_second, is_continuation, decode_kind,
  decode_rune,
}
use mqtt_load_generator.Dump.Quote.{is_surrogate}
use mqtt_load_generator.Dump.Json.{rune_bytes, three_bytes}

-- A Unicode character: up to U+10FFFF, and no surrogate.
abbrev pub IsScalar : ℕ → Type 0
IsScalar r = (is_surrogate r ≡ false) × (r < 1114112)

-- A text begins with a character, behind whose first byte there are `front` more.
pub record Decoded (b : ℕ) (s : Bytes) (r more : ℕ) : Type 0 where
  pub front : Bytes
  pub tail : Bytes
  pub split : s ≡ front ++ tail
  pub size : length front ≡ more
  pub scalar : IsScalar r
  pub bytes : rune_bytes r ≡ b ∷ front

guarded :
    (t : Bool) (x : ℕ × ℕ) (r more : ℕ)
    → if◌then◌else◌ {A = Option (ℕ × ℕ)} t (some x) none ≡ some (r, more)
    → (t ≡ true) × (x.0 ≡ r) × (x.1 ≡ more)
guarded true x r more e = (refl, ground (arith, e), ground (arith, e))
guarded false x r more e = absurd (ground (arith, e))

both : (s t : Bool) → (s && t) ≡ true → (s ≡ true) × (t ≡ true)
both true true e = (refl, refl)
both true false e = absurd (ground (arith, e))
both false t e = absurd (ground (arith, e))

kind_range :
    (b : ℕ)
    → (first_kind b ≡ one → b < 128)
      × (first_kind b ≡ two → (194 ≤ b) × (b ≤ 223))
      × (first_kind b ≡ three → (224 ≤ b) × (b ≤ 239))
      × (first_kind b ≡ four → (240 ≤ b) × (b ≤ 244))
kind_range b = ground arith

second_range :
    (b c : ℕ)
    → is_second b c ≡ true
    → (128 ≤ c)
      × (c ≤ 191)
      × (b ≡ 224 → 160 ≤ c)
      × (b ≡ 237 → c ≤ 159)
      × (b ≡ 240 → 144 ≤ c)
      × (b ≡ 244 → c ≤ 143)
second_range b c e = ground (arith, e)

continuation_range : (c : ℕ) → is_continuation c ≡ true → (128 ≤ c) × (c ≤ 191)
continuation_range c e = ground (arith, e)

not_surrogate : (r : ℕ) → (r < 55296) ⊎ (57343 < r) → is_surrogate r ≡ false
not_surrogate r h = ground arith

-- What the bytes of a character depend on.
pub rune_bytes_two :
    (r : ℕ) → 128 ≤ r → r < 2048 → rune_bytes r ≡ (192 + r / 64) ∷ (128 + r % 64) ∷ []
rune_bytes_two r low high = ground arith

pub rune_bytes_three :
    (r : ℕ) → 2048 ≤ r → r < 65536 → is_surrogate r ≡ false → rune_bytes r ≡ three_bytes r
rune_bytes_three r low high e =
    rw
      (
        le→not_ltb r 128 (omega arith),
        le→not_ltb r 2048 (omega arith),
        e,
        le→not_ltb 1114111 r (omega arith),
        lt→ltb r 65536 high,
      )
      refl

pub rune_bytes_four :
    (r : ℕ)
    → 65536 ≤ r
    → r < 1114112
    → rune_bytes r
      ≡ (240 + r / 262144) ∷ (128 + r / 4096 % 64) ∷ (128 + r / 64 % 64) ∷ (128 + r % 64) ∷ []
rune_bytes_four r low high =
    let s : is_surrogate r ≡ false = not_surrogate r (inr (omega arith)) in
    rw
      (
        le→not_ltb r 128 (omega arith),
        le→not_ltb r 2048 (omega arith),
        s,
        le→not_ltb 1114111 r (omega arith),
        le→not_ltb r 65536 low,
      )
      refl

three_low :
    (b c d : ℕ)
    → (224 ≤ b) × (b ≤ 239)
    → (128 ≤ c) × (b ≡ 224 → 160 ≤ c)
    → 2048 ≤ ((b - 224) * 64 + (c - 128)) * 64 + (d - 128)
three_low b c d hb hc = elim (ℕ_discrete b 224) [
  | yes e ↦ let low = hc.1 e in omega arith
  | no e ↦ let more : 225 ≤ b = omega arith in omega arith
]

three_gap :
    (b c d : ℕ)
    → (224 ≤ b) × (b ≤ 239)
    → (128 ≤ c) × (c ≤ 191) × (b ≡ 237 → c ≤ 159)
    → (128 ≤ d) × (d ≤ 191)
    → let r = ((b - 224) * 64 + (c - 128)) * 64 + (d - 128) in (r < 55296) ⊎ (57343 < r)
three_gap b c d hb hc hd = elim (ℕ_discrete b 237) [
  | yes e ↦ let low = hc.2 e in inl (omega arith)
  | no e ↦ elim (dec_lt b 237) [ yes below ↦ inl (omega arith) | no above ↦ inr (omega arith) ]
]

decode_two :
    (b c : ℕ) (s : Bytes)
    → (194 ≤ b) × (b ≤ 223)
    → (128 ≤ c) × (c ≤ 191)
    → Decoded b (c ∷ s) ((b - 192) * 64 + (c - 128)) 1
decode_two b c s hb hc =
    let r = (b - 192) * 64 + (c - 128) in
    let first : 192 + r / 64 ≡ b = omega arith in
    let second : 128 + r % 64 ≡ c = omega arith in
    record {
      front = c ∷ [];
      tail = s;
      split = refl;
      size = refl;
      scalar = (not_surrogate r (inl (omega arith)), omega arith);
      bytes = rune_bytes_two r (omega arith) (omega arith) ∙ ap₂ (λ x y. x ∷ y ∷ []) first second;
    }

decode_three :
    (b c d : ℕ) (s : Bytes)
    → (224 ≤ b) × (b ≤ 239)
    → is_second b c ≡ true
    → (128 ≤ d) × (d ≤ 191)
    → Decoded b (c ∷ d ∷ s) (((b - 224) * 64 + (c - 128)) * 64 + (d - 128)) 2
decode_three b c d s hb hc hd =
    let range = second_range b c hc in
    let r = ((b - 224) * 64 + (c - 128)) * 64 + (d - 128) in
    let first : 224 + r / 4096 ≡ b = omega (arith, range) in
    let second : 128 + r / 64 % 64 ≡ c = omega (arith, range) in
    let third : 128 + r % 64 ≡ d = omega arith in
    let above : 2048 ≤ r = three_low b c d hb (range.0, range.2) in
    let scalar = not_surrogate r (three_gap b c d hb (range.0, range.1, range.3) hd) in
    record {
      front = c ∷ d ∷ [];
      tail = s;
      split = refl;
      size = refl;
      scalar = (scalar, omega (arith, range));
      bytes =
          rune_bytes_three r above (omega (arith, range)) scalar
          ∙ ap₂ (λ x (y : Bytes). x ∷ y) first (ap₂ (λ x y. x ∷ y ∷ []) second third);
    }

four_range :
    (b c d f : ℕ)
    → (240 ≤ b) × (b ≤ 244)
    → (128 ≤ c) × (c ≤ 191) × (b ≡ 240 → 144 ≤ c) × (b ≡ 244 → c ≤ 143)
    → (128 ≤ d) × (d ≤ 191)
    → (128 ≤ f) × (f ≤ 191)
    → let r = (((b - 240) * 64 + (c - 128)) * 64 + (d - 128)) * 64 + (f - 128) in
      (65536 ≤ r) × (r < 1114112)
four_range b c d f hb hc hd hf = elim (ℕ_discrete b 240) [
  | yes e ↦ let low = hc.2 e in (omega arith, omega arith)
  | no e ↦ elim (ℕ_discrete b 244) [
    | yes e ↦ let high = hc.3 e in (omega arith, omega arith)
    | no e' ↦
        let more : 241 ≤ b = omega arith in
        let less : b ≤ 243 = omega arith in (omega arith, omega arith)
  ]
]

decode_four :
    (b c d f : ℕ) (s : Bytes)
    → (240 ≤ b) × (b ≤ 244)
    → is_second b c ≡ true
    → (128 ≤ d) × (d ≤ 191)
    → (128 ≤ f) × (f ≤ 191)
    → Decoded b (c ∷ d ∷ f ∷ s) ((((b - 240) * 64 + (c - 128)) * 64 + (d - 128)) * 64 + (f - 128)) 3
decode_four b c d f s hb hc hd hf =
    let range = second_range b c hc in
    let r = (((b - 240) * 64 + (c - 128)) * 64 + (d - 128)) * 64 + (f - 128) in
    let bounds = four_range b c d f hb (range.0, range.1, range.4, range.5) hd hf in
    let first : 240 + r / 262144 ≡ b = omega (arith, range) in
    let second : 128 + r / 4096 % 64 ≡ c = omega (arith, range) in
    let third : 128 + r / 64 % 64 ≡ d = omega (arith, range) in
    let fourth : 128 + r % 64 ≡ f = omega arith in
    record {
      front = c ∷ d ∷ f ∷ [];
      tail = s;
      split = refl;
      size = refl;
      scalar = (not_surrogate r (inr (omega arith)), bounds.1);
      bytes =
          rune_bytes_four r bounds.0 bounds.1
          ∙ ap₂ (λ x (y : Bytes). x ∷ y) first
              (ap₂ (λ x (y : Bytes). x ∷ y) second (ap₂ (λ x y. x ∷ y ∷ []) third fourth));
    }

decode_kind-Decoded :
    (k : First) (b : ℕ) (s : Bytes) (r more : ℕ)
    → first_kind b ≡ k
    → decode_kind k b s ≡ some (r, more)
    → Decoded b s r more
decode_kind-Decoded none_begins b s r more k e = absurd (ground (arith, e))
decode_kind-Decoded one b s r more k e =
    let small = (kind_range b).0 k in
    let same : b ≡ r = ground (arith, e) in
    let none_more : 0 ≡ more = ground (arith, e) in
    rw (← same, ← none_more)
      (record {
        front = [];
        tail = s;
        split = refl;
        size = refl;
        scalar = (not_surrogate b (inl (omega arith)), omega arith);
        bytes = rw (lt→ltb b 128 small) refl;
      })
decode_kind-Decoded two b [] r more k e = absurd (ground (arith, e))
decode_kind-Decoded two b (c ∷ s) r more k e =
    let (hc, same, count) = guarded (is_second b c) _ r more e in
    let range = second_range b c hc in
    rw (← same, ← count) (decode_two b c s ((kind_range b).1 k) (range.0, range.1))
decode_kind-Decoded three b [] r more k e = absurd (ground (arith, e))
decode_kind-Decoded three b (c ∷ []) r more k e = absurd (ground (arith, e))
decode_kind-Decoded three b (c ∷ d ∷ s) r more k e =
    let (h, same, count) = guarded (is_second b c && is_continuation d) _ r more e in
    let (hc, hd) = both (is_second b c) (is_continuation d) h in
    rw (← same, ← count) (decode_three b c d s ((kind_range b).2 k) hc (continuation_range d hd))
decode_kind-Decoded four b [] r more k e = absurd (ground (arith, e))
decode_kind-Decoded four b (c ∷ []) r more k e = absurd (ground (arith, e))
decode_kind-Decoded four b (c ∷ d ∷ []) r more k e = absurd (ground (arith, e))
decode_kind-Decoded four b (c ∷ d ∷ f ∷ s) r more k e =
    let tests = is_second b c && is_continuation d in
    let (h, same, count) = guarded (tests && is_continuation f) _ r more e in
    let (h', hf) = both tests (is_continuation f) h in
    let (hc, hd) = both (is_second b c) (is_continuation d) h' in
    rw (← same, ← count)
      (decode_four b c d f s ((kind_range b).3 k) hc (continuation_range d hd)
        (continuation_range f hf))

-- A character that is read is a Unicode character, and is written as the bytes it was read from.
pub decode_rune-Decoded :
    (b : ℕ) (s : Bytes) (r more : ℕ) → decode_rune b s ≡ some (r, more) → Decoded b s r more
unfolding decode_rune
decode_rune-Decoded b s r more e = decode_kind-Decoded (first_kind b) b s r more refl e
