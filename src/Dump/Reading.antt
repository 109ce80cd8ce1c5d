-- ===== src/Dump/Reading.antt =====
-- Reading back the bytes that `utf8.AppendRune` writes.
use native.Mathlib.Decide.{dec_lt}
use mqtt_load_generator.Base.{
  ℕ, ◌+◌, ◌-◌, ◌*◌, ◌/◌, ◌%◌, lt→ltb, ◌≤◌, ◌<◌, ◌⊎◌, ◌≡◌, true, false, List, [], ◌∷◌, ◌++◌, some,
  length, refl, ap, ◌∙◌, arith,
}
use mqtt_load_generator.Base.Text.{Bytes, All}
use mqtt_load_generator.Dump.Utf8.{
  one, two, three, four, first_kind, is_second, is_continuation, decode_rune,
}
use mqtt_load_generator.Dump.Quote.{is_surrogate}
use mqtt_load_generator.Dump.Json.{rune_bytes, runes_from, runes}
use mqtt_load_generator.Dump.Characters.{
  IsScalar, rune_bytes_two, rune_bytes_three, rune_bytes_four,
}

-- A character is written as a first byte and those behind it, and is read from them.
pub record Encoded (r : ℕ) : Type 0 where
  pub first : ℕ
  pub front : Bytes
  pub bytes : rune_bytes r ≡ first ∷ front
  pub reads : (tail : Bytes) → decode_rune first (front ++ tail) ≡ some (r, length front)

kind_of_range :
    (b : ℕ)
    → (b < 128 → first_kind b ≡ one)
      × (194 ≤ b → b ≤ 223 → first_kind b ≡ two)
      × (224 ≤ b → b ≤ 239 → first_kind b ≡ three)
      × (240 ≤ b → b ≤ 244 → first_kind b ≡ four)
kind_of_range b = ground arith

is_continuation_lem : (n : ℕ) → n < 64 → is_continuation (128 + n) ≡ true
is_continuation_lem n h = ground arith

second_lem :
    (b n : ℕ)
    → n < 64
    → (b ≡ 224 → 32 ≤ n)
    → (b ≡ 237 → n < 32)
    → (b ≡ 240 → 16 ≤ n)
    → (b ≡ 244 → n < 16)
    → is_second b (128 + n) ≡ true
second_lem b n h h1 h2 h3 h4 = ground arith

encode_one : (r : ℕ) → r < 128 → Encoded r
unfolding decode_rune
encode_one r h = record {
  first = r;
  front = [];
  bytes = rw (lt→ltb r 128 h) refl;
  reads = λ tail. rw ((kind_of_range r).0 h) refl;
}

encode_two : (r : ℕ) → 128 ≤ r → r < 2048 → Encoded r
unfolding decode_rune
encode_two r low high =
    let b = 192 + r / 64 in
    let n = r % 64 in
    let read : (b - 192) * 64 + (128 + n - 128) ≡ r = omega arith in
    record {
      first = b;
      front = (128 + n) ∷ [];
      bytes = rune_bytes_two r low high;
      reads = λ tail.
          rw
            (
              (kind_of_range b).1 (omega arith) (omega arith),
              second_lem b n (omega arith) (λ e. omega arith) (λ e. omega arith) (λ e. omega arith)
                  (λ e. omega arith),
            )
            (ap (λ r. some (r, 1)) read);
    }

encode_three : (r : ℕ) → 2048 ≤ r → r < 65536 → is_surrogate r ≡ false → Encoded r
unfolding decode_rune
encode_three r low high scalar =
    let b = 224 + r / 4096 in
    let n = r / 64 % 64 in
    let m = r % 64 in
    let read : ((b - 224) * 64 + (128 + n - 128)) * 64 + (128 + m - 128) ≡ r = omega arith in
    let gap : (r < 55296) ⊎ (57343 < r) = ground (arith, scalar) in
    record {
      first = b;
      front = (128 + n) ∷ (128 + m) ∷ [];
      bytes = rune_bytes_three r low high scalar;
      reads = λ tail.
          rw
            (
              (kind_of_range b).2 (omega arith) (omega arith),
              second_lem b n (omega arith) (λ e. omega arith) (λ e. omega arith) (λ e. omega arith)
                  (λ e. omega arith),
              is_continuation_lem m (omega arith),
            )
            (ap (λ r. some (r, 2)) read);
    }

encode_four : (r : ℕ) → 65536 ≤ r → r < 1114112 → Encoded r
unfolding decode_rune
encode_four r low high =
    let b = 240 + r / 262144 in
    let n = r / 4096 % 64 in
    let m = r / 64 % 64 in
    let l = r % 64 in
    let read : (((b - 240) * 64 + (128 + n - 128)) * 64 + (128 + m - 128)) * 64 + (128 + l - 128)
        ≡ r =
      omega arith in
    record {
      first = b;
      front = (128 + n) ∷ (128 + m) ∷ (128 + l) ∷ [];
      bytes = rune_bytes_four r low high;
      reads = λ tail.
          rw
            (
              (kind_of_range b).3 (omega arith) (omega arith),
              second_lem b n (omega arith) (λ e. omega arith) (λ e. omega arith) (λ e. omega arith)
                  (λ e. omega arith),
              is_continuation_lem m (omega arith),
              is_continuation_lem l (omega arith),
            )
            (ap (λ r. some (r, 3)) read);
    }

pub scalar-Encoded : (r : ℕ) → IsScalar r → Encoded r
scalar-Encoded r h = elim (dec_lt r 128) [
  | yes small ↦ encode_one r small
  | no above_ascii ↦ elim (dec_lt r 2048) [
    | yes small ↦ encode_two r (omega arith) small
    | no above_two ↦ elim (dec_lt r 65536) [
      | yes small ↦ encode_three r (omega arith) small h.0
      | no above_three ↦ encode_four r (omega arith) h.1
    ]
  ]
]

-- The bytes of a list of characters.
abbrev pub text_of : List ℕ → Bytes
text_of [] = []
text_of (r ∷ rs) = rune_bytes r ++ text_of rs

pub runes_from-skip :
    (front tail : Bytes) → runes_from (length front) (front ++ tail) ≡ runes_from 0 tail
unfolding runes_from
runes_from-skip [] tail = refl
runes_from-skip (b ∷ front) tail = runes_from-skip front tail

-- Written characters are read as they were.
pub runes-text_of : (rs : List ℕ) → All IsScalar rs → runes (text_of rs) ≡ rs
unfolding runes runes_from
runes-text_of [] h = refl
runes-text_of (r ∷ rs) h =
    let e = scalar-Encoded r h.0 in
    rw (e.bytes, e.reads (text_of rs))
      (ap (◌∷◌ r) (runes_from-skip e.front (text_of rs) ∙ runes-text_of rs h.1))
