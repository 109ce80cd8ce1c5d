-- ===== src/Dump/Utf8.antt =====
-- `utf8.DecodeRune`, which internal/display/dump.go relies on.
use mqtt_load_generator.Base.{
  ℕ, ◌+◌, ◌-◌, ◌*◌, ltb, leb, ◌==◌, if◌then◌else◌, Bool, ◌&&◌, [], ◌∷◌, Option, none, some,
}
use mqtt_load_generator.Base.Text.{Bytes}

-- The kinds of a first byte, by the length of the character; `none_begins` begins no character.
pub data First : Type 0 where
  one two three four none_begins : First

abbrev pub first_kind : ℕ → First
first_kind b =
    if ltb b 128
    then one
    else if leb 194 b && leb b 223
    then two
    else if leb 224 b && leb b 239
    then three
    else if leb 240 b && leb b 244
    then four
    else none_begins

-- The range of the second byte.
abbrev pub second_low : ℕ → ℕ
second_low b = if b == 224 then 160 else if b == 240 then 144 else 128

abbrev pub second_high : ℕ → ℕ
second_high b = if b == 237 then 159 else if b == 244 then 143 else 191

abbrev pub is_second : ℕ → ℕ → Bool
is_second b c = leb (second_low b) c && leb c (second_high b)

abbrev pub is_continuation : ℕ → Bool
is_continuation c = leb 128 c && leb c 191

-- The character that begins with `b`, and how many of the bytes behind it belong to it.
abbrev pub decode_kind : First → ℕ → Bytes → Option (ℕ × ℕ)
decode_kind none_begins b s = none
decode_kind one b s = some (b, 0)
decode_kind two b [] = none
decode_kind two b (c ∷ s) = if is_second b c then some ((b - 192) * 64 + (c - 128), 1) else none
decode_kind three b [] = none
decode_kind three b (c ∷ []) = none
decode_kind three b (c ∷ d ∷ s) =
    if is_second b c && is_continuation d
    then some (((b - 224) * 64 + (c - 128)) * 64 + (d - 128), 2)
    else none
decode_kind four b [] = none
decode_kind four b (c ∷ []) = none
decode_kind four b (c ∷ d ∷ []) = none
decode_kind four b (c ∷ d ∷ e ∷ s) =
    if is_second b c && is_continuation d && is_continuation e
    then some ((((b - 240) * 64 + (c - 128)) * 64 + (d - 128)) * 64 + (e - 128), 3)
    else none

unfoldable pub decode_rune : ℕ → Bytes → Option (ℕ × ℕ)
decode_rune b s = decode_kind (first_kind b) b s
