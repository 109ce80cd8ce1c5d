-- ===== src/Payload/Timestamp.antt =====
-- `benchmarkTimestamp` of subscribe_stats.go.
use mqtt_load_generator.Base.{
  ℕ, ◌+◌, ◌-◌, ◌*◌, ◌^◌, ltb, leb, ◌==◌, if◌then◌else◌, Bool, not, ◌&&◌, ◌||◌, [], ◌∷◌, Option,
  none, some,
}
use mqtt_load_generator.Base.Words.{u64}
use mqtt_load_generator.Base.Text.{Bytes, codes}

abbrev pub benchmark_timestamp_prefix : Bytes
benchmark_timestamp_prefix = codes "{\"timestamp\":"

abbrev pub max_timestamp_digits : ℕ
max_timestamp_digits = 19

abbrev pub max_int64 : ℕ
max_int64 = 2 ^ 63 - 1

abbrev pub is_digit : ℕ → Bool
is_digit character = leb b'0' character && leb character b'9'

abbrev pub is_terminator : ℕ → Bool
is_terminator character = character == b',' || character == b'}'

-- The loop over the bytes behind the prefix. `value` is a uint64.
unfoldable pub scan_timestamp : Bytes → ℕ → ℕ → Option ℕ
scan_timestamp [] value digit_count = none
scan_timestamp (character ∷ rest) value digit_count =
    let next = scan_timestamp rest (u64 (value * 10 + (character - b'0'))) (digit_count + 1) in
    if is_digit character
    then if ltb max_timestamp_digits (digit_count + 1) then none else next
    else if not (is_terminator character) || digit_count == 0 || ltb max_int64 value
    then none
    else some value

-- What follows a prefix, where the text starts with it.
unfoldable pub strip_prefix : Bytes → Bytes → Option Bytes
strip_prefix [] text = some text
strip_prefix (p ∷ prefix) [] = none
strip_prefix (p ∷ prefix) (c ∷ text) =
    let rest = strip_prefix prefix text in if c == p then rest else none

-- A payload without the prefix has no timestamp.
abbrev pub scan_rest : Option Bytes → Option ℕ
scan_rest none = none
scan_rest (some rest) = scan_timestamp rest 0 0

unfoldable pub benchmark_timestamp : Bytes → Option ℕ
benchmark_timestamp payload = scan_rest (strip_prefix benchmark_timestamp_prefix payload)
