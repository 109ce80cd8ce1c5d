-- ===== src/Dump/Json.antt =====
-- The lines of dump with --json: `formatJSONLine` and `escapeUnprintable` of internal/display/dump.go.
use mqtt_load_generator.Base.{
  ℕ, zero, suc, ◌+◌, ◌/◌, ◌%◌, ltb, leb, ◌==◌, if◌then◌else◌, Bool, true, false, ◌&&◌, ◌||◌, List,
  [], ◌∷◌, ◌++◌, Option, none, some,
}
use mqtt_load_generator.Base.Text.{Bytes}
use mqtt_load_generator.Dump.{format_dump_line}
use mqtt_load_generator.Dump.Utf8.{decode_rune}
use mqtt_load_generator.Dump.Quote.{is_surrogate}
use mqtt_load_generator.Dump.Escape.{append_unicode_escape}

-- `utf8.RuneError`.
abbrev pub rune_error : ℕ
rune_error = 65533

abbrev pub three_bytes : ℕ → Bytes
three_bytes r = (224 + r / 4096) ∷ (128 + r / 64 % 64) ∷ (128 + r % 64) ∷ []

-- The bytes that `utf8.AppendRune` appends.
abbrev pub rune_bytes : ℕ → Bytes
rune_bytes r =
    if ltb r 128
    then r ∷ []
    else if ltb r 2048
    then (192 + r / 64) ∷ (128 + r % 64) ∷ []
    else if is_surrogate r || ltb 1114111 r
    then three_bytes rune_error
    else if ltb r 65536
    then three_bytes r
    else (240 + r / 262144) ∷ (128 + r / 4096 % 64) ∷ (128 + r / 64 % 64) ∷ (128 + r % 64) ∷ []

-- Whether a character begins here, and how many bytes behind the first belong to it.
abbrev pub begins_rune : Option (ℕ × ℕ) → Bool × ℕ
begins_rune none = (false, 0)
begins_rune (some (r, more)) = (true, more)

-- The loop of `utf8.Valid`, where the first `skipped` bytes belong to a character already read.
unfoldable pub valid_from : ℕ → Bytes → Bool
valid_from skipped [] = true
valid_from (suc skipped) (b ∷ s) = valid_from skipped s
valid_from zero (b ∷ s) =
    let (begins, more) = begins_rune (decode_rune b s) in begins && valid_from more s

-- A byte of no character counts as `RuneError`.
abbrev pub rune_or_error : Option (ℕ × ℕ) → ℕ × ℕ
rune_or_error none = (rune_error, 0)
rune_or_error (some decoded) = decoded

-- The characters that `range string(s)` visits.
unfoldable pub runes_from : ℕ → Bytes → List ℕ
runes_from skipped [] = []
runes_from (suc skipped) (b ∷ s) = runes_from skipped s
runes_from zero (b ∷ s) = let (r, more) = rune_or_error (decode_rune b s) in r ∷ runes_from more s

unfoldable pub runes : Bytes → List ℕ
unfolding runes_from
runes s = runes_from 0 s

-- Whether `bytes.IndexFunc` finds a character at or above 0x7F.
abbrev pub any_above : List ℕ → Bool
any_above [] = false
any_above (r ∷ rs) = leb 127 r || any_above rs

module _ (is_print : ℕ → Bool) where
  -- The loop of `escapeUnprintable`; `is_print` is `unicode.IsPrint`.
  abbrev pub append_escaped : Bytes → ℕ → Bytes
  append_escaped escaped character =
      if character == b'\n' || is_print character
      then escaped ++ rune_bytes character
      else append_unicode_escape escaped character

  unfoldable pub escape_loop : Bytes → List ℕ → Bytes
  escape_loop escaped [] = escaped
  escape_loop escaped (r ∷ rs) = escape_loop (append_escaped escaped r) rs

  unfoldable pub escape_unprintable : Bytes → Bytes
  unfolding escape_loop
  escape_unprintable line = if any_above (runes line) then escape_loop [] (runes line) else line

  -- `encode` is the JSON encoder on {"topic":...,"payload":...}; `none` is an error.
  abbrev pub escaped_line : Option Bytes → Option Bytes
  escaped_line none = none
  escaped_line (some line) = some (escape_unprintable line)

  unfoldable pub format_json_line : (Bytes → Bytes → Option Bytes) → Bytes → Bytes → Option Bytes
  unfolding valid_from
  format_json_line encode topic payload =
      if valid_from 0 payload then escaped_line (encode topic payload) else none

pub record DumpOptions : Type 0 where
  pub show_topic : Bool
  pub json : Bool

-- `formatDumpLine`.
unfoldable pub format_line :
    (ℕ → Bool) → (Bytes → Bytes → Option Bytes) → DumpOptions → Bytes → Bytes → Option Bytes
unfolding format_json_line
format_line is_print encode options topic payload =
    if options.json
    then format_json_line is_print encode topic payload
    else some (format_dump_line topic payload options.show_topic)
