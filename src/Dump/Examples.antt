-- ===== src/Dump/Examples.antt =====
-- Tests of dump: lines, escapes, and a run whose second write fails.
use mqtt_load_generator.Base.{
  ℕ, ◌+◌, ◌-◌, ◌*◌, ◌<◌, ◌≤◌, ◌≡◌, ◌⊎◌, Bool, true, false, leb, ◌==◌, ◌&&◌, ◌||◌, ◌↔◌, subst, List,
  [], ◌∷◌, ◌++◌, Option, none, some, flag, refl, arith,
}
use mqtt_load_generator.Base.Text.{Bytes, codes, All}
use mqtt_load_generator.Dump.{format_dump_line}
use mqtt_load_generator.Dump.Utf8.{decode_rune}
use mqtt_load_generator.Dump.Quote.{hex, escape_rune, quote_loop, quote_to_ascii}
use mqtt_load_generator.Dump.Printable.{IsPrintable, line_printable}
use mqtt_load_generator.Dump.Escape.{append_unicode_escape, FourDigits, unicode_escape_exact}
use mqtt_load_generator.Dump.Json.{
  runes_from, runes, valid_from, escape_loop, escape_unprintable, format_json_line,
}
use mqtt_load_generator.Dump.Reading.{text_of}
use mqtt_load_generator.Dump.Shown.{AcceptsAscii, NoControl, Safe}
use mqtt_load_generator.Dump.JsonLine.{escape-fast_path, json_line-Safe}
use mqtt_load_generator.Dump.Unquote.{unquote}
use mqtt_load_generator.Dump.Unquote.RoundTrip.{dump_line-unquote}
use mqtt_load_generator.Dump.Terminal.{Message, print_all, IsHarmless, print_all-IsHarmless}
use mqtt_load_generator.Dump.Run.{
  MessagePrinter, print, DumpRun, selecting, has_error, has_returned, receive_error, print_message,
  Step, prints, sends, acknowledges, Reach, begin, later, dump_errors, dump_stops,
}

-- An escape byte, an e with an acute accent, a quote and a byte that is not UTF-8.
abbrev rude : Bytes
rude = 27 ∷ 195 ∷ 169 ∷ b'"' ∷ 255 ∷ []

rude_line : format_dump_line (codes "a") rude true ≡ codes "\"a\"\t\"\\x1b\\u00e9\\\"\\xff\"\n"
unfolding format_dump_line quote_to_ascii quote_loop escape_rune hex decode_rune
rude_line = refl

line_printable_test :
    (shown : Bytes) × (text : Bytes) × (format_dump_line (codes "a") rude true
      ≡ shown ++ (b'\t' ∷ text ++ (b'\n' ∷ [])))
    × All IsPrintable shown
    × All IsPrintable text
line_printable_test = line_printable (codes "a") rude true

-- U+1F600 as two escapes.
face : append_unicode_escape [] 128512 ≡ codes "\\ud83d\\ude00"
unfolding append_unicode_escape hex
face = refl

unicode_escape_exact_example :
    let out = append_unicode_escape [] 128512 in
    (128512 < 65536 → (digits : Bytes) × (out ≡ b'\\' ∷ b'u' ∷ digits) × FourDigits 128512 digits)
    × (65536 ≤ 128512
        → (high : ℕ) × (low : ℕ) × (first : Bytes) × (second : Bytes) × (out
            ≡ b'\\' ∷ b'u' ∷ first ++ (b'\\' ∷ b'u' ∷ second))
          × FourDigits high first
          × FourDigits low second
          × (55296 ≤ high)
          × (high < 56320)
          × (56320 ≤ low)
          × (low < 57344)
          × ((high - 55296) * 1024 + (low - 56320) + 65536 ≡ 128512))
unicode_escape_exact_example = unicode_escape_exact [] 128512 (omega arith)

-- The second write has failed, and its error is in the channel.
second_failed : (s : DumpRun) × Reach s
unfolding print_message print
second_failed = (
  _,
  later
      (later (later (later begin (acknowledges refl)) (prints (some (codes "one")) true))
        (prints (some (codes "two")) false))
      (sends (omega arith)),
)

dump_errors_example :
    let s = second_failed.0 in
    (s.disconnects ≡ flag (has_returned s.runner))
    × (has_error s.runner ≡ true → s.printer.failed ≡ true)
    × (s.to_send + flag s.print_failed ≤ 1)
    × (s.printer.failed ≡ true
        → (0 < s.to_send) ⊎ (s.print_failed ≡ true) ⊎ (has_error s.runner ≡ true))
dump_errors_example = dump_errors second_failed.1

dump_stops_test :
    let s = second_failed.0 in
    ((line : Option Bytes) (writes : Bool) → print line writes s.printer ≡ (s.printer, false))
    × (s.runner ≡ selecting → s.to_send ≡ 0 → Step s (receive_error s))
unfolding second_failed
dump_stops_test = dump_stops second_failed.1 refl

-- `unicode.IsPrint` of a few characters: printable ASCII and an e with an acute accent.
abbrev few_print : ℕ → Bool
few_print c = leb 32 c && leb c 126 || c == 233

few_print-AcceptsAscii : AcceptsAscii few_print
few_print-AcceptsAscii c low high = ground arith

-- A payload in an object without a topic, which stands for the JSON encoder.
abbrev wrap : Bytes → Bytes → Option Bytes
wrap topic payload = some (codes "{}\n")

wrap-NoControl : (topic payload line : Bytes) → wrap topic payload ≡ some line → NoControl line
wrap-NoControl topic payload line e =
    let same : codes "{}\n" ≡ line = ground (arith, e) in subst NoControl same (ground arith)

-- An accented e stays, and DEL and U+009B are escaped.
escaped_line :
    escape_unprintable few_print (195 ∷ 169 ∷ 127 ∷ 194 ∷ 155 ∷ b'\n' ∷ [])
    ≡ 195 ∷ 169 ∷ (codes "\\u007f\\u009b\n")
unfolding escape_unprintable runes runes_from escape_loop append_unicode_escape hex decode_rune
escaped_line = refl

escape-fast_path_example :
    let line = codes "{\"a\":1}\n" in
    escape_unprintable few_print line ≡ escape_loop few_print [] (runes line)
escape-fast_path_example =
    escape-fast_path few_print few_print-AcceptsAscii (codes "{\"a\":1}\n") (ground arith)

json_line_test :
    let out = format_json_line few_print wrap (codes "a") rude in
    ((line : Bytes)
      → out ≡ some line
      → (line ≡ text_of (runes line)) × All (Safe few_print) (runes line))
    × ((out ≡ none) ↔ ((valid_from 0 rude ≡ false) ⊎ (some (codes "{}\n") ≡ none)))
json_line_test =
    json_line-Safe few_print few_print-AcceptsAscii wrap wrap-NoControl (codes "a") rude

dump_line-unquote_example :
    (shown : Bytes) × (text : Bytes) × (format_dump_line (codes "a") rude true
      ≡ shown ++ (b'\t' ∷ text ++ (b'\n' ∷ [])))
    × All IsPrintable shown
    × All IsPrintable text
    × (unquote shown ≡ some (codes "a"))
    × (unquote text ≡ some rude)
dump_line-unquote_example = dump_line-unquote (codes "a") rude true (ground arith) (ground arith)

abbrev messages : List Message
messages =
    record { topic = codes "a"; payload = rude; writes = true }
    ∷ record { topic = codes "b"; payload = codes "1"; writes = false }
    ∷ []

abbrev fresh : MessagePrinter
fresh = record { lines = []; failed = false }

print_all-IsHarmless_example :
    All
      (λ line. IsHarmless few_print line)
      (print_all few_print wrap (record { show_topic = true; json = false }) messages fresh).lines
print_all-IsHarmless_example =
    print_all-IsHarmless few_print few_print-AcceptsAscii wrap wrap-NoControl
      (record { show_topic = true; json = false }) messages fresh tt
