-- ===== src/Dump/Unquote/RoundTrip.antt =====
-- A quoted topic or payload of internal/display/dump.go gives its bytes back.
use mqtt_load_generator.Base.{
  ℕ, Bool, true, false, if◌then◌else◌, zero, suc, ◌<◌, ◌≡◌, [], ◌∷◌, ◌++◌, Option, none, some,
  length, refl, sym, ap, ap₂, ◌∙◌,
}
use mqtt_load_generator.Base.Text.{Bytes, All}
use mathlib.Core.List.{append_assoc, append-nil}
use mqtt_load_generator.Dump.{format_dump_line}
use mqtt_load_generator.Dump.Printable.{IsPrintable, quote-IsPrintable}
use mqtt_load_generator.Dump.Utf8.{decode_rune}
use mqtt_load_generator.Dump.Quote.{hex, escape_rune, quote_step, quote_loop, quote_to_ascii}
use mqtt_load_generator.Dump.Json.{rune_bytes}
use mqtt_load_generator.Dump.Characters.{decode_rune-Decoded}
use mqtt_load_generator.Dump.Unquote.{plain, read_all, result, unquote}
use mqtt_load_generator.Dump.Unquote.Escapes.{read_all-append, byte_read, Reads, escape_rune-Reads}

-- The bytes behind the first `n`.
drop : ℕ → Bytes → Bytes
drop zero s = s
drop (suc n) [] = []
drop (suc n) (b ∷ s) = drop n s

drop-append : (front tail : Bytes) → drop (length front) (front ++ tail) ≡ tail
unfolding drop
drop-append [] tail = refl
drop-append (b ∷ front) tail = drop-append front tail

drop_decoded :
    (b : ℕ) (s : Bytes) (r more : ℕ)
    → decode_rune b s ≡ some (r, more)
    → rune_bytes r ++ drop more s ≡ b ∷ s
drop_decoded b s r more e =
    let d = decode_rune-Decoded b s r more e in
    let rest : drop more s ≡ d.tail = ap₂ drop (sym d.size) d.split ∙ drop-append d.front d.tail in
    ap₂ (λ (x y : Bytes). x ++ y) d.bytes rest ∙ ap (◌∷◌ b) (sym d.split)

-- What is read from one round of the loop of `QuoteToASCII`, and then from the others.
round_read :
    (b : ℕ) (s out : Bytes) (o : Option (ℕ × ℕ))
    → b < 256
    → decode_rune b s ≡ o
    → ((skipped : ℕ) (out : Bytes)
        → read_all (plain, out) (quote_loop skipped s) ≡ (plain, out ++ drop skipped s))
    → read_all (plain, out) ((quote_step b o).0 ++ quote_loop (quote_step b o).1 s)
      ≡ (plain, out ++ (b ∷ s))
unfolding drop Reads
round_read b s out none h e rest =
    read_all-append (plain, out) (b'\\' ∷ b'x' ∷ hex 2 b) (quote_loop 0 s)
    ∙ ap (λ r. read_all r (quote_loop 0 s)) (byte_read b out h)
    ∙ rest 0 (out ++ (b ∷ []))
    ∙ ap (λ (t : Bytes). (plain, t)) (append_assoc out (b ∷ []) s)
round_read b s out (some (r, more)) h e rest =
    let d = decode_rune-Decoded b s r more e in
    read_all-append (plain, out) (escape_rune r) (quote_loop more s)
    ∙ ap (λ r. read_all r (quote_loop more s)) (escape_rune-Reads r out d.scalar)
    ∙ rest more (out ++ rune_bytes r)
    ∙ ap (λ (t : Bytes). (plain, t))
        (append_assoc out (rune_bytes r) (drop more s)
          ∙ ap (λ (t : Bytes). out ++ t) (drop_decoded b s r more e))

quote_loop_read :
    (s : Bytes) (skipped : ℕ) (out : Bytes)
    → All (λ b. b < 256) s
    → read_all (plain, out) (quote_loop skipped s) ≡ (plain, out ++ drop skipped s)
unfolding quote_loop read_all drop
quote_loop_read [] zero out h = ap (λ (t : Bytes). (plain, t)) (sym (append-nil out))
quote_loop_read [] (suc skipped) out h = ap (λ (t : Bytes). (plain, t)) (sym (append-nil out))
quote_loop_read (b ∷ s) (suc skipped) out h = quote_loop_read s skipped out h.1
quote_loop_read (b ∷ s) zero out h =
    round_read b s out (decode_rune b s) h.0 refl λ skipped out. quote_loop_read s skipped out h.1

-- Reading a quoted topic or payload gives back its exact bytes, those of no character too.
pub unquote-quote : (s : Bytes) → All (λ b. b < 256) s → unquote (quote_to_ascii s) ≡ some s
unfolding unquote quote_to_ascii read_all drop
unquote-quote s h = ap result (
    read_all-append (plain, []) (quote_loop 0 s) (b'"' ∷ [])
    ∙ ap (λ r. read_all r (b'"' ∷ [])) (quote_loop_read s 0 [] h))

-- A line of dump in its default format is made of printable ASCII texts, from which a reader of quoted
-- strings gets the exact bytes of the payload back, and with --show-topic those of the topic before
-- the one tab, whatever the bytes are.
pub dump_line-unquote :
    (topic payload : Bytes) (show_topic : Bool)
    → All (λ b. b < 256) topic
    → All (λ b. b < 256) payload
    → (shown : Bytes) × (text : Bytes) × (format_dump_line topic payload show_topic
        ≡ (if show_topic then shown ++ (b'\t' ∷ text ++ (b'\n' ∷ [])) else text ++ (b'\n' ∷ [])))
      × All IsPrintable shown
      × All IsPrintable text
      × (unquote shown ≡ some topic)
      × (unquote text ≡ some payload)
unfolding format_dump_line
dump_line-unquote topic payload true ht hp = (
  quote_to_ascii topic,
  quote_to_ascii payload,
  refl,
  quote-IsPrintable topic,
  quote-IsPrintable payload,
  unquote-quote topic ht,
  unquote-quote payload hp,
)
dump_line-unquote topic payload false ht hp = (
  quote_to_ascii topic,
  quote_to_ascii payload,
  refl,
  quote-IsPrintable topic,
  quote-IsPrintable payload,
  unquote-quote topic ht,
  unquote-quote payload hp,
)
