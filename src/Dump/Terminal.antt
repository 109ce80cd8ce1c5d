-- ===== src/Dump/Terminal.antt =====
-- What `messagePrinter.Print` of internal/display/dump.go writes, over all the messages of a run.
use mqtt_load_generator.Base.{
  ℕ, ◌<◌, ◌⊎◌, ◌≡◌, if◌then◌else◌, Bool, true, false, List, [], ◌∷◌, ◌++◌, Option, none, some,
  Bool-cases, refl, sym, ap, subst, ◌∙◌, arith, inl, inr,
}
use mqtt_load_generator.Base.Text.{Bytes, All, All-append}
use mqtt_load_generator.Dump.{format_dump_line}
use mqtt_load_generator.Dump.Printable.{IsPrintable, line_printable}
use mqtt_load_generator.Dump.Run.{MessagePrinter, print}
use mqtt_load_generator.Dump.Json.{runes, DumpOptions, format_json_line, format_line}
use mqtt_load_generator.Dump.Shown.{AcceptsAscii, NoControl, Safe}
use mqtt_load_generator.Dump.Characters.{IsScalar}
use mqtt_load_generator.Dump.Reading.{text_of, runes-text_of}
use mqtt_load_generator.Dump.Shown.{text_of_ascii, ascii-IsScalar}
use mqtt_load_generator.Dump.JsonLine.{json_line-Safe}

-- A message and whether a write of its line succeeds.
pub record Message : Type 0 where
  pub topic : Bytes
  pub payload : Bytes
  pub writes : Bool

module _ (is_print : ℕ → Bool) (encode : Bytes → Bytes → Option Bytes) (options : DumpOptions) where
  -- `Print`.
  unfoldable pub print_payload : Message → MessagePrinter → MessagePrinter × Bool
  print_payload message printer =
      print (format_line is_print encode options message.topic message.payload) message.writes
        printer

  -- A sequence of messages.
  unfoldable pub print_all : List Message → MessagePrinter → MessagePrinter
  unfolding print_payload
  print_all [] printer = printer
  print_all (message ∷ messages) printer = print_all messages (print_payload message printer).0

-- Valid UTF-8 of printable characters, newlines and tabs.
pub record IsHarmless (is_print : ℕ → Bool) (line : Bytes) : Type 0 where
  pub text : line ≡ text_of (runes line)
  pub harmless : All (λ r. (r ≡ 9) ⊎ Safe is_print r) (runes line)

module _ (is_print : ℕ → Bool) (ascii : AcceptsAscii is_print) where
  Harmless : ℕ → Type 0
  Harmless r = (r ≡ 9) ⊎ Safe is_print r

  Plain : ℕ → Type 0
  Plain c = (c < 128) × ((c ≡ 9) ⊎ Safe is_print c)

  printable-Plain : (bs : Bytes) → All IsPrintable bs → All Plain bs
  unfolding Plain
  printable-Plain [] h = tt
  printable-Plain (b ∷ bs) h =
      ((omega arith, inr (inr (ascii b h.0.0 h.0.1))), printable-Plain bs h.1)

  Plain-split :
      (bs : Bytes) → All Plain bs → All (λ c. c < 128) bs × All IsScalar bs × All Harmless bs
  unfolding Harmless Plain
  Plain-split [] h = (tt, tt, tt)
  Plain-split (b ∷ bs) h =
      let (small, scalar, rest) = Plain-split bs h.1 in
      ((h.0.0, small), (ascii-IsScalar b h.0.0, scalar), (h.0.1, rest))

  Plain-IsHarmless : (bs : Bytes) → All Plain bs → IsHarmless is_print bs
  unfolding Harmless
  Plain-IsHarmless bs h =
      let (small, scalar, safe) = Plain-split bs h in
      let same = text_of_ascii bs small in
      let read : runes bs ≡ bs = ap runes (sym same) ∙ runes-text_of bs scalar in
      record {
        text = sym same ∙ ap text_of (sym read);
        harmless = subst (All (λ r. (r ≡ 9) ⊎ Safe is_print r)) (sym read) safe;
      }

  end_line : (text : Bytes) → All IsPrintable text → All Plain (text ++ (b'\n' ∷ []))
  unfolding Plain
  end_line text h =
      All-append Plain text (b'\n' ∷ []) (printable-Plain text h)
        ((omega arith, inr (inl refl)), tt)

  with_topic :
      (shown text : Bytes)
      → All IsPrintable shown
      → All IsPrintable text
      → All Plain (shown ++ (b'\t' ∷ text ++ (b'\n' ∷ [])))
  unfolding Plain
  with_topic shown text h k =
      All-append Plain shown (b'\t' ∷ text ++ (b'\n' ∷ [])) (printable-Plain shown h)
        ((omega arith, inl refl), end_line text k)

  default-IsHarmless :
      (topic payload : Bytes) (show_topic : Bool)
      → IsHarmless is_print (format_dump_line topic payload show_topic)
  default-IsHarmless topic payload true =
      let (shown, text, e, h, k) = line_printable topic payload true in
      subst (IsHarmless is_print) (sym e) (Plain-IsHarmless _ (with_topic shown text h k))
  default-IsHarmless topic payload false =
      let (shown, text, e, h, k) = line_printable topic payload false in
      subst (IsHarmless is_print) (sym e) (Plain-IsHarmless _ (end_line text k))

  weaken : (rs : List ℕ) → All (Safe is_print) rs → All Harmless rs
  unfolding Harmless
  weaken [] h = tt
  weaken (r ∷ rs) h = (inr h.0, weaken rs h.1)

  module _ (encode : Bytes → Bytes → Option Bytes)
      (encoder : (topic payload line : Bytes)
        → encode topic payload ≡ some line
        → NoControl line) where
    line-IsHarmless :
        (options : DumpOptions) (topic payload line : Bytes)
        → format_line is_print encode options topic payload ≡ some line
        → IsHarmless is_print line
    unfolding format_line Harmless
    line-IsHarmless options topic payload line e = elim (Bool-cases options.json) [
      | inl json ↦
          let built =
            sym (
              ap
                (λ (b : Bool).
                  if b
                  then format_json_line is_print encode topic payload
                  else some (format_dump_line topic payload options.show_topic))
                json)
            ∙ e in
          let (text, safe) =
            (json_line-Safe is_print ascii encode encoder topic payload).0 line built in
          record { text = text; harmless = weaken (runes line) safe }
      | inr default ↦
          let built =
            sym (
              ap
                (λ (b : Bool).
                  if b
                  then format_json_line is_print encode topic payload
                  else some (format_dump_line topic payload options.show_topic))
                default)
            ∙ e in
          let same : format_dump_line topic payload options.show_topic ≡ line =
            ground (arith, built) in
          subst (IsHarmless is_print) same (default-IsHarmless topic payload options.show_topic)
    ]

    print-IsHarmless :
        (options : DumpOptions) (message : Message) (printer : MessagePrinter) (o : Option Bytes)
        → ((line : Bytes) → o ≡ some line → IsHarmless is_print line)
        → All (λ line. IsHarmless is_print line) printer.lines
        → All (λ line. IsHarmless is_print line) (print o message.writes printer).0.lines
    unfolding print
    print-IsHarmless options message printer none h all = all
    print-IsHarmless options message printer (some line) h all = elim (Bool-cases printer.failed) [
      | inl e ↦ rw (e) all
      | inr e ↦ elim (Bool-cases message.writes) [
        | inl f ↦ rw (e, f) (h line refl, all)
        | inr f ↦ rw (e, f) all
      ]
    ]

    -- Whatever messages arrive, in either format and with or without topics, every line that the
    -- printer writes is valid UTF-8 of printable characters, newlines and tabs, so no publisher can
    -- send a control sequence to the terminal; the JSON encoder must write no control characters but
    -- newlines, and `unicode.IsPrint` must accept printable ASCII.
    pub print_all-IsHarmless :
        (options : DumpOptions) (messages : List Message) (printer : MessagePrinter)
        → All (λ line. IsHarmless is_print line) printer.lines
        → All
            (λ line. IsHarmless is_print line)
            (print_all is_print encode options messages printer).lines
    unfolding print_all
    print_all-IsHarmless options [] printer all = all
    print_all-IsHarmless options (message ∷ messages) printer all =
        print_all-IsHarmless options messages
          (print_payload is_print encode options message printer).0
          (print-IsHarmless options message printer _
            (λ line e. line-IsHarmless options message.topic message.payload line e) all)
