-- ===== src/Payload/RoundTrip.antt =====
-- `sub --benchmark` (subscribe_stats.go) reads back what `pub --benchmark` (payload.go) writes.
use mqtt_load_generator.Base.{
  ℕ, ◌+◌, ◌≤◌, pos, negsuc, [], ◌∷◌, ◌++◌, none, some, ◌≡◌, refl, sym, ap, ◌∙◌, arith,
}
use mqtt_load_generator.Base.Text.{Bytes, codes, emit, append_int, append_int-Spells}
use mqtt_load_generator.Payload.{payload_middle, payload_end, padding, benchmark_payload_generator}
use mqtt_load_generator.Payload.Timestamp.{
  benchmark_timestamp_prefix, max_int64, scan_timestamp, scan_rest, benchmark_timestamp,
}
use mqtt_load_generator.Payload.Accepts.{timestamp_complete, strip_prefix-append}

scan-minus : (text : Bytes) → scan_timestamp (b'-' ∷ text) 0 0 ≡ none
unfolding scan_timestamp
scan-minus text = refl

before_1970 :
    (size n : ℕ) → benchmark_timestamp (benchmark_payload_generator size (negsuc n)) ≡ none
unfolding benchmark_payload_generator benchmark_timestamp append_int
before_1970 size n =
    ap scan_rest (
      strip_prefix-append benchmark_timestamp_prefix
        (append_int (negsuc n) ++ (payload_middle ++ (padding size ++ payload_end))))
    ∙ scan-minus (emit 19 (n + 1) [] ++ (payload_middle ++ (padding size ++ payload_end)))

-- A timestamp that pub writes at a time `now` since 1970 is read back by sub, whatever the size; a
-- payload written before 1970 has no readable timestamp.
pub timestamp-payload :
    (size : ℕ)
    → ((now : ℕ)
        → now ≤ max_int64
        → benchmark_timestamp (benchmark_payload_generator size (pos now)) ≡ some now)
      × ((n : ℕ) → benchmark_timestamp (benchmark_payload_generator size (negsuc n)) ≡ none)
unfolding benchmark_payload_generator
timestamp-payload size = (
  λ now h.
      let s = append_int-Spells now (omega arith) in
      timestamp_complete _ now (record {
        text = append_int (pos now) ++ (payload_middle ++ (padding size ++ payload_end));
        prefixed = refl;
        reads = record {
          digits = append_int (pos now);
          terminator = b',';
          rest = codes "\"padding\":\"" ++ (padding size ++ payload_end);
          shape = refl;
          all_digits = s.all_digits;
          some_digit = omega (arith, s.some_digit);
          few = omega (arith, s.few);
          ends = refl;
          exact = sym s.exact;
          fits = h;
        };
      }),
  before_1970 size,
)
