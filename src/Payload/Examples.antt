-- ===== src/Payload/Examples.antt =====
-- Tests of the payloads, and of the reading of timestamps (payload_test.go, subscribe_stats_test.go).
use mqtt_load_generator.Base.{
  ℕ, ◌+◌, ◌≤◌, ◌<◌, true, false, pos, negsuc, List, none, some, length, replicate, length-replicate,
  ◌≡◌, ◌↔◌, refl, arith,
}
use mqtt_load_generator.Base.Text.{codes, append_int, emit}
use mqtt_load_generator.Payload.{
  benchmark_payload_generator, new_payload_generator, payload_capacity,
}
use mqtt_load_generator.Payload.Timestamp.{
  max_int64, benchmark_timestamp, scan_timestamp, strip_prefix,
}
use mqtt_load_generator.Payload.Accepts.{HasTimestamp, benchmark_timestamp_iff}
use mqtt_load_generator.Payload.RoundTrip.{timestamp-payload}
use mqtt_load_generator.Payload.Sizes.{payload_fits_capacity, payload_sizes}

known_payload :
    benchmark_payload_generator 53 (pos 1790288219472)
    ≡ codes "{\"timestamp\":1790288219472,\"padding\":\"xxx\"}"
unfolding benchmark_payload_generator append_int emit
known_payload = refl

too_many_digits : benchmark_timestamp (codes "{\"timestamp\":12345678901234567890}") ≡ none
unfolding benchmark_timestamp scan_timestamp strip_prefix
too_many_digits = refl

past_int64 : benchmark_timestamp (codes "{\"timestamp\":9223372036854775808}") ≡ none
unfolding benchmark_timestamp scan_timestamp strip_prefix
past_int64 = refl

benchmark_timestamp_iff_example :
    (benchmark_timestamp (codes "{\"timestamp\":42}") ≡ some 42)
    ↔ HasTimestamp (codes "{\"timestamp\":42}") 42
benchmark_timestamp_iff_example = benchmark_timestamp_iff (codes "{\"timestamp\":42}") 42

timestamp-payload_example :
    ((now : ℕ)
      → now ≤ max_int64
      → benchmark_timestamp (benchmark_payload_generator 100 (pos now)) ≡ some now)
    × ((n : ℕ) → benchmark_timestamp (benchmark_payload_generator 100 (negsuc n)) ≡ none)
timestamp-payload_example = timestamp-payload 100

capacity_for_100 : length (benchmark_payload_generator 100 (negsuc 41)) ≤ payload_capacity 100
capacity_for_100 = payload_fits_capacity 100 (negsuc 41) (omega arith) (omega arith)

abbrev zeros : ℕ → List ℕ
zeros size = replicate size 0

payload_sizes_example :
    (length (new_payload_generator zeros 100 false (pos 1790288219472)) ≡ 100)
    × (50 ≤ 100 → length (new_payload_generator zeros 100 true (pos 1790288219472)) + 10 ≡ 100)
    × (100 < 50 → length (new_payload_generator zeros 100 true (pos 1790288219472)) ≡ 40)
payload_sizes_example =
    payload_sizes zeros 100 1790288219472 (length-replicate {A = ℕ} 100 0) (omega arith)
      (omega arith)
