-- ===== src/Latency.antt =====
-- internal/mqttload/latency_buckets.go: the geometry of the latency counters.
mod Places
pub mod Index
pub mod Counters
pub mod Chunked
pub mod Shared
pub mod Hdr
pub mod SharedTotals
pub mod HdrTotals
mod Flat
pub mod Refinement
pub mod Totals
pub mod Race
pub mod NoLoss
mod RaceExamples
mod Examples
use Prim.Native.Nat.{bit_and, bit_or}
use mqtt_load_generator.Base.{ℕ, suc, ◌+◌, ◌-◌, ◌*◌, ◌/◌, ◌^◌, min, ℤ, pos_part, ltb, if◌then◌else◌}
use mqtt_load_generator.Base.Words.{leading_zeros64}

abbrev pub latency_highest_microseconds : ℕ
latency_highest_microseconds = 3_600_000_000

abbrev pub latency_sub_bucket_half_count : ℕ
latency_sub_bucket_half_count = 128

abbrev pub latency_sub_bucket_half_shift : ℕ
latency_sub_bucket_half_shift = 7

abbrev pub latency_counts_length : ℕ
latency_counts_length = 3328

-- `min(max(microseconds, 0), latencyHighestMicroseconds)`: `pos_part` is the maximum with 0.
abbrev pub clamp_microseconds : ℤ → ℕ
clamp_microseconds microseconds = min (pos_part microseconds) latency_highest_microseconds

abbrev pub latency_bucket_index : ℕ → ℕ
latency_bucket_index microseconds = 64 - leading_zeros64 (bit_or microseconds 255) - 8

-- A shift to the right by `b` is a division by 2 ^ b, and one to the left a product.
pub latency_position : ℕ → ℕ
latency_position microseconds =
    let bucket_index = latency_bucket_index microseconds in
    let sub_bucket_index = microseconds / 2 ^ bucket_index in
    (bucket_index + 1) * 2 ^ latency_sub_bucket_half_shift
    + sub_bucket_index
    - latency_sub_bucket_half_count

unfoldable pub latency_counts_index : ℤ → ℕ
unfolding latency_position
latency_counts_index microseconds = latency_position (clamp_microseconds microseconds)

unfoldable pub latency_value_for_index : ℕ → ℕ
latency_value_for_index counts_index =
    let bucket_index = counts_index / 2 ^ latency_sub_bucket_half_shift - 1 in
    let sub_bucket_index =
      bit_and counts_index (latency_sub_bucket_half_count - 1) + latency_sub_bucket_half_count in
    if ltb counts_index latency_sub_bucket_half_count
    then counts_index
    else sub_bucket_index * 2 ^ bucket_index
