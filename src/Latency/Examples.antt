-- ===== src/Latency/Examples.antt =====
-- Tests of the latency counters, with values of latency_buckets_test.go.
use mqtt_load_generator.Base.{
  ℕ, ◌+◌, ◌/◌, ◌≤◌, ◌<◌, ℤ, pos, negsuc, List, [], ◌∷◌, some, get_elem?, map, ◌≡◌, ◌⊎◌, refl, false,
  ◌*◌, arith,
}
use mqtt_load_generator.Base.Words.{u64, leading_zeros64}
use mqtt_load_generator.Latency.{
  latency_counts_length, clamp_microseconds, latency_counts_index, latency_value_for_index,
}
use mqtt_load_generator.Latency.Index.{
  latency_counts_index-lt, latency_precision, latency_counts_index_mono,
  latency_value_for_index_lowest,
}
use mqtt_load_generator.Latency.Counters.{Histogram, LatencyBuckets, record_latency, record_all}
use mqtt_load_generator.Latency.Counters
use mqtt_load_generator.Latency.Chunked.{ChunkedLatencyBuckets}
use mqtt_load_generator.Latency.Chunked
use mqtt_load_generator.Latency.Refinement.{chunked_refines_dense}
use mqtt_load_generator.Latency.Totals.{count_at, recorded_counts, set_size_lem}
use mqtt_load_generator.Latency.Shared.{must_grow, set_size}

indices :
    map latency_counts_index
      (negsuc 4 ∷ pos 127 ∷ pos 256 ∷ pos 12345 ∷ pos 3_600_000_000 ∷ pos 10_000_000_000 ∷ [])
    ≡ 0 ∷ 127 ∷ 256 ∷ 960 ∷ 3286 ∷ 3286 ∷ []
unfolding latency_counts_index leading_zeros64
indices = refl

value_of_960 : latency_value_for_index 960 ≡ 12288
unfolding latency_value_for_index
value_of_960 = refl

largest_index_fits : latency_counts_index (pos 10_000_000_000) < latency_counts_length
largest_index_fits = latency_counts_index-lt (pos 10_000_000_000)

latency_precision_test :
    let v = latency_value_for_index (latency_counts_index (pos 12345)) in
    (v ≤ 12345) × (12345 ≤ v + v / 128)
latency_precision_test = latency_precision (pos 12345)

index_order : latency_counts_index (negsuc 4) ≤ latency_counts_index (pos 1000)
index_order = latency_counts_index_mono (negsuc 4) (pos 1000) (omega arith)

latency_value_for_index_lowest_example :
    (latency_counts_index (pos (latency_value_for_index 960)) ≡ 960)
    × ((z : ℤ) → latency_counts_index z ≡ 960 → latency_value_for_index 960 ≤ clamp_microseconds z)
unfolding latency_value_for_index
latency_value_for_index_lowest_example =
    latency_value_for_index_lowest 960 (omega arith) (omega arith)

-- A histogram that lists what it is given.
abbrev listing : Histogram
listing = record { Hist = List (ℤ × ℤ); record_values = λ h value count. (value, count) ∷ h }

abbrev sample : List ℤ
sample = pos 250 ∷ negsuc 0 ∷ pos 3_600_000_001 ∷ pos 250 ∷ []

chunked_refines_dense_example :
    (d : LatencyBuckets) × (c : ChunkedLatencyBuckets) × (record_all Counters.record_latency
        Counters.empty sample
      ≡ some d)
    × (record_all Chunked.record_latency Chunked.empty sample ≡ some c)
    × ((h : List (ℤ × ℤ)) → Chunked.add_to listing c h ≡ Counters.add_to listing d h)
chunked_refines_dense_example = chunked_refines_dense listing sample

recorded_counts_test :
    (d : LatencyBuckets) × (record_all record_latency Counters.empty sample ≡ some d)
    × ((i : ℕ) → i < latency_counts_length → get_elem? d.counts i ≡ some (u64 (count_at i sample)))
recorded_counts_test = recorded_counts sample

size_for_24 :
    (must_grow 24 (set_size 24) ≡ false)
    × ((set_size 24 ≡ 64)
        ⊎ ((set_size 24 ≡ 128) × (64 < 4 * 24))
        ⊎ ((set_size 24 ≡ 256) × (128 < 4 * 24)))
size_for_24 = set_size_lem 24
