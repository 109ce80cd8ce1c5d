-- ===== src/Latency/Counters.antt =====
-- `latencyBuckets` of latency_buckets.go: one dense array of 64-bit counters.
use mqtt_load_generator.Base.{
  ℕ, ◌+◌, ◌==◌, if◌then◌else◌, ℤ, pos, List, [], ◌∷◌, Option, none, some, get_elem?, set, replicate,
}
use mqtt_load_generator.Base.Words.{u64, to_int64}
use mqtt_load_generator.Latency.{
  latency_counts_length, latency_counts_index, latency_value_for_index,
}

-- `hdrhistogram.Histogram`: a histogram and its `RecordValues(value, count)`, whose error the code
-- drops.
pub record Histogram : Type 1 where
  pub Hist : Type 0
  pub record_values : Hist → ℤ → ℤ → Hist

pub record LatencyBuckets : Type 0 where
  pub counts : List ℕ

-- `counts[i].Add(1)`: an index out of range is a panic.
unfoldable pub add_one : List ℕ → ℕ → Option (List ℕ)
add_one counts i = elim (get_elem? counts i) [
  | none ↦ none
  | some count ↦ some (set counts i (u64 (count + 1)))
]

unfoldable pub empty : LatencyBuckets
empty = record { counts = replicate latency_counts_length 0 }

-- `record` of a `latencyBuckets`.
unfoldable pub record_latency : LatencyBuckets → ℤ → Option LatencyBuckets
record_latency buckets microseconds =
    elim (add_one buckets.counts (latency_counts_index microseconds)) [
      | none ↦ none
      | some counts ↦ some (record { counts = counts })
    ]

-- A sequence of recordings, by either kind of counters; `none` is a panic in one of them.
unfoldable pub record_all {ℓ} :
    {S : Type ℓ} {A : Type 0} → (S → A → Option S) → S → List A → Option S
record_all step s [] = some s
record_all step s (z ∷ zs) = elim (step s z) [ none ↦ none | some t ↦ record_all step t zs ]

module _ (histogram : Histogram) where
  open histogram use {Hist, record_values}

  -- The loop of `addTo`, from a counter position on.
  unfoldable pub add_counts : ℕ → List ℕ → Hist → Hist
  add_counts counts_index [] h = h
  add_counts counts_index (count ∷ counts) h = add_counts (counts_index + 1) counts (
      if count == 0
      then h
      else record_values h (pos (latency_value_for_index counts_index)) (to_int64 count))

  unfoldable pub add_to : LatencyBuckets → Hist → Hist
  unfolding add_counts
  add_to buckets h = add_counts 0 buckets.counts h
