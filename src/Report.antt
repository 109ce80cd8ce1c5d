-- ===== src/Report.antt =====
-- What the two end-of-run reports share (internal/mqttload/publish_report.go and subscribe_report.go),
-- and the functions of Go's `slices` that they call.
pub mod Publish
pub mod Subscribe
pub mod Sorting
pub mod Intervals
pub mod Rates
pub mod Share
pub mod Latencies
pub mod Compose
pub mod Received
pub mod Acks
pub mod Examples
pub mod AcksExamples
use mqtt_load_generator.Base.{
  zero, ltb_ℤ, if◌then◌else◌, ℤ, pos, List, [], ◌∷◌, Option, none, some, length,
}
use mqtt_load_generator.Base.Floats.{Float64}
use mqtt_load_generator.Latency.Hdr.{HdrHistogram}
use mqtt_load_generator.Publish.Stats.{Slice, elements}

-- `slices.Min` and `slices.Max` behind a first value.
abbrev pub slice_min : ℤ → List ℤ → ℤ
slice_min m [] = m
slice_min m (x ∷ xs) = slice_min (if ltb_ℤ x m then x else m) xs

abbrev pub slice_max : ℤ → List ℤ → ℤ
slice_max m [] = m
slice_max m (x ∷ xs) = slice_max (if ltb_ℤ m x then x else m) xs

-- `PublishReportAcksPerInterval` and `SubscribeReportReceivedPerInterval`, which convert into each
-- other.
pub record PerInterval (W : Type 0) : Type 0 where
  pub interval_seconds : W
  pub average : W
  pub lowest : ℤ
  pub highest : ℤ
  pub values : Slice ℤ

abbrev pub made : Slice ℤ → Slice ℤ
made none = some []
made (some values) = some values

abbrev pub lowest_of : List ℤ → ℤ
lowest_of [] = pos 0
lowest_of (x ∷ xs) = slice_min x xs

abbrev pub highest_of : List ℤ → ℤ
highest_of [] = pos 0
highest_of (x ∷ xs) = slice_max x xs

-- `ackSampleInterval`, in nanoseconds.
abbrev pub ack_sample_interval : ℤ
ack_sample_interval = pos 1_000_000_000

module _ {W : Type 0} ⦃float64 : Float64 W⦄ where
  open float64 use {nought, float, seconds, div, lt}

  unfoldable pub build_acks_per_interval : Slice ℤ → ℤ → W → PerInterval W
  build_acks_per_interval values acked elapsed_seconds = record {
    interval_seconds = seconds ack_sample_interval;
    average = if lt nought elapsed_seconds then div (float acked) elapsed_seconds else nought;
    lowest = lowest_of (elements values);
    highest = highest_of (elements values);
    values = made values;
  }

  -- The quantiles 50, 90, 99 and 99.9.
  abbrev pub quantile_50 : W
  quantile_50 = float (pos 50)

  abbrev pub quantile_90 : W
  quantile_90 = float (pos 90)

  abbrev pub quantile_99 : W
  quantile_99 = float (pos 99)

  abbrev pub quantile_99_9 : W
  quantile_99_9 = div (float (pos 999)) (float (pos 10))

-- `PublishReportAckLatency` and `SubscribeReportLatency`.
pub record LatencyQuantiles : Type 0 where
  pub p50 : ℤ
  pub p90 : ℤ
  pub p99 : ℤ
  pub p999 : ℤ
  pub max : ℤ

-- The test of the total count, and what it guards.
abbrev pub unless_empty : {A : Type 0} → ℤ → A → Option A
unless_empty (pos zero) report = none
unless_empty total report = some report

module _ {W : Type 0} ⦃float64 : Float64 W⦄ (hdr : HdrHistogram W) where
  open hdr use {histogram, total_count, value_at_quantile, max_value}

  -- `buildAckLatency` and `buildEndToEndLatency` behind their call of `addTo`.
  abbrev pub latency_quantiles : histogram.Hist → Option LatencyQuantiles
  latency_quantiles h = unless_empty (total_count h) (record {
    p50 = value_at_quantile h quantile_50;
    p90 = value_at_quantile h quantile_90;
    p99 = value_at_quantile h quantile_99;
    p999 = value_at_quantile h quantile_99_9;
    max = max_value h;
  })
