-- ===== src/Latency/Hdr.antt =====
-- The histograms of hdrhistogram-go, which the reports read the percentiles from.
use mqtt_load_generator.Base.{ℕ, ◌+◌, ◌^◌, ◌≤◌, ◌<◌, ◌≡◌, ℤ, pos}
use mqtt_load_generator.Latency.{latency_highest_microseconds}
use mqtt_load_generator.Latency.Counters.{Histogram}

-- `new` is `New(1, latencyHighestMicroseconds, 2)`; a quantile and a mean are floats of type W.
pub record HdrHistogram (W : Type 0) : Type 1 where
  pub histogram : Histogram
  pub new : histogram.Hist
  pub record_value : histogram.Hist → ℤ → histogram.Hist
  pub total_count : histogram.Hist → ℤ
  pub value_at_quantile : histogram.Hist → W → ℤ
  pub max_value : histogram.Hist → ℤ
  pub mean : histogram.Hist → W

-- How the total counts: a new histogram is empty, and a count of a value that the histogram can hold
-- is added.
pub record IsCounting {W : Type 0} (hdr : HdrHistogram W) : Type 0 where
  pub total_count-new : hdr.total_count hdr.new ≡ pos 0
  pub total_count-record_values :
      (h : hdr.histogram.Hist) (v n m : ℕ)
      → v ≤ latency_highest_microseconds
      → hdr.total_count h ≡ pos m
      → m + n < 2 ^ 63
      → hdr.total_count (hdr.histogram.record_values h (pos v) (pos n)) ≡ pos (m + n)
