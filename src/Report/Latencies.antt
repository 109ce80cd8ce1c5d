-- ===== src/Report/Latencies.antt =====
-- The latency sections of the reports (publish_report.go, subscribe_report.go): when they are left out.
use mqtt_load_generator.Base.{
  ℕ, ◌^◌, ◌<◌, ◌≡◌, ◌↔◌, ℤ, pos, List, [], ◌∷◌, none, some, length, refl, ap, ◌∙◌, arith,
}
use mqtt_load_generator.Base.Floats.{Float64}
use mqtt_load_generator.Latency.Counters.{record_all}
use mqtt_load_generator.Latency.Chunked.{ChunkedLatencyBuckets}
use mqtt_load_generator.Latency.Chunked
use mqtt_load_generator.Latency.Shared.{LatencyBucketSet, new_latency_bucket_set, record_for}
use mqtt_load_generator.Latency.Shared
use mqtt_load_generator.Latency.Hdr.{HdrHistogram, IsCounting}
use mqtt_load_generator.Latency.HdrTotals.{recorded_total, client_total}
use mqtt_load_generator.Publish.Stats.{PublishStats}
use mqtt_load_generator.Report.{unless_empty}
use mqtt_load_generator.Report.Publish.{build_ack_latency, build_client_ack_latency}
use mqtt_load_generator.Report.Subscribe.{EndedStats, build_end_to_end_latency}

unless_empty_iff :
    {A B : Type 0} (total : ℤ) (report : A) (recorded : List B)
    → total ≡ pos (length recorded)
    → (unless_empty total report ≡ none) ↔ (recorded ≡ [])
unless_empty_iff total report [] e = rw (e) (λ h. refl, λ h. refl)
unless_empty_iff total report (x ∷ xs) e =
    rw (e) (λ h. absurd (ground (arith, h)), λ h. absurd (ground (arith, h)))

module _ {W : Type 0} ⦃float64 : Float64 W⦄ (hdr : HdrHistogram W) (counting : IsCounting hdr) where
  open hdr use {histogram, new, total_count}

  -- Fewer than 2^63 recordings into the shared counters of a new run succeed. The report of pub leaves
  -- out its ack latencies, and that of sub its end-to-end latencies, exactly if there were none.
  pub latency_section_iff :
      (procs : ℕ) (calls : List (ℕ × ℤ))
      → length calls < 2 ^ 63
      → (shared : LatencyBucketSet) × (record_all record_for (new_latency_bucket_set procs) calls
          ≡ some shared)
        × ((stats : PublishStats)
            → stats.latency ≡ shared
            → (build_ack_latency hdr stats ≡ none) ↔ (calls ≡ []))
        × ((stats : EndedStats)
            → stats.latency ≡ shared
            → (build_end_to_end_latency hdr stats ≡ none) ↔ (calls ≡ []))
  unfolding build_ack_latency build_end_to_end_latency
  latency_section_iff procs calls few =
      let (shared, runs, total) = recorded_total hdr counting procs calls few in
      let counted = λ (latency : LatencyBucketSet) (e : latency ≡ shared).
        ap (λ s. total_count (Shared.add_to histogram s new)) e ∙ total in
      (
        shared,
        runs,
        λ stats e. unless_empty_iff _ _ calls (counted stats.latency e),
        λ stats e. unless_empty_iff _ _ calls (counted stats.latency e),
      )

  -- Fewer than 2^63 recordings into the counters of one client succeed, and its entry in the report
  -- leaves out the latencies exactly if there were none.
  pub client_latency_iff :
      (zs : List ℤ)
      → length zs < 2 ^ 63
      → (c : ChunkedLatencyBuckets) × (record_all Chunked.record_latency Chunked.empty zs ≡ some c)
        × ((build_client_ack_latency hdr c ≡ none) ↔ (zs ≡ []))
  unfolding build_client_ack_latency
  client_latency_iff zs few =
      let (c, runs, total) = client_total hdr counting zs few in
      (c, runs, unless_empty_iff _ _ zs total)
