-- ===== src/Report/Examples.antt =====
-- Tests of the reports, with fixed-point numbers and a histogram that counts.
use mqtt_load_generator.Base.{
  ℕ, ◌+◌, ◌≡◌, ◌↔◌, max, false, ℤ, pos, negsuc, pos_part, List, [], ◌∷◌, ◌≢◌, none, some, get_elem?,
  refl, arith,
}
use mqtt_load_generator.Base.Int.{◌-ℤ◌}
use mqtt_load_generator.Base.Text.{codes}
use mqtt_load_generator.Base.Floats.{◌≼◌}
use mqtt_load_generator.Base.FixedPoint.{Billionths, billionths, billionths-IsIeee, finite}
use mqtt_load_generator.Base.Times.{time_sub}
use mqtt_load_generator.Latency.Counters.{record_all}
use mqtt_load_generator.Latency.Chunked.{ChunkedLatencyBuckets}
use mqtt_load_generator.Latency.Chunked
use mqtt_load_generator.Latency.Shared.{LatencyBucketSet, new_latency_bucket_set, record_for}
use mqtt_load_generator.Latency.Shared
use mqtt_load_generator.Latency.Hdr.{HdrHistogram, IsCounting}
use mqtt_load_generator.Config.Examples.{local, publish_settings}
use mqtt_load_generator.Commands.{to_publish_options}
use mqtt_load_generator.Publish.{PublishOptions}
use mqtt_load_generator.Publish.Client.{PublishCounters}
use mqtt_load_generator.Publish.Progress.{PublishProgress, new_publish_progress}
use mqtt_load_generator.Publish.Run.{Course, run_publish}
use mqtt_load_generator.Publish.Stats.{ClientStats, PublishStats, elements}
use mqtt_load_generator.Subscribe.Examples.{one_counted}
use mqtt_load_generator.Report.{PerInterval, build_acks_per_interval}
use mqtt_load_generator.Report.Publish.{
  PublishReport, PublishReportPerClientAckedRates, build_inflight_wait, client_rates,
  rates_of_sorted, build_per_client_rates, build_ack_latency, build_client_ack_latency,
  build_publish_report,
}
use mqtt_load_generator.Report.Subscribe.{
  EndedStats, build_end_to_end_latency, build_subscribe_report,
}
use mqtt_load_generator.Report.Sorting.{sort}
use mqtt_load_generator.Report.Intervals.{IsLeast, IsGreatest, intervals_bounded}
use mqtt_load_generator.Report.Rates.{rate_of, per_client_rates_bound}
use mqtt_load_generator.Report.Share.{share_in_range}
use mqtt_load_generator.Report.Latencies.{latency_section_iff, client_latency_iff}
use mqtt_load_generator.Report.Compose.{AddsUp, report-AddsUp}
use mqtt_load_generator.Report.Received.{oldest_first, ended, Accounts, report-Accounts}

-- The count of the recordings, and the largest value.
pub record Tally : Type 0 where
  pub count : ℕ
  pub top : ℕ

abbrev tally_values : Tally → ℤ → ℤ → Tally
tally_values h value n = record { count = h.count + pos_part n; top = max h.top (pos_part value) }

abbrev pub tallies : HdrHistogram Billionths
tallies = record {
  histogram = record { Hist = Tally; record_values = tally_values };
  new = record { count = 0; top = 0 };
  record_value = λ h value. tally_values h value (pos 1);
  total_count = λ h. pos h.count;
  value_at_quantile = λ h q. pos h.top;
  max_value = λ h. pos h.top;
  mean = λ h. billionths.float (pos h.top);
}

pub tallies-IsCounting : IsCounting tallies
tallies-IsCounting = record {
  total_count-new = refl;
  total_count-record_values = λ h v n m fits e few. ground (arith, e);
}

abbrev client : ℕ → ℤ → ClientStats
client finished_at wait = record {
  client_id = codes "c";
  connect_duration = pos 2_500_000;
  inflight_wait = wait;
  finished_at = finished_at;
  shared_latency = 0;
  per_client_latency = none;
}

-- Four clients, the last of which never finished.
abbrev pub four : PublishStats
four = record {
  latency = new_latency_bucket_set 1;
  clients =
      client 2_000_000_001 (pos 500_000_000)
      ∷ client 4_000_000_001 (pos 0)
      ∷ client 1_000_000_001 (pos 1_000_000_000)
      ∷ client 0 (pos 0)
      ∷ [];
  acked_per_interval = some (pos 3 ∷ pos 9 ∷ pos 1 ∷ []);
}

abbrev acked_only : ℕ → PublishCounters
acked_only n = record { published = n; acked = n; failed = 0; timed_out = 0 }

abbrev pub four_counted : PublishProgress
four_counted = record (new_publish_progress 4) {
  counters = acked_only 10 ∷ acked_only 8 ∷ acked_only 6 ∷ acked_only 0 ∷ [];
}

-- Rates of 5, 2, 6 and 0 messages a second.
rates_of_four :
    build_per_client_rates {W = Billionths} four_counted four 1
    ≡ some (record {
      slowest = finite 0;
      median = finite 3_500_000_000;
      fastest = finite 6_000_000_000;
    })
unfolding build_per_client_rates client_rates rates_of_sorted time_sub sort ◌-ℤ◌
rates_of_four = refl

per_client_rates_bound_example :
    (r : PublishReportPerClientAckedRates Billionths) × (build_per_client_rates four_counted four 1
      ≡ some r)
    × (r.slowest ≼ r.median)
    × (r.median ≼ r.fastest)
    × ((i : ℕ) (client : ClientStats) (counter : PublishCounters)
        → get_elem? four.clients i ≡ some client
        → get_elem? four_counted.counters i ≡ some counter
        → let x : Billionths = rate_of counter 1 client in (r.slowest ≼ x) × (x ≼ r.fastest))
per_client_rates_bound_example =
    per_client_rates_bound billionths-IsIeee four_counted four 1 (omega arith) (omega arith)

-- A wait of 1.5 seconds in a run of 4 clients and 2 seconds.
share_of_four :
    (build_inflight_wait {W = Billionths} four (pos 2_000_000_000)).share_of_run_time
    ≡ finite 187_500_000
unfolding build_inflight_wait
share_of_four = refl

share_in_range_test :
    let share : Billionths = (build_inflight_wait four (pos 2_000_000_000)).share_of_run_time in
    (finite 0 ≼ share) × (share ≼ finite 1_000_000_000)
share_in_range_test =
    share_in_range billionths-IsIeee four (pos 2_000_000_000) (omega arith) (omega arith)
      (omega arith)

intervals_bounded_example :
    let values = some (pos 3 ∷ pos 9 ∷ pos 1 ∷ []) in
    let r : PerInterval Billionths =
      build_acks_per_interval values (pos 13) (finite 3_000_000_000) in
    (r.values ≡ some (elements values))
    × (elements values ≢ []
        → IsLeast r.lowest (elements values) × IsGreatest r.highest (elements values))
    × (elements values ≡ [] → (r.lowest ≡ pos 0) × (r.highest ≡ pos 0))
intervals_bounded_example =
    intervals_bounded (some (pos 3 ∷ pos 9 ∷ pos 1 ∷ [])) (pos 13) (finite 3_000_000_000)

abbrev calls : List (ℕ × ℤ)
calls = (3, pos 250) ∷ (70, negsuc 0) ∷ (3, pos 250) ∷ []

latency_section_iff_example :
    (shared : LatencyBucketSet) × (record_all record_for (new_latency_bucket_set 2) calls
      ≡ some shared)
    × ((stats : PublishStats)
        → stats.latency ≡ shared
        → (build_ack_latency tallies stats ≡ none) ↔ (calls ≡ []))
    × ((stats : EndedStats)
        → stats.latency ≡ shared
        → (build_end_to_end_latency tallies stats ≡ none) ↔ (calls ≡ []))
latency_section_iff_example = latency_section_iff tallies tallies-IsCounting 2 calls (omega arith)

client_latency_iff_example :
    (c : ChunkedLatencyBuckets) × (record_all Chunked.record_latency Chunked.empty (pos 250 ∷ [])
      ≡ some c)
    × ((build_client_ack_latency tallies c ≡ none) ↔ ((pos 250 ∷ []) ≡ []))
client_latency_iff_example =
    client_latency_iff tallies tallies-IsCounting (pos 250 ∷ []) (omega arith)

abbrev pub quiet_course : Course
quiet_course = record {
  connected = none;
  cancelled = false;
  clients_connected = 4;
  counters = four_counted.counters;
  first_time = 1;
  second_time = 4_000_000_001;
}

abbrev pub options : PublishOptions
options = to_publish_options local publish_settings

report-AddsUp_example :
    let ended = (run_publish quiet_course (new_publish_progress 4)).0 in
    (report : PublishReport Billionths) × (build_publish_report tallies ended four options
        (codes "host")
        2
      ≡ some report)
    × AddsUp report false quiet_course.counters
report-AddsUp_example =
    report-AddsUp tallies false 4 quiet_course four options (codes "host") 2 refl (omega arith)
      (omega arith) (omega arith) (refl, (refl, (refl, (refl, tt))))

report-Accounts_example :
    let s = one_counted.0 in
    (shared : LatencyBucketSet) × (recorded : ℕ) × (record_all record_for
        (new_latency_bucket_set 2)
        (oldest_first s.stats.latency)
      ≡ some shared)
    × (tallies.total_count (Shared.add_to tallies.histogram shared tallies.new) ≡ pos recorded)
    × Accounts
        (build_subscribe_report tallies s.progress
          (ended s.stats shared none)
          (codes "/load")
          1
          (pos 1)
          (codes "host")
          2)
        s.progress
        1
        3
        1
        recorded
unfolding one_counted
report-Accounts_example =
    report-Accounts tallies tallies-IsCounting one_counted.1 (omega arith) (omega arith) refl 2 none
      (codes "/load") 1 (pos 1) (codes "host")
