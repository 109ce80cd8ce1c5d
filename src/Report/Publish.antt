-- ===== src/Report/Publish.antt =====
-- internal/mqttload/publish_report.go: the report at the end of pub.
use mqtt_load_generator.Base.{
  ℕ, zero, suc, ◌-◌, ◌/◌, ◌%◌, ◌==◌, ltb_ℤ, if◌then◌else◌, Bool, ℤ, pos, pos_part, neg_part, sub_ℕ,
  List, [], ◌∷◌, Option, none, some, length, get_elem?,
}
use mqtt_load_generator.Base.Text.{Bytes}
use mqtt_load_generator.Base.Words.{to_int64}
use mqtt_load_generator.Base.Floats.{Float64}
use mqtt_load_generator.Base.Times.{Time, time_sub}
use mqtt_load_generator.Latency.Hdr.{HdrHistogram}
use mqtt_load_generator.Latency.Chunked.{ChunkedLatencyBuckets}
use mqtt_load_generator.Latency.Chunked
use mqtt_load_generator.Latency.Shared
use mqtt_load_generator.Publish.{PublishOptions}
use mqtt_load_generator.Publish.Client.{PublishCounters}
use mqtt_load_generator.Publish.Progress.{PublishProgress, PublishSnapshot, snapshot}
use mqtt_load_generator.Publish.Stats.{ClientStats, PublishStats, Slice}
use mqtt_load_generator.Report.{
  PerInterval, LatencyQuantiles, unless_empty, build_acks_per_interval, latency_quantiles,
  quantile_50, quantile_99,
}
use mqtt_load_generator.Report.Sorting.{sort}

pub record PublishReportRun (W : Type 0) : Type 0 where
  pub started_at : Time
  pub finished_at : Time
  pub elapsed_seconds : W
  pub host : Bytes
  pub go_max_procs : ℕ

pub record PublishReportSettings : Type 0 where
  pub clients : ℕ
  pub in_flight : ℕ
  pub qos : ℕ
  pub payload_bytes : ℕ

pub record PublishReportMessages : Type 0 where
  pub published : ℤ
  pub acked : ℤ
  pub failed : ℤ
  pub timed_out : ℤ

pub record PublishReportConnectLatency : Type 0 where
  pub p50 : ℤ
  pub p99 : ℤ
  pub max : ℤ

pub record PublishReportInflightWait (W : Type 0) : Type 0 where
  pub share_of_run_time : W

pub record PublishReportPerClientAckedRates (W : Type 0) : Type 0 where
  pub slowest : W
  pub median : W
  pub fastest : W

pub record PublishReportClientLatency : Type 0 where
  pub mean : ℤ
  pub p50 : ℤ
  pub p99 : ℤ
  pub max : ℤ

pub record PublishReportClient : Type 0 where
  pub client_id : Bytes
  pub acked : ℤ
  pub ack_latency_microseconds : Option PublishReportClientLatency

pub record PublishReport (W : Type 0) : Type 0 where
  pub run : PublishReportRun W
  pub settings : PublishReportSettings
  pub messages : PublishReportMessages
  pub acks_per_interval : PerInterval W
  pub ack_latency_microseconds : Option LatencyQuantiles
  pub connect_latency_microseconds : PublishReportConnectLatency
  pub inflight_wait : PublishReportInflightWait W
  pub per_client_acked_per_second : PublishReportPerClientAckedRates W
  pub clients : Slice PublishReportClient

-- `progress.counterFor(i).acked.Load()`; an index out of range is a panic.
abbrev pub acked_of : PublishProgress → ℕ → Option ℤ
acked_of progress i = elim (get_elem? progress.counters i) [
  | none ↦ none
  | some counter ↦ some (to_int64 counter.acked)
]

-- `Duration.Microseconds`: a division that truncates towards 0.
abbrev pub microseconds : ℤ → ℤ
microseconds d = sub_ℕ (pos_part d / 1000) (neg_part d / 1000)

abbrev pub is_positive : ℤ → Bool
is_positive d = ltb_ℤ (pos 0) d

-- A value behind those of the rest, where neither is a panic.
abbrev pub consed : {A : Type 0} → Option A → Option (List A) → Option (List A)
consed none rest = none
consed (some x) none = none
consed (some x) (some rest) = some (x ∷ rest)

abbrev pub present : {A : Type 0} → Option (List A) → Option (Slice A)
present none = none
present (some entries) = some (some entries)

module _ {W : Type 0} ⦃float64 : Float64 W⦄ where
  open float64 use {nought, float, seconds, add, mul, div, lt, smaller, larger}

  -- The sum of the clients' waits, in seconds.
  abbrev pub total_wait_seconds : W → List ClientStats → W
  total_wait_seconds sum [] = sum
  total_wait_seconds sum (client ∷ clients) =
      total_wait_seconds (add sum (seconds client.inflight_wait)) clients

  abbrev pub clamp_share : W → W
  clamp_share share = smaller (larger share nought) (float (pos 1))

  abbrev pub wait_share : List ClientStats → ℤ → W
  wait_share clients elapsed =
      div (total_wait_seconds nought clients) (mul (float (pos (length clients))) (seconds elapsed))

  unfoldable pub build_inflight_wait : PublishStats → ℤ → PublishReportInflightWait W
  build_inflight_wait stats elapsed = record {
    share_of_run_time =
        if is_positive elapsed
        then if length stats.clients == 0
          then nought
          else clamp_share (wait_share stats.clients elapsed)
        else nought;
  }

  -- A rate, which stays 0 where the client's time is not positive. The counter is read only where it
  -- is, so nothing else can panic.
  abbrev pub rate : Option ℤ → W → Option W
  rate acked client_seconds =
      if lt nought client_seconds
      then elim acked [ none ↦ none | some n ↦ some (div (float n) client_seconds) ]
      else some nought

  -- The loop over the clients, from number `i` on.
  unfoldable pub client_rates : PublishProgress → Time → ℕ → List ClientStats → Option (List W)
  client_rates progress started_at i [] = some []
  client_rates progress started_at i (client ∷ clients) =
      consed (rate (acked_of progress i) (seconds (time_sub client.finished_at started_at)))
        (client_rates progress started_at (suc i) clients)

  -- `rates[i]` of an index that is in range.
  abbrev pub nth : List W → ℕ → W
  nth [] i = nought
  nth (x ∷ xs) zero = x
  nth (x ∷ xs) (suc i) = nth xs i

  -- What is read from the sorted rates.
  unfoldable pub rates_of_sorted : List W → PublishReportPerClientAckedRates W
  rates_of_sorted rates =
      let middle = length rates / 2 in
      record {
        slowest = nth rates 0;
        median =
            if length rates % 2 == 0
            then div (add (nth rates (middle - 1)) (nth rates middle)) (float (pos 2))
            else nth rates middle;
        fastest = nth rates (length rates - 1);
      }

  abbrev pub no_rates : PublishReportPerClientAckedRates W
  no_rates = record { slowest = nought; median = nought; fastest = nought }

  unfoldable pub build_per_client_rates :
      PublishProgress → PublishStats → Time → Option (PublishReportPerClientAckedRates W)
  build_per_client_rates progress stats started_at =
      if length stats.clients == 0
      then some no_rates
      else elim (client_rates progress started_at 0 stats.clients) [
        | none ↦ none
        | some rates ↦ some (rates_of_sorted (sort rates))
      ]

module _ {W : Type 0} ⦃float64 : Float64 W⦄ (hdr : HdrHistogram W) where
  open float64 use {truncate, round}
  open hdr use {histogram, new, record_value, total_count, value_at_quantile, max_value, mean}

  unfoldable pub build_ack_latency : PublishStats → Option LatencyQuantiles
  build_ack_latency stats = latency_quantiles hdr (Shared.add_to histogram stats.latency new)

  abbrev pub record_connects : List ClientStats → histogram.Hist → histogram.Hist
  record_connects [] h = h
  record_connects (client ∷ clients) h =
      record_connects clients (record_value h (microseconds client.connect_duration))

  unfoldable pub build_connect_latency : PublishStats → PublishReportConnectLatency
  build_connect_latency stats =
      let h = record_connects stats.clients new in
      record {
        p50 = value_at_quantile h quantile_50;
        p99 = value_at_quantile h quantile_99;
        max = max_value h;
      }

  -- Behind the call of `addTo`.
  abbrev pub client_latency : histogram.Hist → Option PublishReportClientLatency
  client_latency h = unless_empty (total_count h) (record {
    mean = truncate (round (mean h));
    p50 = value_at_quantile h quantile_50;
    p99 = value_at_quantile h quantile_99;
    max = max_value h;
  })

  -- The pointer is not nil where this is called on a client with its own counters.
  unfoldable pub build_client_ack_latency :
      ChunkedLatencyBuckets → Option PublishReportClientLatency
  build_client_ack_latency latency = client_latency (Chunked.add_to histogram latency new)

  -- One entry; its counters are not a nil pointer, and its number is in range, or else it panics.
  abbrev pub report_client :
      ClientStats → Option ℤ → Option ChunkedLatencyBuckets → Option PublishReportClient
  report_client client none latency = none
  report_client client (some acked) none = none
  report_client client (some acked) (some latency) = some (record {
    client_id = client.client_id;
    acked = acked;
    ack_latency_microseconds = build_client_ack_latency latency;
  })

  -- The loop over the clients, from number `i` on.
  unfoldable pub report_clients :
      PublishProgress → ℕ → List ClientStats → Option (List PublishReportClient)
  report_clients progress i [] = some []
  report_clients progress i (client ∷ clients) =
      consed (report_client client (acked_of progress i) client.per_client_latency)
        (report_clients progress (suc i) clients)

  -- The first client's counters decide whether there are entries.
  abbrev pub entries_for :
      PublishProgress
      → List ClientStats
      → Option ChunkedLatencyBuckets
      → Option (Slice PublishReportClient)
  entries_for progress clients none = some none
  entries_for progress clients (some latency) = present (report_clients progress 0 clients)

  abbrev pub clients_report :
      PublishProgress → List ClientStats → Option (Slice PublishReportClient)
  clients_report progress [] = some none
  clients_report progress (client ∷ clients) =
      entries_for progress (client ∷ clients) client.per_client_latency

  unfoldable pub build_clients : PublishProgress → PublishStats → Option (Slice PublishReportClient)
  build_clients progress stats = clients_report progress stats.clients

  -- The report around the two parts that can panic.
  abbrev pub publish_report_of :
      PublishSnapshot
      → PublishStats
      → PublishOptions
      → Bytes
      → ℕ
      → Option (PublishReportPerClientAckedRates W)
      → Option (Slice PublishReportClient)
      → Option (PublishReport W)
  publish_report_of end stats options host procs none clients = none
  publish_report_of end stats options host procs (some rates) none = none
  publish_report_of end stats options host procs (some rates) (some clients) =
      let elapsed = time_sub end.finished_at end.publish_started_at in
      let elapsed_seconds = float64.seconds elapsed in
      let summary : PublishCounters = end.summary in
      some (record {
        run = record {
          started_at = end.publish_started_at;
          finished_at = end.finished_at;
          elapsed_seconds = elapsed_seconds;
          host = host;
          go_max_procs = procs;
        };
        settings = record {
          clients = options.clients;
          in_flight = options.in_flight;
          qos = options.qos;
          payload_bytes = options.size;
        };
        messages = record {
          published = to_int64 summary.published;
          acked = to_int64 summary.acked;
          failed = to_int64 summary.failed;
          timed_out = to_int64 summary.timed_out;
        };
        acks_per_interval =
            build_acks_per_interval stats.acked_per_interval (to_int64 summary.acked)
              elapsed_seconds;
        ack_latency_microseconds = build_ack_latency stats;
        connect_latency_microseconds = build_connect_latency stats;
        inflight_wait = build_inflight_wait stats elapsed;
        per_client_acked_per_second = rates;
        clients = clients;
      })

  -- `host` is `os.Hostname`, empty on an error, and `procs` is `runtime.GOMAXPROCS(0)`; `none` is a
  -- panic.
  unfoldable pub build_publish_report :
      PublishProgress → PublishStats → PublishOptions → Bytes → ℕ → Option (PublishReport W)
  build_publish_report progress stats options host procs =
      let end = snapshot progress in
      publish_report_of end stats options host procs
        (build_per_client_rates progress stats end.publish_started_at)
        (build_clients progress stats)
