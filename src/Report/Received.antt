-- ===== src/Report/Received.antt =====
-- `BuildSubscribeReport` of subscribe_report.go after `RunSubscribe`: the messages and the latencies.
use mqtt_load_generator.Base.{
  ℕ, ◌+◌, ◌^◌, ◌<◌, ◌≡◌, if◌then◌else◌, Bool, ℤ, pos, pos_part, List, [], ◌∷◌, ◌++◌, some, length,
  length-append, refl, ap, ◌∙◌, arith,
}
use mqtt_load_generator.Base.Text.{Bytes}
use mqtt_load_generator.Base.Floats.{Float64}
use mqtt_load_generator.Latency.Counters.{record_all}
use mqtt_load_generator.Latency.Shared.{LatencyBucketSet, new_latency_bucket_set, record_for}
use mqtt_load_generator.Latency.Shared
use mqtt_load_generator.Latency.Hdr.{HdrHistogram, IsCounting}
use mqtt_load_generator.Latency.HdrTotals.{recorded_total}
use mqtt_load_generator.Publish.Stats.{Slice}
use mqtt_load_generator.Subscribe.{SubscribeStats, SubscribeProgress}
use mqtt_load_generator.Subscribe.Run.{SubscribeRun}
use mqtt_load_generator.Subscribe.Steps.{Reach, arrivals, arrived_bytes}
use mqtt_load_generator.Subscribe.Safety.{messages_accounted}
use mqtt_load_generator.Report.Subscribe.{EndedStats, SubscribeReport, build_subscribe_report}

-- The recordings of a run, which its statistics list newest first.
abbrev pub oldest_first : {A : Type 0} → List A → List A
oldest_first [] = []
oldest_first (x ∷ xs) = oldest_first xs ++ (x ∷ [])

length-oldest_first : {A : Type 0} (xs : List A) → length (oldest_first xs) ≡ length xs
length-oldest_first [] = refl
length-oldest_first (x ∷ xs) =
    omega (arith, length-append (oldest_first xs) (x ∷ []), length-oldest_first xs)

-- The statistics when the run has ended, with the counters that the latencies are in.
abbrev pub ended : SubscribeStats → LatencyBucketSet → Slice ℤ → EndedStats
ended stats latency received_per_interval = record {
  latency = latency;
  received_per_interval = received_per_interval;
  without_timestamp = stats.without_timestamp;
  negative_latency = stats.negative_latency;
}

-- What a report says of a run that received `messages` messages of `bytes` bytes, `timed` of them with
-- --benchmark, and whose histogram counts `recorded` latencies.
pub record Accounts {W : Type 0} (report : SubscribeReport W) (progress : SubscribeProgress)
    (messages bytes timed recorded : ℕ) : Type 0 where
  pub received : report.messages.received ≡ pos messages
  pub received_bytes : report.messages.bytes ≡ pos bytes
  pub each_timed :
      pos_part report.messages.without_timestamp
        + pos_part report.messages.negative_latency
        + recorded
      ≡ timed
  pub since_first : 0 < messages → report.run.started_at ≡ progress.first_message_at
  pub since_subscribe : messages ≡ 0 → report.run.started_at ≡ progress.subscribed_at

module _ {W : Type 0} ⦃float64 : Float64 W⦄ (hdr : HdrHistogram W) (counting : IsCounting hdr) where
  open hdr use {histogram, new, total_count}

  -- When no callback runs, the latencies that a subscribe run recorded are in counters that did not
  -- panic, and the report made of these has the messages and bytes that arrived; with --benchmark, each
  -- message is in exactly one of its histogram, `withoutTimestamp` and `negativeLatency`, and without
  -- it none is; the run starts at its first message, or else at the subscribe.
  pub report-Accounts :
      {benchmark : Bool} {count : ℕ} {s : SubscribeRun} (r : Reach benchmark count s)
      → arrivals r < 2 ^ 63
      → arrived_bytes r < 2 ^ 63
      → s.callbacks ≡ []
      → (procs : ℕ) (intervals : Slice ℤ) (topic : Bytes) (qos : ℕ) (wanted : ℤ) (host : Bytes)
      → (shared : LatencyBucketSet) × (recorded : ℕ) × (record_all record_for
            (new_latency_bucket_set procs)
            (oldest_first s.stats.latency)
          ≡ some shared)
        × (total_count (Shared.add_to histogram shared new) ≡ pos recorded)
        × Accounts
            (build_subscribe_report hdr s.progress
              (ended s.stats shared intervals)
              topic
              qos
              wanted
              host
              procs)
            s.progress
            (arrivals r)
            (arrived_bytes r)
            (if benchmark then arrivals r else 0)
            recorded
  unfolding build_subscribe_report
  report-Accounts {s = s} r few short idle procs intervals topic qos wanted host =
      let a = messages_accounted r few short idle in
      let size = length-oldest_first s.stats.latency in
      let (shared, runs, total) =
        recorded_total hdr counting procs (oldest_first s.stats.latency)
          (ground (arith, a, size, few)) in
      (
        shared,
        length s.stats.latency,
        runs,
        total ∙ ap pos size,
        record {
          received = ground (arith, a, few);
          received_bytes = ground (arith, a, short);
          each_timed = ground (arith, a, few);
          since_first = λ h. ground (arith, a, h);
          since_subscribe = λ h. ground (arith, a, h);
        },
      )
