-- ===== src/Report/Subscribe.antt =====
-- internal/mqttload/subscribe_report.go: the report at the end of sub.
use mqtt_load_generator.Base.{ℕ, if◌then◌else◌, ℤ, Option}
use mqtt_load_generator.Base.Text.{Bytes}
use mqtt_load_generator.Base.Words.{to_int64}
use mqtt_load_generator.Base.Floats.{Float64}
use mqtt_load_generator.Base.Times.{Time, time_sub}
use mqtt_load_generator.Latency.Hdr.{HdrHistogram}
use mqtt_load_generator.Latency.Shared.{LatencyBucketSet}
use mqtt_load_generator.Latency.Shared
use mqtt_load_generator.Publish.Stats.{Slice}
use mqtt_load_generator.Subscribe.{SubscribeProgress, is_zero}
use mqtt_load_generator.Report.{
  PerInterval, LatencyQuantiles, build_acks_per_interval, latency_quantiles,
}

pub record SubscribeReportRun (W : Type 0) : Type 0 where
  pub started_at : Time
  pub finished_at : Time
  pub elapsed_seconds : W
  pub host : Bytes
  pub go_max_procs : ℕ

pub record SubscribeReportSettings : Type 0 where
  pub topic : Bytes
  pub qos : ℕ
  pub count : ℤ

pub record SubscribeReportMessages : Type 0 where
  pub received : ℤ
  pub bytes : ℤ
  pub without_timestamp : ℤ
  pub negative_latency : ℤ

pub record SubscribeReport (W : Type 0) : Type 0 where
  pub run : SubscribeReportRun W
  pub settings : SubscribeReportSettings
  pub messages : SubscribeReportMessages
  pub received_per_interval : PerInterval W
  pub end_to_end_latency_milliseconds : Option LatencyQuantiles

-- `SubscribeStats` when the run has ended, with the counters that the latencies are in.
pub record EndedStats : Type 0 where
  pub latency : LatencyBucketSet
  pub received_per_interval : Slice ℤ
  pub without_timestamp : ℕ
  pub negative_latency : ℕ

-- `SubscribeSnapshot`, with the times as `atomicTime` loads them.
pub record SubscribeSnapshot : Type 0 where
  pub received : ℤ
  pub received_bytes : ℤ
  pub first_message_at : Time
  pub last_message_at : Time
  pub subscribed_at : Time
  pub finished_at : Time

abbrev pub snapshot : SubscribeProgress → SubscribeSnapshot
snapshot progress = record {
  received = to_int64 progress.received;
  received_bytes = to_int64 progress.received_bytes;
  first_message_at = progress.first_message_at;
  last_message_at = progress.last_message_at;
  subscribed_at = progress.subscribed_at;
  finished_at = progress.finished_at;
}

-- The first message, or else the subscribe.
abbrev pub started_at : SubscribeSnapshot → Time
started_at end = if is_zero end.first_message_at then end.subscribed_at else end.first_message_at

module _ {W : Type 0} ⦃float64 : Float64 W⦄ (hdr : HdrHistogram W) where
  open hdr use {histogram, new}

  unfoldable pub build_end_to_end_latency : EndedStats → Option LatencyQuantiles
  build_end_to_end_latency stats = latency_quantiles hdr (Shared.add_to histogram stats.latency new)

  -- `host` is `os.Hostname`, empty on an error, and `procs` is `runtime.GOMAXPROCS(0)`.
  unfoldable pub build_subscribe_report :
      SubscribeProgress → EndedStats → Bytes → ℕ → ℤ → Bytes → ℕ → SubscribeReport W
  unfolding build_end_to_end_latency
  build_subscribe_report progress stats topic qos count host procs =
      let end = snapshot progress in
      let elapsed_seconds = float64.seconds (time_sub end.finished_at (started_at end)) in
      record {
        run = record {
          started_at = started_at end;
          finished_at = end.finished_at;
          elapsed_seconds = elapsed_seconds;
          host = host;
          go_max_procs = procs;
        };
        settings = record { topic = topic; qos = qos; count = count };
        messages = record {
          received = end.received;
          bytes = end.received_bytes;
          without_timestamp = to_int64 stats.without_timestamp;
          negative_latency = to_int64 stats.negative_latency;
        };
        received_per_interval =
            build_acks_per_interval stats.received_per_interval end.received elapsed_seconds;
        end_to_end_latency_milliseconds = build_end_to_end_latency stats;
      }
