-- ===== src/Subscribe.antt =====
-- internal/mqttload/subscribe_progress.go, atomic_time.go and subscribe_stats.go: what a subscribe
-- run counts.
pub mod Run
pub mod Steps
pub mod Invariant
mod Preservation
pub mod Safety
pub mod Examples
use mqtt_load_generator.Base.{
  ℕ, ◌+◌, ◌/◌, ◌==◌, if◌then◌else◌, Bool, true, false, ℤ, pos, ◌-ℤ◌, ltb_ℤ, List, [], ◌∷◌, Option,
  none, some, length,
}
use mqtt_load_generator.Base.Words.{u64}
use mqtt_load_generator.Base.Text.{Bytes}
use mqtt_load_generator.Payload.Timestamp.{benchmark_timestamp}

-- `atomicTime`: nanoseconds since 1970, and 0 for a time that was never set.
abbrev pub AtomicTime : Type 0
AtomicTime = ℕ

abbrev pub is_zero : AtomicTime → Bool
is_zero nano = nano == 0

-- `SubscribeProgress`. `done` is closed or not; a second close is a panic.
pub record SubscribeProgress : Type 0 where
  pub received : ℕ
  pub received_bytes : ℕ
  pub first_message_at : AtomicTime
  pub last_message_at : AtomicTime
  pub subscribed_at : AtomicTime
  pub finished_at : AtomicTime
  pub done : Bool

abbrev pub new_subscribe_progress : SubscribeProgress
new_subscribe_progress = record {
  received = 0;
  received_bytes = 0;
  first_message_at = 0;
  last_message_at = 0;
  subscribed_at = 0;
  finished_at = 0;
  done = false;
}

-- `recordMessage`, an atomic update at a time.
unfoldable pub add_received : SubscribeProgress → SubscribeProgress × ℕ
add_received progress =
    let number = u64 (progress.received + 1) in (record progress { received = number }, number)

unfoldable pub add_received_bytes : ℕ → SubscribeProgress → SubscribeProgress
add_received_bytes size progress = record progress {
  received_bytes = u64 (progress.received_bytes + size);
}

unfoldable pub set_last_message_at : ℕ → SubscribeProgress → SubscribeProgress
set_last_message_at now progress = record progress { last_message_at = now }

unfoldable pub set_first_message_at : ℕ → ℕ → SubscribeProgress → SubscribeProgress
set_first_message_at number now progress =
    if number == 1 then record progress { first_message_at = now } else progress

unfoldable pub record_subscribed : ℕ → SubscribeProgress → SubscribeProgress
record_subscribed now progress = record progress { subscribed_at = now }

unfoldable pub record_stopped : ℕ → SubscribeProgress → SubscribeProgress
record_stopped now progress = record progress { finished_at = now }

-- `finish` up to the close of `done`.
unfoldable pub finish_time : ℕ → SubscribeProgress → SubscribeProgress
finish_time now progress =
    if is_zero progress.finished_at then record progress { finished_at = now } else progress

-- `SubscribeStats`. The latency counters are the calls of `record`, newest first, each with the
-- number that its counters are chosen by.
pub record SubscribeStats : Type 0 where
  pub benchmark : Bool
  pub latency : List (ℕ × ℤ)
  pub without_timestamp : ℕ
  pub negative_latency : ℕ

abbrev pub new_subscribe_stats : Bool → SubscribeStats
new_subscribe_stats benchmark = record {
  benchmark = benchmark;
  latency = [];
  without_timestamp = 0;
  negative_latency = 0;
}

-- `UnixMilli` of a time in nanoseconds, less the timestamp.
abbrev pub latency_milliseconds : ℕ → ℕ → ℤ
latency_milliseconds arrived_at timestamp = pos (arrived_at / 1_000_000) -ℤ pos timestamp

abbrev pub count_latency : ℕ → ℕ → Option ℕ → SubscribeStats → SubscribeStats
count_latency number arrived_at none stats = record stats {
  without_timestamp = u64 (stats.without_timestamp + 1);
}
count_latency number arrived_at (some timestamp) stats =
    let latency = latency_milliseconds arrived_at timestamp in
    if ltb_ℤ latency (pos 0)
    then record stats { negative_latency = u64 (stats.negative_latency + 1) }
    else record stats { latency = (number, latency) ∷ stats.latency }

-- `recordLatency` of subscribe.go.
unfoldable pub record_latency : SubscribeStats → ℕ → ℕ → Bytes → SubscribeStats
record_latency stats number arrived_at payload =
    count_latency number arrived_at (benchmark_timestamp payload) stats
