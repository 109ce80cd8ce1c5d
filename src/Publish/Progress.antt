-- ===== src/Publish/Progress.antt =====
-- internal/mqttload/publish_progress.go, and the sum of counters.go.
use mqtt_load_generator.Base.{ℕ, ◌+◌, if◌then◌else◌, Bool, true, false, List, [], ◌∷◌, replicate}
use mqtt_load_generator.Base.Words.{u64}
use mqtt_load_generator.Publish.Client.{PublishCounters, no_counts}

-- Times are in nanoseconds since 1970, and 0 was never set. A channel that is only closed is a flag;
-- `panicked` says that a closed one was closed.
pub record PublishProgress : Type 0 where
  pub clients_total : ℕ
  pub counters : List PublishCounters
  pub clients_connected : ℕ
  pub publish_started_at : ℕ
  pub connect_failed : Bool
  pub finished_at : ℕ
  pub connect_finished : Bool
  pub done : Bool
  pub panicked : Bool

abbrev pub new_publish_progress : ℕ → PublishProgress
new_publish_progress clients_total = record {
  clients_total = clients_total;
  counters = replicate clients_total no_counts;
  clients_connected = 0;
  publish_started_at = 0;
  connect_failed = false;
  finished_at = 0;
  connect_finished = false;
  done = false;
  panicked = false;
}

abbrev close_connect_finished : PublishProgress → PublishProgress
close_connect_finished progress =
    if progress.connect_finished
    then record progress { panicked = true }
    else record progress { connect_finished = true }

abbrev close_done : PublishProgress → PublishProgress
close_done progress =
    if progress.done then record progress { panicked = true } else record progress { done = true }

-- `finishConnecting` at a time.
unfoldable pub finish_connecting : Bool → ℕ → PublishProgress → PublishProgress
finish_connecting started now progress = close_connect_finished (
    if started
    then record progress { publish_started_at = now }
    else record progress { connect_failed = true })

-- `finish` at a time.
unfoldable pub finish : ℕ → PublishProgress → PublishProgress
finish now progress = close_done (record progress { finished_at = now })

-- `publishSummary`: the sums, which wrap.
abbrev pub add_counters : PublishCounters → PublishCounters → PublishCounters
add_counters summary counter = record {
  published = u64 (summary.published + counter.published);
  acked = u64 (summary.acked + counter.acked);
  failed = u64 (summary.failed + counter.failed);
  timed_out = u64 (summary.timed_out + counter.timed_out);
}

abbrev pub sum_from : PublishCounters → List PublishCounters → PublishCounters
sum_from summary [] = summary
sum_from summary (counter ∷ counters) = sum_from (add_counters summary counter) counters

unfoldable pub sum_publish_counters : List PublishCounters → PublishCounters
sum_publish_counters counters = sum_from no_counts counters

pub record PublishSnapshot : Type 0 where
  pub clients_connected : ℕ
  pub clients_total : ℕ
  pub summary : PublishCounters
  pub connect_failed : Bool
  pub publish_started_at : ℕ
  pub finished_at : ℕ

abbrev pub snapshot : PublishProgress → PublishSnapshot
snapshot progress = record {
  clients_connected = progress.clients_connected;
  clients_total = progress.clients_total;
  summary = sum_publish_counters progress.counters;
  connect_failed = progress.connect_failed;
  publish_started_at = progress.publish_started_at;
  finished_at = progress.finished_at;
}
