-- ===== src/Report/AcksExamples.antt =====
-- A test of the latencies after a whole publish run: two clients, each with one message that is acked.
use mqtt_load_generator.Base.{ℕ, ◌≡◌, ◌↔◌, ℤ, pos, List, [], ◌∷◌, none, some, refl, arith}
use mathlib.Core.List.Perm
use mqtt_load_generator.Base.FixedPoint.{billionths}
use mqtt_load_generator.Latency.Counters.{record_all}
use mqtt_load_generator.Latency.Shared.{LatencyBucketSet, new_latency_bucket_set, record_for}
use mqtt_load_generator.Latency.Shared
use mqtt_load_generator.Publish.Invariant.{timed}
use mqtt_load_generator.Publish.Progress.{new_publish_progress, snapshot}
use mqtt_load_generator.Publish.Run.{run_publish}
use mqtt_load_generator.Publish.Counting.{counting}
use mqtt_load_generator.Publish.RunExamples.{one_message, one_client, quiet_course}
use mqtt_load_generator.Publish.Stats.{PublishStats}
use mqtt_load_generator.Report.Publish.{build_ack_latency}
use mqtt_load_generator.Report.Acks.{report_times_acks}
use mqtt_load_generator.Report.Examples.{tallies, tallies-IsCounting}

-- The second client's goroutine was the first to record.
abbrev calls : List (ℕ × ℤ)
calls = (1, pos 250) ∷ (0, pos 250) ∷ []

report_times_acks_example :
    let ended = (run_publish quiet_course (new_publish_progress 2)).0 in
    let acks = timed 1 (snapshot ended).summary.acked in
    (shared : LatencyBucketSet) × (record_all record_for (new_latency_bucket_set 4) calls
      ≡ some shared)
    × (tallies.total_count (Shared.add_to tallies.histogram shared tallies.new) ≡ pos acks)
    × ((stats : PublishStats)
        → stats.latency ≡ shared
        → (build_ack_latency tallies stats ≡ none) ↔ (acks ≡ 0))
unfolding one_client
report_times_acks_example =
    report_times_acks counting one_message (omega arith) tallies tallies-IsCounting
      (one_client ∷ one_client ∷ []) quiet_course (omega arith, omega arith) refl refl (omega arith)
      4 calls (Perm.swap (1, pos 250) (0, pos 250) [])
