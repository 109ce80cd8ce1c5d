-- ===== src/Commands/Examples.antt =====
-- Tests of the commands, and of a publish run of two clients in which one publish timed out.
use mqtt_load_generator.Base.{
  ◌⊎◌, inr, ◌+◌, ◌↔◌, ◌≤◌, ◌<◌, ◌≡◌, ◌≢◌, true, false, pos, [], ◌∷◌, Option, none, some, arith,
}
use mqtt_load_generator.Base.Text.{Bytes, codes, All}
use mqtt_load_generator.Broker.{Options}
use mqtt_load_generator.Broker.Dial.{DialError}
use mqtt_load_generator.Connect.{ConnectError}
use mqtt_load_generator.Config.{validate_connection, validate_subscribe, effective_client_id}
use mqtt_load_generator.Config.Examples.{
  local, publish_settings, subscribe_settings, local_accepted, settings_accepted,
}
use mqtt_load_generator.Publish.Client.{PublishCounters}
use mqtt_load_generator.Publish.Progress.{new_publish_progress, snapshot}
use mqtt_load_generator.Publish.Run.{Course, run_publish, run_closes_channels, run_error}
use mqtt_load_generator.Subscribe.{SubscribeProgress, new_subscribe_progress, is_zero}
use mqtt_load_generator.Commands.{
  to_publish_options, SubscribeError, publish_command, ordered_options, subscribe_command,
}
use mqtt_load_generator.Commands.Outcomes.{
  Accepted, options_of_valid, publish_command_outcomes, subscribe_command_outcomes,
}

abbrev acked_five : PublishCounters
acked_five = record { published = 5; acked = 5; failed = 0; timed_out = 0 }

abbrev one_late : PublishCounters
one_late = record { published = 5; acked = 4; failed = 0; timed_out = 1 }

abbrev late_course : Course
late_course = record {
  connected = none;
  cancelled = false;
  clients_connected = 2;
  counters = acked_five ∷ one_late ∷ [];
  first_time = 100;
  second_time = 900;
}

run_closes_channels_example :
    let p = (run_publish late_course (new_publish_progress 2)).0 in
    (p.panicked ≡ false)
    × (p.connect_finished ≡ true)
    × (p.done ≡ true)
    × (0 < p.finished_at)
    × ((p.connect_failed ≡ false) ↔ (late_course.connected ≡ none))
    × ((0 < p.publish_started_at) ↔ (late_course.connected ≡ none))
run_closes_channels_example = run_closes_channels 2 late_course (omega arith, omega arith)

run_error_example :
    let after = run_publish late_course (new_publish_progress 2) in
    ((error : ConnectError)
      → late_course.connected ≡ some error
      → (after.1 ≡ none) ↔ (late_course.cancelled ≡ true))
    × (late_course.connected ≡ none
        → (after.1 ≡ none) ↔ All (λ c. (c.failed ≡ 0) × (c.timed_out ≡ 0)) late_course.counters)
    × (late_course.connected ≡ none
        → after.1 ≡ none
        → All (λ c. c.published ≡ c.acked + c.failed + c.timed_out) late_course.counters
        → let summary = (snapshot after.0).summary in summary.acked ≡ summary.published)
run_error_example = run_error 2 late_course (omega arith, omega arith) (omega arith)

options_of_valid_test :
    let o = to_publish_options local publish_settings in
    (pos o.count ≡ pos 1000)
    × (pos o.size ≡ pos 100)
    × (pos o.interval_milliseconds ≡ pos 1)
    × (pos o.clients ≡ pos 1)
    × (pos o.in_flight ≡ pos 1)
    × (pos o.ack_timeout ≡ pos 30_000_000_000)
    × (pos o.connect_concurrency ≡ pos 16)
    × (pos o.qos ≡ pos 1)
    × (0 < o.count)
    × (0 < o.clients)
    × (0 < o.in_flight)
    × (o.in_flight ≤ 65535)
    × (0 < o.ack_timeout)
    × (0 < o.connect_concurrency)
    × (o.qos ≤ 2)
options_of_valid_test = options_of_valid local publish_settings local_accepted settings_accepted

publish_command_outcomes_example :
    let r =
      publish_command local publish_settings
        (λ o. run_publish late_course (new_publish_progress o.clients))
        true in
    ((r.ran ≡ true) ↔ Accepted local publish_settings)
    × ((r.writes_report ≡ true)
        ↔ (Accepted local publish_settings × (late_course.connected ≡ none)))
    × ((r.reported ≡ true)
        ↔ (Accepted local publish_settings × (late_course.connected ≡ none) × (true ≡ true)))
    × ((r.error ≡ none) → Accepted local publish_settings)
    × (Accepted local publish_settings
        → late_course.connected ≡ none
        → (r.error ≡ none)
          ↔ (All (λ n. (n.failed ≡ 0) × (n.timed_out ≡ 0)) late_course.counters × (true ≡ true)))
    × (Accepted local publish_settings
        → (error : ConnectError) → late_course.connected ≡ some error
        → (r.error ≡ none) ↔ (late_course.cancelled ≡ true))
publish_command_outcomes_example =
    publish_command_outcomes local publish_settings late_course true (omega arith, omega arith)
      (omega arith)

-- A connect whose client is its own ID, and a run that subscribed.
abbrev dial_any : Options → Bytes → DialError ⊎ Bytes
dial_any options client_id = inr client_id

abbrev subscribed : Bytes → SubscribeProgress × Option SubscribeError
subscribed client = (record new_subscribe_progress { subscribed_at = 50; finished_at = 60 }, none)

subscribe_command_outcomes_test :
    let r = subscribe_command local subscribe_settings (codes "1-2-3") dial_any subscribed true in
    let dialled =
      dial_any (ordered_options local false) (effective_client_id (codes "1-2-3") local) in
    ((r.ran ≡ true)
      → (validate_connection local ≡ none)
        × (validate_subscribe subscribe_settings ≡ none)
        × ((client : Bytes) × (dialled ≡ inr client)
            × ((r.writes_report ≡ true) ↔ (is_zero (subscribed client).0.subscribed_at ≡ false))
            × ((r.error ≡ none)
                ↔ (((subscribed client).1 ≡ none) × ((r.writes_report ≡ true) → true ≡ true)))))
    × ((r.ran ≡ false) → ((r.error ≢ none) × (r.writes_report ≡ false)))
    × ((validate_connection local ≡ none)
        → (validate_subscribe subscribe_settings ≡ none)
        → (client : Bytes) → dialled ≡ inr client
        → r.ran ≡ true)
subscribe_command_outcomes_test =
    subscribe_command_outcomes local subscribe_settings (codes "1-2-3") dial_any subscribed true
