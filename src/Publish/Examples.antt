-- ===== src/Publish/Examples.antt =====
-- Tests of the publish loop of one client: a run of two messages, one acked and one timed out.
use mqtt_load_generator.Base.{
  ℕ, ◌+◌, ◌<◌, ◌≤◌, ◌≡◌, ◌⊎◌, refl, true, false, pos, [], some, length, arith,
}
use mqtt_load_generator.Publish.Client.{
  ClientState, Outcome, disconnected, start, take_slot, publish, count_result, free_slot, done,
  finish_waiting, disconnect,
}
use mqtt_load_generator.Base.Text.{codes}
use mqtt_load_generator.Publish.Counting.{Count, counting, two_messages}
use mqtt_load_generator.Publish.Topic.{client_topic, client_topic_distinct}
use mqtt_load_generator.Publish.Steps.{
  Step, Reach, begin, later, acquires, publishes, paces, counts, frees, finishes, stops_waiting,
  disconnects,
}
use mqtt_load_generator.Publish.Invariant.{timed, PerClient}
use mqtt_load_generator.Publish.Safety.{in_flight_bounded, disconnect_accounts, disconnect_sent_all}
use mqtt_load_generator.Publish.Termination.{steps, publish_terminates, deferred_calls_safe}

-- The first publish is acked after 250 microseconds.
first_acked : (s : ClientState Count) × Reach counting two_messages true s
unfolding start take_slot publish count_result free_slot
first_acked = (
  _,
  later
      (later (later (later begin (acquires 0 10 0 _ refl refl)) (publishes 0 10 refl))
        (counts [] [] 10 (Outcome.acked (pos 250)) refl))
      (frees _ (omega arith) refl),
)

-- The second publish times out, and the client disconnects.
both_answered : (s : ClientState Count) × Reach counting two_messages true s
unfolding first_acked start take_slot publish count_result free_slot done finish_waiting disconnect
both_answered = (
  _,
  later
      (later
        (later
          (later
            (later
              (later
                (later
                  (later (later first_acked.1 (finishes (omega arith) (omega arith)))
                    (paces 0 refl))
                  (acquires 1 20 9 _ refl refl))
                (publishes 1 20 refl))
              (counts [] [] 20 Outcome.timed_out refl))
            (frees _ (omega arith) refl))
          (finishes (omega arith) (omega arith)))
        (stops_waiting 40 refl refl))
      (disconnects refl),
)

in_flight_bounded_example :
    (length first_acked.0.waiting ≤ 1) × (first_acked.0.counters.published ≤ 2)
in_flight_bounded_example = in_flight_bounded counting two_messages (omega arith) first_acked.1

disconnect_accounts_example :
    let s = both_answered.0 in
    (s.counters.published ≡ s.counters.acked + s.counters.failed + s.counters.timed_out)
    × (length s.waiting + s.counted + s.released ≡ 0)
    × (length s.shared_latency ≡ timed 1 s.counters.acked)
    × PerClient 1 s.counters.acked true s.per_client_latency
unfolding both_answered
disconnect_accounts_example =
    disconnect_accounts counting two_messages (omega arith) both_answered.1 refl

disconnect_sent_all_test : both_answered.0.counters.published ≡ 2
unfolding both_answered
disconnect_sent_all_test =
    disconnect_sent_all counting two_messages (omega arith) both_answered.1 refl refl

publish_terminates_example :
    (steps counting two_messages first_acked.1 ≤ 15)
    × ((first_acked.0.sender ≡ disconnected)
        ⊎ ((t : ClientState Count) × Step counting two_messages first_acked.0 t))
publish_terminates_example =
    publish_terminates counting two_messages (omega arith) (omega arith) first_acked.1

deferred_calls_safe_example :
    (0 < first_acked.0.counted
      → (freed : Count) × (counting.release first_acked.0.inflight ≡ some freed))
    × (0 < first_acked.0.released → 0 < first_acked.0.outstanding)
deferred_calls_safe_example = deferred_calls_safe counting two_messages (omega arith) first_acked.1

client_topic_distinct_test :
    (client_topic (codes "/load") 2 false ≡ codes "/load")
    × (client_topic (codes "/load") 2 true ≡ client_topic (codes "/load") 12 true
        → ◌≡◌ {A = ℕ} 2 12)
client_topic_distinct_test = client_topic_distinct (codes "/load") 2 12 (omega arith) (omega arith)
