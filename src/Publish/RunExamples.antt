-- ===== src/Publish/RunExamples.antt =====
-- A test of a whole publish run: two clients, each with one message that is acked.
use mqtt_load_generator.Base.{◌≡◌, refl, false, pos, [], ◌∷◌, none, arith}
use mqtt_load_generator.Publish.{PublishOptions}
use mqtt_load_generator.Publish.Client.{
  Outcome, start, take_slot, publish, count_result, free_slot, done, finish_waiting, disconnect,
}
use mqtt_load_generator.Publish.Steps.{
  begin, later, acquires, publishes, counts, frees, finishes, stops_waiting, disconnects,
}
use mqtt_load_generator.Publish.Progress.{
  new_publish_progress, snapshot, sum_publish_counters, finish_connecting, finish,
}
use mqtt_load_generator.Publish.Run.{Course, run_publish}
use mqtt_load_generator.Publish.EndToEnd.{Finished, final_counters, no_error_all_acked}
use mqtt_load_generator.Publish.Counting.{counting, two_messages}

abbrev pub one_message : PublishOptions
one_message = record two_messages { count = 1 }

unfoldable pub one_client : Finished counting one_message false
unfolding start take_slot publish count_result free_slot done finish_waiting disconnect
one_client = record {
  state = _;
  run =
      later
        (later
          (later
            (later
              (later (later (later begin (acquires 0 10 0 _ refl refl)) (publishes 0 10 refl))
                (counts [] [] 10 (Outcome.acked (pos 250)) refl))
              (frees _ (omega arith) refl))
            (finishes (omega arith) (omega arith)))
          (stops_waiting 40 refl refl))
        (disconnects refl);
  over = refl;
}

abbrev pub quiet_course : Course
quiet_course = record {
  connected = none;
  cancelled = false;
  clients_connected = 2;
  counters = final_counters counting one_message (omega arith) (one_client ∷ one_client ∷ []);
  first_time = 5;
  second_time = 45;
}

no_error_all_acked_example :
    let summary = (snapshot (run_publish quiet_course (new_publish_progress 2)).0).summary in
    (summary.published ≡ 2) × (summary.acked ≡ 2)
unfolding one_client run_publish sum_publish_counters finish_connecting finish
no_error_all_acked_example =
    no_error_all_acked counting one_message (omega arith) (one_client ∷ one_client ∷ [])
      quiet_course (refl, (refl, tt)) (omega arith, omega arith) refl refl (omega arith) refl
