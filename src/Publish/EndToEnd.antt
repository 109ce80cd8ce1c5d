-- ===== src/Publish/EndToEnd.antt =====
-- `RunPublish` over the loops of all its clients (internal/mqttload/publish.go).
use mqtt_load_generator.Base.{
  ◌+◌, ◌*◌, ◌^◌, ◌<◌, ◌≡◌, Bool, false, List, [], ◌∷◌, none, map, length, total, sym, subst, ap,
  ◌∙◌, arith,
}
use native.Mathlib.Nat.{suc-mul}
use mqtt_load_generator.Base.Text.{All}
use mqtt_load_generator.Publish.{PublishOptions, Semaphore}
use mqtt_load_generator.Publish.Client.{ClientState, PublishCounters, disconnected}
use mqtt_load_generator.Publish.Steps.{Reach}
use mqtt_load_generator.Publish.Safety.{disconnect_accounts, disconnect_sent_all}
use mqtt_load_generator.Publish.Progress.{new_publish_progress, snapshot}
use mqtt_load_generator.Publish.Run.{
  Course, Countable, published, run_publish, run_error, run_published,
}

-- The run of one client, up to its disconnect.
pub record Finished (semaphore : Semaphore) (options : PublishOptions) (per_client_stats : Bool)
    : Type 0 where
  pub state : ClientState semaphore.Sem
  pub run : Reach semaphore options per_client_stats state
  pub over : state.sender ≡ disconnected

module _ (semaphore : Semaphore) (options : PublishOptions) {per_client_stats : Bool}
    (small : options.count < 2 ^ 63) where
  abbrev pub final_counters :
      List (Finished semaphore options per_client_stats) → List PublishCounters
  final_counters finished = map (λ f. f.state.counters) finished

  pub finished_accounts :
      (finished : List (Finished semaphore options per_client_stats))
      → All (λ c. c.published ≡ c.acked + c.failed + c.timed_out) (final_counters finished)
  finished_accounts [] = tt
  finished_accounts (f ∷ finished) =
      ((disconnect_accounts semaphore options small f.run f.over).0, finished_accounts finished)

  abbrev pub Going : Finished semaphore options per_client_stats → Type 0
  Going f = f.state.cancelled ≡ false

  finished_published :
      (finished : List (Finished semaphore options per_client_stats))
      → All Going finished
      → total published (final_counters finished) ≡ length finished * options.count
  finished_published [] going = omega arith
  finished_published (f ∷ finished) going =
      let sent = disconnect_sent_all semaphore options small f.run f.over going.0 in
      let rest = finished_published finished going.1 in
      omega (arith, sent, rest, suc-mul (length finished) options.count)

  -- When every client ran to its end without being cancelled and `RunPublish` returns no error, the
  -- summary says that each client published --count messages, and that every one of them was acked.
  pub no_error_all_acked :
      (finished : List (Finished semaphore options per_client_stats)) (course : Course)
      → All Going finished
      → (0 < course.first_time) × (0 < course.second_time)
      → course.connected ≡ none
      → course.counters ≡ final_counters finished
      → Countable course.counters
      → (run_publish course (new_publish_progress (length finished))).1 ≡ none
      → let summary =
          (snapshot (run_publish course (new_publish_progress (length finished))).0).summary in
        (summary.published ≡ length finished * options.count)
        × (summary.acked ≡ length finished * options.count)
  no_error_all_acked finished course going timed connected counters countable quiet =
      let accounts =
        subst (λ cs. All (λ c. c.published ≡ c.acked + c.failed + c.timed_out) cs) (sym counters)
          (finished_accounts finished) in
      let sent = run_published (length finished) course timed countable connected in
      let same = (run_error (length finished) course timed countable).2 connected quiet accounts in
      let all = finished_published finished going in
      let e = ap (total published) counters in (sent ∙ e ∙ all, same ∙ sent ∙ e ∙ all)
