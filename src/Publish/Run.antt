-- ===== src/Publish/Run.antt =====
-- `RunPublish` of internal/mqttload/publish.go, around `connectClients` and the clients' loops.
use mqtt_load_generator.Base.{
  ℕ, ◌+◌, ◌^◌, ◌<◌, ◌≡◌, ◌↔◌, ltb, if◌then◌else◌, Bool, true, false, List, [], ◌∷◌, Option, none,
  some, total, refl, arith,
}
use mqtt_load_generator.Base.Words.{u64}
use mqtt_load_generator.Base.Text.{All}
use mqtt_load_generator.Connect.{ConnectError}
use mqtt_load_generator.Publish.Client.{PublishCounters, no_counts}
use mqtt_load_generator.Publish.Progress.{
  PublishProgress, new_publish_progress, finish_connecting, finish, add_counters, sum_from,
  sum_publish_counters, snapshot,
}

pub data RunError : Type 0 where
  connecting_clients : ConnectError → RunError
  publishes_failed : PublishCounters → RunError

-- What happens in a run: what `connectClients` returned, whether the context was cancelled by then,
-- how many clients connected, the counters when every client's goroutine has ended, and the two
-- times that are read.
pub record Course : Type 0 where
  pub connected : Option ConnectError
  pub cancelled : Bool
  pub clients_connected : ℕ
  pub counters : List PublishCounters
  pub first_time : ℕ
  pub second_time : ℕ

-- The error at the end.
abbrev pub publish_error : PublishCounters → Option RunError
publish_error summary =
    if ltb 0 (u64 (summary.failed + summary.timed_out))
    then some (RunError.publishes_failed summary)
    else none

abbrev pub connect_error : ConnectError → Bool → Option RunError
connect_error error cancelled = if cancelled then none else some (RunError.connecting_clients error)

-- What follows `connectClients`.
abbrev pub run_after :
    Option ConnectError → Course → PublishProgress → PublishProgress × Option RunError
run_after (some error) course progress = (
  finish course.second_time (finish_connecting false course.first_time progress),
  connect_error error course.cancelled,
)
run_after none course progress =
    let started = finish_connecting true course.first_time progress in
    let ended = finish course.second_time (record started { counters = course.counters }) in
    (ended, publish_error (snapshot ended).summary)

unfoldable pub run_publish : Course → PublishProgress → PublishProgress × Option RunError
run_publish course progress =
    run_after course.connected course
      (record progress { clients_connected = course.clients_connected })

-- The counters of a run that add up without wrapping.
abbrev pub Countable : List PublishCounters → Type 0
Countable counters = total (λ c. c.published + c.acked + c.failed + c.timed_out) counters < 2 ^ 63

abbrev pub published : PublishCounters → ℕ
published c = c.published

abbrev pub acked : PublishCounters → ℕ
acked c = c.acked

abbrev pub unsuccessful : PublishCounters → ℕ
unsuccessful c = c.failed + c.timed_out

pub sum_from_lem :
    (summary : PublishCounters) (counters : List PublishCounters)
    → summary.published
        + summary.acked
        + summary.failed
        + summary.timed_out
        + total (λ c. c.published + c.acked + c.failed + c.timed_out) counters
      < 2 ^ 63
    → let sum = sum_from summary counters in
      (sum.published ≡ summary.published + total published counters)
      × (sum.acked ≡ summary.acked + total acked counters)
      × (sum.failed + sum.timed_out
          ≡ summary.failed + summary.timed_out + total unsuccessful counters)
      × (sum.published + sum.acked + sum.failed + sum.timed_out < 2 ^ 63)
sum_from_lem summary [] h = omega arith
sum_from_lem summary (c ∷ counters) h =
    let rest = sum_from_lem (add_counters summary c) counters (omega (arith, h)) in
    omega (arith, rest, h)

pub total_zero :
    (counters : List PublishCounters)
    → (total unsuccessful counters ≡ 0) ↔ All (λ c. (c.failed ≡ 0) × (c.timed_out ≡ 0)) counters
total_zero [] = (λ e. tt, λ a. refl)
total_zero (c ∷ counters) = (
  λ e. (omega (arith, e), (total_zero counters).0 (omega (arith, e))),
  λ (h, a). omega (arith, h, (total_zero counters).1 a),
)

accounted :
    (counters : List PublishCounters)
    → All (λ c. c.published ≡ c.acked + c.failed + c.timed_out) counters
    → total published counters ≡ total acked counters + total unsuccessful counters
accounted [] a = refl
accounted (c ∷ counters) (h, a) = omega (arith, h, accounted counters a)

module _ (clients : ℕ) (course : Course)
    (timed : (0 < course.first_time) × (0 < course.second_time)) where
  abbrev after : PublishProgress × Option RunError
  after = run_publish course (new_publish_progress clients)

  -- However a run goes, `RunPublish` closes `connectFinished` and `done` once each and sets the end
  -- time; the start time is set exactly when connecting did not fail, and `ConnectFailed` exactly
  -- when it did.
  pub run_closes_channels :
      let p = after.0 in
      (p.panicked ≡ false)
      × (p.connect_finished ≡ true)
      × (p.done ≡ true)
      × (0 < p.finished_at)
      × ((p.connect_failed ≡ false) ↔ (course.connected ≡ none))
      × ((0 < p.publish_started_at) ↔ (course.connected ≡ none))
  unfolding run_publish finish_connecting finish
  run_closes_channels = by_cases course.connected refl
    where
      by_cases :
          (c : Option ConnectError)
          → course.connected ≡ c
          → let p =
              (run_after c course (record (new_publish_progress clients) {
                clients_connected = course.clients_connected;
              })).0 in
            (p.panicked ≡ false)
            × (p.connect_finished ≡ true)
            × (p.done ≡ true)
            × (0 < p.finished_at)
            × ((p.connect_failed ≡ false) ↔ (c ≡ none))
            × ((0 < p.publish_started_at) ↔ (c ≡ none))
      by_cases none e = ground (arith, timed)
      by_cases (some error) e = ground (arith, timed)

  -- When connecting failed, `RunPublish` returns an error exactly if the context was not cancelled.
  -- When it did not fail, it returns an error exactly if some publish failed or timed out; so without
  -- an error, and where every client has accounted for each of its publishes, as many were acked as
  -- published.
  pub run_error :
      Countable course.counters
      → ((error : ConnectError)
          → course.connected ≡ some error
          → (after.1 ≡ none) ↔ (course.cancelled ≡ true))
        × (course.connected ≡ none
            → (after.1 ≡ none) ↔ All (λ c. (c.failed ≡ 0) × (c.timed_out ≡ 0)) course.counters)
        × (course.connected ≡ none
            → after.1 ≡ none
            → All (λ c. c.published ≡ c.acked + c.failed + c.timed_out) course.counters
            → let summary = (snapshot after.0).summary in summary.acked ≡ summary.published)
  unfolding run_publish finish_connecting finish sum_publish_counters
  run_error countable =
      let sum = sum_from_lem no_counts course.counters (omega (arith, countable)) in
      let zeros = total_zero course.counters in
      (
        λ error e. rw (e) (ground arith),
        λ e. rw (e) (ground (arith, sum, zeros)),
        λ e. rw (e) (λ quiet accounts.
            let a = accounted course.counters accounts in ground (arith, sum, a, quiet)),
      )

  -- The published messages in the summary at the end.
  pub run_published :
      Countable course.counters
      → course.connected ≡ none
      → (snapshot after.0).summary.published ≡ total published course.counters
  unfolding run_publish finish_connecting finish sum_publish_counters
  run_published countable e =
      let sum = sum_from_lem no_counts course.counters (omega (arith, countable)) in
      rw (e) (omega (arith, sum))

  -- The acked messages in the summary at the end.
  pub run_acked :
      Countable course.counters
      → course.connected ≡ none
      → (snapshot after.0).summary.acked ≡ total acked course.counters
  unfolding run_publish finish_connecting finish sum_publish_counters
  run_acked countable e =
      let sum = sum_from_lem no_counts course.counters (omega (arith, countable)) in
      rw (e) (omega (arith, sum))
