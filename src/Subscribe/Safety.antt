-- ===== src/Subscribe/Safety.antt =====
-- What a subscribe run promises, in every order of its goroutines (subscribe.go).
use mqtt_load_generator.Base.{
  ℕ, ◌^◌, ◌≤◌, ◌<◌, ◌≡◌, inr, ltb, if◌then◌else◌, Bool, true, false, [], refl, arith, not,
}
use mqtt_load_generator.Subscribe.{is_zero}
use mqtt_load_generator.Subscribe.Run.{SubscribeRun, selecting, stopping, returned}
use mqtt_load_generator.Subscribe.Steps.{Step, selects, Reach, arrivals, arrived_bytes}
use mqtt_load_generator.Subscribe.Invariant.{timed, is_returned, has_left}
use mqtt_load_generator.Subscribe.Preservation.{Reach-Inv}

module _ {benchmark : Bool} {count : ℕ} {s : SubscribeRun} (r : Reach benchmark count s)
    (few : arrivals r < 2 ^ 63) (short : arrived_bytes r < 2 ^ 63) where
  -- No channel of a subscribe run is closed twice, whatever the callbacks do at the same time; `done`
  -- is closed exactly when `RunSubscribe` has returned, and then the end time is set, after a failed
  -- subscribe too.
  pub channels_closed_once :
      (s.panicked ≡ false)
      × (s.progress.done ≡ is_returned s.runner)
      × (s.runner ≡ returned → 0 < s.progress.finished_at)
  channels_closed_once =
      let v = Reach-Inv r few short in (v.safe, v.done, λ at. v.ended (rw at refl))

  -- When no callback runs, every message is counted: `Received` and `ReceivedBytes` are the messages
  -- and payload bytes that arrived, with --benchmark each message is in exactly one of the latency
  -- counters, `withoutTimestamp` and `negativeLatency`, and without it none is, and the time of the
  -- first message is set exactly if there was a message.
  pub messages_accounted :
      s.callbacks ≡ []
      → (s.progress.received ≡ arrivals r)
        × (s.progress.received_bytes ≡ arrived_bytes r)
        × (timed s.stats ≡ (if benchmark then arrivals r else 0))
        × (is_zero s.progress.first_message_at ≡ not (ltb 0 (arrivals r)))
  messages_accounted idle = let v = Reach-Inv r few short in ground (arith, v)

  -- `countReached` is never closed early: only with --count, and once that many messages have
  -- arrived. So a run that subscribed and was not cancelled leaves its select only then.
  pub count_not_early :
      (s.count_reached ≡ true → (0 < count) × (count ≤ arrivals r))
      × (has_left s.runner ≡ true
          → 0 < s.progress.subscribed_at
          → s.cancelled ≡ false
          → (0 < count) × (count ≤ arrivals r))
  count_not_early =
      let v = Reach-Inv r few short in
      (λ closed. ground (arith, v), λ left subscribed going. ground (arith, v))

  -- With --count, once that many messages have arrived and no callback runs, the select of
  -- `RunSubscribe` can go on: the wake-up is not lost.
  pub count_wakes :
      0 < count
      → count ≤ arrivals r
      → s.callbacks ≡ []
      → s.runner ≡ selecting
      → Step count s (record s { runner = stopping })
  count_wakes some_count enough idle at =
      let v = Reach-Inv r few short in selects at (inr (ground (arith, v)))
