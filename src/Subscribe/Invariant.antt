-- ===== src/Subscribe/Invariant.antt =====
-- What holds of a subscribe run between any two steps (subscribe.go).
use mqtt_load_generator.Base.{
  ℕ, ◌+◌, ◌<◌, ◌≡◌, ◌⊎◌, ltb, leb, ◌==◌, ◌&&◌, if◌then◌else◌, Bool, true, false, length, total,
  flag, not,
}
use mqtt_load_generator.Subscribe.{is_zero, SubscribeStats}
use mqtt_load_generator.Subscribe.Run.{
  Stage, adding_bytes, setting_last, setting_first, timing, closing_first, Callback, Runner,
  subscribing, selecting, disconnecting, finishing, returned, SubscribeRun,
}

abbrev pub before_bytes : Stage → Bool
before_bytes adding_bytes = true
before_bytes _ = false

abbrev pub before_first_time : Stage → Bool
before_first_time adding_bytes = true
before_first_time setting_last = true
before_first_time setting_first = true
before_first_time _ = false

abbrev pub before_timing : Stage → Bool
before_timing timing = true
before_timing stage = before_first_time stage

abbrev pub before_first : Stage → Bool
before_first closing_first = true
before_first stage = before_timing stage

-- What a callback that runs has still to do.
abbrev pub bytes_due : Callback → ℕ
bytes_due c = if before_bytes c.stage then length c.payload else 0

abbrev pub time_due : Callback → ℕ
time_due c = flag (before_first_time c.stage && c.number == 1)

abbrev pub timing_due : Callback → ℕ
timing_due c = flag (before_timing c.stage)

abbrev pub first_due : Callback → ℕ
first_due c = flag (before_first c.stage && c.number == 1)

abbrev pub count_due : ℕ → Callback → ℕ
count_due count c = flag (ltb 0 count && c.number == count)

-- 1 for a callback that read no time after 1970: there is none.
abbrev pub unclocked : Callback → ℕ
unclocked c = flag (c.now == 0)

abbrev pub timed : SubscribeStats → ℕ
timed stats = stats.without_timestamp + stats.negative_latency + length stats.latency

-- The runner has passed its select, or its subscribe failed.
abbrev pub has_left : Runner → Bool
has_left subscribing = false
has_left selecting = false
has_left _ = true

abbrev pub is_subscribing : Runner → Bool
is_subscribing subscribing = true
is_subscribing _ = false

abbrev pub is_stopped : Runner → Bool
is_stopped disconnecting = true
is_stopped finishing = true
is_stopped returned = true
is_stopped _ = false

abbrev pub is_returned : Runner → Bool
is_returned returned = true
is_returned _ = false

-- After `messages` arrivals of `bytes` bytes in all.
pub record Inv (benchmark : Bool) (count messages bytes : ℕ) (s : SubscribeRun) : Type 0 where
  pub received : s.progress.received ≡ messages
  pub received_bytes : s.progress.received_bytes + total bytes_due s.callbacks ≡ bytes
  pub first_time :
      flag (not (is_zero s.progress.first_message_at)) + total time_due s.callbacks
      ≡ flag (ltb 0 messages)
  pub first : flag s.first_message_arrived + total first_due s.callbacks ≡ flag (ltb 0 messages)
  pub reached :
      flag s.count_reached + total (count_due count) s.callbacks
      ≡ flag (ltb 0 count && leb count messages)
  pub clocked : total unclocked s.callbacks ≡ 0
  pub mode : s.stats.benchmark ≡ benchmark
  pub latencies :
      timed s.stats + (if benchmark then total timing_due s.callbacks else 0)
      ≡ (if benchmark then messages else 0)
  pub safe : s.panicked ≡ false
  pub unsubscribed : is_subscribing s.runner ≡ true → s.progress.subscribed_at ≡ 0
  pub running : is_stopped s.runner ≡ false → s.run_over ≡ false
  pub reason :
      has_left s.runner ≡ true
      → (s.progress.subscribed_at ≡ 0) ⊎ (s.cancelled ≡ true) ⊎ (s.count_reached ≡ true)
  pub done : s.progress.done ≡ is_returned s.runner
  pub ended : is_returned s.runner ≡ true → 0 < s.progress.finished_at
