-- ===== src/Subscribe/Run.antt =====
-- `RunSubscribe` of subscribe.go: the subscribe callback and the goroutine that waits, cut at each
-- update that another goroutine can see.
use mqtt_load_generator.Base.{
  ℕ, ltb, ◌==◌, ◌&&◌, if◌then◌else◌, Bool, true, false, List, [], ◌∷◌, ◌++◌, Option, none, some,
  length,
}
use mqtt_load_generator.Base.Text.{Bytes}
use mqtt_load_generator.Subscribe.{
  SubscribeProgress, SubscribeStats, new_subscribe_progress, new_subscribe_stats, add_received,
  add_received_bytes, set_last_message_at, set_first_message_at, record_subscribed, record_stopped,
  finish_time, record_latency,
}

-- The next update of a callback that has its number.
pub data Stage : Type 0 where
  adding_bytes setting_last setting_first timing closing_first closing_count : Stage

-- A call of the callback on a message, with its number and the time it read.
pub record Callback : Type 0 where
  pub number : ℕ
  pub now : ℕ
  pub payload : Bytes
  pub stage : Stage

-- Where `RunSubscribe` itself stands.
pub data Runner : Type 0 where
  subscribing : Runner  -- in `subscribeAndWait`
  selecting : Runner  -- in the last `select`
  stopping : Runner  -- before `recordStopped`
  disconnecting : Runner  -- before the deferred `Disconnect`
  finishing : Runner  -- before the deferred `finish`
  returned : Runner

-- A channel that is only ever closed is a flag; `panicked` says that a closed channel was closed.
pub record SubscribeRun : Type 0 where
  pub runner : Runner
  pub progress : SubscribeProgress
  pub stats : SubscribeStats
  pub callbacks : List Callback
  pub first_message_arrived : Bool
  pub count_reached : Bool
  pub run_over : Bool
  pub panicked : Bool
  pub cancelled : Bool

abbrev pub start : Bool → SubscribeRun
start benchmark = record {
  runner = subscribing;
  progress = new_subscribe_progress;
  stats = new_subscribe_stats benchmark;
  callbacks = [];
  first_message_arrived = false;
  count_reached = false;
  run_over = false;
  panicked = false;
  cancelled = false;
}

unfoldable pub close_first : SubscribeRun → SubscribeRun
close_first run =
    if run.first_message_arrived
    then record run { panicked = true }
    else record run { first_message_arrived = true }

unfoldable pub close_count : SubscribeRun → SubscribeRun
close_count run =
    if run.count_reached
    then record run { panicked = true }
    else record run { count_reached = true }

unfoldable pub close_run_over : SubscribeRun → SubscribeRun
close_run_over run =
    if run.run_over then record run { panicked = true } else record run { run_over = true }

unfoldable pub close_done : SubscribeRun → SubscribeRun
close_done run =
    if progress.done
    then record run { panicked = true }
    else record run { progress = record progress { done = true } }
  where
    progress : SubscribeProgress
    progress = run.progress

-- A message arrives: the callback reads the clock and takes the next number.
unfoldable pub arrive : ℕ → Bytes → SubscribeRun → SubscribeRun
unfolding add_received
arrive now payload run =
    let (progress, number) = add_received run.progress in
    let callback : Callback = record {
      number = number;
      now = now;
      payload = payload;
      stage = adding_bytes;
    } in
    record run { progress = progress; callbacks = callback ∷ run.callbacks }

-- The update that a callback makes at its stage; `count` is --count.
unfoldable pub effect : ℕ → Stage → Callback → SubscribeRun → SubscribeRun
unfolding add_received_bytes set_last_message_at set_first_message_at record_latency close_first
    close_count
effect count adding_bytes callback run = record run {
  progress = add_received_bytes (length callback.payload) run.progress;
}
effect count setting_last callback run = record run {
  progress = set_last_message_at callback.now run.progress;
}
effect count setting_first callback run = record run {
  progress = set_first_message_at callback.number callback.now run.progress;
}
effect count timing callback run =
    if run.stats.benchmark
    then record run {
      stats = record_latency run.stats callback.number callback.now callback.payload;
    }
    else run
effect count closing_first callback run = if callback.number == 1 then close_first run else run
effect count closing_count callback run =
    if ltb 0 count && callback.number == count then close_count run else run

-- The stage after that, where the callback has not returned.
abbrev pub next_stage : Stage → Option Stage
next_stage adding_bytes = some setting_last
next_stage setting_last = some setting_first
next_stage setting_first = some timing
next_stage timing = some closing_first
next_stage closing_first = some closing_count
next_stage closing_count = none

abbrev pub at_stage : Callback → Option Stage → List Callback
at_stage callback none = []
at_stage callback (some stage) = record callback { stage = stage } ∷ []

-- One update of the callback between `before` and `after`.
unfoldable pub advance : ℕ → List Callback → Callback → List Callback → SubscribeRun → SubscribeRun
unfolding effect
advance count before callback after run = record (effect count callback.stage callback run) {
  callbacks = before ++ (at_stage callback (next_stage callback.stage) ++ after);
}

-- The broker acknowledged the subscribe request.
unfoldable pub subscribe_acknowledged : ℕ → SubscribeRun → SubscribeRun
unfolding record_subscribed
subscribe_acknowledged now run = record run {
  runner = selecting;
  progress = record_subscribed now run.progress;
}

unfoldable pub stop : ℕ → SubscribeRun → SubscribeRun
unfolding record_stopped close_run_over
stop now run = record (close_run_over run) {
  runner = disconnecting;
  progress = record_stopped now run.progress;
}

-- The deferred `finish`.
unfoldable pub finish : ℕ → SubscribeRun → SubscribeRun
unfolding finish_time close_done
finish now run = record (close_done (record run { progress = finish_time now run.progress })) {
  runner = returned;
}
