-- ===== src/Publish/Client.antt =====
-- One client of publish.go: `sendMessages`, `waitForResult` and `runClientPublish`, cut at the
-- calls that other goroutines can come between.
use mqtt_load_generator.Base.{
  ℕ, ◌+◌, ◌-◌, ltb, ◌==◌, if◌then◌else◌, Bool, false, ℤ, List, [], ◌∷◌, ◌++◌, Option, none, some,
}
use mqtt_load_generator.Base.Words.{u64}
use mqtt_load_generator.Publish.{PublishOptions, Semaphore}

-- Where the sending goroutine stands; `i` is the loop variable of `sendMessages`.
pub data Sender : Type 0 where
  acquiring : (i : ℕ) → Sender  -- in `inflight.Acquire`
  sending : (i started_at : ℕ) → Sender  -- a slot is taken, the publish is not counted yet
  pacing : (i : ℕ) → Sender  -- in `pacer.wait`
  returned : Sender  -- `sendMessages` has returned
  waited : Sender  -- `outstandingPublishes.Wait` has returned
  disconnected : Sender

-- What the token of a publish came to.
pub data Outcome : Type 0 where
  timed_out : Outcome  -- `WaitTimeout` returned false
  failed : Outcome  -- `Error` returned an error
  acked : (microseconds : ℤ) → Outcome  -- the time since the publish started

-- `publishCounters`: int64 values that are never negative.
pub record PublishCounters : Type 0 where
  pub published : ℕ
  pub acked : ℕ
  pub failed : ℕ
  pub timed_out : ℕ

-- The goroutines that run `waitForResult` are `waiting` (with the times their publishes started at),
-- have counted their result, or have freed their slot and not yet called `Done`.
-- `outstanding` is the counter of the wait group. A latency counter is the calls of its `record`,
-- newest first.
pub record ClientState (Sem : Type 0) : Type 0 where
  pub sender : Sender
  pub inflight : Sem
  pub outstanding : ℕ
  pub waiting : List ℕ
  pub counted : ℕ
  pub released : ℕ
  pub counters : PublishCounters
  pub inflight_wait : ℕ
  pub shared_latency : List ℤ
  pub per_client_latency : Option (List ℤ)
  pub finished_at : Option ℕ
  pub cancelled : Bool

-- The test of the `for` loop in `sendMessages`.
unfoldable pub loop_head : ℕ → ℕ → Sender
loop_head count i = if ltb i count then acquiring i else returned

-- After a publish: no wait after the last message.
unfoldable pub after_publish : ℕ → ℕ → Sender
after_publish count i = if i == count - 1 then returned else pacing i

abbrev pub no_counts : PublishCounters
no_counts = record { published = 0; acked = 0; failed = 0; timed_out = 0 }

abbrev pub record_per_client : ℤ → Option (List ℤ) → Option (List ℤ)
record_per_client microseconds none = none
record_per_client microseconds (some recorded) = some (microseconds ∷ recorded)

-- A client at the start of `runClientPublish`; the flag asks for per-client stats.
unfoldable pub start : (semaphore : Semaphore) → PublishOptions → Bool → ClientState semaphore.Sem
unfolding loop_head
start semaphore options per_client_stats = record {
  sender = loop_head options.count 0;
  inflight = semaphore.new_weighted options.in_flight;
  outstanding = 0;
  waiting = [];
  counted = 0;
  released = 0;
  counters = no_counts;
  inflight_wait = 0;
  shared_latency = [];
  per_client_latency = if per_client_stats then some [] else none;
  finished_at = none;
  cancelled = false;
}

module _ {Sem : Type 0} where
  -- `Acquire` has returned nil at time `now`, after a wait of `waited_for`.
  unfoldable pub take_slot : ℕ → ℕ → ℕ → Sem → ClientState Sem → ClientState Sem
  take_slot i now waited_for taken s = record s {
    sender = sending i now;
    inflight = taken;
    inflight_wait = s.inflight_wait + waited_for;
  }

  -- `Publish`, `published.Add(1)`, `outstandingPublishes.Add(1)` and the `go` statement.
  unfoldable pub publish : PublishOptions → ℕ → ℕ → ClientState Sem → ClientState Sem
  unfolding after_publish
  publish options i started_at s = record s {
    sender = after_publish options.count i;
    outstanding = s.outstanding + 1;
    waiting = started_at ∷ s.waiting;
    counters = record counters { published = u64 (counters.published + 1) };
  }
    where
      counters : PublishCounters
      counters = s.counters

  -- The `switch` of `waitForResult`, for the goroutine between `before` and `after`.
  unfoldable pub count_result :
      PublishOptions → List ℕ → List ℕ → Outcome → ClientState Sem → ClientState Sem
  count_result options before after timed_out s = record s {
    waiting = before ++ after;
    counted = s.counted + 1;
    counters = record counters { timed_out = u64 (counters.timed_out + 1) };
  }
    where
      counters : PublishCounters
      counters = s.counters
  count_result options before after failed s = record s {
    waiting = before ++ after;
    counted = s.counted + 1;
    counters = record counters { failed = u64 (counters.failed + 1) };
  }
    where
      counters : PublishCounters
      counters = s.counters
  count_result options before after (acked microseconds) s = record s {
    waiting = before ++ after;
    counted = s.counted + 1;
    shared_latency =
        if ltb 0 options.qos then microseconds ∷ s.shared_latency else s.shared_latency;
    per_client_latency =
        if ltb 0 options.qos
        then record_per_client microseconds s.per_client_latency
        else s.per_client_latency;
    counters = record counters { acked = u64 (counters.acked + 1) };
  }
    where
      counters : PublishCounters
      counters = s.counters

  -- The deferred `inflight.Release(1)`, which runs before the deferred `Done`.
  unfoldable pub free_slot : Sem → ClientState Sem → ClientState Sem
  free_slot freed s = record s {
    inflight = freed;
    counted = s.counted - 1;
    released = s.released + 1;
  }

  unfoldable pub done : ClientState Sem → ClientState Sem
  done s = record s { released = s.released - 1; outstanding = s.outstanding - 1 }

  -- `outstandingPublishes.Wait` returns and `finishedAt` is set.
  unfoldable pub finish_waiting : ℕ → ClientState Sem → ClientState Sem
  finish_waiting now s = record s { sender = waited; finished_at = some now }

  unfoldable pub disconnect : ClientState Sem → ClientState Sem
  disconnect s = record s { sender = disconnected }
