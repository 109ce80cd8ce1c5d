-- ===== src/Publish/Invariant.antt =====
-- What holds of one client of publish.go between any two steps.
use mqtt_load_generator.Base.{
  ℕ, ◌+◌, ◌^◌, ◌≤◌, ◌<◌, ◌≡◌, ◌⊎◌, ap, ltb, if◌then◌else◌, Bool, true, false, ℤ, List, ◌∷◌, Option,
  none, some, length, length-append, arith,
}
use mqtt_load_generator.Publish.{PublishOptions, Semaphore}
use mqtt_load_generator.Publish.Client.{
  Sender, acquiring, sending, pacing, waited, disconnected, ClientState, loop_head, start,
  take_slot, publish, count_result, free_slot, done, finish_waiting, disconnect,
}
use mqtt_load_generator.Publish.Steps.{
  Step, acquires, publishes, paces, gives_up, stops_pacing, counts, frees, finishes, stops_waiting,
  disconnects, Reach, begin, later, cancel,
}

-- A slot that the sending goroutine holds by itself.
abbrev pub holds : Sender → ℕ
holds (sending _ _) = 1
holds _ = 0

-- What the sender's place says of the number of publishes so far.
abbrev pub Placed : ℕ → ℕ → Bool → Sender → Type 0
Placed count published cancelled (acquiring i) = (published ≡ i) × (i < count)
Placed count published cancelled (sending i _) = (published ≡ i) × (i < count)
Placed count published cancelled (pacing i) = (published ≡ i + 1) × (i + 1 < count)
Placed count published cancelled _ = (published ≡ count) ⊎ (cancelled ≡ true) × (published ≤ count)

abbrev pub is_over : Sender → Bool
is_over waited = true
is_over disconnected = true
is_over _ = false

-- The number of latencies that `acks` acks leave behind.
abbrev pub timed : ℕ → ℕ → ℕ
timed qos acks = if ltb 0 qos then acks else 0

abbrev pub PerClient : ℕ → ℕ → Bool → Option (List ℤ) → Type 0
PerClient qos acks true none = ⊥
PerClient qos acks true (some recorded) = length recorded ≡ timed qos acks
PerClient qos acks false none = Unit
PerClient qos acks false (some _) = ⊥

module _ (semaphore : Semaphore) (options : PublishOptions) where
  open semaphore use {Sem, held, size}

  pub record Inv (per_client_stats : Bool) (s : ClientState Sem) : Type 0 where
    pub slots : held s.inflight ≡ holds s.sender + length s.waiting + s.counted
    pub limit : size s.inflight ≡ options.in_flight
    pub within : held s.inflight ≤ options.in_flight
    pub group : s.outstanding ≡ length s.waiting + s.counted + s.released
    pub results :
        s.counters.published
        ≡ s.counters.acked + s.counters.failed + s.counters.timed_out + length s.waiting
    pub capped : s.counters.published ≤ options.count
    pub placed : Placed options.count s.counters.published s.cancelled s.sender
    pub over : is_over s.sender ≡ true → s.outstanding ≡ 0
    pub latencies : length s.shared_latency ≡ timed options.qos s.counters.acked
    pub per_client : PerClient options.qos s.counters.acked per_client_stats s.per_client_latency

  start-Inv :
      (per_client_stats : Bool) → Inv per_client_stats (start semaphore options per_client_stats)
  unfolding start
  start-Inv per_client_stats = ground (
    arith,
    semaphore.held-new_weighted options.in_flight,
    semaphore.size-new_weighted options.in_flight,
  )

  pub Step-Inv :
      {per_client_stats : Bool} {s t : ClientState Sem}
      → options.count < 2 ^ 63
      → Step semaphore options s t
      → Inv per_client_stats s
      → Inv per_client_stats t
  unfolding take_slot publish count_result free_slot done finish_waiting disconnect loop_head
  Step-Inv {s} small (acquires i now waited_for taken at e) v = ground (
    arith,
    semaphore.held-acquire s.inflight taken e,
    semaphore.size-acquire s.inflight taken e,
    semaphore.acquire_fits s.inflight taken e,
  )
  Step-Inv small (publishes i started_at at) v = ground arith
  Step-Inv small (paces i at) v = ground arith
  Step-Inv small (gives_up i at c) v = ground arith
  Step-Inv small (stops_pacing i at some_wait c) v = ground arith
  Step-Inv small (counts before after started_at outcome e) v =
      ground
        (arith, ap length e, length-append before (started_at ∷ after), length-append before after)
  Step-Inv {s} small (frees freed h e) v =
      ground (
        arith,
        semaphore.held-release s.inflight freed e,
        semaphore.size-release s.inflight freed e,
      )
  Step-Inv small (finishes h k) v = ground arith
  Step-Inv small (stops_waiting now at e) v = ground arith
  Step-Inv small (disconnects at) v = ground arith

  cancel-Inv :
      {per_client_stats : Bool} {s : ClientState Sem}
      → Inv per_client_stats s
      → Inv per_client_stats (record s { cancelled = true })
  cancel-Inv v = ground arith

  pub Reach-Inv :
      {per_client_stats : Bool} {s : ClientState Sem}
      → options.count < 2 ^ 63
      → Reach semaphore options per_client_stats s
      → Inv per_client_stats s
  Reach-Inv {per_client_stats} small begin = start-Inv per_client_stats
  Reach-Inv small (later r st) = Step-Inv small st (Reach-Inv small r)
  Reach-Inv small (cancel r) = cancel-Inv (Reach-Inv small r)
