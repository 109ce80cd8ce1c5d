-- ===== src/Publish/Safety.antt =====
-- What the publish loop of one client promises, in every order of its goroutines (publish.go).
use mqtt_load_generator.Base.{◌+◌, ◌^◌, ◌≤◌, ◌<◌, ◌≡◌, refl, Bool, false, length, arith}
use mqtt_load_generator.Publish.{PublishOptions, Semaphore}
use mqtt_load_generator.Publish.Client.{disconnected, ClientState}
use mqtt_load_generator.Publish.Steps.{Reach}
use mqtt_load_generator.Publish.Invariant.{timed, PerClient, Reach-Inv}

module _ (semaphore : Semaphore) (options : PublishOptions) (small : options.count < 2 ^ 63) where
  open semaphore use {Sem}

  -- At any moment at most `InFlight` publishes of a client are unanswered and uncounted, and no
  -- more than `Count` have been sent.
  pub in_flight_bounded :
      {per_client_stats : Bool} {s : ClientState Sem}
      → Reach semaphore options per_client_stats s
      → (length s.waiting ≤ options.in_flight) × (s.counters.published ≤ options.count)
  in_flight_bounded r = let v = Reach-Inv semaphore options small r in omega (arith, v)

  -- When a client disconnects, each of its publishes has been counted exactly once, as acked, failed
  -- or timed out, and no goroutine of it is left. The shared latency counters, and the client's own
  -- where it has them, got one value for each ack at QoS 1 and 2, and none at QoS 0.
  pub disconnect_accounts :
      {per_client_stats : Bool} {s : ClientState Sem}
      → Reach semaphore options per_client_stats s
      → s.sender ≡ disconnected
      → (s.counters.published ≡ s.counters.acked + s.counters.failed + s.counters.timed_out)
        × (length s.waiting + s.counted + s.released ≡ 0)
        × (length s.shared_latency ≡ timed options.qos s.counters.acked)
        × PerClient options.qos s.counters.acked per_client_stats s.per_client_latency
  disconnect_accounts {per_client_stats} {s} r at =
      let v = Reach-Inv semaphore options small r in
      let idle : s.outstanding ≡ 0 = v.over (rw at refl) in
      (omega (arith, v), omega (arith, v), v.latencies, v.per_client)

  -- A client that was not cancelled has sent all `Count` messages when it disconnects.
  pub disconnect_sent_all :
      {per_client_stats : Bool} {s : ClientState Sem}
      → Reach semaphore options per_client_stats s
      → s.sender ≡ disconnected
      → s.cancelled ≡ false
      → s.counters.published ≡ options.count
  disconnect_sent_all r at c =
      let v = Reach-Inv semaphore options small r in ground (arith, v.placed)
