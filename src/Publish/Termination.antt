-- ===== src/Publish/Termination.antt =====
-- The publish loop of one client neither blocks nor panics nor runs for ever (publish.go).
use mqtt_load_generator.Base.{
  ℕ, suc, ◌+◌, ◌-◌, ◌*◌, ◌^◌, ◌≤◌, ◌<◌, ◌≡◌, ◌⊎◌, inl, inr, refl, ap, Bool, List, [], ◌∷◌, some,
  length, length-append, arith,
}
use native.Mathlib.Decide.{dec_lt}
use mqtt_load_generator.Publish.{PublishOptions, Semaphore}
use mqtt_load_generator.Publish.Client.{
  Sender, acquiring, sending, pacing, returned, waited, disconnected, Outcome, ClientState,
  loop_head, start, take_slot, publish, count_result, free_slot, done, finish_waiting, disconnect,
}
use mqtt_load_generator.Publish.Steps.{
  Step, acquires, publishes, paces, gives_up, stops_pacing, counts, frees, finishes, stops_waiting,
  disconnects, Reach, begin, later, cancel,
}
use mqtt_load_generator.Publish.Invariant.{holds, Inv, Reach-Inv}

-- The steps that the sending goroutine and the goroutines it will start still have to make, at most.
abbrev sender_work : ℕ → Sender → ℕ
sender_work count (acquiring i) = 6 * (count - i) + 3
sender_work count (sending i _) = 6 * (count - i) + 2
sender_work count (pacing i) = 6 * (count - i) - 2
sender_work count returned = 2
sender_work count waited = 1
sender_work count disconnected = 0

module _ (semaphore : Semaphore) (options : PublishOptions) where
  open semaphore use {Sem}

  abbrev work : ClientState Sem → ℕ
  work s = sender_work options.count s.sender + 3 * length s.waiting + 2 * s.counted + s.released

  -- How many steps a run has made, cancellations aside.
  abbrev pub steps :
      {per_client_stats : Bool} {s : ClientState Sem}
      → Reach semaphore options per_client_stats s
      → ℕ
  steps begin = 0
  steps (later r _) = suc (steps r)
  steps (cancel r) = steps r

  Step-work :
      {per_client_stats : Bool} {s t : ClientState Sem}
      → Step semaphore options s t
      → Inv semaphore options per_client_stats s
      → work t < work s
  unfolding take_slot publish count_result free_slot done finish_waiting disconnect loop_head
  Step-work (acquires i now waited_for taken at e) v = ground arith
  Step-work (publishes i started_at at) v = ground arith
  Step-work (paces i at) v = ground arith
  Step-work (gives_up i at c) v = ground arith
  Step-work (stops_pacing i at some_wait c) v = ground arith
  Step-work (counts before after started_at outcome e) v =
      ground
        (arith, ap length e, length-append before (started_at ∷ after), length-append before after)
  Step-work (frees freed h e) v = ground arith
  Step-work (finishes h k) v = ground arith
  Step-work (stops_waiting now at e) v = ground arith
  Step-work (disconnects at) v = ground arith

  Reach-work :
      {per_client_stats : Bool} {s : ClientState Sem}
      → options.count < 2 ^ 63
      → (r : Reach semaphore options per_client_stats s) → steps r + work s ≤ 6 * options.count + 3
  unfolding start
  Reach-work small begin = ground arith
  Reach-work small (later r st) =
      omega (arith, Step-work st (Reach-Inv semaphore options small r), Reach-work small r)
  Reach-work small (cancel r) = Reach-work small r

  abbrev CanStep : ClientState Sem → Type 0
  CanStep s = (t : ClientState Sem) × Step semaphore options s t

  goroutine_step :
      {per_client_stats : Bool} (s : ClientState Sem) (waiting : List ℕ)
      → Inv semaphore options per_client_stats s
      → s.waiting ≡ waiting
      → 0 < s.outstanding
      → CanStep s
  goroutine_step s (started_at ∷ rest) v e h = (_, counts [] rest started_at Outcome.timed_out e)
  goroutine_step s [] v e h = elim (dec_lt 0 s.counted) [
    | yes counted ↦
        let (freed, f) = semaphore.release_held s.inflight (omega (arith, v)) in
        (_, frees freed counted f)
    | no none_counted ↦ (_, finishes (omega (arith, v, ap length e)) h)
  ]

  sender_step :
      {per_client_stats : Bool} (s : ClientState Sem) (sender : Sender)
      → Inv semaphore options per_client_stats s
      → 0 < options.in_flight
      → s.sender ≡ sender
      → (s.sender ≡ disconnected) ⊎ CanStep s
  sender_step s (acquiring i) v some_slot at =
      elim (dec_lt (semaphore.held s.inflight) (semaphore.size s.inflight)) [
        | yes free ↦
            let (taken, e) = semaphore.acquire_free s.inflight free in
            inr (_, acquires i 0 0 taken at e)
        | no full ↦ inr (goroutine_step s s.waiting v refl (omega (arith, v, ap holds at)))
      ]
  sender_step s (sending i started_at) v some_slot at = inr (_, publishes i started_at at)
  sender_step s (pacing i) v some_slot at = inr (_, paces i at)
  sender_step s returned v some_slot at = elim (dec_lt 0 s.outstanding) [
    | yes busy ↦ inr (goroutine_step s s.waiting v refl busy)
    | no idle ↦ inr (_, stops_waiting 0 at (omega arith))
  ]
  sender_step s waited v some_slot at = inr (_, disconnects at)
  sender_step s disconnected v some_slot at = inl at

  -- With at least one slot, no run of one client makes more than 6 * Count + 3 steps, however its
  -- goroutines interleave and whatever answers its publishes get; and as long as the client has not
  -- disconnected, some goroutine can make a step.
  pub publish_terminates :
      {per_client_stats : Bool} {s : ClientState Sem}
      → options.count < 2 ^ 63
      → 0 < options.in_flight
      → (r : Reach semaphore options per_client_stats s)
      → (steps r ≤ 6 * options.count + 3)
        × ((s.sender ≡ disconnected) ⊎ ((t : ClientState Sem) × Step semaphore options s t))
  publish_terminates {per_client_stats} {s} small some_slot r = (
    omega (arith, Reach-work small r),
    sender_step s s.sender (Reach-Inv semaphore options small r) some_slot refl,
  )

  -- A goroutine that has counted its result finds its slot held, so `Release` does not panic, and
  -- one that has freed its slot finds the wait group above zero, so `Done` does not panic.
  pub deferred_calls_safe :
      {per_client_stats : Bool} {s : ClientState Sem}
      → options.count < 2 ^ 63
      → Reach semaphore options per_client_stats s
      → (0 < s.counted → (freed : Sem) × (semaphore.release s.inflight ≡ some freed))
        × (0 < s.released → 0 < s.outstanding)
  deferred_calls_safe {s} small r =
      let v = Reach-Inv semaphore options small r in
      (λ h. semaphore.release_held s.inflight (omega (arith, v)), λ h. omega (arith, v))
