-- ===== src/Connect/Termination.antt =====
-- `connectClients` comes to an end (internal/mqttload/connect.go).
use mqtt_load_generator.Base.{
  ◌⊎◌, inl, inr, ℕ, suc, ◌+◌, ◌-◌, ◌*◌, ◌≤◌, ◌<◌, ◌^◌, ◌≡◌, true, List, [], ◌∷◌, length, total,
  weigh, refl, ap, arith, Bool-cases,
}
use mqtt_load_generator.Connect.{
  ErrGroup, Stage, queued, dialing, installed, Worker, Main, starting, waiting, returned,
  ConnectState, loop_test, group_cancelled, go_worker, fail_worker, dial_worker, install_client,
  count_client, finish_connecting,
}
use mqtt_load_generator.Connect.Steps.{
  Step, goes, skips, dials, fails, connects, counts, waits, Reach, begin, later, cancel,
}
use mqtt_load_generator.Connect.Invariant.{is_over, Inv}
use mqtt_load_generator.Connect.Invariance.{Reach-Inv}

-- How many steps a worker has left.
abbrev worker_left : Worker → ℕ
worker_left w = elim (w.stage) [ queued ↦ 3 | dialing at ↦ 2 | installed ↦ 1 ]

abbrev main_left : ℕ → Main → ℕ
main_left client_count (starting k) = 4 * (client_count + 1 - k) + 1
main_left client_count waiting = 1
main_left client_count (returned e) = 0

Stage-cases : (t : Stage) → (t ≡ queued) ⊎ ((at : ℕ) × (t ≡ dialing at)) ⊎ (t ≡ installed)
Stage-cases queued = inl refl
Stage-cases (dialing at) = inr (inl (at, refl))
Stage-cases installed = inr (inr refl)

abbrev state_left : {Group : Type 0} → ℕ → ConnectState Group → ℕ
state_left client_count s = main_left client_count s.main + total worker_left s.workers

-- Some goroutine can go on while one has its function to run.
worker_steps :
    (errgroup : ErrGroup) (client_count : ℕ) (s : ConnectState errgroup.Group) (w : Worker)
    (after : List Worker)
    → s.workers ≡ w ∷ after
    → (t : ConnectState errgroup.Group) × Step errgroup client_count s t
worker_steps errgroup client_count s w after e = elim (Stage-cases w.stage) [
  | inl q ↦ elim (Bool-cases (group_cancelled errgroup client_count s)) [
    | inl c ↦ (_, skips [] after w e q c)
    | inr c ↦ (_, dials 0 [] after w e q c)
  ]
  | inr (inl (at, q)) ↦ (_, fails at [] after w e q)
  | inr (inr q) ↦ (_, counts [] after w e q)
]

module _ (errgroup : ErrGroup) {client_count connect_concurrency : ℕ}
    (countable : client_count < 2 ^ 63) where
  -- The steps of a run; Ctrl-C is not one.
  abbrev pub steps :
      {s : ConnectState errgroup.Group} → Reach errgroup client_count connect_concurrency s → ℕ
  steps begin = 0
  steps (later r step) = suc (steps r)
  steps (cancel r) = steps r

  Step-left :
      {s t : ConnectState errgroup.Group}
      → Reach errgroup client_count connect_concurrency s
      → Step errgroup client_count s t
      → state_left client_count t < state_left client_count s
  unfolding go_worker fail_worker dial_worker install_client count_client finish_connecting
      loop_test
  Step-left {s} r (goes n group m g) =
      let k = (Reach-Inv errgroup client_count connect_concurrency countable r).loop n m in
      ground (arith, m, k)
  Step-left {s} r (skips before after w e q c) =
      let u = weigh worker_left s.workers before w [] after e in ground (arith, u, q)
  Step-left {s} r (dials now before after w e q c) =
      let moved : Worker = record w { stage = dialing now } in
      let u = weigh worker_left s.workers before w (moved ∷ []) after e in ground (arith, u, q)
  Step-left {s} r (fails at before after w e q) =
      let u = weigh worker_left s.workers before w [] after e in ground (arith, u, q)
  Step-left {s} r (connects at now client before after w e q _) =
      let moved : Worker = record w { stage = installed } in
      let u = weigh worker_left s.workers before w (moved ∷ []) after e in ground (arith, u, q)
  Step-left {s} r (counts before after w e q) =
      let u = weigh worker_left s.workers before w [] after e in ground (arith, u, q)
  Step-left {s} r (waits m idle) = ground (arith, m)

  steps_left :
      {s : ConnectState errgroup.Group} (r : Reach errgroup client_count connect_concurrency s)
      → steps r + state_left client_count s ≤ 4 * client_count + 1
  unfolding loop_test
  steps_left begin = ground arith
  steps_left (later r step) = omega (arith, steps_left r, Step-left r step)
  steps_left (cancel r) = steps_left r

  goes_on :
      (s : ConnectState errgroup.Group) (workers : List Worker)
      → 0 < connect_concurrency
      → Inv errgroup client_count connect_concurrency s
      → s.workers ≡ workers
      → (main : Main) → s.main ≡ main
      → (is_over s.main ≡ true)
        ⊎ ((t : ConnectState errgroup.Group) × Step errgroup client_count s t)
  goes_on s (w ∷ after) some_limit v e main m = inr (worker_steps errgroup client_count s w after e)
  goes_on s [] some_limit v e (starting k) m =
      let idle = ap length e in
      let (group, g) = errgroup.go_free s.group (omega (arith, v.running, v.limit, idle)) in
      inr (_, goes k group m g)
  goes_on s [] some_limit v e waiting m =
      let idle = ap length e in inr (_, waits m (omega (arith, v.running, idle)))
  goes_on s [] some_limit v e (returned error) m = inl (rw (m) refl)

  -- A run of `connectClients` has at most four steps for each client and one more, and it only stops
  -- when `connectClients` has returned: in every other state some goroutine can go on, provided
  -- --connect-concurrency is positive and each connect returns.
  pub connect_terminates :
      {s : ConnectState errgroup.Group} (r : Reach errgroup client_count connect_concurrency s)
      → 0 < connect_concurrency
      → (steps r ≤ 4 * client_count + 1)
        × ((is_over s.main ≡ true)
            ⊎ ((t : ConnectState errgroup.Group) × Step errgroup client_count s t))
  connect_terminates {s} r some_limit =
      let v = Reach-Inv errgroup client_count connect_concurrency countable r in
      (omega (arith, steps_left r), goes_on s s.workers some_limit v refl s.main refl)
