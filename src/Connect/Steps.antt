-- ===== src/Connect/Steps.antt =====
-- The goroutines of `connectClients` (internal/mqttload/connect.go), interleaved in any order.
use mqtt_load_generator.Base.{ℕ, ◌≤◌, ◌≡◌, true, false, List, ◌∷◌, ◌++◌, some}
use mqtt_load_generator.Connect.{
  ErrGroup, ConnectError, queued, dialing, installed, Worker, Client, starting, waiting,
  ConnectState, start, group_cancelled, go_worker, fail_worker, dial_worker, install_client,
  count_client, finish_connecting,
}

module _ (errgroup : ErrGroup) (client_count : ℕ) where
  pub data Step (s : ConnectState errgroup.Group) : ConnectState errgroup.Group → Type 0 where
    goes :
        (n : ℕ) (group : errgroup.Group)
        → s.main ≡ starting n
        → errgroup.go s.group ≡ some group
        → Step s (go_worker errgroup client_count n group s)
    skips :
        (before after : List Worker) (worker : Worker)
        → s.workers ≡ before ++ (worker ∷ after)
        → worker.stage ≡ queued
        → group_cancelled errgroup client_count s ≡ true
        → Step s (fail_worker errgroup client_count ConnectError.context_error before after s)
    dials :
        (now : ℕ) (before after : List Worker) (worker : Worker)
        → s.workers ≡ before ++ (worker ∷ after)
        → worker.stage ≡ queued
        → group_cancelled errgroup client_count s ≡ false
        → Step s (dial_worker errgroup client_count now before worker after s)
    fails :
        (started_at : ℕ) (before after : List Worker) (worker : Worker)
        → s.workers ≡ before ++ (worker ∷ after)
        → worker.stage ≡ dialing started_at
        → Step s (
            fail_worker errgroup client_count
              (ConnectError.connect_failed worker.client_number)
              before
              after
              s)
    connects :
        (started_at now : ℕ) (client : Client) (before after : List Worker) (worker : Worker)
        → s.workers ≡ before ++ (worker ∷ after)
        → worker.stage ≡ dialing started_at
        → started_at ≤ now
        → Step s (install_client errgroup client_count started_at now client before worker after s)
    counts :
        (before after : List Worker) (worker : Worker)
        → s.workers ≡ before ++ (worker ∷ after)
        → worker.stage ≡ installed
        → Step s (count_client errgroup client_count before after s)
    waits :
        s.main ≡ waiting
        → errgroup.running s.group ≡ 0
        → Step s (finish_connecting errgroup client_count s)

  pub data Reach (connect_concurrency : ℕ) : ConnectState errgroup.Group → Type 0 where
    begin : Reach connect_concurrency (start errgroup client_count connect_concurrency)
    later :
        {s t : ConnectState errgroup.Group}
        → Reach connect_concurrency s
        → Step s t
        → Reach connect_concurrency t
    cancel :
        {s : ConnectState errgroup.Group}
        → Reach connect_concurrency s
        → Reach connect_concurrency (record s { cancelled = true })
