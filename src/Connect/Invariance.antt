-- ===== src/Connect/Invariance.antt =====
-- The steps of `connectClients` from a dialed client to the end keep the invariant, and so does
-- every run (internal/mqttload/connect.go).
use mqtt_load_generator.Base.{
  ℕ, zero, suc, ◌≤◌, ◌<◌, ◌^◌, ◌≡◌, true, false, List, [], ◌∷◌, ◌++◌, Option, none, refl, arith,
}
use mqtt_load_generator.Connect.{
  ErrGroup, ConnectError, queued, dialing, installed, Worker, Client, waiting, ConnectState,
  dial_worker, install_client, count_client, finish_connecting,
}
use mqtt_load_generator.Connect.Steps.{
  Step, goes, skips, dials, fails, connects, counts, waits, Reach, begin, later, cancel,
}
use mqtt_load_generator.Connect.Invariant.{is_installed, at, stored, Inv}
use mqtt_load_generator.Connect.Preservation.{
  stored-set_at, disconnect_all_at, start-Inv, goes-Inv, replaced, fail-Inv,
}

stored-le : (k : ℕ) (clients : ℕ → Option Client) → stored k clients ≤ k
unfolding stored
stored-le zero clients = omega arith
stored-le (suc k) clients = ground (arith, stored-le k clients)

module _ (errgroup : ErrGroup) (client_count connect_concurrency : ℕ)
    (countable : client_count < 2 ^ 63) where
  abbrev State : Type 0
  State = ConnectState errgroup.Group

  abbrev Valid : State → Type 0
  Valid = Inv errgroup client_count connect_concurrency

  dial-Inv :
      (now : ℕ) (s : State) (before after : List Worker) (worker : Worker)
      → s.workers ≡ before ++ (worker ∷ after)
      → is_installed worker.stage ≡ false
      → Valid s
      → Valid (dial_worker errgroup client_count now before worker after s)
  unfolding dial_worker
  dial-Inv now s before after worker e stage v =
      let moved : Worker = record worker { stage = dialing now } in
      let q =
        replaced errgroup client_count connect_concurrency countable s before worker (moved ∷ [])
          after e in
      let u = q.uncounted in
      let over = v.over in
      record {
        running = omega (arith, v.running, q.size, q.size_before, q.size_after);
        limit = v.limit;
        few = omega (arith, v.few, q.size, q.size_before, q.size_after);
        loop = v.loop;
        counted = ground (arith, v.counted, u, stage);
        over = λ h. omega (arith, over h, q.size, q.size_before, q.size_after);
        success = v.success;
        context = v.context;
        context_returned = v.context_returned;
        at_each = λ i.
            let a = v.at_each i in
            let x = q.each_at i in let y = q.each_connecting i in ground (arith, a, x, y, stage);
      }

  install-Inv :
      (started_at now : ℕ) (client : Client) (s : State) (before after : List Worker)
      (worker : Worker)
      → s.workers ≡ before ++ (worker ∷ after)
      → is_installed worker.stage ≡ false
      → Valid s
      → Valid (install_client errgroup client_count started_at now client before worker after s)
  unfolding install_client
  install-Inv started_at now client s before after worker e stage v =
      let moved : Worker = record worker { stage = installed } in
      let q =
        replaced errgroup client_count connect_concurrency countable s before worker (moved ∷ [])
          after e in
      let u = q.uncounted in
      let over = v.over in
      let n = worker.client_number in
      let here = v.at_each n in
      let herex = q.each_at n in
      let herey = q.each_connecting n in
      let st = stored-set_at client_count n s.clients client in
      record {
        running = omega (arith, v.running, q.size, q.size_before, q.size_after);
        limit = v.limit;
        few = omega (arith, v.few, q.size, q.size_before, q.size_after);
        loop = v.loop;
        counted = ground (arith, v.counted, u, stage, st, here, herex, herey);
        over = λ h. omega (arith, over h, q.size, q.size_before, q.size_after);
        success = v.success;
        context = v.context;
        context_returned = v.context_returned;
        at_each = λ i.
            let a = v.at_each i in
            let x = q.each_at i in
            let y = q.each_connecting i in
            ground (arith, a, x, y, stage, over, q.size, q.size_before);
      }

  count-Inv :
      (s : State) (before after : List Worker) (worker : Worker)
      → s.workers ≡ before ++ (worker ∷ after)
      → worker.stage ≡ installed
      → Valid s
      → Valid (count_client errgroup client_count before after s)
  unfolding count_client
  count-Inv s before after worker e stage v =
      let q =
        replaced errgroup client_count connect_concurrency countable s before worker [] after e in
      let u = q.uncounted in
      let r = errgroup.running-returns s.group none in
      let l = errgroup.limit-returns s.group none in
      let f = errgroup.first_error-returns s.group none in
      let over = v.over in
      let ctx = v.context in
      let success = v.success in
      let most = stored-le client_count s.clients in
      record {
        running = omega (arith, r, v.running, q.size, q.size_before, q.size_after);
        limit = omega (arith, l, v.limit);
        few = omega (arith, v.few, q.size, q.size_before, q.size_after);
        loop = v.loop;
        counted = ground (arith, v.counted, u, stage, most, countable);
        over = λ h. omega (arith, over h, q.size, q.size_before, q.size_after);
        success = λ h. ground (arith, f, success, h);
        context = λ h. ground (arith, f, ctx, h);
        context_returned = v.context_returned;
        at_each = λ i.
            let a = v.at_each i in
            let x = q.each_at i in let y = q.each_connecting i in ground (arith, f, a, x, y, stage);
      }

  finish-Inv :
      (s : State)
      → s.main ≡ waiting
      → errgroup.running s.group ≡ 0
      → Valid s
      → Valid (finish_connecting errgroup client_count s)
  unfolding finish_connecting
  finish-Inv s m idle v =
      let ctx = v.context in
      record {
        running = v.running;
        limit = v.limit;
        few = v.few;
        loop = λ k h. ground arith;
        counted = v.counted;
        over = λ h. omega (arith, v.running);
        success = λ h. ground arith;
        context = ctx;
        context_returned = λ h. ground (arith, ctx);
        at_each = λ i.
            let a = v.at_each i in
            let d = disconnect_all_at client_count i s.clients s.disconnects in
            ground (arith, a, d, m);
      }

  queued-waits : (worker : Worker) → worker.stage ≡ queued → is_installed worker.stage ≡ false
  queued-waits worker e = ground arith

  dialing-waits :
      (worker : Worker) (at : ℕ) → worker.stage ≡ dialing at → is_installed worker.stage ≡ false
  dialing-waits worker at e = ground arith

  Step-Inv : {s t : State} → Step errgroup client_count s t → Valid s → Valid t
  Step-Inv {s} (goes n group m g) v =
      goes-Inv errgroup client_count connect_concurrency countable s n group m g v
  Step-Inv {s} (skips before after worker e q c) v =
      fail-Inv errgroup client_count connect_concurrency countable s ConnectError.context_error
        before after worker e (queued-waits worker q) (λ h. c) v
  Step-Inv {s} (dials now before after worker e q c) v =
      dial-Inv now s before after worker e (queued-waits worker q) v
  Step-Inv {s} (fails at before after worker e q) v =
      fail-Inv errgroup client_count connect_concurrency countable s
        (ConnectError.connect_failed worker.client_number) before after worker e
        (dialing-waits worker at q) (λ h. ground arith) v
  Step-Inv {s} (connects at now client before after worker e q _) v =
      install-Inv at now client s before after worker e (dialing-waits worker at q) v
  Step-Inv {s} (counts before after worker e q) v = count-Inv s before after worker e q v
  Step-Inv {s} (waits m idle) v = finish-Inv s m idle v

  cancel-Inv : (s : State) → Valid s → Valid (record s { cancelled = true })
  cancel-Inv s v = record {
    running = v.running;
    limit = v.limit;
    few = v.few;
    loop = v.loop;
    counted = v.counted;
    over = v.over;
    success = v.success;
    context = λ h. refl;
    context_returned = λ h. refl;
    at_each = λ i. let a = v.at_each i in ground (arith, a);
  }

  pub Reach-Inv : {s : State} → Reach errgroup client_count connect_concurrency s → Valid s
  Reach-Inv begin = start-Inv errgroup client_count connect_concurrency countable
  Reach-Inv (later r step) = Step-Inv step (Reach-Inv r)
  Reach-Inv (cancel {s} r) = cancel-Inv s (Reach-Inv r)
