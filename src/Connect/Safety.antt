-- ===== src/Connect/Safety.antt =====
-- What `connectClients` promises, in every order of its goroutines (internal/mqttload/connect.go).
use mqtt_load_generator.Base.{
  ℕ, zero, suc, ◌+◌, ◌≤◌, ◌<◌, ◌^◌, ◌≡◌, true, false, [], length, total, flag, Option, none, some,
  refl, arith,
}
use mqtt_load_generator.Connect.{ErrGroup, ConnectError, is_some, Client, returned, ConnectState}
use mqtt_load_generator.Connect.Steps.{Reach}
use mqtt_load_generator.Connect.Invariant.{at, connecting, in_range, stored}
use mqtt_load_generator.Connect.Invariance.{Reach-Inv}

stored_all :
    (k : ℕ) (clients : ℕ → Option Client)
    → ((n : ℕ) → 0 < n → n ≤ k → is_some (clients n) ≡ true)
    → stored k clients ≡ k
unfolding stored
stored_all zero clients all = refl
stored_all (suc k) clients all =
    let here = all (suc k) (omega arith) (omega arith) in
    let rest = stored_all k clients (λ n low high. all n low (omega arith)) in
    ground (arith, here, rest)

module _ (errgroup : ErrGroup) {client_count connect_concurrency : ℕ}
    (countable : client_count < 2 ^ 63) {s : ConnectState errgroup.Group}
    (r : Reach errgroup client_count connect_concurrency s) where
  -- At most --connect-concurrency connects run at once, and no client number is used twice: each has
  -- at most one connect running or one client stored, and only the numbers from 1 to --clients have
  -- any.
  pub connects_limited :
      (length s.workers ≤ connect_concurrency)
      × ((n : ℕ)
          → (total (connecting n) s.workers + flag (is_some (s.clients n)) ≤ 1)
            × (in_range client_count n ≡ false
                → total (at n) s.workers + flag (is_some (s.clients n)) ≡ 0))
  connects_limited =
      let v = Reach-Inv errgroup client_count connect_concurrency countable r in
      (v.few, λ n. let a = v.at_each n in (omega (arith, a.once), a.outside))

  -- When `connectClients` returns without an error, every client from 1 to --clients is connected
  -- and stored with its statistics, none of them has been disconnected, and `clientsConnected` is
  -- --clients.
  pub success_connects_all :
      s.main ≡ returned none
      → (s.clients_connected ≡ client_count)
        × ((n : ℕ)
            → 0 < n
            → n ≤ client_count
            → (is_some (s.clients n) ≡ true) × (is_some (s.stats n) ≡ true) × (s.disconnects n ≡ 0))
  success_connects_all m =
      let v = Reach-Inv errgroup client_count connect_concurrency countable r in
      let over = v.over in
      let success = v.success in
      let idle : length s.workers ≡ 0 = ground arith in
      let no_error : errgroup.first_error s.group ≡ none = ground arith in
      let no_workers : s.workers ≡ [] = ground arith in
      let each : (n : ℕ) → 0 < n → n ≤ client_count → is_some (s.clients n) ≡ true =
        λ n low high. let a = v.at_each n in ground (arith, a) in
      (
        ground (arith, v.counted, stored_all client_count s.clients each),
        λ n low high. let a = v.at_each n in let e = each n low high in ground (arith, a, e),
      )

  -- When `connectClients` returns an error no connect is running any more, and every client that did
  -- connect has been disconnected exactly once; and the error is the context's only if the context
  -- was cancelled.
  pub failure_leaks_none :
      (error : ConnectError)
      → s.main ≡ returned (some error)
      → (s.workers ≡ [])
        × ((n : ℕ) → s.disconnects n ≡ flag (is_some (s.clients n)))
        × (error ≡ ConnectError.context_error → s.cancelled ≡ true)
  failure_leaks_none error m =
      let v = Reach-Inv errgroup client_count connect_concurrency countable r in
      let over = v.over in
      let ctx = v.context_returned in
      let idle : length s.workers ≡ 0 = ground arith in
      (ground arith, λ n. let a = v.at_each n in ground (arith, a), λ e. ground (arith, ctx))
