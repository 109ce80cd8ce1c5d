-- ===== src/Connect/Invariant.antt =====
-- What holds of `connectClients` between any two steps (internal/mqttload/connect.go).
use mqtt_load_generator.Base.{
  ℕ, zero, suc, ◌+◌, ◌≤◌, ◌<◌, ◌≡◌, ltb, leb, ◌==◌, ◌&&◌, if◌then◌else◌, Bool, true, false, not,
  length, total, flag, Option, none, some,
}
use mqtt_load_generator.Connect.{
  ErrGroup, ConnectError, is_some, Stage, installed, Worker, Client, Main, starting, returned,
  ConnectState,
}

abbrev pub is_installed : Stage → Bool
is_installed installed = true
is_installed _ = false

abbrev pub at : ℕ → Worker → ℕ
at n w = flag (w.client_number == n)

-- Client `n` is being connected, and is not stored yet.
abbrev pub connecting : ℕ → Worker → ℕ
connecting n w = flag (w.client_number == n && not (is_installed w.stage))

-- Stored, and not counted yet.
abbrev pub to_count : Worker → ℕ
to_count w = flag (is_installed w.stage)

-- The loop has still to start client `n`.
abbrev pub pending : Main → ℕ → Bool
pending (starting k) n = leb k n
pending _ n = false

abbrev pub in_range : ℕ → ℕ → Bool
in_range client_count n = ltb 0 n && leb n client_count

-- How many of the clients 1 to `n` are stored.
unfoldable pub stored : ℕ → (ℕ → Option Client) → ℕ
stored zero clients = 0
stored (suc n) clients = flag (is_some (clients (suc n))) + stored n clients

abbrev pub is_over : Main → Bool
is_over (returned _) = true
is_over _ = false

abbrev pub has_failed : Main → Bool
has_failed (returned (some e)) = true
has_failed _ = false

abbrev pub has_succeeded : Main → Bool
has_succeeded (returned none) = true
has_succeeded _ = false

abbrev pub is_starting : Main → Bool
is_starting (starting k) = true
is_starting _ = false

abbrev pub is_context_error : Option ConnectError → Bool
is_context_error (some ConnectError.context_error) = true
is_context_error _ = false

-- The error that `connectClients` returned, if any.
abbrev pub returned_error : Main → Option ConnectError
returned_error (returned e) = e
returned_error _ = none

module _ (errgroup : ErrGroup) (client_count connect_concurrency : ℕ) where
  -- Of client number `n`.
  pub record At (s : ConnectState errgroup.Group) (n : ℕ) : Type 0 where
    pub once :
        flag (pending s.main n && leb n client_count)
          + total (connecting n) s.workers
          + flag (is_some (s.clients n))
        ≤ 1
    pub all :
        errgroup.first_error s.group ≡ none
        → in_range client_count n ≡ true
        → flag (pending s.main n && leb n client_count)
            + total (connecting n) s.workers
            + flag (is_some (s.clients n))
          ≡ 1
    pub outside :
        in_range client_count n ≡ false → total (at n) s.workers + flag (is_some (s.clients n)) ≡ 0
    pub with_stats : is_some (s.stats n) ≡ is_some (s.clients n)
    pub disconnected :
        s.disconnects n
        ≡ (if has_failed s.main && in_range client_count n then flag (is_some (s.clients n)) else 0)

  pub record Inv (s : ConnectState errgroup.Group) : Type 0 where
    pub running : errgroup.running s.group ≡ length s.workers
    pub limit : errgroup.limit s.group ≡ connect_concurrency
    pub few : length s.workers ≤ connect_concurrency
    pub loop : (k : ℕ) → s.main ≡ starting k → (0 < k) × (k ≤ client_count)
    pub counted : s.clients_connected + total to_count s.workers ≡ stored client_count s.clients
    pub over : is_over s.main ≡ true → length s.workers ≡ 0
    pub success : has_succeeded s.main ≡ true → errgroup.first_error s.group ≡ none
    pub context : is_context_error (errgroup.first_error s.group) ≡ true → s.cancelled ≡ true
    pub context_returned : is_context_error (returned_error s.main) ≡ true → s.cancelled ≡ true
    pub at_each : (n : ℕ) → At s n
