-- ===== src/Connect/Preservation.antt =====
-- Every step of `connectClients` keeps its invariant (internal/mqttload/connect.go).
use mqtt_load_generator.Base.{
  Bool-cases, inl, inr, ==_iff, ℕ, zero, suc, ◌+◌, ◌<◌, ◌^◌, ◌≡◌, ◌==◌, ◌&&◌, if◌then◌else◌, true,
  false, not, List, [], ◌∷◌, ◌++◌, length, length-append, flag, Moved, weigh, Option, none, some,
  refl, ap, arith,
}
use mqtt_load_generator.Connect.{
  ErrGroup, ConnectError, is_some, Worker, Client, starting, ConnectState, loop_test, set_at,
  disconnect_all, start, group_cancelled, go_worker, fail_worker,
}
use mqtt_load_generator.Connect.Invariant.{
  is_installed, at, connecting, to_count, in_range, stored, is_context_error, At, Inv,
}

pub stored-set_at :
    (k m : ℕ) (clients : ℕ → Option Client) (client : Client)
    → stored k (set_at clients m (some client))
      ≡ stored k clients + flag (in_range k m && not (is_some (clients m)))
unfolding stored
stored-set_at zero m clients client = ground arith
stored-set_at (suc k) m clients client = elim (Bool-cases (suc k == m)) [
  | inl e ↦ ground (
    arith,
    stored-set_at k m clients client,
    ap (λ n. is_some (clients n)) ((==_iff (suc k) m).0 e),
  )
  | inr e ↦ ground (arith, stored-set_at k m clients client)
]

pub disconnect_all_at :
    (k n : ℕ) (clients : ℕ → Option Client) (disconnects : ℕ → ℕ)
    → disconnect_all k clients disconnects n
      ≡ disconnects n + (if in_range k n then flag (is_some (clients n)) else 0)
unfolding disconnect_all
disconnect_all_at zero n clients disconnects = ground arith
disconnect_all_at (suc k) n clients disconnects = elim (Bool-cases (n == suc k)) [
  | inl e ↦
      let c = ap (λ m. is_some (clients m)) ((==_iff n (suc k)).0 e) in
      ground (arith, disconnect_all_at k n clients disconnects, c)
  | inr e ↦ ground (arith, disconnect_all_at k n clients disconnects)
]

stored-none : (k : ℕ) → stored k (λ n. none) ≡ 0
unfolding stored
stored-none zero = refl
stored-none (suc k) = omega (arith, stored-none k)

module _ (errgroup : ErrGroup) (client_count connect_concurrency : ℕ)
    (countable : client_count < 2 ^ 63) where
  abbrev pub State : Type 0
  State = ConnectState errgroup.Group

  abbrev pub V : State → Type 0
  V = Inv errgroup client_count connect_concurrency

  abbrev pub A : State → ℕ → Type 0
  A = At errgroup client_count connect_concurrency

  pub start-Inv : V (start errgroup client_count connect_concurrency)
  unfolding loop_test
  start-Inv =
      let r = errgroup.running-new_group connect_concurrency in
      let l = errgroup.limit-new_group connect_concurrency in
      let e = errgroup.first_error-new_group connect_concurrency in
      record {
        running = r;
        limit = l;
        few = omega arith;
        loop = λ k h. ground arith;
        counted = omega (arith, stored-none client_count);
        over = λ h. refl;
        success = λ h. e;
        context = λ h. ground (arith, e);
        context_returned = λ h. ground arith;
        at_each = λ n. ground arith;
      }

  pub goes-Inv :
      (s : State) (n : ℕ) (group : errgroup.Group)
      → s.main ≡ starting n
      → errgroup.go s.group ≡ some group
      → V s
      → V (go_worker errgroup client_count n group s)
  unfolding go_worker
  goes-Inv s n group m g v =
      let r = errgroup.running-go s.group group g in
      let l = errgroup.limit-go s.group group g in
      let e = errgroup.first_error-go s.group group g in
      let f = errgroup.go_fits s.group group g in
      let k = v.loop n m in
      record {
        running = omega (arith, r, v.running);
        limit = omega (arith, l, v.limit);
        few = omega (arith, f, v.running, v.limit);
        loop = λ i h. ground (arith, k);
        counted = omega (arith, v.counted);
        over = λ h. ground arith;
        success = λ h. ground arith;
        context = λ h. v.context (ground (arith, e));
        context_returned = λ h. ground arith;
        at_each = λ i. let a = v.at_each i in ground (arith, m, e, k, a);
      }

  -- The weights of the invariant when `moved` takes the place of a worker.
  pub record Replaced (s : State) (before : List Worker) (worker : Worker)
      (moved after : List Worker) : Type 0 where
    pub size : length s.workers ≡ length (before ++ (worker ∷ after))
    pub size_before : length (before ++ (worker ∷ after)) ≡ suc (length before + length after)
    pub size_after :
        length (before ++ (moved ++ after)) ≡ length before + length moved + length after
    pub uncounted : Moved to_count s.workers before worker moved after
    pub each_at : (n : ℕ) → Moved (at n) s.workers before worker moved after
    pub each_connecting : (n : ℕ) → Moved (connecting n) s.workers before worker moved after

  pub replaced :
      (s : State) (before : List Worker) (worker : Worker) (moved after : List Worker)
      → s.workers ≡ before ++ (worker ∷ after)
      → Replaced s before worker moved after
  replaced s before worker moved after e = record {
    size = ap length e;
    size_before = omega (arith, length-append before (worker ∷ after));
    size_after = omega (arith, length-append before (moved ++ after), length-append moved after);
    uncounted = weigh to_count s.workers before worker moved after e;
    each_at = λ n. weigh (at n) s.workers before worker moved after e;
    each_connecting = λ n. weigh (connecting n) s.workers before worker moved after e;
  }

  pub fail-Inv :
      (s : State) (error : ConnectError) (before after : List Worker) (worker : Worker)
      → s.workers ≡ before ++ (worker ∷ after)
      → is_installed worker.stage ≡ false
      → (is_context_error (some error) ≡ true → group_cancelled errgroup client_count s ≡ true)
      → V s
      → V (fail_worker errgroup client_count error before after s)
  unfolding fail_worker
  fail-Inv s error before after worker e stage why v =
      let q = replaced s before worker [] after e in
      let u = q.uncounted in
      let r = errgroup.running-returns s.group (some error) in
      let l = errgroup.limit-returns s.group (some error) in
      let f = errgroup.first_error-returns s.group (some error) in
      let over = v.over in
      let ctx = v.context in
      record {
        running = omega (arith, r, v.running, q.size, q.size_before, q.size_after);
        limit = omega (arith, l, v.limit);
        few = omega (arith, v.few, q.size, q.size_before, q.size_after);
        loop = v.loop;
        counted = ground (arith, v.counted, u, stage);
        over = λ h. omega (arith, over h, q.size, q.size_before, q.size_after);
        success = λ h. absurd (ground (arith, h, over, q.size, q.size_before));
        context = λ h. ground (arith, f, why, ctx);
        context_returned = v.context_returned;
        at_each = λ i.
            let a = v.at_each i in
            let x = q.each_at i in let y = q.each_connecting i in ground (arith, f, a, x, y, stage);
      }
