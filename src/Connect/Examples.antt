-- ===== src/Connect/Examples.antt =====
-- Tests of `connectClients`: two clients, of which both connect or the second fails.
use mqtt_load_generator.Base.{
  ◌⊎◌, ℕ, suc, ◌+◌, ◌-◌, ◌≤◌, ◌<◌, ◌≡◌, ltb, if◌then◌else◌, true, false, [], length, total, flag,
  Option, none, some, refl, arith,
}
use mqtt_load_generator.Base.Text.{codes}
use mqtt_load_generator.Connect.{
  ErrGroup, ConnectError, is_some, queued, dialing, installed, Worker, Client, ConnectState,
  loop_test, disconnect_all, go_worker, fail_worker, dial_worker, install_client, count_client,
  finish_connecting,
}
use mqtt_load_generator.Connect.Steps.{
  Step, goes, dials, fails, connects, counts, waits, Reach, begin, later,
}
use mqtt_load_generator.Connect.Invariant.{at, connecting, in_range, is_over}
use mqtt_load_generator.Connect.Safety.{connects_limited, success_connects_all, failure_leaks_none}
use mqtt_load_generator.Connect.Termination.{steps, connect_terminates}

record Count : Type 0 where
  active : ℕ
  most : ℕ
  error : Option ConnectError

abbrev count_go : Count → Option Count
count_go g = if ltb g.active g.most then some (record g { active = suc g.active }) else none

abbrev count_returns : Count → Option ConnectError → Count
count_returns g e = record g {
  active = g.active - 1;
  error = if is_some g.error then g.error else e;
}

active-count_go : (g h : Count) → count_go g ≡ some h → h.active ≡ suc g.active
active-count_go g h e = ground arith

most-count_go : (g h : Count) → count_go g ≡ some h → h.most ≡ g.most
most-count_go g h e = ground arith

error-count_go : (g h : Count) → count_go g ≡ some h → h.error ≡ g.error
error-count_go g h e = ground arith

count_go_fits : (g h : Count) → count_go g ≡ some h → g.active < g.most
count_go_fits g h e = ground arith

count_go_free : (g : Count) → g.active < g.most → (h : Count) × (count_go g ≡ some h)
count_go_free g lt = (record g { active = suc g.active }, ground arith)

abbrev counting : ErrGroup
counting = record {
  Group = Count;
  new_group = λ n. record { active = 0; most = n; error = none };
  go = count_go;
  returns = count_returns;
  running = λ g. g.active;
  limit = λ g. g.most;
  first_error = λ g. g.error;
  running-new_group = λ n. refl;
  limit-new_group = λ n. refl;
  first_error-new_group = λ n. refl;
  running-go = active-count_go;
  limit-go = most-count_go;
  first_error-go = error-count_go;
  go_fits = count_go_fits;
  go_free = count_go_free;
  running-returns = λ g e. refl;
  limit-returns = λ g e. refl;
  first_error-returns = λ g e. refl;
}

abbrev worker : ℕ → Worker
worker n = record { client_number = n; stage = queued }

abbrev alice : Client
alice = record { client_id = codes "alice" }

-- The first client has connected; at most one connect runs at a time.
first_connected : (s : ConnectState Count) × Reach counting 2 1 s
unfolding loop_test go_worker dial_worker install_client count_client
first_connected = (
  _,
  later
      (later (later (later begin (goes 1 _ refl refl)) (dials 10 [] [] (worker 1) refl refl refl)) (
        connects 10 25 alice [] [] (record (worker 1) { stage = dialing 10 }) refl refl
          (omega arith)))
      (counts [] [] (record (worker 1) { stage = installed }) refl refl),
)

both_connected : (s : ConnectState Count) × Reach counting 2 1 s
unfolding first_connected loop_test go_worker dial_worker install_client count_client
    finish_connecting
both_connected = (
  _,
  later
      (later
        (later
          (later (later first_connected.1 (goes 2 _ refl refl))
            (dials 30 [] [] (worker 2) refl refl refl))
          (connects 30 40 alice [] [] (record (worker 2) { stage = dialing 30 }) refl refl
            (omega arith)))
        (counts [] [] (record (worker 2) { stage = installed }) refl refl))
      (waits refl refl),
)

second_failed : (s : ConnectState Count) × Reach counting 2 1 s
unfolding first_connected loop_test go_worker fail_worker dial_worker install_client count_client
    finish_connecting disconnect_all
second_failed = (
  _,
  later
      (later
        (later (later first_connected.1 (goes 2 _ refl refl))
          (dials 30 [] [] (worker 2) refl refl refl))
        (fails 30 [] [] (record (worker 2) { stage = dialing 30 }) refl refl))
      (waits refl refl),
)

connects_limited_test :
    let s = first_connected.0 in
    (length s.workers ≤ 1)
    × ((n : ℕ)
        → (total (connecting n) s.workers + flag (is_some (s.clients n)) ≤ 1)
          × (in_range 2 n ≡ false → total (at n) s.workers + flag (is_some (s.clients n)) ≡ 0))
connects_limited_test = connects_limited counting (omega arith) first_connected.1

success_connects_all_example :
    let s = both_connected.0 in
    (s.clients_connected ≡ 2)
    × ((n : ℕ)
        → 0 < n
        → n ≤ 2
        → (is_some (s.clients n) ≡ true) × (is_some (s.stats n) ≡ true) × (s.disconnects n ≡ 0))
unfolding both_connected
success_connects_all_example = success_connects_all counting (omega arith) both_connected.1 refl

failure_leaks_none_example :
    let s = second_failed.0 in
    (s.workers ≡ [])
    × ((n : ℕ) → s.disconnects n ≡ flag (is_some (s.clients n)))
    × (ConnectError.connect_failed 2 ≡ ConnectError.context_error → s.cancelled ≡ true)
unfolding second_failed
failure_leaks_none_example =
    failure_leaks_none counting (omega arith) second_failed.1 (ConnectError.connect_failed 2) refl

connect_terminates_example :
    (steps counting (omega arith) first_connected.1 ≤ 9)
    × ((is_over first_connected.0.main ≡ true)
        ⊎ ((t : ConnectState Count) × Step counting 2 first_connected.0 t))
connect_terminates_example =
    connect_terminates counting (omega arith) first_connected.1 (omega arith)
