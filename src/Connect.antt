-- ===== src/Connect.antt =====
-- internal/mqttload/connect.go: `connectClients`, cut at what other goroutines can see.
pub mod Steps
pub mod Invariant
mod Preservation
mod Invariance
pub mod Safety
pub mod Termination
mod Examples
use mqtt_load_generator.Base.{
  ℕ, suc, zero, ◌+◌, ◌-◌, ◌≤◌, ◌<◌, ◌≡◌, leb, ◌==◌, if◌then◌else◌, Bool, true, false, ◌&&◌, ◌||◌,
  List, [], ◌∷◌, ◌++◌, Option, none, some,
}
use mqtt_load_generator.Base.Words.{u64}
use mqtt_load_generator.Base.Text.{Bytes}

pub data ConnectError : Type 0 where
  connect_failed : (client_number : ℕ) → ConnectError
  context_error : ConnectError

abbrev pub is_some {ℓ} : {A : Type ℓ} → Option A → Bool
is_some none = false
is_some (some a) = true

-- `errgroup.Group` of golang.org/x/sync with a limit, as its documentation describes it. `go` is a
-- call of `Go` that starts its function: `none` says that it blocks. `returns` is the end of a
-- function with its error: the first error is kept, and cancels the group's context.
pub record ErrGroup : Type 1 where
  pub Group : Type 0
  pub new_group : (limit : ℕ) → Group
  pub go : Group → Option Group
  pub returns : Group → Option ConnectError → Group
  pub running : Group → ℕ
  pub limit : Group → ℕ
  pub first_error : Group → Option ConnectError
  pub running-new_group : (n : ℕ) → running (new_group n) ≡ 0
  pub limit-new_group : (n : ℕ) → limit (new_group n) ≡ n
  pub first_error-new_group : (n : ℕ) → first_error (new_group n) ≡ none
  pub running-go : (g h : Group) → go g ≡ some h → running h ≡ suc (running g)
  pub limit-go : (g h : Group) → go g ≡ some h → limit h ≡ limit g
  pub first_error-go : (g h : Group) → go g ≡ some h → first_error h ≡ first_error g
  pub go_fits : (g h : Group) → go g ≡ some h → running g < limit g
  pub go_free : (g : Group) → running g < limit g → (h : Group) × (go g ≡ some h)
  pub running-returns :
      (g : Group) (e : Option ConnectError) → running (returns g e) ≡ running g - 1
  pub limit-returns : (g : Group) (e : Option ConnectError) → limit (returns g e) ≡ limit g
  pub first_error-returns :
      (g : Group) (e : Option ConnectError)
      → first_error (returns g e) ≡ (if is_some (first_error g) then first_error g else e)

-- Where a function of the group stands.
pub data Stage : Type 0 where
  queued : Stage  -- before the test of the group's context
  dialing : (started_at : ℕ) → Stage  -- in `connect`
  installed : Stage  -- the client is stored, and not yet counted

pub record Worker : Type 0 where
  pub client_number : ℕ
  pub stage : Stage

-- A `Publisher`, by its client ID.
pub record Client : Type 0 where
  pub client_id : Bytes

pub record ConnectStats : Type 0 where
  pub connect_duration : ℕ
  pub client_id : Bytes

-- Where `connectClients` itself stands.
pub data Main : Type 0 where
  starting : (client_number : ℕ) → Main  -- in the loop
  waiting : Main  -- in `group.Wait`
  returned : Option ConnectError → Main

-- `clients` and `stats` are slices: what they hold for each client number. `disconnects` counts the
-- calls of `Disconnect` on the client of each number.
pub record ConnectState (Group : Type 0) : Type 0 where
  pub main : Main
  pub group : Group
  pub workers : List Worker
  pub clients : ℕ → Option Client
  pub stats : ℕ → Option ConnectStats
  pub clients_connected : ℕ
  pub disconnects : ℕ → ℕ
  pub cancelled : Bool

-- The test of the loop.
unfoldable pub loop_test : ℕ → ℕ → Main
loop_test client_count client_number =
    if leb client_number client_count then starting client_number else waiting

abbrev pub set_at {ℓ} : {A : Type ℓ} → (ℕ → A) → ℕ → A → ℕ → A
set_at slots number a n = if n == number then a else slots n

-- `disconnectAll` on the clients numbered 1 to `client_count`.
unfoldable pub disconnect_all : ℕ → (ℕ → Option Client) → (ℕ → ℕ) → ℕ → ℕ
disconnect_all zero clients disconnects = disconnects
disconnect_all (suc k) clients disconnects = λ n.
    let earlier = disconnect_all k clients disconnects n in
    if n == suc k && is_some (clients (suc k)) then suc earlier else earlier

-- What `connectClients` returns once the group has finished.
abbrev pub wait_result : Option ConnectError → Bool → Option ConnectError
wait_result (some e) cancelled = some e
wait_result none cancelled = if cancelled then some ConnectError.context_error else none

module _ (errgroup : ErrGroup) (client_count : ℕ) where
  abbrev pub start : ℕ → ConnectState errgroup.Group
  start connect_concurrency = record {
    main = loop_test client_count 1;
    group = errgroup.new_group connect_concurrency;
    workers = [];
    clients = λ n. none;
    stats = λ n. none;
    clients_connected = 0;
    disconnects = λ n. 0;
    cancelled = false;
  }

  -- `groupCtx.Err()` is not nil.
  abbrev pub group_cancelled : ConnectState errgroup.Group → Bool
  group_cancelled s = s.cancelled || is_some (errgroup.first_error s.group)

  -- `group.Go` has started a function in `group`.
  unfoldable pub go_worker :
      ℕ → errgroup.Group → ConnectState errgroup.Group → ConnectState errgroup.Group
  unfolding loop_test
  go_worker client_number group s = record s {
    main = loop_test client_count (client_number + 1);
    group = group;
    workers = record { client_number = client_number; stage = queued } ∷ s.workers;
  }

  -- A function returns with an error.
  unfoldable pub fail_worker :
      ConnectError
      → List Worker
      → List Worker
      → ConnectState errgroup.Group
      → ConnectState errgroup.Group
  fail_worker error before after s = record s {
    group = errgroup.returns s.group (some error);
    workers = before ++ ([] ++ after);
  }

  unfoldable pub dial_worker :
      ℕ
      → List Worker
      → Worker
      → List Worker
      → ConnectState errgroup.Group
      → ConnectState errgroup.Group
  dial_worker now before worker after s = record s {
    workers = before ++ (record worker { stage = dialing now } ∷ [] ++ after);
  }

  -- `connect` returned a client: its statistics and the client are stored.
  unfoldable pub install_client :
      ℕ
      → ℕ
      → Client
      → List Worker
      → Worker
      → List Worker
      → ConnectState errgroup.Group
      → ConnectState errgroup.Group
  install_client started_at now client before worker after s = record s {
    stats =
        set_at s.stats worker.client_number
          (some (record { connect_duration = now - started_at; client_id = client.client_id }));
    clients = set_at s.clients worker.client_number (some client);
    workers = before ++ (record worker { stage = installed } ∷ [] ++ after);
  }

  -- `clientConnected`, and the function returns nil.
  unfoldable pub count_client :
      List Worker → List Worker → ConnectState errgroup.Group → ConnectState errgroup.Group
  count_client before after s = record s {
    clients_connected = u64 (s.clients_connected + 1);
    group = errgroup.returns s.group none;
    workers = before ++ ([] ++ after);
  }

  -- `group.Wait` has returned.
  unfoldable pub finish_connecting : ConnectState errgroup.Group → ConnectState errgroup.Group
  finish_connecting s =
      let result = wait_result (errgroup.first_error s.group) s.cancelled in
      record s {
        main = returned result;
        disconnects =
            if is_some result
            then disconnect_all client_count s.clients s.disconnects
            else s.disconnects;
      }
