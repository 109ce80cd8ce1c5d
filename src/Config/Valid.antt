-- ===== src/Config/Valid.antt =====
-- Which settings internal/cli/config.go accepts.
use mqtt_load_generator.Base.{
  ◌≡◌, ◌≢◌, ◌↔◌, ◌⊎◌, subst, Bool, true, false, ℤ, pos, ◌≤ℤ◌, [], Option, none, some, arith,
}
use mqtt_load_generator.Base.Text.{Bytes, codes, same, same_refl, same_eq, given}
use mqtt_load_generator.Config.LogLevel.{parse_log_level}
use mqtt_load_generator.Config.{
  Connection, PublishSettings, SubscribeSettings, Float64, le_zero, is_none, differ,
  validate_connection, validate_publish, validate_with_connection, validate_subscribe,
}

abbrev pub Between : ℤ → ℤ → ℤ → Type 0
Between low high value = (low ≤ℤ value) × (value ≤ℤ high)

-- TLS is asked for: by --mqtts, or by all three files.
abbrev pub AsksTls : Connection → Type 0
AsksTls c =
    (c.mqtts ≡ true)
    ⊎ (given c.tls.ca ≡ true) × (given c.tls.cert ≡ true) × (given c.tls.key ≡ true)

pub record IsValidConnection (c : Connection) : Type 0 where
  pub qos : Between (pos 0) (pos 2) c.qos
  pub port : Between (pos 1) (pos 65535) c.port
  pub keep_alive_timeout : pos 0 ≤ℤ c.keep_alive_timeout
  pub log_level : parse_log_level c.log_level ≢ none
  pub cert_and_key : given c.tls.cert ≡ given c.tls.key
  -- No TLS flag is given without TLS.
  pub ca : given c.tls.ca ≡ true → AsksTls c
  pub cert : given c.tls.cert ≡ true → AsksTls c
  pub insecure : c.insecure ≡ true → AsksTls c

pub is_none_iff {ℓ} : {A : Type ℓ} (o : Option A) → (is_none o ≡ false) ↔ (o ≢ none)
is_none_iff none = ground arith
is_none_iff (some a) = ground arith

pub differ_iff : (a b : Bool) → (differ a b ≡ false) ↔ (a ≡ b)
differ_iff true b = ground arith
differ_iff false b = ground arith

-- `Connection.Validate` returns no error exactly for connections that keep every rule: QoS, port and
-- keep-alive in range, a log level that slog parses, --cert and --key together or not at all, and
-- none of --ca, --cert, --key and --insecure without TLS.
pub validate_connection_iff :
    (c : Connection) → (validate_connection c ≡ none) ↔ IsValidConnection c
unfolding validate_connection
validate_connection_iff c = (
  λ e. record {
    qos = ground arith;
    port = ground arith;
    keep_alive_timeout = ground arith;
    log_level = ground (arith, is_none_iff (parse_log_level c.log_level));
    cert_and_key = ground (arith, differ_iff (given c.tls.cert) (given c.tls.key));
    ca = ground (arith, differ_iff (given c.tls.cert) (given c.tls.key));
    cert = ground (arith, differ_iff (given c.tls.cert) (given c.tls.key));
    insecure = ground (arith, differ_iff (given c.tls.cert) (given c.tls.key));
  },
  λ v. ground (
    arith,
    v,
    is_none_iff (parse_log_level c.log_level),
    differ_iff (given c.tls.cert) (given c.tls.key),
  ),
)

pub record IsValidPublish (p : PublishSettings) (c : Connection) : Type 0 where
  pub count : pos 1 ≤ℤ p.count
  pub size : pos 0 ≤ℤ p.size
  pub interval : pos 0 ≤ℤ p.interval
  pub schedule :
      (p.schedule ≡ codes "flat") ⊎ (p.schedule ≡ codes "normal") ⊎ (p.schedule ≡ codes "random")
  pub clients : pos 1 ≤ℤ p.clients
  pub in_flight : Between (pos 1) (pos 65535) p.in_flight
  pub ack_timeout : pos 1 ≤ℤ p.ack_timeout
  pub connect_concurrency : pos 1 ≤ℤ p.connect_concurrency
  -- A client ID of one's own only for one client.
  pub client_id : (c.client_id ≡ []) ⊎ (p.clients ≡ pos 1)

pub same_iff : (xs ys : Bytes) → (same xs ys ≡ true) ↔ (xs ≡ ys)
same_iff xs ys = (same_eq xs ys, λ e. subst (λ zs. same xs zs ≡ true) e (same_refl xs))

-- `ValidateWithConnection` returns no error exactly for settings that keep every rule: at least one
-- message, client and concurrent connect, no negative size or interval, a schedule that exists, an
-- in-flight window of 1 to 65535, a positive ack timeout, and --clientID only with one client.
pub validate_with_connection_iff :
    (p : PublishSettings) (c : Connection)
    → (validate_with_connection p c ≡ none) ↔ IsValidPublish p c
unfolding validate_with_connection validate_publish
validate_with_connection_iff p c =
    let flat = same_iff p.schedule (codes "flat") in
    let normal = same_iff p.schedule (codes "normal") in
    let random = same_iff p.schedule (codes "random") in
    let id = same_iff c.client_id [] in
    (
      λ e. record {
        count = ground arith;
        size = ground arith;
        interval = ground arith;
        schedule = ground (arith, flat, normal, random);
        clients = ground arith;
        in_flight = ground arith;
        ack_timeout = ground arith;
        connect_concurrency = ground arith;
        client_id = ground (arith, id);
      },
      λ v. ground (arith, v, flat, normal, random, id),
    )

-- Above 0, or not a number.
abbrev pub PositiveOrNan : Float64 → Type 0
PositiveOrNan Float64.nan = Unit
PositiveOrNan (Float64.infinite negative) = negative ≡ false
PositiveOrNan (Float64.finite mantissa exponent) = pos 1 ≤ℤ mantissa

le_zero_iff : (x : Float64) → (le_zero x ≡ false) ↔ PositiveOrNan x
le_zero_iff Float64.nan = ground arith
le_zero_iff (Float64.infinite negative) = ground arith
le_zero_iff (Float64.finite mantissa exponent) = ground arith

-- `Subscribe.Validate` returns no error exactly when --count is not negative and --reset-after is
-- above 0 or not a number: NaN passes, since no comparison with it holds.
pub validate_subscribe_iff :
    (s : SubscribeSettings)
    → (validate_subscribe s ≡ none) ↔ ((pos 0 ≤ℤ s.count) × PositiveOrNan s.reset_after)
unfolding validate_subscribe
validate_subscribe_iff s = (
  λ e. (ground arith, (le_zero_iff s.reset_after).0 (ground arith)),
  λ v. let p : le_zero s.reset_after ≡ false = (le_zero_iff s.reset_after).1 v.1 in ground arith,
)
