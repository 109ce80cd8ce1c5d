-- ===== src/Config/Examples.antt =====
-- Tests of the settings, on settings as the commands' defaults make them.
use mqtt_load_generator.Base.{
  ◌≡◌, ◌⊎◌, inl, inr, ◌↔◌, refl, ◌≤ℤ◌, List, true, false, pos, [], ◌∷◌, Option, none, some, arith,
}
use mqtt_load_generator.Base.Int.{◌+ℤ◌}
use mqtt_load_generator.Base.Text.{Bytes, codes}
use mqtt_load_generator.Broker.{scheme, TlsConfig, Files, TlsError, build_tls_config}
use mqtt_load_generator.Broker.Dial.{ClientOptions, ConnectOutcome, dial}
use mqtt_load_generator.Broker.Dialing.{Agrees, dial_outcomes}
use mqtt_load_generator.Config.{
  Connection, PublishSettings, SubscribeSettings, Float64, validate_connection, validate_publish,
  validate_with_connection, validate_subscribe,
}
use mqtt_load_generator.Config.LogLevel.{parse_log_level}
use mqtt_load_generator.Config.BrokerOptions.{to_broker_options}
use mqtt_load_generator.Config.Environment.{
  Flag, FlagSet, environment_variable_by_flag, apply_environment_fallback, fallback_any_order,
}
use mqtt_load_generator.Config.Valid.{
  IsValidConnection, IsValidPublish, PositiveOrNan, validate_connection_iff,
  validate_with_connection_iff, validate_subscribe_iff,
}
use mqtt_load_generator.Config.Encryption.{Honours, tls_flags_honoured}

abbrev pub local : Connection
local = record {
  host = codes "localhost";
  port = pos 8883;
  username = [];
  password = [];
  topic = codes "/load";
  qos = pos 1;
  clean_session = true;
  client_id = [];
  keep_alive_timeout = pos 5000;
  log_level = codes "info";
  tls = record { ca = codes "ca.pem"; cert = []; key = [] };
  mqtts = true;
  insecure = false;
}

abbrev pub publish_settings : PublishSettings
publish_settings = record {
  count = pos 1000;
  size = pos 100;
  interval = pos 1;
  schedule = codes "normal";
  clients = pos 1;
  suffix = false;
  benchmark = false;
  in_flight = pos 1;
  ack_timeout = pos 30_000_000_000;
  connect_concurrency = pos 16;
  per_client_stats = false;
}

abbrev pub subscribe_settings : SubscribeSettings
subscribe_settings = record {
  disable_bar = false;
  reset_after = Float64.nan;
  ordered = false;
  count = pos 0;
  benchmark = false;
}

abbrev files : Files Bytes Bytes
files = record {
  read_file = λ name. some name;
  certs_from_pem = λ contents. some contents;
  load_key_pair = λ cert key. none;
}

pub local_accepted : validate_connection local ≡ none
unfolding validate_connection parse_log_level
local_accepted = refl

-- slog accepts an offset behind the name, and names in any case.
level_with_offset : parse_log_level (codes "Warn-2") ≡ some (pos 2)
unfolding parse_log_level ◌+ℤ◌
level_with_offset = refl

level_unknown : parse_log_level (codes "verbose") ≡ none
unfolding parse_log_level
level_unknown = refl

validate_connection_iff_example : (validate_connection local ≡ none) ↔ IsValidConnection local
validate_connection_iff_example = validate_connection_iff local

validate_with_connection_iff_test :
    (validate_with_connection publish_settings local ≡ none) ↔ IsValidPublish publish_settings local
validate_with_connection_iff_test = validate_with_connection_iff publish_settings local

pub settings_accepted : validate_with_connection publish_settings local ≡ none
unfolding validate_with_connection validate_publish
settings_accepted = refl

-- `--reset-after NaN` is accepted.
not_a_number_accepted : validate_subscribe subscribe_settings ≡ none
unfolding validate_subscribe
not_a_number_accepted = refl

validate_subscribe_iff_example :
    (validate_subscribe subscribe_settings ≡ none) ↔ ((pos 0 ≤ℤ pos 0) × PositiveOrNan Float64.nan)
validate_subscribe_iff_example = validate_subscribe_iff subscribe_settings

tls_flags_honoured_example :
    ((true ≡ true) ⊎ (true ≡ true) ⊎ (false ≡ true) ⊎ (false ≡ true) ⊎ (false ≡ true)
      → scheme (to_broker_options local) ≡ codes "tls")
    × ((scheme (to_broker_options local) ≡ codes "tcp")
        ↔ (build_tls_config files (to_broker_options local) ≡ inr none))
    × ((config : TlsConfig Bytes Bytes)
        → build_tls_config files (to_broker_options local) ≡ inr (some config)
        → Honours files local config)
tls_flags_honoured_example = tls_flags_honoured files local local_accepted

abbrev some_flags : FlagSet
some_flags name = some (record { value = []; changed = false })

abbrev variables : Bytes → Option Bytes
variables name = some (codes "alice")

abbrev keys : List Bytes
keys = codes "key" ∷ codes "username" ∷ codes "ca" ∷ codes "cert" ∷ codes "password" ∷ []

user_in_map : environment_variable_by_flag (codes "username") ≡ some (codes "MQTT_USERNAME")
unfolding environment_variable_by_flag
user_in_map = refl

fallback_any_order_test :
    let after = apply_environment_fallback variables keys some_flags (codes "username") in
    (environment_variable_by_flag (codes "username") ≡ none → after ≡ some_flags (codes "username"))
    × ((flag : Flag)
        → some_flags (codes "username") ≡ some flag
        → flag.changed ≡ true
        → after ≡ some flag)
    × ((flag : Flag) (variable value : Bytes)
        → some_flags (codes "username") ≡ some flag
        → flag.changed ≡ false
        → environment_variable_by_flag (codes "username") ≡ some variable
        → variables variable ≡ some value
        → after ≡ some (record flag { value = value }))
fallback_any_order_test =
    fallback_any_order variables keys some_flags (codes "username") (λ unseen. ground arith)

refusing : ClientOptions Bytes Bytes → ConnectOutcome
refusing options = ConnectOutcome.failed true

dial_outcomes_test :
    let d = dial files refusing (to_broker_options local) (codes "client") in
    Agrees files refusing (to_broker_options local) (codes "client") d d.tried
    × ((d.tried ≡ none)
        ↔ ((e : TlsError) × (build_tls_config files (to_broker_options local) ≡ inl e)))
dial_outcomes_test = dial_outcomes files refusing (to_broker_options local) (codes "client")
