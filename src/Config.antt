-- ===== src/Config.antt =====
-- internal/cli/config.go, logging.go and broker.go: the settings, their checks, and what of them
-- goes to the broker package.
pub mod LogLevel
pub mod Valid
pub mod BrokerOptions
pub mod Encryption
pub mod Environment
pub mod Examples
use mqtt_load_generator.Base.{
  ℕ, if◌then◌else◌, Bool, true, false, not, ◌&&◌, ◌||◌, ℤ, pos, ltb_ℤ, [], ◌∷◌, ◌++◌, Option, none,
  some,
}
use mqtt_load_generator.Base.Text.{Bytes, codes, same, given}
use mqtt_load_generator.Config.LogLevel.{parse_log_level}

-- The three file names of mutual TLS; the empty text is a flag that was not given.
pub record Tls : Type 0 where
  pub ca : Bytes
  pub cert : Bytes
  pub key : Bytes

pub record Connection : Type 0 where
  pub host : Bytes
  pub port : ℤ
  pub username : Bytes
  pub password : Bytes
  pub topic : Bytes
  pub qos : ℤ
  pub clean_session : Bool
  pub client_id : Bytes
  pub keep_alive_timeout : ℤ
  pub log_level : Bytes
  pub tls : Tls
  pub mqtts : Bool
  pub insecure : Bool

-- `Publish` of config.go; `ack_timeout` is in nanoseconds.
pub record PublishSettings : Type 0 where
  pub count : ℤ
  pub size : ℤ
  pub interval : ℤ
  pub schedule : Bytes
  pub clients : ℤ
  pub suffix : Bool
  pub benchmark : Bool
  pub in_flight : ℤ
  pub ack_timeout : ℤ
  pub connect_concurrency : ℤ
  pub per_client_stats : Bool

-- A float64: not a number, an infinity, or the mantissa times a power of two.
pub data Float64 : Type 0 where
  nan : Float64
  infinite : (negative : Bool) → Float64
  finite : (mantissa exponent : ℤ) → Float64

-- `value <= 0`.
abbrev pub le_zero : Float64 → Bool
le_zero Float64.nan = false
le_zero (Float64.infinite negative) = negative
le_zero (Float64.finite mantissa exponent) = not (ltb_ℤ (pos 0) mantissa)

-- `Subscribe` of config.go.
pub record SubscribeSettings : Type 0 where
  pub disable_bar : Bool
  pub reset_after : Float64
  pub ordered : Bool
  pub count : ℤ
  pub benchmark : Bool

-- The errors, with the values that their messages print.
pub data ConfigError : Type 0 where
  bad_qos bad_port bad_keep_alive_timeout : ℤ → ConfigError
  bad_log_level : Bytes → ConfigError
  cert_without_key tls_files_without_mqtts insecure_without_tls : ConfigError
  bad_count bad_size bad_interval : ℤ → ConfigError
  bad_schedule : Bytes → ConfigError
  bad_clients bad_in_flight bad_ack_timeout bad_connect_concurrency : ℤ → ConfigError
  client_id_of_many : ConfigError
  bad_reset_after : Float64 → ConfigError

abbrev pub outside : ℤ → ℤ → ℤ → Bool
outside low high value = ltb_ℤ value low || ltb_ℤ high value

abbrev pub is_none {ℓ} : {A : Type ℓ} → Option A → Bool
is_none none = true
is_none (some _) = false

-- `cert != key` of two Booleans.
abbrev pub differ : Bool → Bool → Bool
differ true b = not b
differ false b = b

unfoldable pub validate_connection : Connection → Option ConfigError
validate_connection connection =
    if outside (pos 0) (pos 2) connection.qos
    then some (ConfigError.bad_qos connection.qos)
    else if outside (pos 1) (pos 65535) connection.port
    then some (ConfigError.bad_port connection.port)
    else if ltb_ℤ connection.keep_alive_timeout (pos 0)
    then some (ConfigError.bad_keep_alive_timeout connection.keep_alive_timeout)
    else if is_none (parse_log_level connection.log_level)
    then some (ConfigError.bad_log_level connection.log_level)
    else if differ cert_given key_given
    then some ConfigError.cert_without_key
    else if (ca_given || cert_given) && not (ca_given && cert_given) && not connection.mqtts
    then some ConfigError.tls_files_without_mqtts
    else if connection.insecure && not connection.mqtts && not cert_given && not ca_given
    then some ConfigError.insecure_without_tls
    else none
  where
    cert_given : Bool
    cert_given = given connection.tls.cert

    key_given : Bool
    key_given = given connection.tls.key

    ca_given : Bool
    ca_given = given connection.tls.ca

abbrev pub is_schedule : Bytes → Bool
is_schedule schedule =
    same schedule (codes "flat") || same schedule (codes "normal") || same schedule (codes "random")

unfoldable pub validate_publish : PublishSettings → Option ConfigError
validate_publish publish =
    if ltb_ℤ publish.count (pos 1)
    then some (ConfigError.bad_count publish.count)
    else if ltb_ℤ publish.size (pos 0)
    then some (ConfigError.bad_size publish.size)
    else if ltb_ℤ publish.interval (pos 0)
    then some (ConfigError.bad_interval publish.interval)
    else if not (is_schedule publish.schedule)
    then some (ConfigError.bad_schedule publish.schedule)
    else if ltb_ℤ publish.clients (pos 1)
    then some (ConfigError.bad_clients publish.clients)
    else if outside (pos 1) (pos 65535) publish.in_flight
    then some (ConfigError.bad_in_flight publish.in_flight)
    else if not (ltb_ℤ (pos 0) publish.ack_timeout)
    then some (ConfigError.bad_ack_timeout publish.ack_timeout)
    else if ltb_ℤ publish.connect_concurrency (pos 1)
    then some (ConfigError.bad_connect_concurrency publish.connect_concurrency)
    else none

-- `publish.Clients != 1`.
abbrev pub is_one : ℤ → Bool
is_one value = not (outside (pos 1) (pos 1) value)

unfoldable pub validate_with_connection : PublishSettings → Connection → Option ConfigError
validate_with_connection publish connection = elim (validate_publish publish) [
  | some error ↦ some error
  | none ↦
      if given connection.client_id && not (is_one publish.clients)
      then some ConfigError.client_id_of_many
      else none
]

unfoldable pub validate_subscribe : SubscribeSettings → Option ConfigError
validate_subscribe subscribe =
    if le_zero subscribe.reset_after
    then some (ConfigError.bad_reset_after subscribe.reset_after)
    else if ltb_ℤ subscribe.count (pos 0)
    then some (ConfigError.bad_count subscribe.count)
    else none

-- `effectiveClientID`; `uuid` is the text that `uuid.NewString` returns.
abbrev pub effective_client_id : Bytes → Connection → Bytes
effective_client_id uuid connection =
    if given connection.client_id
    then connection.client_id
    else codes "mqtt-load-generator-" ++ uuid
