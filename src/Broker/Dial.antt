-- ===== src/Broker/Dial.antt =====
-- `Dial` of internal/broker/paho.go.
use mqtt_load_generator.Base.{
  ◌+◌, ◌-◌, ◌*◌, if◌then◌else◌, Bool, true, false, ◌&&◌, ℤ, pos, negsuc, Option, none, some, ◌⊎◌,
  inl, inr,
}
use mqtt_load_generator.Base.Words.{wrap_int64}
use mqtt_load_generator.Base.Text.{Bytes}
use mqtt_load_generator.Broker.{Options, broker_url, TlsError, TlsConfig, Files, build_tls_config}

-- `time.Duration(seconds) * time.Second`, which wraps.
abbrev pub times_second : ℤ → ℤ
times_second (pos n) = wrap_int64 (pos (n * 1_000_000_000))
times_second (negsuc n) = wrap_int64 (negsuc ((n + 1) * 1_000_000_000 - 1))

-- The options that the MQTT client is made with; its log handlers have no effect here.
pub record ClientOptions (Pool Certificate : Type 0) : Type 0 where
  pub broker : Bytes
  pub client_id : Bytes
  pub username : Bytes
  pub password : Bytes
  pub clean_session : Bool
  pub order_matters : Bool
  pub keep_alive : ℤ
  pub tls_config : Option (TlsConfig Pool Certificate)

-- What comes first: the end of the connect token, or the cancelled context.
pub data ConnectOutcome : Type 0 where
  completed : ConnectOutcome
  failed : (is_eof : Bool) → ConnectOutcome
  cancelled : ConnectOutcome

pub data DialError : Type 0 where
  tls_error : TlsError → DialError
  closed_right_away connecting : (url : Bytes) → DialError
  context_error : DialError

-- The options of the connect that was tried, whether `Dial` disconnected that client itself, and the
-- client ID of the client it returns.
pub record Dialled (Pool Certificate : Type 0) : Type 0 where
  pub tried : Option (ClientOptions Pool Certificate)
  pub disconnected : Bool
  pub result : DialError ⊎ Bytes

abbrev pub is_plain : {P C : Type 0} → Option (TlsConfig P C) → Bool
is_plain none = true
is_plain (some config) = false

module _ {Pool Certificate : Type 0} where
  abbrev pub client_options :
      Options → Bytes → Option (TlsConfig Pool Certificate) → ClientOptions Pool Certificate
  client_options options client_id tls_config = record {
    broker = broker_url options;
    client_id = client_id;
    username = options.username;
    password = options.password;
    clean_session = options.clean_session;
    order_matters = options.ordered;
    keep_alive = times_second options.keep_alive_seconds;
    tls_config = tls_config;
  }

  abbrev pub connected : ClientOptions Pool Certificate → ConnectOutcome → Dialled Pool Certificate
  connected options ConnectOutcome.completed = record {
    tried = some options;
    disconnected = false;
    result = inr options.client_id;
  }
  connected options (ConnectOutcome.failed is_eof) = record {
    tried = some options;
    disconnected = false;
    result = inl (
        if is_plain options.tls_config && is_eof
        then DialError.closed_right_away options.broker
        else DialError.connecting options.broker);
  }
  connected options ConnectOutcome.cancelled = record {
    tried = some options;
    disconnected = true;
    result = inl DialError.context_error;
  }

  -- What follows `buildTLSConfig`; `connect` stands for the MQTT client.
  abbrev pub dial_with :
      (ClientOptions Pool Certificate → ConnectOutcome)
      → Options
      → Bytes
      → TlsError ⊎ Option (TlsConfig Pool Certificate)
      → Dialled Pool Certificate
  dial_with connect options client_id (inl error) = record {
    tried = none;
    disconnected = false;
    result = inl (DialError.tls_error error);
  }
  dial_with connect options client_id (inr tls_config) =
      let tried = client_options options client_id tls_config in connected tried (connect tried)

  unfoldable pub dial :
      Files Pool Certificate
      → (ClientOptions Pool Certificate → ConnectOutcome)
      → Options
      → Bytes
      → Dialled Pool Certificate
  dial files connect options client_id =
      dial_with connect options client_id (build_tls_config files options)
