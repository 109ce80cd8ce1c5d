-- ===== src/Commands/Flags.antt =====
-- The flags of the commands and their defaults: `registerConnectionFlags` of internal/cli/root.go, and
-- the `register...Flags` of publish.go, subscribe.go and dump.go.
use mqtt_load_generator.Base.{ℕ, Bool, true, false, ℤ, pos, List, [], ◌∷◌, ◌++◌, Option, none, some}
use mqtt_load_generator.Base.Text.{Bytes, codes}
use mqtt_load_generator.Config.{Connection, PublishSettings, SubscribeSettings, Float64}
use mqtt_load_generator.Commands.Dump.{DumpSettings}

-- A default value; a duration is in nanoseconds.
pub data FlagValue : Type 0 where
  text : Bytes → FlagValue
  integer : ℤ → FlagValue
  truth : Bool → FlagValue
  decimal : Float64 → FlagValue
  duration : ℤ → FlagValue

-- A registered flag, its shorthand letter where it has one.
pub record RegisteredFlag : Type 0 where
  pub name : Bytes
  pub shorthand : Option ℕ
  pub default : FlagValue

abbrev pub long_flag : Bytes → FlagValue → RegisteredFlag
long_flag name default = record { name = name; shorthand = none; default = default }

abbrev pub short_flag : Bytes → ℕ → FlagValue → RegisteredFlag
short_flag name letter default = record { name = name; shorthand = some letter; default = default }

-- The persistent `help` flag of the root command.
abbrev pub help_flag : RegisteredFlag
help_flag = long_flag (codes "help") (truth false)

abbrev pub connection_flags : List RegisteredFlag
connection_flags =
    short_flag (codes "host") b'h' (text (codes "localhost"))
    ∷ short_flag (codes "port") b'p' (integer (pos 1883))
    ∷ short_flag (codes "username") b'u' (text [])
    ∷ short_flag (codes "password") b'P' (text [])
    ∷ short_flag (codes "topic") b't' (text (codes "/load"))
    ∷ short_flag (codes "qos") b'q' (integer (pos 1))
    ∷ long_flag (codes "ca") (text [])
    ∷ long_flag (codes "cert") (text [])
    ∷ long_flag (codes "key") (text [])
    ∷ long_flag (codes "insecure") (truth false)
    ∷ long_flag (codes "mqtts") (truth false)
    ∷ long_flag (codes "cleanSession") (truth true)
    ∷ long_flag (codes "clientID") (text [])
    ∷ long_flag (codes "keepAliveTimeout") (integer (pos 5))
    ∷ long_flag (codes "log-level") (text (codes "info"))
    ∷ []

-- The settings that the connection flags leave where none is given.
abbrev pub default_connection : Connection
default_connection = record {
  host = codes "localhost";
  port = pos 1883;
  username = [];
  password = [];
  topic = codes "/load";
  qos = pos 1;
  clean_session = true;
  client_id = [];
  keep_alive_timeout = pos 5;
  log_level = codes "info";
  tls = record { ca = []; cert = []; key = [] };
  mqtts = false;
  insecure = false;
}

abbrev pub publish_flags : List RegisteredFlag
publish_flags =
    short_flag (codes "count") b'c' (integer (pos 1000))
    ∷ short_flag (codes "size") b's' (integer (pos 100))
    ∷ short_flag (codes "interval") b'i' (integer (pos 1))
    ∷ short_flag (codes "schedule") b'z' (text (codes "normal"))
    ∷ short_flag (codes "clients") b'n' (integer (pos 1))
    ∷ long_flag (codes "suffix") (truth false)
    ∷ long_flag (codes "benchmark") (truth false)
    ∷ long_flag (codes "inflight") (integer (pos 1))
    ∷ long_flag (codes "ack-timeout") (duration (pos 30_000_000_000))
    ∷ long_flag (codes "connect-concurrency") (integer (pos 16))
    ∷ long_flag (codes "per-client-stats") (truth false)
    ∷ []

abbrev pub default_publish : PublishSettings
default_publish = record {
  count = pos 1000;
  size = pos 100;
  interval = pos 1;
  schedule = codes "normal";
  clients = pos 1;
  suffix = false;
  benchmark = false;
  in_flight = pos 1;
  ack_timeout = pos 30_000_000_000;
  connect_concurrency = pos 16;
  per_client_stats = false;
}

abbrev pub subscribe_flags : List RegisteredFlag
subscribe_flags =
    long_flag (codes "disable-bar") (truth false)
    ∷ long_flag (codes "reset-after") (decimal (Float64.finite (pos 30) (pos 0)))
    ∷ long_flag (codes "ordered") (truth false)
    ∷ long_flag (codes "count") (integer (pos 0))
    ∷ long_flag (codes "benchmark") (truth false)
    ∷ []

abbrev pub default_subscribe : SubscribeSettings
default_subscribe = record {
  disable_bar = false;
  reset_after = Float64.finite (pos 30) (pos 0);
  ordered = false;
  count = pos 0;
  benchmark = false;
}

abbrev pub dump_flags : List RegisteredFlag
dump_flags =
    long_flag (codes "ordered") (truth true)
    ∷ long_flag (codes "show-topic") (truth false)
    ∷ long_flag (codes "json") (truth false)
    ∷ []

abbrev pub default_dump : DumpSettings
default_dump = record { ordered = true; show_topic = false; json = false }

-- The command that cobra runs: the bare one, or a subcommand.
pub data Invoked : Type 0 where
  on_root on_pub on_sub on_dump : Invoked

abbrev pub own_flags : Invoked → List RegisteredFlag
own_flags on_root = publish_flags
own_flags on_pub = publish_flags
own_flags on_sub = subscribe_flags
own_flags on_dump = dump_flags

-- The flags of a command, with the persistent ones of the root command.
abbrev pub command_flags : Invoked → List RegisteredFlag
command_flags invoked = help_flag ∷ connection_flags ++ own_flags invoked
