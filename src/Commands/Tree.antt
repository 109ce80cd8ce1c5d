-- ===== src/Commands/Tree.antt =====
-- What runs before a command (internal/cli/root.go), and what the broker options are made from then.
use mqtt_load_generator.Base.{
  ◌≡◌, ℕ, ◌==◌, if◌then◌else◌, Bool, true, false, ◌||◌, List, [], ◌∷◌, Option, none, some, refl, ap,
  ap₂, ◌∙◌, arith,
}
use mqtt_load_generator.Base.Text.{Bytes, codes, same}
use mqtt_load_generator.Config.{Connection}
use mqtt_load_generator.Config.BrokerOptions.{to_broker_options}
use mqtt_load_generator.Config.Environment.{
  Flag, FlagSet, environment_variable_by_flag, apply_environment_fallback, variable_value, set_flag,
  fallback_rule, fallback_any_order, visits,
}
use mqtt_load_generator.Commands.Flags.{
  RegisteredFlag, FlagValue, text, Invoked, on_root, on_pub, on_sub, on_dump, command_flags,
}

-- `given` is what the command line gives for a flag. A flag is changed where it is given.
abbrev pub text_flag : Option Bytes → Bytes → Flag
text_flag none default = record { value = default; changed = false }
text_flag (some value) default = record { value = value; changed = true }

-- The text of the default of a flag.
abbrev pub text_default : FlagValue → Option Bytes
text_default (text default) = some default
text_default _ = none

abbrev pub flag_of : Option Bytes → Option Bytes → Option Flag
flag_of none given = none
flag_of (some default) given = some (text_flag given default)

-- The flags that are texts, by name, as the command line leaves them.
abbrev pub parsed_flags : List RegisteredFlag → (Bytes → Option Bytes) → FlagSet
parsed_flags [] given name = none
parsed_flags (flag ∷ flags) given name =
    if same name flag.name
    then flag_of (text_default flag.default) (given name)
    else parsed_flags flags given name

abbrev pub flag_text : Option Flag → Bytes
flag_text none = []
flag_text (some flag) = flag.value

-- The five flags that can have a variable point to fields of the connection.
abbrev pub with_flags : FlagSet → Connection → Connection
with_flags flags connection = record connection {
  username = flag_text (flags (codes "username"));
  password = flag_text (flags (codes "password"));
  tls = record {
    ca = flag_text (flags (codes "ca"));
    cert = flag_text (flags (codes "cert"));
    key = flag_text (flags (codes "key"));
  };
}

-- The connection that a command runs with: `PersistentPreRunE` has run. `connection` has the other
-- flags, and `order` is the order in which Go visits the map.
unfoldable pub prepared :
    (Bytes → Option Bytes) → List Bytes → Invoked → (Bytes → Option Bytes) → Connection → Connection
prepared lookup_env order invoked given connection =
    with_flags
      (apply_environment_fallback lookup_env order (parsed_flags (command_flags invoked) given))
      connection

-- The documented rule: the command line, or else the variable, or else nothing.
abbrev pub resolved : Option Bytes → Option Bytes → Bytes
resolved (some value) variable = value
resolved none (some value) = value
resolved none none = []

-- Every flag with a variable is visited.
abbrev pub VisitsAll : List Bytes → Type 0
VisitsAll order =
    (name : Bytes)
    → visits (λ n. none) name order ≡ false
    → environment_variable_by_flag name ≡ none

module _ (lookup_env : Bytes → Option Bytes) where
  resolved_lem :
      (given variable : Option Bytes)
      → flag_text (set_flag lookup_env (some (text_flag given [])) variable)
        ≡ resolved given variable
  resolved_lem none none = refl
  resolved_lem none (some value) = refl
  resolved_lem (some value) none = refl
  resolved_lem (some value) (some other) = refl

  flag_resolved :
      (order : List Bytes) (invoked : Invoked) (given : Bytes → Option Bytes)
      → (name variable : Bytes) → VisitsAll order
      → parsed_flags (command_flags invoked) given name ≡ some (text_flag (given name) [])
      → environment_variable_by_flag name ≡ some variable
      → flag_text (
          apply_environment_fallback lookup_env order
            (parsed_flags (command_flags invoked) given)
            name)
        ≡ resolved (given name) (lookup_env variable)
  flag_resolved order invoked given name variable all parsed v =
      let flags = parsed_flags (command_flags invoked) given in
      ap flag_text (
        fallback_rule lookup_env order flags name (λ unseen. all name unseen)
        ∙ ap₂ (set_flag lookup_env) parsed (ap (variable_value lookup_env) v))
      ∙ resolved_lem (given name) (lookup_env variable)

  -- A prepared connection whose broker options have credentials and files by the rule, and whose
  -- other settings are all those of the connection before.
  pub record Reaches (given : Bytes → Option Bytes) (connection ready : Connection) : Type 0 where
    pub username :
        (to_broker_options ready).username
        ≡ resolved (given (codes "username")) (lookup_env (codes "MQTT_USERNAME"))
    pub password :
        (to_broker_options ready).password
        ≡ resolved (given (codes "password")) (lookup_env (codes "MQTT_PASSWORD"))
    pub ca :
        (to_broker_options ready).tls_ca_file
        ≡ resolved (given (codes "ca")) (lookup_env (codes "MQTT_CA"))
    pub cert :
        (to_broker_options ready).tls_cert_file
        ≡ resolved (given (codes "cert")) (lookup_env (codes "MQTT_CERT"))
    pub key :
        (to_broker_options ready).tls_key_file
        ≡ resolved (given (codes "key")) (lookup_env (codes "MQTT_KEY"))
    pub host : (to_broker_options ready).host ≡ connection.host
    pub port : (to_broker_options ready).port ≡ connection.port
    pub clean_session : (to_broker_options ready).clean_session ≡ connection.clean_session
    pub keep_alive : (to_broker_options ready).keep_alive_seconds ≡ connection.keep_alive_timeout
    pub mqtts : (to_broker_options ready).mqtts ≡ connection.mqtts
    pub insecure : (to_broker_options ready).insecure ≡ connection.insecure
    pub topic : ready.topic ≡ connection.topic
    pub qos : ready.qos ≡ connection.qos
    pub client_id : ready.client_id ≡ connection.client_id
    pub log_level : ready.log_level ≡ connection.log_level

  -- On every command, the user name, the password and the TLS files that reach the broker are those
  -- given on the command line, or else those of the environment variables, or else empty, in whatever
  -- order Go visits the flags that have a variable. The host, the port, the clean session, the keep
  -- alive time, --mqtts and --insecure reach the broker as they were; the topic, the QoS, the client
  -- ID and the log level stay as they were; and so does every text flag without a variable.
  pub options-Reaches :
      (order : List Bytes) (invoked : Invoked) (given : Bytes → Option Bytes)
      → (connection : Connection) → VisitsAll order
      → Reaches given connection (prepared lookup_env order invoked given connection)
        × ((name : Bytes)
            → environment_variable_by_flag name ≡ none
            → let parsed = parsed_flags (command_flags invoked) given in
              apply_environment_fallback lookup_env order parsed name ≡ parsed name)
  unfolding prepared environment_variable_by_flag
  options-Reaches order invoked given connection all =
      let setting =
        λ (name variable : Bytes). flag_resolved order invoked given name variable all in
      let parsed = parsed_flags (command_flags invoked) given in
      (
        record {
          username = setting (codes "username") (codes "MQTT_USERNAME") refl refl;
          password = setting (codes "password") (codes "MQTT_PASSWORD") refl refl;
          ca = setting (codes "ca") (codes "MQTT_CA") refl refl;
          cert = setting (codes "cert") (codes "MQTT_CERT") refl refl;
          key = setting (codes "key") (codes "MQTT_KEY") refl refl;
          host = refl;
          port = refl;
          clean_session = refl;
          keep_alive = refl;
          mqtts = refl;
          insecure = refl;
          topic = refl;
          qos = refl;
          client_id = refl;
          log_level = refl;
        },
        λ name e. (fallback_any_order lookup_env order parsed name (all name)).0 e,
      )

-- No name stands twice, and no shorthand.
abbrev pub named : Bytes → List RegisteredFlag → Bool
named name [] = false
named name (flag ∷ flags) = same name flag.name || named name flags

abbrev pub letter_is : Option ℕ → ℕ → Bool
letter_is none letter = false
letter_is (some other) letter = letter == other

abbrev pub lettered : Option ℕ → List RegisteredFlag → Bool
lettered none flags = false
lettered (some letter) [] = false
lettered (some letter) (flag ∷ flags) =
    letter_is flag.shorthand letter || lettered (some letter) flags

abbrev pub IsDistinct : List RegisteredFlag → Type 0
IsDistinct [] = Unit
IsDistinct (flag ∷ flags) =
    ((named flag.name flags ≡ false) × (lettered flag.shorthand flags ≡ false)) × IsDistinct flags

-- On every command, no two flags, with the persistent ones of the root command, share a name or a
-- shorthand, which pflag would panic on.
pub command_flags-IsDistinct : (invoked : Invoked) → IsDistinct (command_flags invoked)
command_flags-IsDistinct on_root = ground arith
command_flags-IsDistinct on_pub = ground arith
command_flags-IsDistinct on_sub = ground arith
command_flags-IsDistinct on_dump = ground arith
