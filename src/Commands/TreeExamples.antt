-- ===== src/Commands/TreeExamples.antt =====
-- Tests of the flags: the defaults are accepted, and a user name from the environment.
use mqtt_load_generator.Base.{◌≡◌, if◌then◌else◌, List, [], ◌∷◌, Option, none, some, refl, arith}
use mqtt_load_generator.Base.Text.{Bytes, codes, same}
use mqtt_load_generator.Config.{
  validate_connection, validate_publish, validate_with_connection, validate_subscribe,
}
use mqtt_load_generator.Config.LogLevel.{parse_log_level}
use mqtt_load_generator.Config.BrokerOptions.{to_broker_options}
use mqtt_load_generator.Config.Environment.{
  environment_variable_by_flag, apply_environment_fallback,
}
use mqtt_load_generator.Commands.Flags.{
  default_connection, default_publish, default_subscribe, on_sub, command_flags,
}
use mqtt_load_generator.Commands.Tree.{VisitsAll, prepared, parsed_flags, Reaches, options-Reaches}

default_connection_accepted : validate_connection default_connection ≡ none
unfolding validate_connection parse_log_level
default_connection_accepted = refl

default_publish_accepted : validate_with_connection default_publish default_connection ≡ none
unfolding validate_with_connection validate_publish
default_publish_accepted = refl

default_subscribe_accepted : validate_subscribe default_subscribe ≡ none
unfolding validate_subscribe
default_subscribe_accepted = refl

abbrev variables : Bytes → Option Bytes
variables name = if same name (codes "MQTT_USERNAME") then some (codes "ann") else none

abbrev given : Bytes → Option Bytes
given name = if same name (codes "password") then some (codes "secret") else none

abbrev order : List Bytes
order = codes "key" ∷ codes "username" ∷ codes "ca" ∷ codes "cert" ∷ codes "password" ∷ []

order-VisitsAll : VisitsAll order
unfolding environment_variable_by_flag
order-VisitsAll name unseen = ground arith

options-Reaches_example :
    Reaches variables given default_connection
      (prepared variables order on_sub given default_connection)
    × ((name : Bytes)
        → environment_variable_by_flag name ≡ none
        → let parsed = parsed_flags (command_flags on_sub) given in
          apply_environment_fallback variables order parsed name ≡ parsed name)
options-Reaches_example =
    options-Reaches variables order on_sub given default_connection order-VisitsAll

-- The three ways in which a setting is resolved.
default_prepared :
    let o = to_broker_options (prepared variables order on_sub given default_connection) in
    (o.username ≡ codes "ann") × (o.password ≡ codes "secret") × (o.tls_ca_file ≡ [])
unfolding prepared environment_variable_by_flag
default_prepared = (refl, refl, refl)
