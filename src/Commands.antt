-- ===== src/Commands.antt =====
-- The run functions of the commands: internal/cli/publish.go, subscribe.go and dump.go.
pub mod Outcomes
pub mod Dump
pub mod Flags
pub mod Tree
mod Examples
mod TreeExamples
use mqtt_load_generator.Base.{
  ℕ, ◌+◌, ◌-◌, ◌%◌, if◌then◌else◌, Bool, true, false, ℤ, pos_part, neg_part, Option, none, some,
  ◌⊎◌, inl, inr,
}
use mqtt_load_generator.Base.Text.{Bytes}
use mqtt_load_generator.Broker.{Options}
use mqtt_load_generator.Broker.Dial.{DialError}
use mqtt_load_generator.Config.{
  Connection, PublishSettings, SubscribeSettings, ConfigError, validate_connection,
  validate_with_connection, validate_subscribe, effective_client_id,
}
use mqtt_load_generator.Config.BrokerOptions.{to_broker_options}
use mqtt_load_generator.Publish.{PublishOptions}
use mqtt_load_generator.Publish.Progress.{PublishProgress, snapshot}
use mqtt_load_generator.Publish.Run.{RunError}
use mqtt_load_generator.Subscribe.{SubscribeProgress, is_zero}

-- `byte` of an int.
abbrev pub to_byte : ℤ → ℕ
to_byte i = (pos_part i + 256 - neg_part i % 256) % 256

-- The options of a run; the settings are checked before, and none of these numbers is negative.
abbrev pub to_publish_options : Connection → PublishSettings → PublishOptions
to_publish_options connection publish = record {
  topic = connection.topic;
  qos = to_byte connection.qos;
  count = pos_part publish.count;
  size = pos_part publish.size;
  interval_milliseconds = pos_part publish.interval;
  schedule = publish.schedule;
  clients = pos_part publish.clients;
  suffix = publish.suffix;
  benchmark = publish.benchmark;
  in_flight = pos_part publish.in_flight;
  ack_timeout = pos_part publish.ack_timeout;
  connect_concurrency = pos_part publish.connect_concurrency;
}

-- How subscribing failed: the broker did not answer in time, or refused.
pub data SubscribeError : Type 0 where
  subscribe_timed_out subscribe_refused : SubscribeError

pub data CommandError : Type 0 where
  config_error : ConfigError → CommandError
  run_error : RunError → CommandError
  dial_error : DialError → CommandError
  subscribe_error : SubscribeError → CommandError
  report_error : CommandError

-- The error that a command returns, whether it started a run, whether it called `WriteReport` behind
-- it, and whether the report was then written.
pub record CommandResult : Type 0 where
  pub error : Option CommandError
  pub ran : Bool
  pub writes_report : Bool
  pub reported : Bool

abbrev pub rejected : CommandError → CommandResult
rejected error = record { error = some error; ran = false; writes_report = false; reported = false }

-- The error of the run, or else the one of writing the report; `written` is false where that failed.
abbrev pub with_report : Option CommandError → Bool → CommandResult
with_report (some error) written = record {
  error = some error;
  ran = true;
  writes_report = true;
  reported = written;
}
with_report none written = record {
  error = if written then none else some CommandError.report_error;
  ran = true;
  writes_report = true;
  reported = written;
}

-- The two checks of a command, and then its run.
abbrev pub checked : Option ConfigError → Option ConfigError → CommandResult → CommandResult
checked (some error) second result = rejected (CommandError.config_error error)
checked none (some error) result = rejected (CommandError.config_error error)
checked none none result = result

abbrev pub as_run_error : Option RunError → Option CommandError
as_run_error none = none
as_run_error (some error) = some (CommandError.run_error error)

-- After `RunPublish`.
abbrev pub publish_result : PublishProgress × Option RunError → Bool → CommandResult
publish_result (progress, error) written =
    if (snapshot progress).connect_failed
    then record { error = as_run_error error; ran = true; writes_report = false; reported = false }
    else with_report (as_run_error error) written

-- `pub`, and the bare command; `run` stands for `RunPublish` on a new progress.
unfoldable pub publish_command :
    Connection
    → PublishSettings
    → (PublishOptions → PublishProgress × Option RunError)
    → Bool
    → CommandResult
publish_command connection publish run written =
    checked (validate_connection connection) (validate_with_connection publish connection)
      (publish_result (run (to_publish_options connection publish)) written)

abbrev pub as_subscribe_error : Option SubscribeError → Option CommandError
as_subscribe_error none = none
as_subscribe_error (some error) = some (CommandError.subscribe_error error)

-- After `RunSubscribe`: the report is skipped when the subscribe never succeeded.
abbrev pub subscribe_result : SubscribeProgress × Option SubscribeError → Bool → CommandResult
subscribe_result (progress, error) written =
    if is_zero progress.subscribed_at
    then record {
      error = as_subscribe_error error;
      ran = true;
      writes_report = false;
      reported = false;
    }
    else with_report (as_subscribe_error error) written

-- The broker options of `sub` and of `dump`, with --ordered.
abbrev pub ordered_options : Connection → Bool → Options
ordered_options connection ordered = record (to_broker_options connection) { ordered = ordered }

abbrev pub after_dial :
    {Client : Type 0}
    → DialError ⊎ Client
    → (Client → SubscribeProgress × Option SubscribeError)
    → Bool
    → CommandResult
after_dial (inl error) run written = rejected (CommandError.dial_error error)
after_dial (inr client) run written = subscribe_result (run client) written

-- `sub`; `dial` connects with the options and the client ID, and `run` is `RunSubscribe` on a new
-- progress.
unfoldable pub subscribe_command :
    {Client : Type 0}
    → Connection
    → SubscribeSettings
    → Bytes
    → (Options → Bytes → DialError ⊎ Client)
    → (Client → SubscribeProgress × Option SubscribeError)
    → Bool
    → CommandResult
subscribe_command connection subscribe uuid dial run written =
    checked (validate_connection connection) (validate_subscribe subscribe) (
      after_dial
        (dial (ordered_options connection subscribe.ordered) (effective_client_id uuid connection))
        run written)
