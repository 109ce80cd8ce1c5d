-- ===== src/Commands/Dump.antt =====
-- The run function of dump (internal/cli/dump.go).
use mqtt_load_generator.Base.{
  ◌⊎◌, inl, inr, ◌↔◌, ◌≡◌, ◌≢◌, Bool, true, false, Option, none, some, refl, ap, ◌∙◌, arith,
}
use mqtt_load_generator.Base.Text.{Bytes}
use mqtt_load_generator.Broker.{Options}
use mqtt_load_generator.Broker.Dial.{DialError}
use mqtt_load_generator.Config.{Connection, ConfigError, validate_connection, effective_client_id}
use mqtt_load_generator.Commands.{ordered_options}
use mqtt_load_generator.Dump.Json.{DumpOptions}
use mqtt_load_generator.Dump.Run.{Runner, returned}

pub record DumpSettings : Type 0 where
  pub ordered : Bool
  pub show_topic : Bool
  pub json : Bool

-- What `RunDump` returns.
pub data DumpError : Type 0 where
  print_error subscribe_error : DumpError

abbrev pub first_error : (print_failed subscribe_failed : Bool) → Option DumpError
first_error true subscribe_failed = some DumpError.print_error
first_error false true = some DumpError.subscribe_error
first_error false false = none

-- The error of a run that has returned; `none` where it has not.
abbrev pub run_dump_result : Runner → Option (Option DumpError)
run_dump_result (returned print_failed subscribe_failed) =
    some (first_error print_failed subscribe_failed)
run_dump_result _ = none

pub data DumpCommandError : Type 0 where
  config_error : ConfigError → DumpCommandError
  dial_error : DialError → DumpCommandError
  dump_error : DumpError → DumpCommandError

-- The error that the command returns, and the options of the printer where it started a run.
pub record DumpResult : Type 0 where
  pub error : Option DumpCommandError
  pub printed : Option DumpOptions

abbrev pub as_dump_error : Option DumpError → Option DumpCommandError
as_dump_error none = none
as_dump_error (some error) = some (DumpCommandError.dump_error error)

abbrev pub dump_options : DumpSettings → DumpOptions
dump_options dump = record { show_topic = dump.show_topic; json = dump.json }

abbrev pub after_connect :
    {Client : Type 0}
    → DumpSettings
    → DialError ⊎ Client
    → (Client → DumpOptions → Option DumpError)
    → DumpResult
after_connect dump (inl error) run = record {
  error = some (DumpCommandError.dial_error error);
  printed = none;
}
after_connect dump (inr client) run = record {
  error = as_dump_error (run client (dump_options dump));
  printed = some (dump_options dump);
}

abbrev pub after_validate : Option ConfigError → DumpResult → DumpResult
after_validate (some error) result = record {
  error = some (DumpCommandError.config_error error);
  printed = none;
}
after_validate none result = result

-- `dial` connects with the options and the client ID, and `run` is `RunDump`.
unfoldable pub dump_command :
    {Client : Type 0}
    → Connection
    → DumpSettings
    → Bytes
    → (Options → Bytes → DialError ⊎ Client)
    → (Client → DumpOptions → Option DumpError)
    → DumpResult
dump_command connection dump uuid dial run = after_validate (validate_connection connection) (
    after_connect dump
      (dial (ordered_options connection dump.ordered) (effective_client_id uuid connection)) run)

as_dump_error_iff : (o : Option DumpError) → (as_dump_error o ≡ none) ↔ (o ≡ none)
as_dump_error_iff none = (λ h. refl, λ h. refl)
as_dump_error_iff (some error) = (λ h. absurd (ground (arith, h)), λ h. absurd (ground (arith, h)))

not_left :
    {Client : Type 0} (client : Client)
    → (◌≢◌ {A = Option ConfigError} none none)
      ⊎ ((error : DialError) × (◌≡◌ {A = DialError ⊎ Client} (inr client) (inl error)))
    → ⊥
not_left client (inl h) = h refl
not_left client (inr (error, e)) = ground (arith, e)

dump_checked :
    {Client : Type 0} (dump : DumpSettings) (checked : Option ConfigError)
    (dialled : DialError ⊎ Client) (run : Client → DumpOptions → Option DumpError)
    → let r = after_validate checked (after_connect dump dialled run) in
      ((r.error ≡ none) ↔ (
        (checked ≡ none)
        × ((client : Client) × (dialled ≡ inr client) × (run client (dump_options dump) ≡ none))))
      × ((r.printed ≡ none) ↔ ((checked ≢ none) ⊎ ((error : DialError) × (dialled ≡ inl error))))
dump_checked dump (some error) dialled run = (
  (λ h. absurd (ground (arith, h)), λ h. absurd (ground (arith, h.0))),
  (λ h. inl λ e. absurd (ground (arith, e)), λ h. refl),
)
dump_checked dump none (inl error) run = (
  (λ h. absurd (ground (arith, h)), λ h. let e = h.1.1 in absurd (ground (arith, e))),
  (λ h. inr (error, refl), λ h. refl),
)
dump_checked dump none (inr client) run =
    let (to, from) = as_dump_error_iff (run client (dump_options dump)) in
    (
      (
        λ h. (refl, (client, refl, to h)),
        λ (checked, (client', e, h)).
            let same : client ≡ client' = ground (arith, e) in
            from (ap (λ c. run c (dump_options dump)) same ∙ h),
      ),
      (λ h. absurd (ground (arith, h)), λ h. absurd (not_left client h)),
    )

-- `dump` returns no error exactly if the settings are valid, the connect succeeds and the run has
-- none; and it starts a run unless the settings are rejected or the connect fails.
pub dump_command_outcomes :
    {Client : Type 0} (c : Connection) (dump : DumpSettings) (uuid : Bytes)
    (dial : Options → Bytes → DialError ⊎ Client) (run : Client → DumpOptions → Option DumpError)
    → let r = dump_command c dump uuid dial run in
      let dialled = dial (ordered_options c dump.ordered) (effective_client_id uuid c) in
      ((r.error ≡ none) ↔ (
        (validate_connection c ≡ none)
        × ((client : Client) × (dialled ≡ inr client) × (run client (dump_options dump) ≡ none))))
      × ((r.printed ≡ none)
          ↔ ((validate_connection c ≢ none) ⊎ ((error : DialError) × (dialled ≡ inl error))))
unfolding dump_command
dump_command_outcomes c dump uuid dial run =
    dump_checked dump (validate_connection c)
      (dial (ordered_options c dump.ordered) (effective_client_id uuid c)) run
