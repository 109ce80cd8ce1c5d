-- ===== src/Commands/Outcomes.antt =====
-- When the commands run, write their report and return an error (internal/cli).
use mqtt_load_generator.Base.{
  ◌⊎◌, inl, inr, ◌↔◌, ◌≤◌, ◌<◌, ◌≡◌, ◌≢◌, Bool, true, false, pos, Option, none, some, refl, sym,
  ◌∙◌, arith,
}
use mqtt_load_generator.Base.Text.{Bytes, All}
use mqtt_load_generator.Broker.{Options}
use mqtt_load_generator.Broker.Dial.{DialError}
use mqtt_load_generator.Connect.{ConnectError}
use mqtt_load_generator.Config.{
  Connection, PublishSettings, SubscribeSettings, ConfigError, validate_connection,
  validate_with_connection, validate_subscribe, effective_client_id,
}
use mqtt_load_generator.Config.Valid.{validate_connection_iff, validate_with_connection_iff}
use mqtt_load_generator.Publish.Progress.{PublishProgress, new_publish_progress}
use mqtt_load_generator.Publish.Run.{
  RunError, Course, Countable, run_publish, run_closes_channels, run_error,
}
use mqtt_load_generator.Subscribe.{SubscribeProgress, is_zero}
use mqtt_load_generator.Commands.{
  to_publish_options, SubscribeError, CommandError, CommandResult, rejected, checked, as_run_error,
  publish_result, publish_command, subscribe_result, after_dial, ordered_options, subscribe_command,
}

-- Settings that both checks accept reach `RunPublish` unchanged, and they are what a run relies on:
-- at least one message and one client, a window that is not 0, a positive ack timeout, a positive
-- --connect-concurrency, and QoS 0, 1 or 2.
pub options_of_valid :
    (c : Connection) (p : PublishSettings)
    → validate_connection c ≡ none
    → validate_with_connection p c ≡ none
    → let o = to_publish_options c p in
      (pos o.count ≡ p.count)
      × (pos o.size ≡ p.size)
      × (pos o.interval_milliseconds ≡ p.interval)
      × (pos o.clients ≡ p.clients)
      × (pos o.in_flight ≡ p.in_flight)
      × (pos o.ack_timeout ≡ p.ack_timeout)
      × (pos o.connect_concurrency ≡ p.connect_concurrency)
      × (pos o.qos ≡ c.qos)
      × (0 < o.count)
      × (0 < o.clients)
      × (0 < o.in_flight)
      × (o.in_flight ≤ 65535)
      × (0 < o.ack_timeout)
      × (0 < o.connect_concurrency)
      × (o.qos ≤ 2)
options_of_valid c p hc hp =
    let vc = (validate_connection_iff c).0 hc in
    let vp = (validate_with_connection_iff p c).0 hp in ground (arith, vc, vp)

abbrev pub Accepted : Connection → PublishSettings → Type 0
Accepted c p = (validate_connection c ≡ none) × (validate_with_connection p c ≡ none)

checked_cases :
    (first second : Option ConfigError) (r : CommandResult)
    → (((first ≡ none) × (second ≡ none)) × (checked first second r ≡ r))
      ⊎ (((first ≡ none) × (second ≡ none) → ⊥)
          × ((e : ConfigError) × (checked first second r ≡ rejected (CommandError.config_error e))))
checked_cases none none r = inl ((refl, refl), refl)
checked_cases none (some error) r = inr (λ a. ground arith, (error, refl))
checked_cases (some error) second r = inr (λ a. ground arith, (error, refl))

result_cases :
    (progress : PublishProgress) (error : Option RunError) (written : Bool)
    → let r = publish_result (progress, error) written in
      (r.ran ≡ true)
      × ((r.writes_report ≡ true) ↔ (progress.connect_failed ≡ false))
      × (progress.connect_failed ≡ true → r.error ≡ as_run_error error)
      × (progress.connect_failed ≡ false → (r.error ≡ none) ↔ ((error ≡ none) × (written ≡ true)))
      × ((r.reported ≡ true) ↔ ((progress.connect_failed ≡ false) × (written ≡ true)))
result_cases progress none written = ground arith
result_cases progress (some error) written = ground arith

as_run_error-none : (e : Option RunError) → (as_run_error e ≡ none) ↔ (e ≡ none)
as_run_error-none none = ground arith
as_run_error-none (some e) = ground arith

module _ (c : Connection) (p : PublishSettings) (course : Course) (written : Bool)
    (timed : (0 < course.first_time) × (0 < course.second_time))
    (countable : Countable course.counters) where
  abbrev result : CommandResult
  result = publish_command c p (λ o. run_publish course (new_publish_progress o.clients)) written

  -- `pub` starts a run exactly for settings that both checks accept, and calls `WriteReport` exactly
  -- if in that run connecting did not fail, even when publishes failed; the report is then written
  -- exactly if that call succeeds. The command returns no error exactly if the settings are accepted
  -- and either connecting failed because the context was cancelled, or it did not fail, no publish
  -- failed or timed out, and the report was written.
  pub publish_command_outcomes :
      ((result.ran ≡ true) ↔ Accepted c p)
      × ((result.writes_report ≡ true) ↔ (Accepted c p × (course.connected ≡ none)))
      × ((result.reported ≡ true) ↔ (Accepted c p × (course.connected ≡ none) × (written ≡ true)))
      × ((result.error ≡ none) → Accepted c p)
      × (Accepted c p
          → course.connected ≡ none
          → (result.error ≡ none)
            ↔ (All (λ n. (n.failed ≡ 0) × (n.timed_out ≡ 0)) course.counters × (written ≡ true)))
      × (Accepted c p
          → (error : ConnectError) → course.connected ≡ some error
          → (result.error ≡ none) ↔ (course.cancelled ≡ true))
  unfolding publish_command
  publish_command_outcomes =
      let o = to_publish_options c p in
      let run = run_publish course (new_publish_progress o.clients) in
      let closes = run_closes_channels o.clients course timed in
      let errors = run_error o.clients course timed countable in
      let ends = result_cases run.0 run.1 written in
      let same = as_run_error-none run.1 in
      elim (checked_cases (validate_connection c) (validate_with_connection p c)
        (publish_result run written)) [
          | inl (ok, e) ↦ rw (e) (
            (λ h. ok, λ h. ground (arith, ends)),
            (λ h. (ok, ground (arith, h, ends, closes)), λ (h, k). ground (arith, k, ends, closes)),
            (
              λ h. (ok, closes.4.0 (ends.4.0 h).0, (ends.4.0 h).1),
              λ (h, k, w). ends.4.1 (closes.4.1 k, w),
            ),
            λ h. ok,
            λ h k.
                let started = closes.4.1 k in
                (
                  λ n. let q = (ends.3 started).0 n in ((errors.1 k).0 q.0, q.1),
                  λ (z, w). (ends.3 started).1 ((errors.1 k).1 z, w),
                ),
            λ h error k.
                let failed : run.0.connect_failed ≡ true = ground (arith, closes, k) in
                (
                  λ n. (errors.0 error k).0 (same.0 (sym (ends.2 failed) ∙ n)),
                  λ w. ends.2 failed ∙ same.1 ((errors.0 error k).1 w),
                ),
          )
          | inr (not_ok, (error, e)) ↦ rw (e) (
            (λ h. ground (arith, h), λ h. absurd (not_ok h)),
            (λ h. ground (arith, h), λ (h, k). absurd (not_ok h)),
            (λ h. ground (arith, h), λ (h, k, w). absurd (not_ok h)),
            λ h. ground (arith, h),
            λ h. absurd (not_ok h),
            λ h. absurd (not_ok h),
          )
        ]

subscribed_cases :
    (progress : SubscribeProgress) (error : Option SubscribeError) (written : Bool)
    → let r = subscribe_result (progress, error) written in
      (r.ran ≡ true)
      × ((r.writes_report ≡ true) ↔ (is_zero progress.subscribed_at ≡ false))
      × ((r.error ≡ none) ↔ ((error ≡ none) × ((r.writes_report ≡ true) → written ≡ true)))
subscribed_cases progress none written = ground arith
subscribed_cases progress (some error) written = ground arith

subscribe_checked :
    {Client : Type 0} (first second : Option ConfigError) (dialled : DialError ⊎ Client)
    (run : Client → SubscribeProgress × Option SubscribeError) (written : Bool)
    → let r = checked first second (after_dial dialled run written) in
      ((r.ran ≡ true)
        → (first ≡ none)
          × (second ≡ none)
          × ((client : Client) × (dialled ≡ inr client)
              × ((r.writes_report ≡ true) ↔ (is_zero (run client).0.subscribed_at ≡ false))
              × ((r.error ≡ none)
                  ↔ (((run client).1 ≡ none) × ((r.writes_report ≡ true) → written ≡ true)))))
      × ((r.ran ≡ false) → ((r.error ≢ none) × (r.writes_report ≡ false)))
      × ((first ≡ none) → (second ≡ none) → (client : Client) → dialled ≡ inr client → r.ran ≡ true)
subscribe_checked none none (inr client) run written =
    let q = subscribed_cases (run client).0 (run client).1 written in
    (λ h. (refl, refl, (client, refl, q.1, q.2)), λ h. ground (arith, h, q.0), λ a b other e. q.0)
subscribe_checked none none (inl error) run written =
    (λ h. ground arith, λ h. (λ n. ground arith, refl), λ a b client e. ground arith)
subscribe_checked none (some error) dialled run written =
    (λ h. ground arith, λ h. (λ n. ground arith, refl), λ a b client e. ground arith)
subscribe_checked (some error) second dialled run written =
    (λ h. ground arith, λ h. (λ n. ground arith, refl), λ a b client e. ground arith)

-- `sub` starts a run exactly when both checks accept the settings and the connect succeeds, with
-- --ordered passed on to it; it calls `WriteReport` exactly if the run subscribed, and returns no
-- error exactly if the run had none and the report, if there is one, was written.
pub subscribe_command_outcomes :
    {Client : Type 0} (c : Connection) (b : SubscribeSettings) (uuid : Bytes)
    (dial : Options → Bytes → DialError ⊎ Client)
    (run : Client → SubscribeProgress × Option SubscribeError) (written : Bool)
    → let r = subscribe_command c b uuid dial run written in
      let dialled = dial (ordered_options c b.ordered) (effective_client_id uuid c) in
      ((r.ran ≡ true)
        → (validate_connection c ≡ none)
          × (validate_subscribe b ≡ none)
          × ((client : Client) × (dialled ≡ inr client)
              × ((r.writes_report ≡ true) ↔ (is_zero (run client).0.subscribed_at ≡ false))
              × ((r.error ≡ none)
                  ↔ (((run client).1 ≡ none) × ((r.writes_report ≡ true) → written ≡ true)))))
      × ((r.ran ≡ false) → ((r.error ≢ none) × (r.writes_report ≡ false)))
      × ((validate_connection c ≡ none)
          → (validate_subscribe b ≡ none)
          → (client : Client) → dialled ≡ inr client
          → r.ran ≡ true)
unfolding subscribe_command
subscribe_command_outcomes c b uuid dial run written =
    subscribe_checked (validate_connection c) (validate_subscribe b)
      (dial (ordered_options c b.ordered) (effective_client_id uuid c)) run written
