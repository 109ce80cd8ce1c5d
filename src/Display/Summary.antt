-- ===== src/Display/Summary.antt =====
-- The summary lines of internal/display/publish.go and subscribe.go, the display of pub around them, and
-- how they agree with the reports of internal/mqttload.
use mqtt_load_generator.Base.{
  ℕ, if◌then◌else◌, Bool, true, false, ℤ, List, Option, none, some, ◌≡◌, ◌↔◌, sym, ap, arith,
}
use mqtt_load_generator.Base.Words.{to_int64}
use mqtt_load_generator.Base.Text.{Bytes}
use mqtt_load_generator.Base.Floats.{Float64}
use mqtt_load_generator.Base.Times.{time_sub}
use mqtt_load_generator.Latency.Hdr.{HdrHistogram}
use mqtt_load_generator.Publish.{PublishOptions}
use mqtt_load_generator.Publish.Client.{PublishCounters}
use mqtt_load_generator.Publish.Progress.{PublishProgress, PublishSnapshot, snapshot}
use mqtt_load_generator.Publish.Stats.{PublishStats, Slice}
use mqtt_load_generator.Subscribe.{SubscribeProgress, is_zero}
use mqtt_load_generator.Report.Publish.{
  PublishReport, PublishReportPerClientAckedRates, PublishReportClient, publish_report_of,
  build_publish_report, is_positive,
}
use mqtt_load_generator.Report.Subscribe.{EndedStats, build_subscribe_report}
use mqtt_load_generator.Display.{publish_bar, connect_bar}

-- The fields of the "pub stopped" line.
pub record PublishSummary (W : Type 0) : Type 0 where
  pub published : ℤ
  pub acked : ℤ
  pub failed : ℤ
  pub timed_out : ℤ
  pub elapsed_seconds : W
  pub messages_per_second : W

-- `totalReceived` of the "sub stopped" line, where there is one.
abbrev pub log_subscribe_summary : SubscribeProgress → Option ℤ
log_subscribe_summary progress =
    if is_zero progress.subscribed_at then none else some (to_int64 progress.received)

-- What pub shows: what is added to the bar of connecting clients, and where publishing started what is
-- added to that of published messages, and the summary.
pub record PublishShown (W : Type 0) : Type 0 where
  pub connecting : List ℤ
  pub publishing : Option (List ℤ × PublishSummary W)

module _ {W : Type 0} ⦃float64 : Float64 W⦄ where
  open float64 use {nought, float, seconds, div}

  abbrev pub publish_summary_of : PublishSnapshot → PublishSummary W
  publish_summary_of end =
      let elapsed = time_sub end.finished_at end.publish_started_at in
      let summary : PublishCounters = end.summary in
      record {
        published = to_int64 summary.published;
        acked = to_int64 summary.acked;
        failed = to_int64 summary.failed;
        timed_out = to_int64 summary.timed_out;
        elapsed_seconds = seconds elapsed;
        messages_per_second =
            if is_positive elapsed
            then div (float (to_int64 summary.published)) (seconds elapsed)
            else nought;
      }

  unfoldable pub log_publish_summary : PublishProgress → PublishSummary W
  log_publish_summary progress = publish_summary_of (snapshot progress)

  abbrev pub shown_after : List ℤ × Bool → List ℤ → PublishSummary W → PublishShown W
  shown_after (connecting, true) publishing summary = record {
    connecting = connecting;
    publishing = some (publishing, summary);
  }
  shown_after (connecting, false) publishing summary = record {
    connecting = connecting;
    publishing = none;
  }

  -- `connecting` and `publishing` are the counts that the bars read at each tick, and `connected` is the
  -- progress when connecting has finished, and `ended` when the run is done.
  unfoldable pub run_publish_progress :
      List ℕ → PublishProgress → List ℕ → PublishProgress → PublishShown W
  unfolding log_publish_summary
  run_publish_progress connecting connected publishing ended =
      shown_after (connect_bar connecting connected.clients_connected connected.connect_failed)
        (publish_bar publishing (snapshot ended).summary.published) (log_publish_summary ended)

abbrev or_else : {A : Type 0} → A → Option A → A
or_else default none = default
or_else default (some a) = a

-- What a summary line and a report say alike.
pub record Alike {W : Type 0} (report : PublishReport W) (line : PublishSummary W) : Type 0 where
  pub published : report.messages.published ≡ line.published
  pub acked : report.messages.acked ≡ line.acked
  pub failed : report.messages.failed ≡ line.failed
  pub timed_out : report.messages.timed_out ≡ line.timed_out
  pub elapsed_seconds : report.run.elapsed_seconds ≡ line.elapsed_seconds

module _ {W : Type 0} ⦃float64 : Float64 W⦄ (hdr : HdrHistogram W) where
  parts-Alike :
      (end : PublishSnapshot) (stats : PublishStats) (options : PublishOptions) (host : Bytes)
      (procs : ℕ) (rates : Option (PublishReportPerClientAckedRates W))
      (clients : Option (Slice PublishReportClient)) (report : PublishReport W)
      → publish_report_of hdr end stats options host procs rates clients ≡ some report
      → Alike report (publish_summary_of end)
  parts-Alike end stats options host procs none clients report e = absurd (ground (arith, e))
  parts-Alike end stats options host procs (some rates) none report e = absurd (ground (arith, e))
  parts-Alike end stats options host procs (some rates) (some clients) report e =
      let built : _ ≡ report = ap (or_else report) e in
      record {
        published = sym (ap (λ (r : PublishReport W). r.messages.published) built);
        acked = sym (ap (λ (r : PublishReport W). r.messages.acked) built);
        failed = sym (ap (λ (r : PublishReport W). r.messages.failed) built);
        timed_out = sym (ap (λ (r : PublishReport W). r.messages.timed_out) built);
        elapsed_seconds = sym (ap (λ (r : PublishReport W). r.run.elapsed_seconds) built);
      }

  -- The report of pub, where it is built, and the "pub stopped" line show the same counts and the same
  -- elapsed time.
  pub publish_summary-Alike :
      (progress : PublishProgress) (stats : PublishStats) (options : PublishOptions) (host : Bytes)
      (procs : ℕ) (report : PublishReport W)
      → build_publish_report hdr progress stats options host procs ≡ some report
      → Alike report (log_publish_summary progress)
  unfolding build_publish_report log_publish_summary
  publish_summary-Alike progress stats options host procs report e =
      parts-Alike (snapshot progress) stats options host procs _ _ report e

  -- The "sub stopped" line is logged exactly if the subscribe succeeded, which is when the report is
  -- built, and both show the same number of received messages.
  pub subscribe_summary-report :
      (progress : SubscribeProgress) (stats : EndedStats) (topic : Bytes) (qos : ℕ) (count : ℤ)
      (host : Bytes) (procs : ℕ)
      → let report = build_subscribe_report hdr progress stats topic qos count host procs in
        ((log_subscribe_summary progress ≡ none) ↔ (is_zero progress.subscribed_at ≡ true))
        × ((n : ℤ) → log_subscribe_summary progress ≡ some n → n ≡ report.messages.received)
  unfolding build_subscribe_report
  subscribe_summary-report progress stats topic qos count host procs =
      (ground arith, λ n e. ground (arith, e))
