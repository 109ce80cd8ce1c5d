-- ===== src/Display.antt =====
-- The loops that sample a running total: `sampleTotal` of internal/mqttload/publish_stats.go, the
-- bars of internal/display, and the log lines of sub --disable-bar (internal/display/subscribe.go).
pub mod Samples
pub mod Log
pub mod Summary
mod Examples
mod SummaryExamples
use mqtt_load_generator.Base.{
  ℕ, ◌==◌, if◌then◌else◌, Bool, true, false, not, ◌&&◌, ℤ, pos, ◌-ℤ◌, ltb_ℤ, List, [], ◌∷◌, ◌++◌,
  Option, none, some,
}

-- One list entry for each tick: how much the total grew since the last one. The totals are int64
-- counters that are never negative, so their differences fit.
unfoldable pub growth_per_interval : ℕ → List ℕ → List ℤ
growth_per_interval previous_total [] = []
growth_per_interval previous_total (total ∷ ticks) =
    (pos total -ℤ pos previous_total) ∷ growth_per_interval total ticks

-- `sampleTotal`, with the total at each tick before `done` closes.
abbrev pub sample_total : List ℕ → List ℤ
sample_total ticks = growth_per_interval 0 ticks

-- What `runSubscribeBar` adds to its bar.
abbrev pub subscribe_bar : List ℕ → List ℤ
subscribe_bar ticks = growth_per_interval 0 ticks

-- What `runPublishBar` adds, which samples once more when the run is done.
abbrev pub publish_bar : List ℕ → ℕ → List ℤ
publish_bar ticks at_done = growth_per_interval 0 (ticks ++ (at_done ∷ []))

-- What `runConnectBar` adds, and whether publishing started.
abbrev pub connect_bar : List ℕ → ℕ → Bool → List ℤ × Bool
connect_bar ticks at_finished connect_failed =
    (growth_per_interval 0 (ticks ++ (at_finished ∷ [])), not connect_failed)

-- What a tick of `runSubscribeLog` reads.
pub record Tick : Type 0 where
  pub received : ℕ
  pub last_message_at : ℕ
  pub now : ℕ

-- `rateReport`; a line is given by the two numbers in it.
pub record RateReport : Type 0 where
  pub line : Option (ℤ × ℤ)
  pub should_reset : Bool

abbrev pub is_zero_ℤ : ℤ → Bool
is_zero_ℤ i = not (ltb_ℤ i (pos 0)) && not (ltb_ℤ (pos 0) i)

unfoldable pub build_rate_report : ℤ → ℤ → ℕ → ℕ → ℤ → RateReport
build_rate_report previous_count current_count last_message_at now reset_after =
    let rate = current_count -ℤ previous_count in
    if is_zero_ℤ current_count then record { line = none; should_reset = false } else record {
      line = some (current_count, rate);
      should_reset =
          not (last_message_at == 0) && ltb_ℤ reset_after (pos now -ℤ pos last_message_at);
    }

pub data LogLine : Type 0 where
  received_so_far : (count rate : ℤ) → LogLine
  resetting : LogLine

abbrev pub rate_line : Option (ℤ × ℤ) → List LogLine
rate_line none = []
rate_line (some (count, rate)) = received_so_far count rate ∷ []

-- The loop of `runSubscribeLog` up to `Done`, and the lines it logs.
unfoldable pub subscribe_log : ℤ → ℕ → ℤ → List Tick → List LogLine
unfolding build_rate_report
subscribe_log reset_after baseline previous_count [] = []
subscribe_log reset_after baseline previous_count (tick ∷ ticks) =
    let current_count = pos tick.received -ℤ pos baseline in
    let report =
      build_rate_report previous_count current_count tick.last_message_at tick.now reset_after in
    let after_reset = subscribe_log reset_after tick.received (pos 0) ticks in
    let going_on = subscribe_log reset_after baseline current_count ticks in
    rate_line report.line ++ (if report.should_reset then resetting ∷ after_reset else going_on)
