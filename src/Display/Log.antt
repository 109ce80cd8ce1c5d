-- ===== src/Display/Log.antt =====
-- What the log lines of sub --disable-bar add up to (internal/display/subscribe.go).
use mqtt_load_generator.Base.{
  ℕ, ◌+◌, ◌-◌, ◌≤◌, ◌<◌, ◌≡◌, ◌==◌, ◌&&◌, if◌then◌else◌, not, ℤ, pos, ◌-ℤ◌, ◌+ℤ◌, ◌≤ℤ◌, ltb_ℤ, List,
  [], ◌∷◌, ◌++◌, map, refl, ap, ◌∙◌, arith, Bool-cases, inl, inr,
}
use mqtt_load_generator.Base.Int.{+ℤ_parts, -ℤ_parts, eq_of_parts}
use mqtt_load_generator.Base.Text.{All}
use mqtt_load_generator.Display.{
  Tick, is_zero_ℤ, build_rate_report, LogLine, received_so_far, resetting, rate_line, subscribe_log,
}
use mqtt_load_generator.Display.Samples.{last_total, Rising, minus_zero}

-- The rates in the lines, added up.
abbrev pub sum_rates : List LogLine → ℤ
sum_rates [] = pos 0
sum_rates (received_so_far count rate ∷ lines) = rate +ℤ sum_rates lines
sum_rates (resetting ∷ lines) = sum_rates lines

-- A line that tells of messages.
abbrev pub IsReport : LogLine → Type 0
IsReport (received_so_far count rate) = (pos 1 ≤ℤ count) × (pos 0 ≤ℤ rate)
IsReport resetting = Unit

abbrev pub totals : List Tick → List ℕ
totals ticks = map (λ t. t.received) ticks

-- The lines of one tick before those of the next ones.
tick_lines :
    (previous current last now : ℕ) (reset_after : ℤ) (after_reset going_on : List LogLine) (s : ℤ)
    → previous ≤ current
    → (sum_rates after_reset ≡ s) × All IsReport after_reset
    → (sum_rates going_on ≡ s) × All IsReport going_on
    → let report = build_rate_report (pos previous) (pos current) last now reset_after in
      let lines =
        rate_line report.line
        ++ (if report.should_reset then resetting ∷ after_reset else going_on) in
      (sum_rates lines ≡ (pos current -ℤ pos previous) +ℤ s) × All IsReport lines
unfolding build_rate_report
tick_lines previous current last now reset_after after_reset going_on s le (ea, ha) (eg, hg) =
    let rate = pos current -ℤ pos previous in
    let r = -ℤ_parts (pos current) (pos previous) in
    let stale = not (last == 0) && ltb_ℤ reset_after (pos now -ℤ pos last) in
    elim (Bool-cases (is_zero_ℤ (pos current))) [
      | inl z ↦
          let none_left : current ≡ 0 = ground arith in
          let same : s ≡ rate +ℤ s =
            eq_of_parts s (rate +ℤ s) (omega (arith, none_left, r, +ℤ_parts rate s)) in
          rw (z) (eg ∙ same, hg)
      | inr z ↦
          let some_left : 0 < current = ground arith in
          let report : IsReport (received_so_far (pos current) rate) =
            omega (arith, r, some_left) in
          elim (Bool-cases stale) [
            | inl old ↦ rw (z, old) (ap (λ x. rate +ℤ x) ea, (report, (tt, ha)))
            | inr new ↦ rw (z, new) (ap (λ x. rate +ℤ x) eg, (report, hg))
          ]
    ]

-- The lines from a tick on, when `told` messages were told of before.
abbrev Tells : ℕ → List Tick → List LogLine → Type 0
Tells told ticks lines =
    (sum_rates lines ≡ pos (last_total told (totals ticks)) -ℤ pos told) × All IsReport lines

log-Tells :
    (reset_after : ℤ) (ticks : List Tick) (baseline previous told : ℕ)
    → baseline + previous ≡ told
    → Rising told (totals ticks)
    → Tells told ticks (subscribe_log reset_after baseline (pos previous) ticks)
unfolding subscribe_log
log-Tells reset_after [] baseline previous told e h =
    (eq_of_parts _ _ (omega (arith, -ℤ_parts (pos told) (pos told))), tt)
log-Tells reset_after (tick ∷ ticks) baseline previous told e (h, rising) =
    let received = tick.received in
    let current = received - baseline in
    let is_current : pos received -ℤ pos baseline ≡ pos current =
      eq_of_parts (pos received -ℤ pos baseline) (pos current)
        (omega (arith, h, e, -ℤ_parts (pos received) (pos baseline))) in
    let end = last_total received (totals ticks) in
    let s = pos end -ℤ pos received in
    let grown = pos current -ℤ pos previous in
    let lines =
      tick_lines previous current tick.last_message_at tick.now reset_after
        (subscribe_log reset_after received (pos 0) ticks)
        (subscribe_log reset_after baseline (pos current) ticks) s (omega (arith, h, e))
        (log-Tells reset_after ticks received 0 received (omega arith) rising)
        (log-Tells reset_after ticks baseline current received (omega (arith, h, e)) rising) in
    let adds : grown +ℤ s ≡ pos end -ℤ pos told = eq_of_parts (grown +ℤ s) (pos end -ℤ pos told) (
      omega (
        arith,
        h,
        e,
        +ℤ_parts grown s,
        -ℤ_parts (pos current) (pos previous),
        -ℤ_parts (pos end) (pos received),
        -ℤ_parts (pos end) (pos told),
      )) in
    rw (is_current) (lines.0 ∙ adds, lines.1)

-- However often --reset-after resets the count, the rates in the lines of sub --disable-bar add up to
-- the number received at the last tick: each message is in the rate of exactly one line. Each line
-- tells of at least one message, and no rate is negative.
pub subscribe_log_adds_up :
    (reset_after : ℤ) (ticks : List Tick)
    → Rising 0 (totals ticks)
    → let lines = subscribe_log reset_after 0 (pos 0) ticks in
      (sum_rates lines ≡ pos (last_total 0 (totals ticks))) × All IsReport lines
subscribe_log_adds_up reset_after ticks rising =
    let t = log-Tells reset_after ticks 0 0 0 refl rising in (t.0 ∙ minus_zero _, t.1)
