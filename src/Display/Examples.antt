-- ===== src/Display/Examples.antt =====
-- Tests of the samples and of the log lines of sub: two messages, a pause with a reset, one message.
use mqtt_load_generator.Base.{ℕ, ◌≡◌, false, pos, ◌≤ℤ◌, List, [], ◌∷◌, length, refl, arith}
use mqtt_load_generator.Base.Int.{◌-ℤ◌}
use mqtt_load_generator.Base.Text.{All}
use mqtt_load_generator.Display.{
  sample_total, publish_bar, connect_bar, Tick, build_rate_report, received_so_far, resetting,
  subscribe_log,
}
use mqtt_load_generator.Display.Samples.{sum, Rising, samples_add_up}
use mqtt_load_generator.Display.Log.{sum_rates, IsReport, subscribe_log_adds_up}

abbrev pause : List Tick
pause =
    record { received = 2; last_message_at = 5; now = 10 }
    ∷ record { received = 2; last_message_at = 5; now = 50 }
    ∷ record { received = 2; last_message_at = 5; now = 60 }
    ∷ record { received = 3; last_message_at = 65; now = 70 }
    ∷ []

pause_lines :
    subscribe_log (pos 30) 0 (pos 0) pause
    ≡ received_so_far (pos 2) (pos 2)
      ∷ received_so_far (pos 2) (pos 0)
      ∷ resetting
      ∷ received_so_far (pos 1) (pos 1)
      ∷ []
unfolding subscribe_log build_rate_report ◌-ℤ◌
pause_lines = refl

subscribe_log_adds_up_example :
    let lines = subscribe_log (pos 30) 0 (pos 0) pause in
    (sum_rates lines ≡ pos 3) × All IsReport lines
subscribe_log_adds_up_example = subscribe_log_adds_up (pos 30) pause (omega arith)

samples_add_up_test :
    let ticks : List ℕ = 4 ∷ 9 ∷ 9 ∷ [] in
    (length (sample_total ticks) ≡ 3)
    × (sum (sample_total ticks) ≡ pos 9)
    × (Rising 0 ticks → All (λ i. pos 0 ≤ℤ i) (sample_total ticks))
    × (sum (publish_bar ticks 12) ≡ pos 12)
    × (sum (connect_bar ticks 12 false).0 ≡ pos 12)
samples_add_up_test = samples_add_up (4 ∷ 9 ∷ 9 ∷ []) 12 false
