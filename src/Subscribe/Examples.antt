-- ===== src/Subscribe/Examples.antt =====
-- Tests of a subscribe run: one benchmark message, and --count 1.
use mqtt_load_generator.Base.{◌≡◌, ◌<◌, ◌≤◌, refl, inr, not, true, false, [], arith}
use mqtt_load_generator.Base.Text.{codes}
use mqtt_load_generator.Subscribe.{is_zero}
use mqtt_load_generator.Subscribe.Run.{
  Callback, adding_bytes, setting_last, setting_first, timing, closing_first, closing_count,
  SubscribeRun, arrive, effect, advance, subscribe_acknowledged, stop, finish, stopping, returned,
}
use mqtt_load_generator.Subscribe.Steps.{
  Step, advances, acknowledges, selects, stops, disconnects, finishes, Reach, begin, later, message,
}
use mqtt_load_generator.Subscribe.Invariant.{timed, is_returned, has_left}
use mqtt_load_generator.Subscribe.Safety.{
  channels_closed_once, messages_accounted, count_not_early, count_wakes,
}

-- The payload is too short for a benchmark timestamp.
abbrev the_callback : Callback
the_callback = record { number = 1; now = 70; payload = codes "abc"; stage = adding_bytes }

-- The message has arrived and its callback has returned.
unfoldable pub one_counted : (s : SubscribeRun) × Reach true 1 s
unfolding arrive effect advance subscribe_acknowledged
one_counted = (
  _,
  later
      (later
        (later
          (later
            (later
              (later
                (message 70 (codes "abc") (omega arith)
                  (later begin (acknowledges 60 (omega arith) refl)))
                (advances [] [] the_callback refl))
              (advances [] [] (record the_callback { stage = setting_last }) refl))
            (advances [] [] (record the_callback { stage = setting_first }) refl))
          (advances [] [] (record the_callback { stage = timing }) refl))
        (advances [] [] (record the_callback { stage = closing_first }) refl))
      (advances [] [] (record the_callback { stage = closing_count }) refl),
)

-- And then `RunSubscribe` returns.
all_over : (s : SubscribeRun) × Reach true 1 s
unfolding one_counted arrive effect advance subscribe_acknowledged stop finish
all_over = (
  _,
  later
      (later (later (later one_counted.1 (selects refl (inr refl))) (stops 80 (omega arith) refl))
        (disconnects refl))
      (finishes 90 (omega arith) refl),
)

channels_closed_once_example :
    let s = all_over.0 in
    (s.panicked ≡ false)
    × (s.progress.done ≡ is_returned s.runner)
    × (s.runner ≡ returned → 0 < s.progress.finished_at)
unfolding all_over one_counted
channels_closed_once_example = channels_closed_once all_over.1 (omega arith) (omega arith)

messages_accounted_example :
    let s = one_counted.0 in
    (s.progress.received ≡ 1)
    × (s.progress.received_bytes ≡ 3)
    × (timed s.stats ≡ 1)
    × (is_zero s.progress.first_message_at ≡ not true)
unfolding one_counted
messages_accounted_example = messages_accounted one_counted.1 (omega arith) (omega arith) refl

count_not_early_example :
    let s = all_over.0 in
    (s.count_reached ≡ true → (0 < 1) × (1 ≤ 1))
    × (has_left s.runner ≡ true
        → 0 < s.progress.subscribed_at
        → s.cancelled ≡ false
        → (0 < 1) × (1 ≤ 1))
unfolding all_over one_counted
count_not_early_example = count_not_early all_over.1 (omega arith) (omega arith)

count_wakes_example : Step 1 one_counted.0 (record one_counted.0 { runner = stopping })
unfolding one_counted
count_wakes_example =
    count_wakes one_counted.1 (omega arith) (omega arith) (omega arith) (omega arith) refl refl
