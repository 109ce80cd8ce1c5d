-- ===== src/Pacer.antt =====
-- internal/mqttload/pacer.go: the wait between two messages of a client.
pub mod Waits
mod Examples
use mqtt_load_generator.Base.{ℕ, ◌==◌, if◌then◌else◌, Bool, true, false, ℤ, pos, ltb_ℤ, ◌≡◌}
use mqtt_load_generator.Base.Text.{Bytes, codes, same}
use mqtt_load_generator.Base.Floats.{Float64, ◌≼◌}

-- `rand.Rand` of math/rand/v2, by its states of type R.
pub record Random (R W : Type 0) : Type 0 where
  pub norm_float64 : R → R × W
  pub uniform : R → R × W  -- `Float64`

-- `Float64` returns a number between 0 and 1.
abbrev pub IsUniform : {R W : Type 0} ⦃float64 : Float64 W⦄ → Random R W → Type 0
IsUniform {R = R} ⦃float64⦄ random =
    (r : R)
    → (float64.nought ≼ (random.uniform r).1) × ((random.uniform r).1 ≼ float64.float (pos 1))

pub record Pacer (R : Type 0) : Type 0 where
  pub schedule : Bytes
  pub interval_milliseconds : ℕ
  pub random : R

abbrev pub new_pacer : {R : Type 0} → Bytes → ℕ → R → Pacer R
new_pacer schedule interval_milliseconds random = record {
  schedule = schedule;
  interval_milliseconds = interval_milliseconds;
  random = random;
}

-- The `select` of `wait`: which of its two channels it took.
pub data Selected : Type 0 where
  timer_fired context_done : Selected

abbrev pub waited_fully : Selected → Bool
waited_fully timer_fired = true
waited_fully context_done = false

module _ {W : Type 0} ⦃float64 : Float64 W⦄ where
  open float64 use {nought, float, truncate, add, mul, div, lt}

  abbrev pub normal_milliseconds : W → W → W
  normal_milliseconds interval sample =
      let milliseconds = add interval (div (mul interval sample) (float (pos 2))) in
      if lt milliseconds nought then nought else milliseconds

  abbrev pub random_milliseconds : W → W → W
  random_milliseconds interval sample = mul (mul interval (float (pos 2))) sample

  -- `time.Duration(milliseconds * float64(time.Millisecond))`
  abbrev pub to_duration : W → ℤ
  to_duration milliseconds = truncate (mul milliseconds (float (pos 1_000_000)))

  module _ {R : Type 0} (random : Random R W) where
    -- The `switch` on the schedule, with the random source behind it.
    abbrev pub scheduled : Pacer R → R × W
    scheduled pacer =
        let interval = float (pos pacer.interval_milliseconds) in
        if same pacer.schedule (codes "normal")
        then (
          (random.norm_float64 pacer.random).0,
          normal_milliseconds interval (random.norm_float64 pacer.random).1,
        )
        else if same pacer.schedule (codes "random")
        then (
          (random.uniform pacer.random).0,
          random_milliseconds interval (random.uniform pacer.random).1,
        )
        else (pacer.random, interval)

    -- The pacer with its random source behind the call, and the wait.
    unfoldable pub next : Pacer R → Pacer R × ℤ
    next pacer =
        if pacer.interval_milliseconds == 0
        then (pacer, pos 0)
        else (record pacer { random = (scheduled pacer).0 }, to_duration (scheduled pacer).1)

    -- `wait`, with what its `select` takes if it gets there.
    unfoldable pub wait : Pacer R → Selected → Pacer R × Bool
    unfolding next
    wait pacer selected =
        let (pacer, duration) = next pacer in
        (pacer, if ltb_ℤ (pos 0) duration then waited_fully selected else true)
