-- ===== src/Pacer/Examples.antt =====
-- Tests of the pacer, with fixed-point numbers and random numbers read from a list.
use mqtt_load_generator.Base.{ℕ, ◌+◌, ◌*◌, ◌^◌, ◌≡◌, ◌≤◌, ◌<◌, ◌↔◌, inr, false, pos, refl, arith}
use mqtt_load_generator.Base.Text.{codes}
use mqtt_load_generator.Base.Floats.{◌≼◌}
use mqtt_load_generator.Base.FixedPoint.{
  Billionths, billionths, billionths-IsIeee, billionths-IsExact, billionths-IsMonotone, finite,
  infinite, nan,
}
use mqtt_load_generator.Pacer.{Random, IsUniform, Pacer, new_pacer, context_done, next, wait}
use mqtt_load_generator.Pacer.Waits.{flat_wait, drawn_wait}

-- As with a float64, products do not grow with their factors up to infinity.
zero_times_infinite : billionths.mul (finite 0) infinite ≡ nan
zero_times_infinite = refl

-- Every number is a quarter.
abbrev quarters : Random ℕ Billionths
quarters = record {
  norm_float64 = λ r. (r + 1, finite 250_000_000);
  uniform = λ r. (r + 1, finite 250_000_000);
}

quarters-IsUniform : IsUniform quarters
quarters-IsUniform r = (refl, refl)

abbrev flat : Pacer ℕ
flat = new_pacer (codes "flat") 20 0

flat_wait_example :
    (next quarters flat ≡ (flat, pos 20_000_000))
    × ((wait quarters flat context_done).0 ≡ flat)
    × (((wait quarters flat context_done).1 ≡ false) ↔ ((0 < 20) × (context_done ≡ context_done)))
flat_wait_example =
    flat_wait quarters billionths-IsExact flat context_done (omega arith) (inr (refl, refl))

abbrev drawing : Pacer ℕ
drawing = new_pacer (codes "random") 20 0

-- Half the interval, which is 10 ms.
half_interval : next quarters drawing ≡ (record drawing { random = 1 }, pos 10_000_000)
unfolding next
half_interval = refl

drawn_wait_example :
    (drawing.schedule ≡ codes "random"
      → 20 * 2 * 1_000_000 ≤ 2 ^ 53
      → (n : ℕ) × (next quarters drawing ≡ (record drawing { random = 1 }, pos n))
        × (n ≤ 20 * 2 * 1_000_000))
    × (drawing.schedule ≡ codes "normal"
        → (limit : ℕ) → limit * 1_000_000 ≤ 2 ^ 53
        → finite 22_500_000_000 ≼ billionths.float (pos limit)
        → (n : ℕ) × (next quarters drawing ≡ (record drawing { random = 1 }, pos n))
          × (n ≤ limit * 1_000_000))
drawn_wait_example =
    drawn_wait billionths-IsIeee billionths-IsExact billionths-IsMonotone quarters drawing
      quarters-IsUniform (omega arith)
