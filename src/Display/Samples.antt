-- ===== src/Display/Samples.antt =====
-- The samples of a total add up to it (internal/mqttload/publish_stats.go, internal/display).
use mqtt_load_generator.Base.{
  ℕ, ◌≤◌, ◌≡◌, Bool, ℤ, pos, ◌-ℤ◌, ◌+ℤ◌, ◌≤ℤ◌, List, [], ◌∷◌, ◌++◌, length, refl, ap, ◌∙◌, arith,
}
use mqtt_load_generator.Base.Int.{pos_part, neg_part, +ℤ_parts, -ℤ_parts, eq_of_parts}
use mqtt_load_generator.Base.Text.{All}
use mqtt_load_generator.Display.{growth_per_interval, sample_total, publish_bar, connect_bar}

abbrev pub sum : List ℤ → ℤ
sum [] = pos 0
sum (i ∷ is) = i +ℤ sum is

-- The last total, or the one before the first.
abbrev pub last_total : ℕ → List ℕ → ℕ
last_total previous [] = previous
last_total previous (total ∷ ticks) = last_total total ticks

-- The totals never fall.
abbrev pub Rising : ℕ → List ℕ → Type 0
Rising previous [] = Unit
Rising previous (total ∷ ticks) = (previous ≤ total) × Rising total ticks

sum-growth :
    (previous : ℕ) (ticks : List ℕ)
    → sum (growth_per_interval previous ticks) ≡ pos (last_total previous ticks) -ℤ pos previous
unfolding growth_per_interval
sum-growth previous [] = eq_of_parts _ _ (omega (arith, -ℤ_parts (pos previous) (pos previous)))
sum-growth previous (total ∷ ticks) =
    let first = pos total -ℤ pos previous in
    let rest = sum (growth_per_interval total ticks) in
    let last = pos (last_total total ticks) in
    let e = sum-growth total ticks in
    eq_of_parts (first +ℤ rest) (last -ℤ pos previous) (
      omega (
        arith,
        +ℤ_parts first rest,
        -ℤ_parts (pos total) (pos previous),
        -ℤ_parts last (pos previous),
        -ℤ_parts last (pos total),
        ap pos_part e,
        ap neg_part e,
      ))

length-growth :
    (previous : ℕ) (ticks : List ℕ) → length (growth_per_interval previous ticks) ≡ length ticks
unfolding growth_per_interval
length-growth previous [] = refl
length-growth previous (total ∷ ticks) = omega (arith, length-growth total ticks)

growth_positive :
    (previous : ℕ) (ticks : List ℕ)
    → Rising previous ticks
    → All (λ i. pos 0 ≤ℤ i) (growth_per_interval previous ticks)
unfolding growth_per_interval
growth_positive previous [] h = tt
growth_positive previous (total ∷ ticks) (h, rising) =
    (omega (arith, -ℤ_parts (pos total) (pos previous)), growth_positive total ticks rising)

pub last_total-snoc :
    (previous : ℕ) (ticks : List ℕ) (total : ℕ)
    → last_total previous (ticks ++ (total ∷ [])) ≡ total
last_total-snoc previous [] total = refl
last_total-snoc previous (t ∷ ticks) total = last_total-snoc t ticks total

pub minus_zero : (n : ℕ) → pos n -ℤ pos 0 ≡ pos n
minus_zero n = eq_of_parts _ _ (omega (arith, -ℤ_parts (pos n) (pos 0)))

-- `sampleTotal` returns one sample for each tick, and they add up to the total at the last tick; for
-- a total that never falls none of them is negative. The bar of pub ends at the number published
-- when the run was done, and the connect bar at the number connected when connecting was over.
pub samples_add_up :
    (ticks : List ℕ) (at_end : ℕ) (connect_failed : Bool)
    → (length (sample_total ticks) ≡ length ticks)
      × (sum (sample_total ticks) ≡ pos (last_total 0 ticks))
      × (Rising 0 ticks → All (λ i. pos 0 ≤ℤ i) (sample_total ticks))
      × (sum (publish_bar ticks at_end) ≡ pos at_end)
      × (sum (connect_bar ticks at_end connect_failed).0 ≡ pos at_end)
samples_add_up ticks at_end connect_failed =
    let whole = ticks ++ (at_end ∷ []) in
    let ends : sum (growth_per_interval 0 whole) ≡ pos at_end =
      sum-growth 0 whole
      ∙ minus_zero (last_total 0 whole)
      ∙ ap pos (last_total-snoc 0 ticks at_end) in
    (
      length-growth 0 ticks,
      sum-growth 0 ticks ∙ minus_zero (last_total 0 ticks),
      growth_positive 0 ticks,
      ends,
      ends,
    )
