-- ===== src/Pacer/Waits.antt =====
-- How long a pacer waits, for each schedule.
use mqtt_load_generator.Base.{
  ℕ, ◌*◌, ◌^◌, ◌≤◌, ◌<◌, ◌≡◌, ◌↔◌, ◌⊎◌, inl, inr, ◌==◌, false, pos, Bool-cases, refl, ap, subst,
  ◌∙◌, arith,
}
use mqtt_load_generator.Base.Text.{codes, same}
use mqtt_load_generator.Base.Floats.{Float64, IsIeee, IsExact, IsMonotone, ◌≼◌, le_of_not_lt}
use mqtt_load_generator.Pacer.{
  Random, IsUniform, Pacer, Selected, context_done, random_milliseconds, scheduled, to_duration,
  next, wait, normal_milliseconds,
}

module _ {W : Type 0} ⦃float64 : Float64 W⦄ {R : Type 0} (random : Random R W) where
  open float64 use {nought, float}

  same_random_source :
      (pacer : Pacer R) (r : R) → r ≡ pacer.random → record pacer { random = r } ≡ pacer
  same_random_source pacer r e = ap (λ (r : R). record pacer { random = r }) e

  -- The `next` of a pacer with an interval.
  next-scheduled :
      (pacer : Pacer R) (r : R) (x : W)
      → (pacer.interval_milliseconds == 0) ≡ false
      → scheduled random pacer ≡ (r, x)
      → next random pacer ≡ (record pacer { random = r }, to_duration x)
  unfolding next
  next-scheduled pacer r x some_interval e =
      rw (some_interval) (ap (λ p. (record pacer { random = p.0 }, to_duration p.1)) e)

  flat_next :
      IsExact W
      → (pacer : Pacer R) → pacer.interval_milliseconds * 1_000_000 ≤ 2 ^ 53
      → (pacer.interval_milliseconds ≡ 0)
        ⊎ ((same pacer.schedule (codes "normal") ≡ false)
            × (same pacer.schedule (codes "random") ≡ false))
      → next random pacer ≡ (pacer, pos (pacer.interval_milliseconds * 1_000_000))
  unfolding next
  flat_next exact pacer short (inl none) = rw (none) refl
  flat_next exact pacer short (inr (not_normal, not_random)) =
      elim (Bool-cases (pacer.interval_milliseconds == 0)) [
        | inl none ↦ let e : pacer.interval_milliseconds ≡ 0 = ground (arith, none) in rw (e) refl
        | inr some_interval ↦
            let n = pacer.interval_milliseconds in
            next-scheduled pacer pacer.random (float (pos n)) some_interval
              (rw (not_normal, not_random) refl)
            ∙ ap (λ d. (pacer, d))
                (ap float64.truncate (exact.mul_exact n 1_000_000 (omega arith) (omega arith) short)
                  ∙ exact.truncate-float (n * 1_000_000) short)
      ]

  -- Without an interval a pacer waits for nothing, and with a schedule other than `normal` and
  -- `random` for exactly the interval, where that is at most 2^53 ns; neither draws a random number.
  -- `wait` reports that it did not wait to the end exactly if there is an interval and the context was
  -- cancelled first. Of float64 this takes that whole numbers up to 2^53 are
  -- exact.
  pub flat_wait :
      IsExact W
      → (pacer : Pacer R) (selected : Selected) → pacer.interval_milliseconds * 1_000_000 ≤ 2 ^ 53
      → (pacer.interval_milliseconds ≡ 0)
        ⊎ ((same pacer.schedule (codes "normal") ≡ false)
            × (same pacer.schedule (codes "random") ≡ false))
      → (next random pacer ≡ (pacer, pos (pacer.interval_milliseconds * 1_000_000)))
        × ((wait random pacer selected).0 ≡ pacer)
        × (((wait random pacer selected).1 ≡ false)
            ↔ ((0 < pacer.interval_milliseconds) × (selected ≡ context_done)))
  unfolding wait
  flat_wait exact pacer selected short kind =
      let e = flat_next exact pacer short kind in (e, rw (e) refl, rw (e) (ground arith))

module _ {W : Type 0} ⦃float64 : Float64 W⦄ (ieee : IsIeee W) (exact : IsExact W)
    (monotone : IsMonotone W) where
  open float64 use {nought, float, add, mul, div, lt}

  float_refl : (n : ℕ) → n ≤ 2 ^ 53 → float (pos n) ≼ float (pos n)
  float_refl n h = (ieee.numbers_of_le nought (float (pos n)) (monotone.float_nonneg n h)).1

  bounded_duration :
      (x : W) (n : ℕ)
      → n * 1_000_000 ≤ 2 ^ 53
      → nought ≼ x
      → x ≼ float (pos n)
      → (n' : ℕ) × (to_duration x ≡ pos n') × (n' ≤ n * 1_000_000)
  bounded_duration x n short low high =
      let million : W = float (pos 1_000_000) in
      let bounds =
        monotone.mul_mono x million n 1_000_000 (omega arith) (omega arith) low high
          (monotone.float_nonneg 1_000_000 (omega arith)) (float_refl 1_000_000 (omega arith)) in
      let whole = exact.mul_exact n 1_000_000 (omega arith) (omega arith) short in
      monotone.truncate_bounds (mul x million) (n * 1_000_000) short bounds.0
        (subst (λ y. mul x million ≼ y) whole bounds.1)

  random_bounds :
      (n : ℕ) (sample : W)
      → n * 2 ≤ 2 ^ 53
      → nought ≼ sample
      → sample ≼ float (pos 1)
      → let x = random_milliseconds (float (pos n)) sample in
        (nought ≼ x) × (x ≼ float (pos (n * 2)))
  random_bounds n sample short low high =
      let twice = exact.mul_exact n 2 (omega arith) (omega arith) short in
      let bounds =
        monotone.mul_mono (float (pos (n * 2))) sample (n * 2) 1 short (omega arith)
          (monotone.float_nonneg (n * 2) short) (float_refl (n * 2) short) low high in
      let once : n * 2 * 1 ≡ n * 2 = omega arith in
      let one =
        exact.mul_exact (n * 2) 1 short (omega arith) (omega arith)
        ∙ ap (λ k. float (pos k)) once in
      rw (random_milliseconds, twice)
        (bounds.0, subst (λ y. mul (float (pos (n * 2))) sample ≼ y) one bounds.1)

  normal_bounds :
      (n : ℕ) (interval sample : W)
      → n ≤ 2 ^ 53
      → add interval (div (mul interval sample) (float (pos 2))) ≼ float (pos n)
      → let x = normal_milliseconds interval sample in (nought ≼ x) × (x ≼ float (pos n))
  normal_bounds n interval sample short high =
      let m = add interval (div (mul interval sample) (float (pos 2))) in
      let zero_number = ieee.number_of_moderate nought ieee.nought-Moderate in
      elim (Bool-cases (lt m nought)) [
        | inl e ↦ rw (e) (zero_number, monotone.float_nonneg n short)
        | inr e ↦
            let number = (ieee.numbers_of_le m (float (pos n)) high).0 in
            rw (e) (le_of_not_lt ieee m nought number zero_number e, high)
      ]

  module _ {R : Type 0} (random : Random R W) (pacer : Pacer R) where
    -- With an interval and the random schedule, where twice the interval is at most 2^53 ns, a pacer
    -- draws one number and waits between no time and twice the interval. With the normal schedule,
    -- where the drawn wait is a number of at most `limit` ms and that is at most 2^53 ns, it draws one
    -- number and waits between no time and the limit: a number below 0 is no wait.
    -- Of float64 this takes the laws of its order, and of products and conversions up to 2^53; of the
    -- random source, that `Float64` is between 0 and 1.
    pub drawn_wait :
        IsUniform random
        → 0 < pacer.interval_milliseconds
        → let interval = float (pos pacer.interval_milliseconds) in
          (pacer.schedule ≡ codes "random"
            → pacer.interval_milliseconds * 2 * 1_000_000 ≤ 2 ^ 53
            → let drawn = record pacer { random = (random.uniform pacer.random).0 } in
              (n : ℕ) × (next random pacer ≡ (drawn, pos n))
              × (n ≤ pacer.interval_milliseconds * 2 * 1_000_000))
          × (pacer.schedule ≡ codes "normal"
              → (limit : ℕ) → limit * 1_000_000 ≤ 2 ^ 53
              → (let sample = (random.norm_float64 pacer.random).1 in
                  add interval (div (mul interval sample) (float (pos 2))) ≼ float (pos limit))
              → let drawn = record pacer { random = (random.norm_float64 pacer.random).0 } in
                (n : ℕ) × (next random pacer ≡ (drawn, pos n)) × (n ≤ limit * 1_000_000))
    drawn_wait uniform some_interval =
        let n = pacer.interval_milliseconds in
        let interval = float (pos n) in
        let paced : (n == 0) ≡ false = ground arith in
        (
          λ kind short.
              let (r, sample) = random.uniform pacer.random in
              let (low, high) = uniform pacer.random in
              let (low, high) = random_bounds n sample (omega arith) low high in
              let (d, e, bound) =
                bounded_duration (random_milliseconds interval sample) (n * 2) short low high in
              (
                d,
                next-scheduled random pacer r (random_milliseconds interval sample) paced
                      (rw (kind) refl)
                    ∙ ap (λ d. (record pacer { random = r }, d)) e,
                bound,
              ),
          λ kind limit short high.
              let (r, sample) = random.norm_float64 pacer.random in
              let (low, high) = normal_bounds limit interval sample (omega arith) high in
              let (d, e, bound) =
                bounded_duration (normal_milliseconds interval sample) limit short low high in
              (
                d,
                next-scheduled random pacer r (normal_milliseconds interval sample) paced
                      (rw (kind) refl)
                    ∙ ap (λ d. (record pacer { random = r }, d)) e,
                bound,
              ),
        )
