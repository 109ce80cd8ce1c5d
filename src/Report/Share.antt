-- ===== src/Report/Share.antt =====
-- `buildInflightWait` of publish_report.go: the share of the run that clients wait for a free slot.
use mqtt_load_generator.Base.{
  ◌^◌, ◌<◌, ◌==◌, ℤ, pos, List, [], ◌∷◌, length, Bool-cases, inl, inr, arith,
}
use mqtt_load_generator.Base.Text.{All}
use mqtt_load_generator.Base.Floats.{Float64, IsIeee, IsNumber, Fits, ◌≼◌}
use mqtt_load_generator.Publish.Stats.{ClientStats, PublishStats}
use mqtt_load_generator.Report.Publish.{
  is_positive, total_wait_seconds, clamp_share, wait_share, build_inflight_wait,
}

module _ {W : Type 0} ⦃float64 : Float64 W⦄ (ieee : IsIeee W) where
  open float64 use {nought, float, seconds, mul, smaller, larger}

  total_wait-IsNumber :
      (sum : W) (clients : List ClientStats)
      → IsNumber sum
      → All (λ client. Fits client.inflight_wait) clients
      → IsNumber (total_wait_seconds sum clients)
  total_wait-IsNumber sum [] h fits = h
  total_wait-IsNumber sum (client ∷ clients) h fits =
      total_wait-IsNumber (float64.add sum (seconds client.inflight_wait)) clients
        (ieee.add-IsNumber sum (seconds client.inflight_wait) h
          (ieee.seconds-Moderate client.inflight_wait fits.0))
        fits.1

  clamp_share_lem :
      (share : W)
      → IsNumber share
      → (nought ≼ clamp_share share) × (clamp_share share ≼ float (pos 1))
  clamp_share_lem share h =
      let zero_number = ieee.number_of_moderate nought ieee.nought-Moderate in
      let one_number = (ieee.numbers_of_le nought (float (pos 1)) ieee.zero_le_one).1 in
      let above = (ieee.larger-IsUpper share nought h zero_number).1 in
      let number = (ieee.numbers_of_le nought (larger share nought) above).1 in
      (
        ieee.smaller-IsGreatest (larger share nought) (float (pos 1)) nought above ieee.zero_le_one,
        (ieee.smaller-IsLower (larger share nought) (float (pos 1)) number one_number).1,
      )

  -- Where the waits, the number of clients and the elapsed time fit into an int64, the share of the run
  -- time spent waiting is a number between 0 and 1.
  pub share_in_range :
      (stats : PublishStats) (elapsed : ℤ)
      → All (λ client. Fits client.inflight_wait) stats.clients
      → length stats.clients < 2 ^ 63
      → Fits elapsed
      → let share : W = (build_inflight_wait stats elapsed).share_of_run_time in
        (nought ≼ share) × (share ≼ float (pos 1))
  unfolding build_inflight_wait
  share_in_range stats elapsed waits few fits =
      let zero_number = ieee.number_of_moderate nought ieee.nought-Moderate in
      elim (Bool-cases (is_positive elapsed)) [
        | inr e ↦ rw (e) (zero_number, ieee.zero_le_one)
        | inl e ↦ elim (Bool-cases (length stats.clients == 0)) [
          | inl empty ↦ rw (e, empty) (zero_number, ieee.zero_le_one)
          | inr full ↦
              let n = pos (length stats.clients) in
              let (positive, moderate) =
                ieee.product n elapsed (ground arith) fits (ground (arith, full))
                  (ground (arith, e)) in
              rw (e, full)
                (clamp_share_lem (wait_share stats.clients elapsed) (
                  ieee.div-IsNumber (total_wait_seconds nought stats.clients)
                    (mul (float n) (seconds elapsed))
                    (total_wait-IsNumber nought stats.clients zero_number waits) moderate positive))
        ]
      ]
