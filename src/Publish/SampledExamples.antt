-- ===== src/Publish/SampledExamples.antt =====
-- A test of the sampler: two clients of one message, one of which is acked before the only tick.
use mqtt_load_generator.Base.{◌≡◌, ◌≤ℤ◌, false, pos, [], ◌∷◌, length, total, refl, arith}
use mqtt_load_generator.Base.Text.{All}
use mqtt_load_generator.Display.{sample_total}
use mqtt_load_generator.Display.Samples.{sum}
use mqtt_load_generator.Publish.Client.{Outcome, start, take_slot, publish, count_result}
use mqtt_load_generator.Publish.Steps.{acquires, publishes, counts}
use mqtt_load_generator.Publish.Sampler.{Sampled, SampledRun}
use mqtt_load_generator.Publish.Readings.{acked_so_far}
use mqtt_load_generator.Publish.Sampled.{intervals_within}
use mqtt_load_generator.Publish.Counting.{counting, Count}
use mqtt_load_generator.Publish.RunExamples.{one_message}

record Sampling : Type 0 where
  now : Sampled Count
  run : SampledRun counting one_message false 2 now

-- The second client is acked between the two reads of the snapshot, and the first one after it.
unfoldable one_tick : Sampling
unfolding start take_slot publish count_result
one_tick = record {
  now = _;
  run =
      SampledRun.samples
        (SampledRun.reads _
          (SampledRun.works 1 _ _
            (SampledRun.reads _
              (SampledRun.works 1 _ _
                (SampledRun.works 1 _ _ SampledRun.begin refl (acquires 0 10 0 _ refl refl)) refl
                (publishes 0 10 refl))
              refl)
            refl (counts [] [] 10 (Outcome.acked (pos 250)) refl))
          refl)
        refl;
}

one_tick-ticks : (one_tick.now.ticks ≡ 1 ∷ []) × (total acked_so_far one_tick.now.clients ≡ 1)
unfolding one_tick start take_slot publish count_result
one_tick-ticks = (refl, refl)

intervals_within_example :
    let r = one_tick.now in
    (length (sample_total r.ticks) ≡ length r.ticks)
    × All (λ i. pos 0 ≤ℤ i) (sample_total r.ticks)
    × (sum (sample_total r.ticks) ≤ℤ pos (total acked_so_far r.clients))
intervals_within_example =
    intervals_within counting one_message false (omega arith) (omega arith) one_tick.run
