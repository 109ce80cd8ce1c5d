-- ===== src/Latency/RaceExamples.antt =====
-- A test of the race for a chunk: both of two goroutines find the slot empty.
use mqtt_load_generator.Base.{ℕ, ◌+◌, ◌≡◌, ◌==◌, false, [], ◌∷◌, flag, refl, arith}
use mqtt_load_generator.Latency.Race.{
  loading, installing, reloading, adding, Recorder, SlotState, load_chunk, install_chunk,
  reload_chunk, add_in_chunk, loads, installs, reloads, adds, Race, begin, calls, later,
}
use mqtt_load_generator.Latency.NoLoss.{counted, no_record_lost}

abbrev at_five : Recorder
at_five = record { offset = 5; stage = loading }

abbrev found_empty : Recorder
found_empty = record at_five { stage = installing }

abbrev has_chunk : Recorder
has_chunk = record at_five { stage = adding 0 }

both_counted : (s : SlotState) × Race s
unfolding load_chunk install_chunk reload_chunk add_in_chunk
both_counted = (
  _,
  later
      (later
        (later
          (later
            (later
              (later (later (calls 5 (calls 5 begin)) (loads [] (at_five ∷ []) at_five refl refl))
                (loads (found_empty ∷ []) [] at_five refl refl))
              (installs [] (found_empty ∷ []) found_empty refl refl))
            (installs (has_chunk ∷ []) [] found_empty refl refl))
          (reloads (has_chunk ∷ []) [] (record at_five { stage = reloading }) refl refl))
        (adds 0 [] (has_chunk ∷ []) has_chunk refl refl))
      (adds 0 [] [] has_chunk refl refl),
)

no_record_lost_example :
    let s = both_counted.0 in
    (s.panicked ≡ false)
    × (s.recorders ≡ [] → (i : ℕ) → counted s.slot s.heap i ≡ flag (5 == i) + (flag (5 == i) + 0))
unfolding both_counted
no_record_lost_example = no_record_lost both_counted.1 (λ i. ground arith)
