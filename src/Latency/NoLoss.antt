-- ===== src/Latency/NoLoss.antt =====
-- No record is lost when goroutines race to install a chunk (internal/mqttload/latency_buckets.go).
use mqtt_load_generator.Base.{
  ℕ, ◌+◌, ◌<◌, ◌^◌, ◌≡◌, ◌==◌, not, false, List, [], ◌∷◌, ◌++◌, Option, none, some, total, flag,
  weigh, refl, subst, arith,
}
use mqtt_load_generator.Latency.Race.{
  RecordStage, loading, installing, reloading, adding, Recorder, SlotState, move_to, loaded,
  reloaded, load_chunk, install_chunk, reload_chunk, add_in_chunk, loads, installs, reloads, adds,
  Race, begin, calls, later, calls_at,
}

abbrev pub due_at : ℕ → Recorder → ℕ
due_at i r = flag (r.offset == i)

-- 1 for a recorder that would use a chunk other than the slot's.
abbrev astray : Option ℕ → RecordStage → ℕ
astray none (adding address) = 1
astray none reloading = 1
astray (some slot) (adding address) = flag (not (address == slot))
astray _ _ = 0

abbrev astray_of : Option ℕ → Recorder → ℕ
astray_of slot r = astray slot r.stage

abbrev pub counted : Option ℕ → (ℕ → ℕ → ℕ) → ℕ → ℕ
counted none heap i = 0
counted (some address) heap i = heap address i

record Inv (calls : ℕ → ℕ) (s : SlotState) : Type 0 where
  together : total (astray_of s.slot) s.recorders ≡ 0
  all : (i : ℕ) → counted s.slot s.heap i + total (due_at i) s.recorders ≡ calls i
  safe : s.panicked ≡ false

-- Recorders that are not adding or reloading are astray of no slot.
total_install :
    (slot : ℕ) (rs : List Recorder)
    → total (astray_of none) rs ≡ 0
    → total (astray_of (some slot)) rs ≡ 0
total_install slot [] h = refl
total_install slot (r ∷ rs) h =
    let rest = total_install slot rs (omega (arith, h)) in
    let here = one_install slot r.stage (omega (arith, h)) in omega (arith, rest, here)
  where
    one_install : (slot : ℕ) (t : RecordStage) → astray none t ≡ 0 → astray (some slot) t ≡ 0
    one_install slot loading h = refl
    one_install slot installing h = refl
    one_install slot reloading h = refl
    one_install slot (adding a) h = ground (arith, h)

loaded_fine : (slot : Option ℕ) → astray slot (loaded slot) ≡ 0
loaded_fine none = refl
loaded_fine (some address) = ground arith

loads-Inv :
    (n : ℕ → ℕ) (s : SlotState) (before after : List Recorder) (r : Recorder)
    → s.recorders ≡ before ++ (r ∷ after)
    → Inv n s
    → Inv n (load_chunk before r after s)
unfolding load_chunk
loads-Inv n s before after r e v =
    let moved = move_to r (loaded s.slot) in
    let u = weigh (astray_of s.slot) s.recorders before r moved after e in
    record {
      together = omega (arith, u, v.together, loaded_fine s.slot);
      all = λ i.
          let w = weigh (due_at i) s.recorders before r moved after e in omega (arith, w, v.all i);
      safe = v.safe;
    }

installs-Inv :
    (n : ℕ → ℕ) (s : SlotState) (slot : Option ℕ) (before after : List Recorder) (r : Recorder)
    → s.slot ≡ slot
    → s.recorders ≡ before ++ (r ∷ after)
    → r.stage ≡ installing
    → Inv n s
    → Inv n (install_chunk before r after s)
unfolding install_chunk
installs-Inv n s none before after r m e q v =
    let slot : Option ℕ = some s.fresh in
    let moved = move_to r (adding s.fresh) in
    let idle = subst (λ o. total (astray_of o) s.recorders ≡ 0) m v.together in
    let u = weigh (astray_of slot) s.recorders before r moved after e in
    rw (m) (record {
      together = omega (arith, u, total_install s.fresh s.recorders idle, loaded_fine slot);
      all = λ i.
          let w = weigh (due_at i) s.recorders before r moved after e in
          let a = v.all i in ground (arith, w, a, m);
      safe = v.safe;
    })
installs-Inv n s (some address) before after r m e q v =
    let moved = move_to r reloading in
    let u = weigh (astray_of (some address)) s.recorders before r moved after e in
    let idle = subst (λ o. total (astray_of o) s.recorders ≡ 0) m v.together in
    rw (m) (record {
      together = omega (arith, u, idle);
      all = λ i.
          let w = weigh (due_at i) s.recorders before r moved after e in
          let a = v.all i in ground (arith, w, a, m);
      safe = v.safe;
    })

reloads-Inv :
    (n : ℕ → ℕ) (s : SlotState) (slot : Option ℕ) (before after : List Recorder) (r : Recorder)
    → s.slot ≡ slot
    → s.recorders ≡ before ++ (r ∷ after)
    → r.stage ≡ reloading
    → Inv n s
    → Inv n (reload_chunk before r after s)
unfolding reload_chunk
reloads-Inv n s slot before after r m e q v =
    let moved = move_to r (reloaded s.slot) in
    let u = weigh (astray_of s.slot) s.recorders before r moved after e in
    record {
      together = ground (arith, m, u, v, q);
      all = λ i.
          let w = weigh (due_at i) s.recorders before r moved after e in omega (arith, w, v.all i);
      safe = ground (arith, m, u, v, q);
    }

adds-Inv :
    (n : ℕ → ℕ) (s : SlotState) (address : ℕ) (before after : List Recorder) (r : Recorder)
    → ((i : ℕ) → n i < 2 ^ 64)
    → s.recorders ≡ before ++ (r ∷ after)
    → r.stage ≡ adding address
    → Inv n s
    → Inv n (add_in_chunk address before r after s)
unfolding add_in_chunk
adds-Inv n s address before after r few e q v =
    let u = weigh (astray_of s.slot) s.recorders before r [] after e in
    record {
      together = omega (arith, u, v.together);
      all = λ i.
          let w = weigh (due_at i) s.recorders before r [] after e in
          let a = v.all i in let f = few i in ground (arith, w, a, f, u, v.together, q);
      safe = v.safe;
    }

start_fine :
    (slot : Option ℕ) (rs : List Recorder) (offset : ℕ)
    → total (astray_of slot) rs ≡ 0
    → total (astray_of slot) (record { offset = offset; stage = loading } ∷ rs) ≡ 0
start_fine none rs offset h = omega (arith, h)
start_fine (some slot) rs offset h = omega (arith, h)

Race-Inv :
    {s : SlotState} (r : Race s) → ((i : ℕ) → calls_at i r < 2 ^ 64) → Inv (λ i. calls_at i r) s
Race-Inv begin few = record { together = refl; all = λ i. refl; safe = refl }
Race-Inv (calls {s} offset r) few =
    let v = Race-Inv r (λ i. let f = few i in omega (arith, f)) in
    record {
      together = start_fine s.slot s.recorders offset v.together;
      all = λ i. let a = v.all i in omega (arith, a);
      safe = v.safe;
    }
Race-Inv (later {s} race (loads before after r e q)) few =
    loads-Inv _ s before after r e (Race-Inv race few)
Race-Inv (later {s} race (installs before after r e q)) few =
    installs-Inv _ s s.slot before after r refl e q (Race-Inv race few)
Race-Inv (later {s} race (reloads before after r e q)) few =
    reloads-Inv _ s s.slot before after r refl e q (Race-Inv race few)
Race-Inv (later {s} race (adds address before after r e q)) few =
    adds-Inv _ s address before after r few e q (Race-Inv race few)

-- However the calls of `record` on one slot interleave, no nil chunk is used, and when no call runs
-- the chunk in the slot has counted every call at its offset: none is lost when two goroutines
-- install a chunk at the same time.
pub no_record_lost :
    {s : SlotState} (r : Race s)
    → ((i : ℕ) → calls_at i r < 2 ^ 64)
    → (s.panicked ≡ false) × (s.recorders ≡ [] → (i : ℕ) → counted s.slot s.heap i ≡ calls_at i r)
no_record_lost r few =
    let v = Race-Inv r few in (v.safe, λ idle i. let a = v.all i in ground (arith, a, idle))
