-- ===== src/Latency/SharedTotals.antt =====
-- What the shared counters of latency_buckets.go hold in all after recordings.
use native.Mathlib.Decide.{ℕ_discrete}
use native.Mathlib.Nat.{mod-lt}
use mqtt_load_generator.Base.{
  ℕ, zero, suc, ◌+◌, ◌%◌, ◌^◌, ◌≤◌, ◌<◌, ◌≡◌, ℤ, List, [], ◌∷◌, some, get_elem?, set, length,
  replicate, total, total-set, length-set, length-replicate, get_elem?-some, get_elem?-set_ne, refl,
  sym, ap, subst, ◌∙◌, arith,
}
use mqtt_load_generator.Base.Words.{u64}
use mqtt_load_generator.Base.Text.{All, All-get_elem?, All-set, All-replicate}
use mqtt_load_generator.Latency.{
  latency_highest_microseconds, latency_counts_length, latency_counts_index,
  latency_value_for_index,
}
use mqtt_load_generator.Latency.Index.{latency_counts_index-lt, latency_precision}
use mqtt_load_generator.Latency.Counters.{
  LatencyBuckets, Histogram, add_one, record_latency, record_all, add_counts,
}
use mqtt_load_generator.Latency.Counters
use mqtt_load_generator.Latency.Shared.{
  LatencyBucketSet, set_size, new_latency_bucket_set, record_for,
}
use mqtt_load_generator.Latency.Totals.{set_size_lem}

-- Only counters of values that the histogram can hold are not 0.
abbrev pub InRange : ℕ → List ℕ → Type 0
InRange from counts =
    (i c : ℕ)
    → get_elem? counts i ≡ some c
    → 0 < c
    → latency_value_for_index (from + i) ≤ latency_highest_microseconds

abbrev pub sum_of : List ℕ → ℕ
sum_of = total λ c. c

pub record IsSound (member : LatencyBuckets) : Type 0 where
  pub size : length member.counts ≡ latency_counts_length
  pub in_range : InRange 0 member.counts

abbrev pub weight : LatencyBuckets → ℕ
weight member = sum_of member.counts

record Recorded (d : LatencyBuckets) (z : ℤ) : Type 0 where
  after : LatencyBuckets
  runs : record_latency d z ≡ some after
  sound : IsSound after
  more : weight after ≡ weight d + 1

index_in_range :
    (z : ℤ) → latency_value_for_index (latency_counts_index z) ≤ latency_highest_microseconds
index_in_range z = omega (arith, latency_precision z)

record_one : (d : LatencyBuckets) (z : ℤ) → IsSound d → weight d < 2 ^ 63 → Recorded d z
unfolding record_latency add_one
record_one d z sound few =
    let k = latency_counts_index z in
    let (c, at) =
      get_elem?-some d.counts k (omega (arith, sound.size, latency_counts_index-lt z)) in
    let ys = set d.counts k (u64 (c + 1)) in
    let added : add_one d.counts k ≡ some ys = rw (at, add_one) refl in
    let t = total-set (λ c. c) d.counts k c (u64 (c + 1)) at in
    record {
      after = record { counts = ys };
      runs = rw (added, record_latency) refl;
      sound = record {
        size = length-set d.counts k (u64 (c + 1)) ∙ sound.size;
        in_range = λ i b found positive. elim (ℕ_discrete k i) [
          | yes same ↦
              let there : k ≡ 0 + i = omega arith in
              omega (arith, index_in_range z, ap latency_value_for_index there)
          | no other ↦
              sound.in_range i b
                (sym (get_elem?-set_ne d.counts {i = k} {j = i} (u64 (c + 1)) other) ∙ found)
                positive
        ];
      };
      more = omega (arith, t);
    }

pub record Held (shared : LatencyBucketSet) (n : ℕ) : Type 0 where
  pub some_member : 0 < length shared.buckets
  pub all_sound : All IsSound shared.buckets
  pub sum : total weight shared.buckets ≡ n

record RecordedFor (shared : LatencyBucketSet) (call : ℕ × ℤ) (n : ℕ) : Type 0 where
  after : LatencyBucketSet
  runs : record_for shared call ≡ some after
  held : Held after (n + 1)

record_for_lem :
    (shared : LatencyBucketSet) (client_number : ℕ) (z : ℤ) (member recorded : LatencyBuckets)
    → let slot = client_number % length shared.buckets in
      get_elem? shared.buckets slot ≡ some member
      → record_latency member z ≡ some recorded
      → record_for shared (client_number, z)
        ≡ some (record { buckets = set shared.buckets slot recorded })
unfolding record_for
record_for_lem shared client_number z member recorded at runs = rw (record_for, at, runs) refl

record_shared :
    (shared : LatencyBucketSet) (call : ℕ × ℤ) (n : ℕ)
    → Held shared n
    → n < 2 ^ 63
    → RecordedFor shared call n
record_shared shared (client_number, z) n held few =
    let slot = client_number % length shared.buckets in
    let (member, at) = get_elem?-some shared.buckets slot (mod-lt client_number held.some_member) in
    let sound = All-get_elem? IsSound shared.buckets slot member held.all_sound at in
    let share = (total-set weight shared.buckets slot member member at).0 in
    let r = record_one member z sound (omega (arith, share, held.sum)) in
    let t = total-set weight shared.buckets slot member r.after at in
    record {
      after = record { buckets = set shared.buckets slot r.after };
      runs = record_for_lem shared client_number z member r.after at r.runs;
      held = record {
        some_member = omega (arith, length-set shared.buckets slot r.after, held.some_member);
        all_sound = All-set IsSound shared.buckets slot r.after held.all_sound r.sound;
        sum = omega (arith, t.1, r.more, held.sum);
      };
    }

sum_of-replicate : (n : ℕ) → sum_of (replicate n 0) ≡ 0
sum_of-replicate zero = refl
sum_of-replicate (suc n) = omega (arith, sum_of-replicate n)

get_zero : (n i c : ℕ) → get_elem? (replicate n 0) i ≡ some c → c ≡ 0
get_zero zero i c e = absurd (ground (arith, e))
get_zero (suc n) zero c e = ground (arith, e)
get_zero (suc n) (suc i) c e = get_zero n i c e

pub empty-IsSound : IsSound Counters.empty
unfolding Counters.empty
empty-IsSound = record {
  size = length-replicate {A = ℕ} 3328 0;
  in_range = λ i c found positive. absurd (omega (arith, get_zero 3328 i c found));
}

weight-replicate :
    (n : ℕ) (member : LatencyBuckets) → weight member ≡ 0 → total weight (replicate n member) ≡ 0
weight-replicate zero member e = refl
weight-replicate (suc n) member e = omega (arith, e, weight-replicate n member e)

pub new-Held : (procs : ℕ) → Held (new_latency_bucket_set procs) 0
unfolding new_latency_bucket_set Counters.empty
new-Held procs = record {
  some_member = omega (arith, length-replicate (set_size procs) Counters.empty, set_size_lem procs);
  all_sound = All-replicate IsSound (set_size procs) Counters.empty empty-IsSound;
  sum = weight-replicate (set_size procs) Counters.empty (sum_of-replicate 3328);
}

pub record RecordedAll (shared : LatencyBucketSet) (calls : List (ℕ × ℤ)) (n : ℕ) : Type 0 where
  pub after : LatencyBucketSet
  pub runs : record_all record_for shared calls ≡ some after
  pub held : Held after (n + length calls)

pub record_calls :
    (calls : List (ℕ × ℤ)) (shared : LatencyBucketSet) (n : ℕ)
    → Held shared n
    → n + length calls < 2 ^ 63
    → RecordedAll shared calls n
unfolding record_all
record_calls [] shared n held few = record {
  after = shared;
  runs = refl;
  held = subst (Held shared) (omega arith) held;
}
record_calls (call ∷ calls) shared n held few =
    let r = record_shared shared call n held (omega arith) in
    let rest = record_calls calls r.after (n + 1) r.held (omega arith) in
    record {
      after = rest.after;
      runs = rw (r.runs, record_all) rest.runs;
      held = subst (Held rest.after) (omega arith) rest.held;
    }

pub record RecordedDense (d : LatencyBuckets) (zs : List ℤ) : Type 0 where
  pub after : LatencyBuckets
  pub runs : record_all record_latency d zs ≡ some after
  pub sound : IsSound after
  pub sum : weight after ≡ weight d + length zs

pub record_dense :
    (zs : List ℤ) (d : LatencyBuckets)
    → IsSound d
    → weight d + length zs < 2 ^ 63
    → RecordedDense d zs
unfolding record_all
record_dense [] d sound few = record { after = d; runs = refl; sound = sound; sum = omega arith }
record_dense (z ∷ zs) d sound few =
    let r = record_one d z sound (omega arith) in
    let rest = record_dense zs r.after r.sound (omega (arith, r.more)) in
    record {
      after = rest.after;
      runs = rw (r.runs, record_all) rest.runs;
      sound = rest.sound;
      sum = omega (arith, rest.sum, r.more);
    }

pub weight-empty : weight Counters.empty ≡ 0
unfolding Counters.empty
weight-empty = sum_of-replicate 3328
