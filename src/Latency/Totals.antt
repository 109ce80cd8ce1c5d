-- ===== src/Latency/Totals.antt =====
-- What the dense and the shared counters of latency_buckets.go hold after recordings.
use native.Mathlib.Decide.{ℕ_discrete}
use mqtt_load_generator.Base.{
  ℕ, ◌+◌, ◌*◌, ◌^◌, ◌<◌, false, ◌==◌, if◌then◌else◌, ℤ, List, [], ◌∷◌, some, get_elem?, set, length,
  length-set, length-replicate, get_elem?-some, get_elem?-set_self, get_elem?-set_ne,
  get_elem?-replicate, ◌≡◌, ◌⊎◌, refl, ap, ◌∙◌, arith,
}
use mqtt_load_generator.Base.Words.{u64}
use mqtt_load_generator.Latency.{latency_counts_length, latency_counts_index}
use mqtt_load_generator.Latency.Index.{latency_counts_index-lt}
use mqtt_load_generator.Latency.Counters.{LatencyBuckets, add_one, record_latency, record_all}
use mqtt_load_generator.Latency.Counters
use mqtt_load_generator.Latency.Shared.{must_grow, set_size}

-- How many of the latencies land on a position.
abbrev pub count_at : ℕ → List ℤ → ℕ
count_at i [] = 0
count_at i (z ∷ zs) = (if latency_counts_index z == i then 1 else 0) + count_at i zs

-- The size of the set is 64, 128 or 256, the loop has ended by its test, and no smaller of these
-- sizes would have ended it.
pub set_size_lem :
    (procs : ℕ)
    → (must_grow procs (set_size procs) ≡ false)
      × (((set_size procs ≡ 64))
          ⊎ ((set_size procs ≡ 128) × (64 < 4 * procs))
          ⊎ ((set_size procs ≡ 256) × (128 < 4 * procs)))
unfolding set_size
set_size_lem procs = ground arith

-- What `counts[k].Add(1)` leaves at each position.
abbrev Bumped : ℕ → List ℕ → List ℕ → Type 0
Bumped k xs ys =
    (i c : ℕ) → get_elem? xs i ≡ some c → get_elem? ys i ≡ some (if k == i then u64 (c + 1) else c)

record Counted (d : LatencyBuckets) (z : ℤ) : Type 0 where
  after : LatencyBuckets
  runs : record_latency d z ≡ some after
  size : length after.counts ≡ latency_counts_length
  counted : Bumped (latency_counts_index z) d.counts after.counts

set-Bumped :
    (xs : List ℕ) (k c : ℕ)
    → k < length xs
    → get_elem? xs k ≡ some c
    → Bumped k xs (set xs k (u64 (c + 1)))
set-Bumped xs k c h e i a at = elim (ℕ_discrete k i) [
  | yes same ↦ ground (arith, get_elem?-set_self xs k (u64 (c + 1)) h)
  | no other ↦ ground (arith, get_elem?-set_ne xs {i = k} {j = i} (u64 (c + 1)) other)
]

add_one-Bumped :
    (xs : List ℕ) (k : ℕ)
    → k < length xs
    → (ys : List ℕ) × (add_one xs k ≡ some ys) × (length ys ≡ length xs) × Bumped k xs ys
unfolding add_one
add_one-Bumped xs k h =
    let (c, e) = get_elem?-some xs k h in
    let v = u64 (c + 1) in
    (set xs k v, rw (e, add_one) refl, length-set xs k v, set-Bumped xs k c h e)

count_one : (d : LatencyBuckets) (z : ℤ) → length d.counts ≡ latency_counts_length → Counted d z
unfolding record_latency
count_one d z l =
    let (ys, runs, size, b) =
      add_one-Bumped d.counts (latency_counts_index z) (omega (arith, latency_counts_index-lt z)) in
    record {
      after = record { counts = ys };
      runs = rw (runs, record_latency) refl;
      size = size ∙ l;
      counted = b;
    }

count_all :
    (zs : List ℤ) (d : LatencyBuckets)
    → length d.counts ≡ latency_counts_length
    → (d' : LatencyBuckets) × (record_all record_latency d zs ≡ some d')
      × ((i c : ℕ)
          → c < 2 ^ 64
          → get_elem? d.counts i ≡ some c
          → get_elem? d'.counts i ≡ some (u64 (c + count_at i zs)))
unfolding record_all
count_all [] d l = (d, refl, λ i c lt e. ground arith)
count_all (z ∷ zs) d l =
    let r = count_one d z l in
    let (d', runs, counts) = count_all zs r.after r.size in
    (
      d',
      rw (r.runs, record_all) runs,
      λ i c lt e.
          let c' = if latency_counts_index z == i then u64 (c + 1) else c in
          counts i c' (ground arith) (r.counted i c e) ∙ ap some (ground arith),
    )

-- After any recordings from empty counters, the counter at each position is the number of the
-- latencies that landed there, modulo 2^64; none of the recordings panics.
pub recorded_counts :
    (zs : List ℤ)
    → (d : LatencyBuckets) × (record_all record_latency Counters.empty zs ≡ some d)
      × ((i : ℕ) → i < latency_counts_length → get_elem? d.counts i ≡ some (u64 (count_at i zs)))
unfolding Counters.empty
recorded_counts zs =
    let (d, runs, counts) = count_all zs Counters.empty (length-replicate {A = ℕ} 3328 0) in
    (
      d,
      runs,
      λ i h. counts i 0 (omega arith) (get_elem?-replicate 3328 0 i h) ∙ ap some (omega arith),
    )
