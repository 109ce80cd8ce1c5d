-- ===== src/Latency/Index.antt =====
-- What the index math of latency_buckets.go promises.
use native.Mathlib.Nat.{div-add-mod', mod-lt, one-le-pow}
use native.Mathlib.Decide.{dec_lt}
use mqtt_load_generator.Base.{
  ℕ, ◌+◌, ◌-◌, ◌*◌, ◌/◌, ◌%◌, ◌^◌, ◌≤◌, ◌<◌, ℤ, pos, ◌≤ℤ◌, ◌≡◌, refl, sym, ap, ◌∙◌, ◌⊎◌, inl, inr,
  arith,
}
use mqtt_load_generator.Base.Words.{bit_length, bit_length-le}
use mqtt_load_generator.Latency.{
  latency_highest_microseconds, latency_counts_length, clamp_microseconds, latency_counts_index,
  latency_value_for_index,
}
use mqtt_load_generator.Latency.Places.{
  place, position-eq-place, place_mono, sub_bucket_bounds, value_at, place_at,
}

index-eq-place : (z : ℤ) → latency_counts_index z ≡ place 56 (clamp_microseconds z)
unfolding latency_counts_index
index-eq-place z = position-eq-place (clamp_microseconds z)

bucket : ℤ → ℕ
bucket z = bit_length 56 (clamp_microseconds z / 256)

bucket-le : (z : ℤ) → bucket z ≤ 24
unfolding bucket
bucket-le z = bit_length-le 56 24 (clamp_microseconds z / 256) (omega arith)

bucket_bounds :
    (z : ℤ)
    → (clamp_microseconds z / 2 ^ bucket z < 256)
      × ((bucket z ≡ 0) ⊎ (128 ≤ clamp_microseconds z / 2 ^ bucket z))
unfolding bucket
bucket_bounds z = sub_bucket_bounds 56 (clamp_microseconds z) (omega arith)

index-eq-bucket :
    (z : ℤ) → latency_counts_index z ≡ bucket z * 128 + clamp_microseconds z / 2 ^ bucket z
unfolding bucket
index-eq-bucket z = index-eq-place z

-- The index of any latency, negative or above one hour too, is inside the array of counters.
pub latency_counts_index-lt : (z : ℤ) → latency_counts_index z < latency_counts_length
latency_counts_index-lt z = omega (arith, index-eq-bucket z, bucket-le z, bucket_bounds z)

value-index :
    (z : ℤ)
    → latency_value_for_index (latency_counts_index z)
      ≡ clamp_microseconds z / 2 ^ bucket z * 2 ^ bucket z
value-index z = rw (index-eq-bucket z) (
    value_at (bucket z) (clamp_microseconds z / 2 ^ bucket z) (bucket_bounds z).0
      (bucket_bounds z).1)

-- A value of at least 128 sub-buckets is at least 128 times the width of a sub-bucket.
width_bound : (b s m v : ℕ) → (b ≡ 0) ⊎ (128 ≤ s) → v ≡ s * 2 ^ b → m < v + 2 ^ b → m ≤ v + v / 128
width_bound b s m v (inl e) ev lt = omega (arith, ap (◌^◌ 2) e)
width_bound b s m v (inr top) ev lt =
    let wide : 128 * 2 ^ b ≤ v = rw ev (grind arith) in omega arith

-- The value of the counter that a latency lands on is at most the latency (held between 0 and one
-- hour), and below it by at most one part in 128 of that value.
pub latency_precision :
    (z : ℤ)
    → let v = latency_value_for_index (latency_counts_index z) in
      (v ≤ clamp_microseconds z) × (clamp_microseconds z ≤ v + v / 128)
latency_precision z =
    let split = div-add-mod' (clamp_microseconds z) (2 ^ bucket z) in
    let width = mod-lt (clamp_microseconds z) (one-le-pow (bucket z) 2 (omega arith)) in
    let v = latency_value_for_index (latency_counts_index z) in
    (
      omega (arith, value-index z, split),
      width_bound (bucket z) (clamp_microseconds z / 2 ^ bucket z) (clamp_microseconds z) v
          (bucket_bounds z).1 (value-index z) (omega (arith, value-index z, split, width)),
    )

-- A longer latency lands on the same counter or on a later one.
pub latency_counts_index_mono : (a b : ℤ) → a ≤ℤ b → latency_counts_index a ≤ latency_counts_index b
latency_counts_index_mono a b h =
    rw (index-eq-place a, index-eq-place b) (place_mono 56 _ _ (ground arith))

index_at :
    (i b s : ℕ)
    → i ≡ b * 128 + s
    → b ≤ 56
    → s < 256
    → (b ≡ 0) ⊎ (128 ≤ s)
    → latency_value_for_index i ≤ latency_highest_microseconds
    → latency_counts_index (pos (latency_value_for_index i)) ≡ i
index_at i b s e few below top fits =
    let v : latency_value_for_index i ≡ s * 2 ^ b =
      ap latency_value_for_index e ∙ value_at b s below top in
    let held : clamp_microseconds (pos (latency_value_for_index i)) ≡ s * 2 ^ b =
      omega (arith, v) in
    index-eq-place (pos (latency_value_for_index i))
    ∙ ap (place 56) held
    ∙ place_at 56 b s few below top
    ∙ sym e

-- Every counter position below 3328 whose value is at most one hour is the position of its own
-- value, and that value is the lowest of all latencies (held between 0 and one hour) that land on
-- the position.
pub latency_value_for_index_lowest :
    (i : ℕ)
    → i < latency_counts_length
    → latency_value_for_index i ≤ latency_highest_microseconds
    → (latency_counts_index (pos (latency_value_for_index i)) ≡ i)
      × ((z : ℤ) → latency_counts_index z ≡ i → latency_value_for_index i ≤ clamp_microseconds z)
latency_value_for_index_lowest i h fits = (
  elim (dec_lt i 128) [
    | yes low ↦ index_at i 0 i (omega arith) (omega arith) (omega arith) (inl refl) fits
    | no high ↦
        index_at i (i / 128 - 1) (i % 128 + 128) (omega arith) (omega arith) (omega arith)
          (inr (omega arith)) fits
  ],
  λ z e. omega (arith, latency_precision z, ap latency_value_for_index e),
)
