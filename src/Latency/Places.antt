-- ===== src/Latency/Places.antt =====
-- Lemmas on the index math of latency_buckets.go: a position written as a bucket and a sub-bucket.
use native.Mathlib.Nat.{pow-suc, div-div-eq-div-mul, mul_comm, one-le-pow}
use native.Mathlib.Decide.{dec_lt}
use mqtt_load_generator.Base.{
  ℕ, zero, suc, ◌+◌, ◌-◌, ◌*◌, ◌/◌, ◌%◌, ◌^◌, ◌≤◌, ◌<◌, lt→ltb, le→not_ltb, ◌≡◌, refl, sym, ap, ◌∙◌,
  ◌⊎◌, inl, inr, arith,
}
use mqtt_load_generator.Base.Words.{
  leading_zeros64, bit_length, bit_length_pos, ones, bit_length-le_fuel, bit_length-or_ones,
  bit_and-ones,
}
use mqtt_load_generator.Latency.{latency_bucket_index, latency_position, latency_value_for_index}

-- The bucket of `m` is the number of digits above its 8 lowest.
bucket_index_digits : (m : ℕ) → latency_bucket_index m ≡ bit_length 56 (m / 256)
unfolding leading_zeros64 ones
bucket_index_digits m = omega (arith, bit_length-or_ones 56 8 m, bit_length-le_fuel 56 (m / 256))

-- The position of `m` with its digits counted over at most `k`: a recursion on halves.
abbrev pub place : ℕ → ℕ → ℕ
place k m = bit_length k (m / 256) * 128 + m / 2 ^ bit_length k (m / 256)

pub position-eq-place : (m : ℕ) → latency_position m ≡ place 56 m
unfolding latency_position
position-eq-place m = rw (bucket_index_digits m) (omega arith)

place-zero : (m : ℕ) → place zero m ≡ m
unfolding bit_length
place-zero m = omega arith

pub place_small : (k m : ℕ) → m < 256 → place k m ≡ m
unfolding bit_length
place_small zero m h = omega arith
place_small (suc k) m h = ground arith

digits_half : (k m : ℕ) → 256 ≤ m → bit_length (suc k) (m / 256) ≡ suc (bit_length k (m / 2 / 256))
digits_half k m h =
    let e : m / 256 / 2 ≡ m / 2 / 256 = omega arith in
    bit_length_pos k (m / 256) (omega arith) ∙ ap (λ n. suc (bit_length k n)) e

shift_suc : (b m : ℕ) → m / 2 ^ suc b ≡ m / 2 / 2 ^ b
shift_suc b m = rw (pow-suc 2 b, mul_comm (2 ^ b) 2) (sym (div-div-eq-div-mul m 2 (2 ^ b)))

place_half : (k m : ℕ) → 256 ≤ m → place (suc k) m ≡ place k (m / 2) + 128
place_half k m h = rw (digits_half k m h) (omega (arith, shift_suc (bit_length k (m / 2 / 256)) m))

place-ge : (k m : ℕ) → 128 ≤ m → 128 ≤ place k m
place-ge zero m h = rw (place-zero m) h
place-ge (suc k) m h = elim (dec_lt m 256) [
  | yes small ↦ omega (arith, place_small (suc k) m small)
  | no large ↦ omega (arith, place_half k m (omega arith))
]

pub place_mono : (k a b : ℕ) → a ≤ b → place k a ≤ place k b
place_mono zero a b h = omega (arith, place-zero a, place-zero b)
place_mono (suc k) a b h = elim (dec_lt b 256) [
  | yes small ↦ omega (arith, place_small (suc k) a (omega arith), place_small (suc k) b small)
  | no large ↦ elim (dec_lt a 256) [
    | yes below ↦ omega (
      arith,
      place_small (suc k) a below,
      place_half k b (omega arith),
      place-ge k (b / 2) (omega arith),
    )
    | no above ↦ omega (
      arith,
      place_half k a (omega arith),
      place_half k b (omega arith),
      place_mono k (a / 2) (b / 2) (omega arith),
    )
  ]
]

first_bucket : (k m : ℕ) → m < 256 → bit_length k (m / 256) ≡ 0
unfolding bit_length
first_bucket zero m h = refl
first_bucket (suc k) m h = ground arith

sub_bucket_top : (b m : ℕ) → (b ≡ 0) ⊎ (128 ≤ m / 2 ^ b) → 128 ≤ m → 128 ≤ m / 2 ^ b
sub_bucket_top b m (inl e) h = rw e (omega arith)
sub_bucket_top b m (inr h) _ = h

-- In its bucket a value keeps eight digits, and the highest of them is set past the first bucket.
pub sub_bucket_bounds :
    (k m : ℕ)
    → m / 256 < 2 ^ k
    → let b = bit_length k (m / 256) in (m / 2 ^ b < 256) × ((b ≡ 0) ⊎ (128 ≤ m / 2 ^ b))
sub_bucket_bounds zero m h =
    let low : m < 256 = omega arith in rw (first_bucket zero m low) (omega arith, inl refl)
sub_bucket_bounds (suc k) m h = elim (dec_lt m 256) [
  | yes small ↦ rw (first_bucket (suc k) m small) (omega arith, inl refl)
  | no large ↦
      let b = bit_length k (m / 2 / 256) in
      let (below, top) = sub_bucket_bounds k (m / 2) (omega (arith, pow-suc 2 k)) in
      rw (digits_half k m (omega arith), shift_suc b m)
        (below, inr (sub_bucket_top b (m / 2) top (omega arith)))
]

pub value_low : (i : ℕ) → i < 128 → latency_value_for_index i ≡ i
unfolding latency_value_for_index
value_low i h = rw (lt→ltb i 128 h)

value_high :
    (i b s : ℕ)
    → 128 ≤ i
    → i / 128 - 1 ≡ b
    → i % 128 + 128 ≡ s
    → latency_value_for_index i ≡ s * 2 ^ b
unfolding latency_value_for_index ones
value_high i b s h eb es = rw (le→not_ltb i 128 h, bit_and-ones 7 i, eb, es)

-- The value of a position that is written as a bucket and a sub-bucket.
pub value_at :
    (b s : ℕ) → s < 256 → (b ≡ 0) ⊎ (128 ≤ s) → latency_value_for_index (b * 128 + s) ≡ s * 2 ^ b
value_at b s h (inl e) = elim (dec_lt s 128) [
  | yes low ↦ let p : 0 * 128 + s ≡ s = omega arith in rw (e, p, value_low s low) (omega arith)
  | no high ↦ rw e (value_high (0 * 128 + s) 0 s (omega arith) (omega arith) (omega arith))
]
value_at b s h (inr top) = value_high (b * 128 + s) b s (omega arith) (omega arith) (omega arith)

pub place_at :
    (k b s : ℕ) → b ≤ k → s < 256 → (b ≡ 0) ⊎ (128 ≤ s) → place k (s * 2 ^ b) ≡ b * 128 + s
place_at k zero s h below top =
    let e : s * 1 ≡ s = omega arith in rw (e, place_small k s below) (omega arith)
place_at zero (suc b) s h below top = absurd (omega arith)
place_at (suc k) (suc b) s h below (inl e) = absurd (omega arith)
place_at (suc k) (suc b) s h below (inr top) =
    let e : s * 2 ^ suc b ≡ s * 2 ^ b * 2 = omega (arith, ap (◌*◌ s) (pow-suc 2 b)) in
    let half : s * 2 ^ b * 2 / 2 ≡ s * 2 ^ b = omega arith in
    rw (e, place_half k (s * 2 ^ b * 2) (grind (arith, one-le-pow b 2)), half)
      (omega (arith, place_at k b s (omega arith) below (inr top)))
