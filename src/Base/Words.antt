-- ===== src/Base/Words.antt =====
-- 64-bit words: `bits.LeadingZeros64` of Go's standard library, the conversion of a `uint64` to an
-- `int64`, and the laws of the masks `x | 255` and `x & 127`.
use Prim.Native.Nat.{
  ℕ, zero, suc, ◌+◌, ◌-◌, ◌*◌, ◌/◌, ◌%◌, ◌^◌, ◌≤◌, ◌<◌, min, max, bit_and, bit_or, digits,
  bit_and-bitwise, bit_or-bitwise,
}
use mathlib.Core.Path.{◌≡◌, refl, ap}
use native.Mathlib.Omega.{arith}
use native.Mathlib.Nat.{pow-suc, div-div-eq-div-mul, div-add-mod', mul_comm}
use mqtt_load_generator.Base.Tests.{ltb, ◌==◌, if◌then◌else◌}
use mqtt_load_generator.Base.Int.{ℤ, pos, negsuc, pos_part, neg_part}

-- The value of an unsigned 64-bit counter: additions wrap.
abbrev pub u64 : ℕ → ℕ
u64 n = n % 2 ^ 64

-- `int64(w)` of a `uint64` w.
abbrev pub to_int64 : ℕ → ℤ
to_int64 w = if ltb w (2 ^ 63) then pos w else negsuc (2 ^ 64 - w - 1)

-- The int64 that an integer wraps to.
abbrev pub wrap_int64 : ℤ → ℤ
wrap_int64 i = to_int64 (u64 (pos_part i + 2 ^ 64 - u64 (neg_part i)))

-- The number of binary digits of `n`, counted over at most `k` digits.
unfoldable pub bit_length : ℕ → ℕ → ℕ
bit_length zero n = 0
bit_length (suc k) n = let rest = suc (bit_length k (n / 2)) in if n == 0 then 0 else rest

unfoldable pub leading_zeros64 : ℕ → ℕ
unfolding bit_length
leading_zeros64 n = 64 - bit_length 64 n

pub bit_length-le : (k j n : ℕ) → n < 2 ^ j → bit_length k n ≤ j
unfolding bit_length
bit_length-le zero j n h = omega arith
bit_length-le (suc k) zero n h = ground arith
bit_length-le (suc k) (suc j) n h = ground (arith, pow-suc 2 j, bit_length-le k j (n / 2))

pub bit_length-le_fuel : (k n : ℕ) → bit_length k n ≤ k
unfolding bit_length
bit_length-le_fuel zero n = omega arith
bit_length-le_fuel (suc k) n = ground (arith, bit_length-le_fuel k (n / 2))

-- A digitwise operation does not depend on the count of digits, once that is large enough.
digits_fuel :
    (z : ℕ → ℕ) (f : ℕ → ℕ → ℕ) (n m a b : ℕ) → a ≤ n → a ≤ m → digits z f n a b ≡ digits z f m a b
digits_fuel z f zero zero a b p q = refl
digits_fuel z f zero (suc m) zero b p q = refl
digits_fuel z f zero (suc m) (suc a) b p q = absurd (omega arith)
digits_fuel z f (suc n) zero zero b p q = refl
digits_fuel z f (suc n) zero (suc a) b p q = absurd (omega arith)
digits_fuel z f (suc n) (suc m) zero b p q = refl
digits_fuel z f (suc n) (suc m) (suc a) b p q =
    omega (arith, digits_fuel z f n m (suc a / 2) (b / 2) (omega arith) (omega arith))

bit_or_step : (a b : ℕ) → bit_or a b ≡ bit_or (a / 2) (b / 2) * 2 + max (a % 2) (b % 2)
bit_or_step zero b = omega (arith, bit_or-bitwise 0 b, bit_or-bitwise 0 (b / 2))
bit_or_step (suc a) b = omega (
  arith,
  bit_or-bitwise (suc a) b,
  bit_or-bitwise (suc a / 2) (b / 2),
  digits_fuel (λ d. d) max a (suc a / 2) (suc a / 2) (b / 2) (omega arith) (omega arith),
)

bit_and_step : (a b : ℕ) → bit_and a b ≡ bit_and (a / 2) (b / 2) * 2 + min (a % 2) (b % 2)
bit_and_step zero b = omega (arith, bit_and-bitwise 0 b, bit_and-bitwise 0 (b / 2))
bit_and_step (suc a) b = omega (
  arith,
  bit_and-bitwise (suc a) b,
  bit_and-bitwise (suc a / 2) (b / 2),
  digits_fuel (λ d. 0) min a (suc a / 2) (suc a / 2) (b / 2) (omega arith) (omega arith),
)

-- A mask of `k` ones, lowest digits first.
unfoldable pub ones : ℕ → ℕ
ones zero = 0
ones (suc k) = suc (ones k * 2)

bit_or-zero : (n a : ℕ) → a ≤ n → bit_or a 0 ≡ a
bit_or-zero n zero h = refl
bit_or-zero zero (suc a) h = absurd (omega arith)
bit_or-zero (suc n) (suc a) h =
    omega (arith, bit_or_step (suc a) 0, bit_or-zero n (suc a / 2) (omega arith))

bit_and-zero : (n a : ℕ) → a ≤ n → bit_and a 0 ≡ 0
bit_and-zero n zero h = refl
bit_and-zero zero (suc a) h = absurd (omega arith)
bit_and-zero (suc n) (suc a) h =
    omega (arith, bit_and_step (suc a) 0, bit_and-zero n (suc a / 2) (omega arith))

bit_or_odd : (a m : ℕ) → bit_or a (suc (m * 2)) ≡ bit_or (a / 2) m * 2 + 1
bit_or_odd a m =
    let e : suc (m * 2) / 2 ≡ m = omega arith in
    omega (arith, bit_or_step a (suc (m * 2)), ap (bit_or (a / 2)) e)

bit_and_odd : (a m : ℕ) → bit_and a (suc (m * 2)) ≡ bit_and (a / 2) m * 2 + a % 2
bit_and_odd a m =
    let e : suc (m * 2) / 2 ≡ m = omega arith in
    omega (arith, bit_and_step a (suc (m * 2)), ap (bit_and (a / 2)) e)

pub bit_length_pos : (k n : ℕ) → 0 < n → bit_length (suc k) n ≡ suc (bit_length k (n / 2))
unfolding bit_length
bit_length_pos k n h = ground arith

-- Over a number whose `k` lowest digits are set, the digit count starts with those `k`.
pub bit_length-or_ones :
    (j k a : ℕ) → bit_length (k + j) (bit_or a (ones k)) ≡ k + bit_length j (a / 2 ^ k)
unfolding ones
bit_length-or_ones j zero a =
    let e : 0 + j ≡ j = omega arith in
    let d : a / 1 ≡ a = omega arith in rw (e, bit_or-zero a a (omega arith), d) (omega arith)
bit_length-or_ones j (suc k) a =
    let n = bit_or (a / 2) (ones k) in
    let e : suc k + j ≡ suc (k + j) = omega arith in
    let half : (n * 2 + 1) / 2 ≡ n = omega arith in
    rw (e, bit_or_odd a (ones k), bit_length_pos (k + j) (n * 2 + 1) (omega arith), half)
      (rw (bit_length-or_ones j k (a / 2), pow-suc 2 k, mul_comm (2 ^ k) 2)
        (omega (arith, ap (bit_length j) (div-div-eq-div-mul a 2 (2 ^ k)))))

-- A mask of `k` ones keeps the remainder by 2 ^ k.
pub bit_and-ones : (k a : ℕ) → bit_and a (ones k) ≡ a % 2 ^ k
unfolding ones
bit_and-ones zero a = omega (arith, bit_and-zero a a (omega arith))
bit_and-ones (suc k) a =
    rw (pow-suc 2 k, mul_comm (2 ^ k) 2)
      (omega (
        arith,
        bit_and_odd a (ones k),
        bit_and-ones k (a / 2),
        div-add-mod' a (2 * 2 ^ k),
        div-add-mod' (a / 2) (2 ^ k),
        ap (λ (q : ℕ). q * 2 ^ k) (div-div-eq-div-mul a 2 (2 ^ k)),
      ))
