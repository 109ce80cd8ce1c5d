-- ===== src/Base/FixedPoint.antt =====
-- Non-negative numbers in billionths, with the infinity and the NaN of a float64: they keep the laws
-- of `Base.Floats`.
use Prim.Native.Nat.{ℕ, ◌+◌, ◌*◌, ◌/◌, ◌≤◌, ◌<◌, min, max}
use mathlib.Core.Path.{◌≡◌, refl, ap}
use mathlib.Core.Bool.{Bool, true, false}
use native.Mathlib.Omega.{arith}
use native.Mathlib.Nat.{mul-le-mul}
use mqtt_load_generator.Base.Int.{ℤ, pos, pos_part}
use mqtt_load_generator.Base.Tests.{ltb, leb, ◌==◌, if◌then◌else◌}
use mqtt_load_generator.Base.Floats.{Float64, IsIeee, IsExact, IsMonotone}

pub data Billionths : Type 0 where
  finite : ℕ → Billionths
  infinite nan : Billionths

abbrev one : ℕ
one = 1_000_000_000

abbrev le : Billionths → Billionths → Bool
le (finite a) (finite b) = leb a b
le (finite a) infinite = true
le infinite infinite = true
le _ _ = false

abbrev lt : Billionths → Billionths → Bool
lt (finite a) (finite b) = ltb a b
lt (finite a) infinite = true
lt _ _ = false

abbrev truncate : Billionths → ℤ
truncate (finite a) = pos (a / one)
truncate _ = pos 0

abbrev round : Billionths → Billionths
round (finite a) = finite ((a + 500_000_000) / one * one)
round infinite = infinite
round nan = nan

abbrev add : Billionths → Billionths → Billionths
add (finite a) (finite b) = finite (a + b)
add (finite a) infinite = infinite
add (finite a) nan = nan
add infinite nan = nan
add infinite y = infinite
add nan y = nan

-- `0 * infinite` is NaN.
abbrev mul : Billionths → Billionths → Billionths
mul (finite a) (finite b) = finite (a * b / one)
mul (finite a) infinite = if a == 0 then nan else infinite
mul (finite a) nan = nan
mul infinite (finite b) = if b == 0 then nan else infinite
mul infinite infinite = infinite
mul infinite nan = nan
mul nan y = nan

abbrev div_zero : ℕ → Billionths
div_zero a = if a == 0 then nan else infinite

abbrev div : Billionths → Billionths → Billionths
div (finite a) (finite b) = if b == 0 then div_zero a else finite (a * one / b)
div (finite a) infinite = finite 0
div (finite a) nan = nan
div infinite (finite b) = infinite
div infinite infinite = nan
div infinite nan = nan
div nan y = nan

abbrev smaller : Billionths → Billionths → Billionths
smaller (finite a) (finite b) = finite (min a b)
smaller (finite a) infinite = finite a
smaller (finite a) nan = nan
smaller infinite y = y
smaller nan y = nan

abbrev larger : Billionths → Billionths → Billionths
larger (finite a) (finite b) = finite (max a b)
larger (finite a) infinite = infinite
larger (finite a) nan = nan
larger infinite nan = nan
larger infinite y = infinite
larger nan y = nan

instance abbrev pub billionths : Float64 Billionths
billionths = record {
  nought = finite 0;
  float = λ i. finite (pos_part i * one);
  seconds = λ i. finite (pos_part i);
  truncate = truncate;
  round = round;
  add = add;
  mul = mul;
  div = div;
  le = le;
  lt = lt;
  smaller = smaller;
  larger = larger;
}

abbrev IsFinite : Billionths → Type 0
IsFinite (finite a) = Unit
IsFinite _ = ⊥

half-between :
    (x y : Billionths)
    → IsFinite x
    → IsFinite y
    → le x y ≡ true
    → let m = div (add x y) (finite (2 * one)) in (le x m ≡ true) × (le m y ≡ true)
half-between (finite a) (finite b) hx hy h = ground arith
half-between infinite y hx hy h = absurd hx
half-between nan y hx hy h = absurd hx
half-between (finite a) infinite hx hy h = absurd hy
half-between (finite a) nan hx hy h = absurd hy

product_positive : (a b : ℕ) → 0 < a → 0 < b → ltb 0 (a * one * b / one) ≡ true
product_positive a b ha hb =
    let wide : one * 1 ≤ a * one * b = mul-le-mul {n₁ = one} {m₁ = 1} (omega arith) hb in
    ground (arith, wide)

-- The laws can be met.
pub billionths-IsIeee : IsIeee Billionths
billionths-IsIeee = record {
  Moderate = IsFinite;
  number_of_moderate = ground arith;
  numbers_of_le = ground arith;
  le_trans = ground arith;
  le_total = ground arith;
  lt-eq-not-le = ground arith;
  nought-Moderate = tt;
  float-Moderate = λ n h. tt;
  seconds-Moderate = λ n h. tt;
  seconds-IsPositive = ground arith;
  rate-Moderate = ground arith;
  product = λ n d hn hd pn pd. (product_positive (pos_part n) (pos_part d) pn pd, tt);
  add-IsNumber = ground arith;
  div-IsNumber = ground arith;
  half = half-between;
  zero_le_one = ground arith;
  larger-IsUpper = ground arith;
  smaller-IsLower = ground arith;
  smaller-IsGreatest = ground arith;
}

exact-product : (a b : ℕ) → a * one * (b * one) / one ≡ a * b * one
exact-product a b =
    let e : a * one * (b * one) ≡ a * b * one * one = grind arith in omega (arith, e)

grown :
    (x y : Billionths) (a b : ℕ)
    → le x (finite (a * one)) ≡ true
    → le y (finite (b * one)) ≡ true
    → (le (finite 0) (mul x y) ≡ true)
      × (le (mul x y) (mul (finite (a * one)) (finite (b * one))) ≡ true)
grown (finite c) (finite d) a b h k =
    let le : c * d ≤ a * one * (b * one) = mul-le-mul (ground (arith, h)) (ground (arith, k)) in
    (ground arith, ground (arith, le))
grown infinite y a b h k = absurd (ground (arith, h))
grown nan y a b h k = absurd (ground (arith, h))
grown (finite c) infinite a b h k = absurd (ground (arith, k))
grown (finite c) nan a b h k = absurd (ground (arith, k))

truncated :
    (x : Billionths) (n : ℕ)
    → le x (finite (n * one)) ≡ true
    → (n' : ℕ) × (truncate x ≡ pos n') × (n' ≤ n)
truncated (finite a) n h = (a / one, refl, ground (arith, h))
truncated infinite n h = absurd (ground (arith, h))
truncated nan n h = absurd (ground (arith, h))

pub billionths-IsExact : IsExact Billionths
billionths-IsExact = record {
  mul_exact = λ a b ha hb h. ap finite (exact-product a b);
  truncate-float = ground arith;
}

pub billionths-IsMonotone : IsMonotone Billionths
billionths-IsMonotone = record {
  float_nonneg = ground arith;
  mul_mono = λ x y a b ha hb zx hx zy hy. grown x y a b hx hy;
  truncate_bounds = λ x n h low high. truncated x n high;
}
