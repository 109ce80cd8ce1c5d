-- ===== src/Base/Floats.antt =====
-- Go's float64, which the reports and the pacer compute with: the operations that the code uses, and
-- what IEEE 754 promises of them.
use mathlib.Core.Path.{◌≡◌}
use mathlib.Core.Logic.{◌⊎◌}
use mathlib.Core.Bool.{Bool, true, false, not}
use native.Mathlib.Omega.{arith}
use Prim.Native.Nat.{ℕ, ◌*◌, ◌^◌, ◌≤◌, ◌<◌}
use mqtt_load_generator.Base.Int.{ℤ, pos, pos_part, neg_part}

-- An int64, a time.Duration too.
abbrev pub Fits : ℤ → Type 0
Fits i = (pos_part i < 2 ^ 63) × (neg_part i ≤ 2 ^ 63)

-- `float` is the conversion of an int64, `seconds` is `Duration.Seconds`, `truncate` the conversion to
-- an int64, `round` is `math.Round`, and `smaller` and `larger` are the builtin `min` and `max`.
pub record Float64 (W : Type 0) : Type 0 where
  pub nought : W
  pub float : ℤ → W
  pub seconds : ℤ → W
  pub truncate : W → ℤ
  pub round : W → W
  pub add : W → W → W
  pub mul : W → W → W
  pub div : W → W → W
  pub le : W → W → Bool
  pub lt : W → W → Bool
  pub smaller : W → W → W
  pub larger : W → W → W

infix 50 ◌≼◌
abbrev pub ◌≼◌ : {W : Type 0} ⦃f : Float64 W⦄ → W → W → Type 0
◌≼◌ ⦃f⦄ x y = f.le x y ≡ true

-- NaN is the value that is not `<=` itself.
abbrev pub IsNumber : {W : Type 0} ⦃f : Float64 W⦄ → W → Type 0
IsNumber x = x ≼ x

abbrev pub IsPositive : {W : Type 0} ⦃f : Float64 W⦄ → W → Type 0
IsPositive ⦃f⦄ x = f.lt f.nought x ≡ true

-- `Moderate` says of a value that it is a number of at most 2^110 in size, so that the sum of two is
-- far from overflow: an int64 is, and so is one divided or multiplied by another in seconds.
pub record IsIeee (W : Type 0) ⦃f : Float64 W⦄ : Type 1 where
  pub Moderate : W → Type 0
  pub number_of_moderate : (x : W) → Moderate x → IsNumber x
  pub numbers_of_le : (x y : W) → x ≼ y → IsNumber x × IsNumber y
  pub le_trans : (x y z : W) → x ≼ y → y ≼ z → x ≼ z
  pub le_total : (x y : W) → IsNumber x → IsNumber y → (x ≼ y) ⊎ (y ≼ x)
  pub lt-eq-not-le : (x y : W) → IsNumber x → IsNumber y → f.lt x y ≡ not (f.le y x)
  pub nought-Moderate : Moderate f.nought
  pub float-Moderate : (n : ℤ) → Fits n → Moderate (f.float n)
  pub seconds-Moderate : (n : ℤ) → Fits n → Moderate (f.seconds n)
  pub seconds-IsPositive : (n : ℤ) → Fits n → 0 < pos_part n → IsPositive (f.seconds n)
  pub rate-Moderate :
      (n d : ℤ)
      → Fits n
      → Fits d
      → IsPositive (f.seconds d)
      → Moderate (f.div (f.float n) (f.seconds d))
  pub product :
      (n d : ℤ)
      → Fits n
      → Fits d
      → 0 < pos_part n
      → 0 < pos_part d
      → let y = f.mul (f.float n) (f.seconds d) in IsPositive y × Moderate y
  pub add-IsNumber : (x y : W) → IsNumber x → Moderate y → IsNumber (f.add x y)
  pub div-IsNumber : (x y : W) → IsNumber x → Moderate y → IsPositive y → IsNumber (f.div x y)
  pub half :
      (x y : W)
      → Moderate x
      → Moderate y
      → x ≼ y
      → let m = f.div (f.add x y) (f.float (pos 2)) in (x ≼ m) × (m ≼ y)
  pub zero_le_one : f.nought ≼ f.float (pos 1)
  pub larger-IsUpper : (x y : W) → IsNumber x → IsNumber y → (x ≼ f.larger x y) × (y ≼ f.larger x y)
  pub smaller-IsLower :
      (x y : W) → IsNumber x → IsNumber y → (f.smaller x y ≼ x) × (f.smaller x y ≼ y)
  pub smaller-IsGreatest : (x y z : W) → z ≼ x → z ≼ y → z ≼ f.smaller x y

-- Whole numbers up to 2^53 are exact.
pub record IsExact (W : Type 0) ⦃f : Float64 W⦄ : Type 0 where
  pub mul_exact :
      (a b : ℕ)
      → a ≤ 2 ^ 53
      → b ≤ 2 ^ 53
      → a * b ≤ 2 ^ 53
      → f.mul (f.float (pos a)) (f.float (pos b)) ≡ f.float (pos (a * b))
  pub truncate-float : (n : ℕ) → n ≤ 2 ^ 53 → f.truncate (f.float (pos n)) ≡ pos n

-- Between 0 and a whole number up to 2^53 a value is finite. A product of two such values grows with
-- its factors, as rounding is monotone, and a conversion drops the fraction.
pub record IsMonotone (W : Type 0) ⦃f : Float64 W⦄ : Type 0 where
  pub float_nonneg : (n : ℕ) → n ≤ 2 ^ 53 → f.nought ≼ f.float (pos n)
  pub mul_mono :
      (x y : W) (a b : ℕ)
      → a ≤ 2 ^ 53
      → b ≤ 2 ^ 53
      → f.nought ≼ x
      → x ≼ f.float (pos a)
      → f.nought ≼ y
      → y ≼ f.float (pos b)
      → (f.nought ≼ f.mul x y) × (f.mul x y ≼ f.mul (f.float (pos a)) (f.float (pos b)))
  pub truncate_bounds :
      (x : W) (n : ℕ)
      → n ≤ 2 ^ 53
      → f.nought ≼ x
      → x ≼ f.float (pos n)
      → (n' : ℕ) × (f.truncate x ≡ pos n') × (n' ≤ n)

pub le_of_not_lt :
    {W : Type 0} ⦃f : Float64 W⦄
    → IsIeee W
    → (x y : W) → IsNumber x
    → IsNumber y
    → f.lt x y ≡ false
    → y ≼ x
le_of_not_lt ieee x y hx hy e = ground (arith, e, ieee.lt-eq-not-le x y hx hy)
