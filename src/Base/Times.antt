-- ===== src/Base/Times.antt =====
-- Points in time, and the differences that `Time.Sub` gives.
use Prim.Native.Nat.{ℕ, ◌-◌, ◌^◌, min}
use native.Mathlib.Omega.{arith}
use mqtt_load_generator.Base.Int.{ℤ, pos, negsuc, ◌-ℤ◌}
use mqtt_load_generator.Base.Tests.{◌==◌, if◌then◌else◌}
use mqtt_load_generator.Base.Floats.{Fits}

-- A time in nanoseconds since 1970; 0 is the zero `time.Time`, the start of the year 1.
abbrev pub Time : Type 0
Time = ℕ

abbrev pub instant : Time → ℤ
instant t = if t == 0 then negsuc 62_135_596_799_999_999_999 else pos t

abbrev pub saturate : ℤ → ℤ
saturate (pos n) = pos (min n (2 ^ 63 - 1))
saturate (negsuc n) = negsuc (min n (2 ^ 63 - 1))

-- `t.Sub(u)`, which saturates.
unfoldable pub time_sub : Time → Time → ℤ
time_sub t u = saturate (instant t -ℤ instant u)

saturate-Fits : (i : ℤ) → Fits (saturate i)
saturate-Fits (pos n) = omega arith
saturate-Fits (negsuc n) = omega arith

pub time_sub-Fits : (t u : Time) → Fits (time_sub t u)
unfolding time_sub
time_sub-Fits t u = saturate-Fits (instant t -ℤ instant u)
