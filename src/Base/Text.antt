-- ===== src/Base/Text.antt =====
-- Texts as lists of bytes, and decimal numbers as Go's `strconv.AppendInt` writes them.
use Prim.Native.Nat.{ℕ, zero, suc, ◌+◌, ◌-◌, ◌*◌, ◌/◌, ◌%◌, ◌^◌, ◌≤◌, ◌<◌}
use Prim.Native.Char.{code}
use Prim.Native.String.{String}
use native.Mathlib.Nat.{pow-suc, pow-le-pow_right, mul-le-mul_right}
use native.Mathlib.Decide.{dec_lt}
use mathlib.Core.Path.{◌≡◌, refl, sym, ap, ap₂, subst, ◌∙◌}
use mathlib.Core.Bool.{Bool, true, false, not, ◌&&◌}
use mathlib.Core.List.{List, [], ◌∷◌, ◌++◌, append_assoc, append-nil}
use native.Mathlib.Omega.{arith}
use mqtt_load_generator.Base.Tests.{ltb, ◌==◌, lt→ltb, le→not_ltb, if◌then◌else◌}
use mathlib.Core.Option.{some}
use mqtt_load_generator.Base.Lists.{length, get_elem?, set, replicate, length-append}
use mqtt_load_generator.Base.Int.{ℤ, pos, negsuc, ◌≤ℤ◌}

abbrev pub Bytes : Type 0
Bytes = List ℕ

-- The code points of a text: its bytes, if it is ASCII.
abbrev pub codes : String → Bytes
codes String.[] = []
codes (String.◌∷◌ c s) = code c ∷ codes s

module _ {ℓ κ} {A : Type ℓ} (P : A → Type κ) where
  abbrev pub All : List A → Type κ
  All [] = Unit
  All (x ∷ xs) = P x × All xs

  pub All-append : (xs ys : List A) → All xs → All ys → All (xs ++ ys)
  All-append [] ys _ hy = hy
  All-append (x ∷ xs) ys (px, hx) hy = (px, All-append xs ys hx hy)

module _ {ℓ κ} {A : Type ℓ} (P : A → Type κ) where
  pub All-get_elem? : (xs : List A) (i : ℕ) (a : A) → All P xs → get_elem? xs i ≡ some a → P a
  All-get_elem? [] i a h e = absurd (ground (arith, e))
  All-get_elem? (x ∷ xs) zero a h e = let here : x ≡ a = ground (arith, e) in subst P here h.0
  All-get_elem? (x ∷ xs) (suc i) a h e = All-get_elem? xs i a h.1 e

  pub All-set : (xs : List A) (i : ℕ) (v : A) → All P xs → P v → All P (set xs i v)
  All-set [] i v h pv = tt
  All-set (x ∷ xs) zero v h pv = (pv, h.1)
  All-set (x ∷ xs) (suc i) v h pv = (h.0, All-set xs i v h.1 pv)

  pub All-replicate : (n : ℕ) (a : A) → P a → All P (replicate n a)
  All-replicate zero a pa = tt
  All-replicate (suc n) a pa = (pa, All-replicate n a pa)

abbrev pub IsDigit : ℕ → Type 0
IsDigit c = (b'0' ≤ c) × (c ≤ b'9')

-- The number that digits spell behind `n`.
abbrev pub value : ℕ → Bytes → ℕ
value n [] = n
value n (c ∷ s) = value (n * 10 + (c - b'0')) s

-- The digits of `n` before `out`; one round for each digit.
unfoldable pub emit : ℕ → ℕ → Bytes → Bytes
emit zero n out = out
emit (suc rounds) n out =
    let rest = emit rounds (n / 10) ((b'0' + n % 10) ∷ out) in
    if ltb n 10 then (b'0' + n) ∷ out else rest

-- `strconv.AppendInt(nil, i, 10)` of an int64, which has at most 19 digits.
unfoldable pub append_int : ℤ → Bytes
append_int (pos n) = emit 19 n []
append_int (negsuc n) = b'-' ∷ emit 19 (n + 1) []

-- Digits that spell `n`, at least one and at most `most`.
pub record Spells (n most : ℕ) (digits : Bytes) : Type 0 where
  pub all_digits : All IsDigit digits
  pub exact : value 0 digits ≡ n
  pub some_digit : 0 < length digits
  pub few : length digits ≤ most

pub value-append : (n : ℕ) (xs ys : Bytes) → value n (xs ++ ys) ≡ value (value n xs) ys
value-append n [] ys = refl
value-append n (x ∷ xs) ys = value-append (n * 10 + (x - b'0')) xs ys

another_digit : (most n : ℕ) → 10 ≤ n → n < 10 ^ suc most → 0 < most
another_digit zero n h lt = absurd (omega arith)
another_digit (suc most) n h lt = omega arith

emit-Spells :
    (rounds most n : ℕ) (out : Bytes)
    → 0 < most
    → most ≤ rounds
    → n < 10 ^ most
    → (digits : Bytes) × (emit rounds n out ≡ digits ++ out) × Spells n most digits
unfolding emit
emit-Spells zero most n out h le lt = absurd (omega arith)
emit-Spells (suc rounds) zero n out h le lt = absurd (omega arith)
emit-Spells (suc rounds) (suc most) n out h le lt = elim (dec_lt n 10) [
  | yes small ↦ (
    (b'0' + n) ∷ [],
    rw (lt→ltb n 10 small) refl,
    record {
      all_digits = omega arith;
      exact = omega arith;
      some_digit = omega arith;
      few = omega arith;
    },
  )
  | no large ↦
      let d = b'0' + n % 10 in
      let more = another_digit most n (omega arith) lt in
      let (digits, e, s) =
        emit-Spells rounds most (n / 10) (d ∷ out) more (omega arith)
          (omega (arith, pow-suc 10 most)) in
      (
        digits ++ (d ∷ []),
        rw (le→not_ltb n 10 (omega arith)) (e ∙ sym (append_assoc digits (d ∷ []) out)),
        record {
          all_digits = All-append IsDigit digits (d ∷ []) s.all_digits (omega arith);
          exact = omega (arith, value-append 0 digits (d ∷ []), s.exact);
          some_digit = omega (arith, length-append digits (d ∷ []));
          few = omega (arith, length-append digits (d ∷ []), s.few);
        },
      )
]

-- An int64 that is not negative is written with at most 19 digits that spell it.
pub append_int-Spells : (n : ℕ) → n < 2 ^ 63 → Spells n 19 (append_int (pos n))
unfolding append_int
append_int-Spells n h =
    let (digits, e, s) = emit-Spells 19 19 n [] (omega arith) (omega arith) (omega arith) in
    subst (Spells n 19) (sym (e ∙ append-nil digits)) s

-- A number is below the power of ten that its digits reach.
pub value-lt :
    (n : ℕ) (digits : Bytes) → All IsDigit digits → value n digits < (n + 1) * 10 ^ length digits
value-lt n [] h = omega arith
value-lt n (c ∷ s) (d, h) =
    let grown : (n * 10 + (c - b'0') + 1) * 10 ^ length s ≤ (n + 1) * 10 * 10 ^ length s =
      mul-le-mul_right (10 ^ length s) (omega arith) in
    rw (pow-suc 10 (length s)) (omega (arith, value-lt (n * 10 + (c - b'0')) s h, grown))

-- A number of `digits + 1` digits is written with so many.
pub append_int_digits :
    (n digits : ℕ)
    → digits < 19
    → 10 ^ digits ≤ n
    → n < 10 ^ suc digits
    → length (append_int (pos n)) ≡ suc digits
unfolding append_int
append_int_digits n digits h low high =
    let top : 10 ^ suc digits ≤ 10 ^ 19 = pow-le-pow_right (omega arith) {j = 19} h in
    let (text, e, s) = emit-Spells 19 (suc digits) n [] (omega arith) h high in
    let same : length (emit 19 n []) ≡ length text = ap length (e ∙ append-nil text) in
    elim (dec_lt digits (length text)) [
      | yes enough ↦ omega (arith, s.few, same)
      | no short ↦
          let grown : 10 ^ length text ≤ 10 ^ digits =
            pow-le-pow_right (omega arith) (omega arith) in
          absurd (omega (arith, value-lt 0 text s.all_digits, s.exact, grown))
    ]

-- An int64 is written with at most 20 bytes.
pub append_int-length :
    (i : ℤ) → negsuc (2 ^ 63 - 1) ≤ℤ i → i ≤ℤ pos (2 ^ 63 - 1) → length (append_int i) ≤ 20
unfolding append_int
append_int-length (pos n) low high =
    let (text, e, s) = emit-Spells 19 19 n [] (omega arith) (omega arith) (omega arith) in
    omega (arith, ap length (e ∙ append-nil text), s.few)
append_int-length (negsuc n) low high =
    let (text, e, s) = emit-Spells 19 19 (n + 1) [] (omega arith) (omega arith) (omega arith) in
    omega (arith, ap length (e ∙ append-nil text), s.few)

-- Whether two texts are the same.
abbrev pub same : Bytes → Bytes → Bool
same [] [] = true
same [] (y ∷ ys) = false
same (x ∷ xs) [] = false
same (x ∷ xs) (y ∷ ys) = x == y && same xs ys

pub same_refl : (xs : Bytes) → same xs xs ≡ true
same_refl [] = refl
same_refl (x ∷ xs) = ground (arith, same_refl xs)

pub same_eq : (xs ys : Bytes) → same xs ys ≡ true → xs ≡ ys
same_eq [] [] h = refl
same_eq [] (y ∷ ys) h = ground arith
same_eq (x ∷ xs) [] h = ground arith
same_eq (x ∷ xs) (y ∷ ys) h =
    let e : x ≡ y = ground arith in
    let t : same xs ys ≡ true = ground arith in ap₂ (λ a b. a ∷ b) e (same_eq xs ys t)

-- A flag or an option that is not the empty text.
abbrev pub given : Bytes → Bool
given text = not (same text [])
