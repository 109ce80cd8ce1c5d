-- ===== src/Base/Lists.antt =====
-- Lists measured and indexed by native numbers, under the library's names.
use Prim.Native.Nat.{ℕ, zero, suc, ◌+◌, ◌≤◌, ◌<◌}
use mathlib.Core.Path.{◌≡◌, refl, ap}
use mathlib.Core.Logic.{◌≢◌, ∥∥₁_elim}
use mathlib.Core.List.{List, [], ◌∷◌, ◌++◌, map, Perm, Permᴰ}
use mathlib.Core.Bool.{Bool, true, false}
use native.Mathlib.Nat.{ℕ_set}
use mathlib.Core.Option.{Option, none, some}
use native.Mathlib.Omega.{arith}

module _ {ℓ} {A : Type ℓ} where
  abbrev pub length : List A → ℕ
  length [] = 0
  length (x ∷ xs) = suc (length xs)

  abbrev pub get_elem? : List A → ℕ → Option A
  get_elem? [] i = none
  get_elem? (x ∷ xs) zero = some x
  get_elem? (x ∷ xs) (suc i) = get_elem? xs i

  -- A write out of bounds changes nothing.
  abbrev pub set : List A → ℕ → A → List A
  set [] i v = []
  set (x ∷ xs) zero v = v ∷ xs
  set (x ∷ xs) (suc i) v = x ∷ set xs i v

  abbrev pub replicate : ℕ → A → List A
  replicate zero a = []
  replicate (suc n) a = a ∷ replicate n a

  pub length-append : (xs ys : List A) → length (xs ++ ys) ≡ length xs + length ys
  length-append [] ys = omega arith
  length-append (x ∷ xs) ys = omega (arith, length-append xs ys)

  pub length-replicate : (n : ℕ) (a : A) → length (replicate n a) ≡ n
  length-replicate zero a = refl
  length-replicate (suc n) a = ap suc (length-replicate n a)

  pub length-set : (xs : List A) (i : ℕ) (v : A) → length (set xs i v) ≡ length xs
  length-set [] i v = refl
  length-set (x ∷ xs) zero v = refl
  length-set (x ∷ xs) (suc i) v = ap suc (length-set xs i v)

  pub get_elem?-some : (xs : List A) (i : ℕ) → i < length xs → (a : A) × (get_elem? xs i ≡ some a)
  get_elem?-some [] i h = elim h [ ]
  get_elem?-some (x ∷ xs) zero h = (x, refl)
  get_elem?-some (x ∷ xs) (suc i) h = get_elem?-some xs i (omega arith)

  pub lt-get_elem? : (xs : List A) (i : ℕ) (a : A) → get_elem? xs i ≡ some a → i < length xs
  lt-get_elem? [] i a e = absurd (ground (arith, e))
  lt-get_elem? (x ∷ xs) zero a e = omega arith
  lt-get_elem? (x ∷ xs) (suc i) a e = omega (arith, lt-get_elem? xs i a e)

module _ {ℓ} {A : Type ℓ} where
  pub get_elem?-set_self :
      (xs : List A) (i : ℕ) (v : A) → i < length xs → get_elem? (set xs i v) i ≡ some v
  get_elem?-set_self [] i v h = elim h [ ]
  get_elem?-set_self (x ∷ xs) zero v h = refl
  get_elem?-set_self (x ∷ xs) (suc i) v h = get_elem?-set_self xs i v (omega arith)

  pub get_elem?-set_ne :
      (xs : List A) {i j : ℕ} (v : A) → i ≢ j → get_elem? (set xs i v) j ≡ get_elem? xs j
  get_elem?-set_ne [] v h = refl
  get_elem?-set_ne (x ∷ xs) {i = zero} {j = zero} v h = absurd (h refl)
  get_elem?-set_ne (x ∷ xs) {i = zero} {j = suc j} v h = refl
  get_elem?-set_ne (x ∷ xs) {i = suc i} {j = zero} v h = refl
  get_elem?-set_ne (x ∷ xs) {i = suc i} {j = suc j} v h = get_elem?-set_ne xs v (λ e. h (ap suc e))

  pub replicate-add :
      (j m n : ℕ) (a : A) → n ≡ j + m → replicate n a ≡ replicate j a ++ replicate m a
  replicate-add zero m n a e = let p : n ≡ m = omega arith in rw p refl
  replicate-add (suc j) m zero a e = absurd (omega arith)
  replicate-add (suc j) m (suc n) a e = ap (◌∷◌ a) (replicate-add j m n a (omega arith))

  pub get_elem?-replicate : (n : ℕ) (a : A) (i : ℕ) → i < n → get_elem? (replicate n a) i ≡ some a
  get_elem?-replicate zero a i h = elim h [ ]
  get_elem?-replicate (suc n) a zero h = refl
  get_elem?-replicate (suc n) a (suc i) h = get_elem?-replicate n a i (omega arith)

  pub length-map {κ} : {B : Type κ} (xs : List A) (f : A → B) → length (map f xs) ≡ length xs
  length-map [] f = refl
  length-map (x ∷ xs) f = ap suc (length-map xs f)

-- A weight summed over a list.
abbrev pub total {ℓ} : {A : Type ℓ} → (A → ℕ) → List A → ℕ
total w [] = 0
total w (x ∷ xs) = w x + total w xs

pub total-append {ℓ} :
    {A : Type ℓ} (w : A → ℕ) (xs ys : List A) → total w (xs ++ ys) ≡ total w xs + total w ys
total-append w [] ys = omega arith
total-append w (x ∷ xs) ys = omega (arith, total-append w xs ys)

total-Permᴰ {ℓ} : {A : Type ℓ} (w : A → ℕ) {xs ys : List A} → Permᴰ xs ys → total w xs ≡ total w ys
total-Permᴰ w Permᴰ.nil = refl
total-Permᴰ w (Permᴰ.cons e d) = omega (arith, ap w e, total-Permᴰ w d)
total-Permᴰ w (Permᴰ.swap e₁ e₂) = omega (arith, ap w e₁, ap w e₂)
total-Permᴰ w (Permᴰ.trans d₁ d₂) = omega (arith, total-Permᴰ w d₁, total-Permᴰ w d₂)

-- A total does not depend on the order.
pub total-Perm {ℓ} :
    {A : Type ℓ} (w : A → ℕ) {xs ys : List A} → Perm xs ys → total w xs ≡ total w ys
total-Perm w p = ∥∥₁_elim p (ℕ_set _ _) (λ d. total-Permᴰ w d)

pub total-one {ℓ} : {A : Type ℓ} (xs : List A) → total (λ x. 1) xs ≡ length xs
total-one [] = refl
total-one (x ∷ xs) = omega (arith, total-one xs)

-- One element's share of a total, and what a write to it changes.
pub total-set {ℓ} :
    {A : Type ℓ} (w : A → ℕ) (xs : List A) (i : ℕ) (a v : A)
    → get_elem? xs i ≡ some a
    → (w a ≤ total w xs) × (total w (set xs i v) + w a ≡ total w xs + w v)
total-set w [] i a v e = absurd (ground (arith, e))
total-set w (x ∷ xs) zero a v e = let here : x ≡ a = ground (arith, e) in omega (arith, ap w here)
total-set w (x ∷ xs) (suc i) a v e = omega (arith, total-set w xs i a v e)

abbrev pub flag : Bool → ℕ
flag true = 1
flag false = 0

-- The weight of a list `xs` in which `c` is replaced by `moved`, before and after.
pub record Moved {ℓ} {A : Type ℓ} (w : A → ℕ) (xs before : List A) (c : A) (moved after : List A)
    : Type 0 where
  pub was : total w xs ≡ total w before + w c + total w after
  pub is : total w (before ++ (moved ++ after)) ≡ total w before + total w moved + total w after

pub weigh {ℓ} :
    {A : Type ℓ} (w : A → ℕ) (xs before : List A) (c : A) (moved after : List A)
    → xs ≡ before ++ (c ∷ after)
    → Moved w xs before c moved after
weigh w xs before c moved after e = record {
  was = omega (arith, ap (total w) e, total-append w before (c ∷ after));
  is = omega (arith, total-append w before (moved ++ after), total-append w moved after);
}
