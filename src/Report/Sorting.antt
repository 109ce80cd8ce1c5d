-- ===== src/Report/Sorting.antt =====
-- `slices.Sort` of floats, and what sorting promises.
use mqtt_load_generator.Base.{
  suc, ◌≡◌, ◌↔◌, inl, inr, if◌then◌else◌, true, List, [], ◌∷◌, length, Bool-cases, refl, ap, ◌∙◌,
  arith,
}
use mqtt_load_generator.Base.Text.{All}
use mqtt_load_generator.Base.Floats.{Float64, IsIeee, IsNumber, le_of_not_lt, ◌≼◌}

module _ {W : Type 0} ⦃float64 : Float64 W⦄ where
  unfoldable pub insert : W → List W → List W
  insert x [] = x ∷ []
  insert x (y ∷ ys) = let rest = insert x ys in if float64.lt y x then y ∷ rest else x ∷ y ∷ ys

  unfoldable pub sort : List W → List W
  unfolding insert
  sort [] = []
  sort (x ∷ xs) = insert x (sort xs)

  abbrev pub IsSorted : List W → Type 0
  IsSorted [] = Unit
  IsSorted (x ∷ xs) = All (λ y. x ≼ y) xs × IsSorted xs

  insert-All : (P : W → Type 0) (x : W) (ys : List W) → All P (insert x ys) ↔ (P x × All P ys)
  unfolding insert
  insert-All P x [] = (λ h. h, λ h. h)
  insert-All P x (y ∷ ys) = elim (Bool-cases (float64.lt y x)) [
    | inl e ↦ rw (e) (
        let (to, from) = insert-All P x ys in
        (λ h. let (px, h') = to h.1 in (px, (h.0, h')), λ h. (h.1.0, from (h.0, h.1.1))))
    | inr e ↦ rw (e) (λ h. h, λ h. h)
  ]

  -- Sorting keeps the elements.
  pub sort-All : (P : W → Type 0) (xs : List W) → All P (sort xs) ↔ All P xs
  unfolding sort
  sort-All P [] = (λ h. h, λ h. h)
  sort-All P (x ∷ xs) =
      let (to, from) = insert-All P x (sort xs) in
      let (down, up) = sort-All P xs in
      (λ h. let (px, rest) = to h in (px, down rest), λ h. from (h.0, up h.1))

  length-insert : (x : W) (ys : List W) → length (insert x ys) ≡ suc (length ys)
  unfolding insert
  length-insert x [] = refl
  length-insert x (y ∷ ys) = elim (Bool-cases (float64.lt y x)) [
    | inl e ↦ rw (e) (ap suc (length-insert x ys))
    | inr e ↦ rw (e) refl
  ]

  pub length-sort : (xs : List W) → length (sort xs) ≡ length xs
  unfolding sort
  length-sort [] = refl
  length-sort (x ∷ xs) = length-insert x (sort xs) ∙ ap suc (length-sort xs)

module _ {W : Type 0} ⦃float64 : Float64 W⦄ (ieee : IsIeee W) where
  le_of_lt : (x y : W) → IsNumber x → IsNumber y → float64.lt x y ≡ true → x ≼ y
  le_of_lt x y hx hy e = elim (ieee.le_total x y hx hy) [
    | inl h ↦ h
    | inr h ↦ absurd (ground (arith, e, h, ieee.lt-eq-not-le x y hx hy))
  ]

  below_all : (x y : W) (ys : List W) → x ≼ y → All (λ z. y ≼ z) ys → All (λ z. x ≼ z) ys
  below_all x y [] h a = tt
  below_all x y (z ∷ zs) h a = (ieee.le_trans x y z h a.0, below_all x y zs h a.1)

  insert-IsSorted :
      (x : W) (ys : List W)
      → IsNumber x
      → All (λ y. IsNumber y) ys
      → IsSorted ys
      → IsSorted (insert x ys)
  unfolding insert
  insert-IsSorted x [] hx hs s = (tt, tt)
  insert-IsSorted x (y ∷ ys) hx hs s = elim (Bool-cases (float64.lt y x)) [
    | inl e ↦ rw (e) (
      (insert-All (λ z. y ≼ z) x ys).1 (le_of_lt y x hs.0 hx e, s.0),
      insert-IsSorted x ys hx hs.1 s.1,
    )
    | inr e ↦
        let first = le_of_not_lt ieee y x hs.0 hx e in
        rw (e) ((first, below_all x y ys first s.0), s)
  ]

  -- Numbers are sorted.
  pub sort-IsSorted : (xs : List W) → All (λ x. IsNumber x) xs → IsSorted (sort xs)
  unfolding sort
  sort-IsSorted [] h = tt
  sort-IsSorted (x ∷ xs) h =
      insert-IsSorted x (sort xs) h.0 ((sort-All (λ x. IsNumber x) xs).1 h.1) (sort-IsSorted xs h.1)
