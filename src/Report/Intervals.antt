-- ===== src/Report/Intervals.antt =====
-- `buildAcksPerInterval` of publish_report.go, which both reports call: the bounds of the intervals.
use mqtt_load_generator.Base.{
  ℕ, zero, suc, ◌≡◌, ◌≢◌, ℤ, pos, ltb_ℤ, ◌≤ℤ◌, List, [], ◌∷◌, none, some, get_elem?, Bool-cases,
  inl, inr, refl, arith,
}
use mqtt_load_generator.Base.Text.{All}
use mqtt_load_generator.Base.Floats.{Float64}
use mqtt_load_generator.Publish.Stats.{Slice, elements}
use mqtt_load_generator.Report.{slice_min, slice_max, build_acks_per_interval}

-- An element of a list, by its index.
abbrev pub Within : ℤ → List ℤ → Type 0
Within x xs = (i : ℕ) × (get_elem? xs i ≡ some x)

-- A value of a list that is related to all of them: its least one, or its greatest.
pub record IsBound (R : ℤ → ℤ → Type 0) (m : ℤ) (xs : List ℤ) : Type 0 where
  pub bound : All (λ x. R m x) xs
  pub one_of : Within m xs

abbrev pub IsLeast : ℤ → List ℤ → Type 0
IsLeast = IsBound λ m x. m ≤ℤ x

abbrev pub IsGreatest : ℤ → List ℤ → Type 0
IsGreatest = IsBound λ m x. x ≤ℤ m

module _ (R : ℤ → ℤ → Type 0) (trans : (a b c : ℤ) → R a b → R b c → R a c) (r m x : ℤ)
    (xs : List ℤ) where
  add_front : R x m → IsBound R r (x ∷ xs) → IsBound R r (m ∷ x ∷ xs)
  add_front le h = record {
    bound = (trans r x m h.bound.0 le, h.bound);
    one_of = (suc h.one_of.0, h.one_of.1);
  }

  skip_one : Within r (m ∷ xs) → Within r (m ∷ x ∷ xs)
  skip_one (zero, e) = (0, e)
  skip_one (suc i, e) = (suc (suc i), e)

  add_second : R m x → IsBound R r (m ∷ xs) → IsBound R r (m ∷ x ∷ xs)
  add_second le h = record {
    bound = (h.bound.0, (trans r m x h.bound.0 le, h.bound.1));
    one_of = skip_one h.one_of;
  }

slice_min-IsLeast : (m : ℤ) (xs : List ℤ) → IsLeast (slice_min m xs) (m ∷ xs)
slice_min-IsLeast m [] = record { bound = (omega arith, tt); one_of = (0, refl) }
slice_min-IsLeast m (x ∷ xs) =
    let trans = λ (a b c : ℤ) (h : a ≤ℤ b) (k : b ≤ℤ c). let l : a ≤ℤ c = omega arith in l in
    elim (Bool-cases (ltb_ℤ x m)) [
      | inl e ↦ rw (e) (
          add_front (λ a b. a ≤ℤ b) trans (slice_min x xs) m x xs (ground (arith, e))
            (slice_min-IsLeast x xs))
      | inr e ↦ rw (e) (
          add_second (λ a b. a ≤ℤ b) trans (slice_min m xs) m x xs (ground (arith, e))
            (slice_min-IsLeast m xs))
    ]

slice_max-IsGreatest : (m : ℤ) (xs : List ℤ) → IsGreatest (slice_max m xs) (m ∷ xs)
slice_max-IsGreatest m [] = record { bound = (omega arith, tt); one_of = (0, refl) }
slice_max-IsGreatest m (x ∷ xs) =
    let trans = λ (a b c : ℤ) (h : b ≤ℤ a) (k : c ≤ℤ b). let l : c ≤ℤ a = omega arith in l in
    elim (Bool-cases (ltb_ℤ m x)) [
      | inl e ↦ rw (e) (
          add_front (λ a b. b ≤ℤ a) trans (slice_max x xs) m x xs (ground (arith, e))
            (slice_max-IsGreatest x xs))
      | inr e ↦ rw (e) (
          add_second (λ a b. b ≤ℤ a) trans (slice_max m xs) m x xs (ground (arith, e))
            (slice_max-IsGreatest m xs))
    ]

module _ {W : Type 0} ⦃float64 : Float64 W⦄ where
  -- The lowest and the highest of the report are the least and the greatest of the values, or both 0
  -- where there are none. The values of the report are those of the samples, and never a nil slice.
  pub intervals_bounded :
      (values : Slice ℤ) (acked : ℤ) (elapsed_seconds : W)
      → let r = build_acks_per_interval values acked elapsed_seconds in
        (r.values ≡ some (elements values))
        × (elements values ≢ []
            → IsLeast r.lowest (elements values) × IsGreatest r.highest (elements values))
        × (elements values ≡ [] → (r.lowest ≡ pos 0) × (r.highest ≡ pos 0))
  unfolding build_acks_per_interval
  intervals_bounded none acked elapsed_seconds = (refl, λ h. absurd (h refl), λ e. (refl, refl))
  intervals_bounded (some []) acked elapsed_seconds =
      (refl, λ h. absurd (h refl), λ e. (refl, refl))
  intervals_bounded (some (x ∷ xs)) acked elapsed_seconds = (
    refl,
    λ h. (slice_min-IsLeast x xs, slice_max-IsGreatest x xs),
    λ e. absurd (ground (arith, e)),
  )
