-- ===== src/Report/Rates.antt =====
-- `buildPerClientRates` of publish_report.go: the slowest, the median and the fastest client.
use mqtt_load_generator.Base.{
  ℕ, zero, suc, ◌+◌, ◌-◌, ◌/◌, ◌%◌, ◌≤◌, ◌<◌, ◌≡◌, ◌==◌, if◌then◌else◌, List, [], ◌∷◌, some, length,
  get_elem?, get_elem?-some, Bool-cases, inl, inr, lt-get_elem?, refl, sym, ap, subst, ◌∙◌, arith,
}
use mqtt_load_generator.Base.Words.{to_int64}
use mqtt_load_generator.Base.Text.{All}
use mqtt_load_generator.Base.Floats.{Float64, IsIeee, IsNumber, Fits, ◌≼◌}
use mqtt_load_generator.Base.Times.{Time, time_sub, time_sub-Fits}
use mqtt_load_generator.Publish.Client.{PublishCounters}
use mqtt_load_generator.Publish.Progress.{PublishProgress}
use mqtt_load_generator.Publish.Stats.{ClientStats, PublishStats}
use mqtt_load_generator.Report.Publish.{
  PublishReportPerClientAckedRates, rate, client_rates, nth, rates_of_sorted, no_rates,
  build_per_client_rates,
}
use mqtt_load_generator.Report.Sorting.{sort, IsSorted, sort-All, length-sort, sort-IsSorted}

to_int64-Fits : (w : ℕ) → Fits (to_int64 w)
to_int64-Fits w = ground arith

module _ {W : Type 0} ⦃float64 : Float64 W⦄ where
  open float64 use {nought, float, seconds, div, lt}

  nth-All : (P : W → Type 0) (xs : List W) (i : ℕ) → All P xs → i < length xs → P (nth xs i)
  nth-All P [] i a h = absurd (omega arith)
  nth-All P (x ∷ xs) zero a h = a.0
  nth-All P (x ∷ xs) (suc i) a h = nth-All P xs i a.1 (omega arith)

  nth_mono :
      (xs : List W) (i j : ℕ)
      → All (λ x. IsNumber x) xs
      → IsSorted xs
      → i ≤ j
      → j < length xs
      → nth xs i ≼ nth xs j
  nth_mono [] i j a s le h = absurd (omega arith)
  nth_mono (x ∷ xs) zero zero a s le h = a.0
  nth_mono (x ∷ xs) zero (suc j) a s le h = nth-All (λ y. x ≼ y) xs j s.0 (omega arith)
  nth_mono (x ∷ xs) (suc i) zero a s le h = absurd (omega arith)
  nth_mono (x ∷ xs) (suc i) (suc j) a s le h = nth_mono xs i j a.1 s.1 (omega arith) (omega arith)

  All_of_nth : (P : W → Type 0) (xs : List W) → ((i : ℕ) → i < length xs → P (nth xs i)) → All P xs
  All_of_nth P [] h = tt
  All_of_nth P (x ∷ xs) h = (h 0 (omega arith), All_of_nth P xs λ i lt. h (suc i) (omega arith))

  -- The rate of a client, by its counter and its time.
  abbrev pub rate_of : PublishCounters → Time → ClientStats → W
  rate_of counter started_at client =
      let client_seconds = seconds (time_sub client.finished_at started_at) in
      if lt nought client_seconds
      then div (float (to_int64 counter.acked)) client_seconds
      else nought

  rate_known :
      (counter : PublishCounters) (started_at : Time) (client : ClientStats)
      → rate (some (to_int64 counter.acked)) (seconds (time_sub client.finished_at started_at))
        ≡ some (rate_of counter started_at client)
  rate_known counter started_at client =
      elim (Bool-cases (lt nought (seconds (time_sub client.finished_at started_at)))) [
        | inl e ↦ rw (e) refl
        | inr e ↦ rw (e) refl
      ]

-- The rates of the clients, none of which panics.
record Rated (W : Type 0) ⦃float64 : Float64 W⦄ (progress : PublishProgress) (started_at : Time)
    (i : ℕ) (clients : List ClientStats) : Type 0 where
  rates : List W
  runs : client_rates progress started_at i clients ≡ some rates
  size : length rates ≡ length clients
  each :
      (j : ℕ) (client : ClientStats) (counter : PublishCounters)
      → get_elem? clients j ≡ some client
      → get_elem? progress.counters (i + j) ≡ some counter
      → nth rates j ≡ rate_of counter started_at client

module _ {W : Type 0} ⦃float64 : Float64 W⦄ (progress : PublishProgress) (started_at : Time) where
  each_cons :
      (i : ℕ) (client : ClientStats) (clients : List ClientStats) (counter : PublishCounters)
      → get_elem? progress.counters i ≡ some counter
      → (r : Rated W progress started_at (suc i) clients)
      → (j : ℕ) (client' : ClientStats) (counter' : PublishCounters)
      → get_elem? (client ∷ clients) j ≡ some client'
      → get_elem? progress.counters (i + j) ≡ some counter'
      → nth (rate_of counter started_at client ∷ r.rates) j ≡ rate_of counter' started_at client'
  each_cons i client clients counter at r zero client' counter' e f =
      let here : i + 0 ≡ i = omega arith in
      let c : counter ≡ counter' = ground (arith, at, f, ap (get_elem? progress.counters) here) in
      let d : client ≡ client' = ground (arith, e) in rw (c, d) refl
  each_cons i client clients counter at r (suc j) client' counter' e f =
      let there : suc i + j ≡ i + suc j = omega arith in
      r.each j client' counter' e (ap (get_elem? progress.counters) there ∙ f)

  rated :
      (i : ℕ) (clients : List ClientStats)
      → i + length clients ≤ length progress.counters
      → Rated W progress started_at i clients
  unfolding client_rates
  rated i [] h = record {
    rates = [];
    runs = refl;
    size = refl;
    each = λ j client counter e f. absurd (ground (arith, e));
  }
  rated i (client ∷ clients) h =
      let (counter, at) = get_elem?-some progress.counters i (omega arith) in
      let r = rated (suc i) clients (omega arith) in
      record {
        rates = rate_of counter started_at client ∷ r.rates;
        runs = rw (at, rate_known counter started_at client, r.runs) refl;
        size = ap suc r.size;
        each = each_cons i client clients counter at r;
      }

-- Where every client has a counter, no index is out of range.
pub per_client_rates_exist :
    {W : Type 0} ⦃float64 : Float64 W⦄
    → (progress : PublishProgress) (stats : PublishStats) (started_at : Time)
    → length stats.clients ≤ length progress.counters
    → (r : PublishReportPerClientAckedRates W) × (build_per_client_rates progress stats started_at
        ≡ some r)
unfolding build_per_client_rates
per_client_rates_exist progress stats started_at counters =
    let r = rated progress started_at 0 stats.clients (omega arith) in
    elim (Bool-cases (length stats.clients == 0)) [
      | inl e ↦ (no_rates, rw (e) refl)
      | inr e ↦ (rates_of_sorted (sort r.rates), rw (e, r.runs) refl)
    ]

module _ {W : Type 0} ⦃float64 : Float64 W⦄ (ieee : IsIeee W) where
  open float64 use {nought, float, seconds, div, lt}

  rate_of-Moderate :
      (counter : PublishCounters) (started_at : Time) (client : ClientStats)
      → ieee.Moderate (rate_of counter started_at client)
  rate_of-Moderate counter started_at client =
      let d = time_sub client.finished_at started_at in
      elim (Bool-cases (lt nought (seconds d))) [
        | inl e ↦ rw (e) (
            ieee.rate-Moderate (to_int64 counter.acked) d (to_int64-Fits counter.acked)
              (time_sub-Fits client.finished_at started_at) e)
        | inr e ↦ rw (e) ieee.nought-Moderate
      ]

  -- What is read from sorted numbers of moderate size.
  rates_of_sorted_lem :
      (rates : List W)
      → 0 < length rates
      → All ieee.Moderate rates
      → IsSorted rates
      → let r = rates_of_sorted rates in
        (r.slowest ≼ r.median)
        × (r.median ≼ r.fastest)
        × All (λ x. (r.slowest ≼ x) × (x ≼ r.fastest)) rates
  unfolding rates_of_sorted
  rates_of_sorted_lem rates some_rate moderate sorted =
      let n = length rates in
      let numbers =
        All_of_nth (λ x. IsNumber x) rates
          λ i lt.
            ieee.number_of_moderate (nth rates i) (nth-All ieee.Moderate rates i moderate lt) in
      let mono = λ (i j : ℕ) (le : i ≤ j) (lt : j < n). nth_mono rates i j numbers sorted le lt in
      let each =
        All_of_nth (λ x. (nth rates 0 ≼ x) × (x ≼ nth rates (n - 1))) rates
          λ i lt. (mono 0 i (omega arith) lt, mono i (n - 1) (omega arith) (omega arith)) in
      elim (Bool-cases (n % 2 == 0)) [
        | inl even ↦
            let two : 2 ≤ n = ground (arith, even, some_rate) in
            let low = n / 2 - 1 in
            let half =
              ieee.half (nth rates low) (nth rates (n / 2))
                (nth-All ieee.Moderate rates low moderate (omega arith))
                (nth-All ieee.Moderate rates (n / 2) moderate (omega arith))
                (mono low (n / 2) (omega arith) (omega arith)) in
            rw (even) (
              ieee.le_trans _ _ _ (mono 0 low (omega arith) (omega arith)) half.0,
              ieee.le_trans _ _ _ half.1 (mono (n / 2) (n - 1) (omega arith) (omega arith)),
              each,
            )
        | inr odd ↦ rw (odd) (
          mono 0 (n / 2) (omega arith) (omega arith),
          mono (n / 2) (n - 1) (omega arith) (omega arith),
          each,
        )
      ]

  -- Where every client has a counter, the rates of the report exist. With at least one client, the
  -- median lies between the slowest and the fastest, and so does the rate of every client: its acked
  -- messages for each second it took, or 0 where it took no time.
  pub per_client_rates_bound :
      (progress : PublishProgress) (stats : PublishStats) (started_at : Time)
      → 0 < length stats.clients
      → length stats.clients ≤ length progress.counters
      → (r : PublishReportPerClientAckedRates W) × (build_per_client_rates progress stats started_at
          ≡ some r)
        × (r.slowest ≼ r.median)
        × (r.median ≼ r.fastest)
        × ((i : ℕ) (client : ClientStats) (counter : PublishCounters)
            → get_elem? stats.clients i ≡ some client
            → get_elem? progress.counters i ≡ some counter
            → let x : W = rate_of counter started_at client in (r.slowest ≼ x) × (x ≼ r.fastest))
  unfolding build_per_client_rates
  per_client_rates_bound progress stats started_at some_client counters =
      let at_zero =
        λ (i : ℕ). ap (get_elem? progress.counters) (let e : 0 + i ≡ i = omega arith in e) in
      let r = rated progress started_at 0 stats.clients (omega arith) in
      let moderate = All_of_nth ieee.Moderate r.rates λ i lt.
        let (client, at) = get_elem?-some stats.clients i (omega (arith, r.size)) in
        let (counter, found) = get_elem?-some progress.counters i (omega (arith, r.size)) in
        subst ieee.Moderate (sym (r.each i client counter at (at_zero i ∙ found)))
          (rate_of-Moderate counter started_at client) in
      let sorted = sort-IsSorted ieee r.rates (
        All_of_nth (λ x. IsNumber x) r.rates
          λ i lt.
            ieee.number_of_moderate (nth r.rates i)
              (nth-All ieee.Moderate r.rates i moderate lt)) in
      let (low, high, each) =
        rates_of_sorted_lem (sort r.rates) (omega (arith, length-sort r.rates, r.size))
          ((sort-All ieee.Moderate r.rates).1 moderate) sorted in
      let bounds = rates_of_sorted (sort r.rates) in
      let InBounds = λ (x : W). (bounds.slowest ≼ x) × (x ≼ bounds.fastest) in
      (
        bounds,
        rw (r.runs) (ground (arith, some_client)),
        low,
        high,
        λ i client counter at found.
            subst InBounds (r.each i client counter at (at_zero i ∙ found)) (
              nth-All InBounds r.rates i ((sort-All InBounds r.rates).0 each)
                (omega (arith, r.size, lt-get_elem? stats.clients i client at))),
      )
