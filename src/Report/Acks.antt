-- ===== src/Report/Acks.antt =====
-- `RunPublish` over the loops of all its clients, and the latencies of the report after it
-- (internal/mqttload/publish.go, publish_report.go).
use mqtt_load_generator.Base.{
  ℕ, zero, suc, ◌+◌, ◌^◌, ◌≤◌, ◌<◌, ◌≡◌, ◌↔◌, Bool, ℤ, pos, List, [], ◌∷◌, ◌++◌, none, some, map,
  Perm, length, length-append, length-map, total, total-Perm, total-one, refl, sym, ap, ◌∙◌, arith,
}
use mqtt_load_generator.Base.Floats.{Float64}
use mqtt_load_generator.Latency.Counters.{record_all}
use mqtt_load_generator.Latency.Shared.{LatencyBucketSet, new_latency_bucket_set, record_for}
use mqtt_load_generator.Latency.Shared
use mqtt_load_generator.Latency.Hdr.{HdrHistogram, IsCounting}
use mqtt_load_generator.Latency.HdrTotals.{recorded_total}
use mqtt_load_generator.Publish.{PublishOptions, Semaphore}
use mqtt_load_generator.Publish.Client.{PublishCounters, no_counts}
use mqtt_load_generator.Publish.Invariant.{timed}
use mqtt_load_generator.Publish.Safety.{disconnect_accounts}
use mqtt_load_generator.Publish.Progress.{new_publish_progress, snapshot}
use mqtt_load_generator.Publish.Run.{Course, Countable, acked, run_publish, run_acked, sum_from_lem}
use mqtt_load_generator.Publish.EndToEnd.{Finished, final_counters}
use mqtt_load_generator.Publish.Stats.{PublishStats}
use mqtt_load_generator.Report.{unless_empty}
use mqtt_load_generator.Report.Publish.{build_ack_latency}

unless_empty-none :
    {A : Type 0} (total : ℤ) (report : A) (n : ℕ)
    → total ≡ pos n
    → (unless_empty total report ≡ none) ↔ (n ≡ 0)
unless_empty-none total report zero e = rw (e) (λ h. refl, λ h. refl)
unless_empty-none total report (suc n) e =
    rw (e) (λ h. absurd (ground (arith, h)), λ h. absurd (omega (arith, h)))

timed-add : (qos m n : ℕ) → timed qos m + timed qos n ≡ timed qos (m + n)
timed-add qos m n = ground arith

timed-bounded : (qos n : ℕ) → timed qos n ≤ n
timed-bounded qos n = ground arith

-- The total of the counters that a sum of four bounds.
acked_bounded :
    (counters : List PublishCounters) → Countable counters → total acked counters < 2 ^ 63
acked_bounded counters countable =
    let sum = sum_from_lem no_counts counters (omega (arith, countable)) in omega (arith, sum)

module _ (semaphore : Semaphore) (options : PublishOptions) {per_client_stats : Bool}
    (small : options.count < 2 ^ 63) where
  -- What each client's goroutines record, with its number, from number `i` on.
  abbrev pub recordings : ℕ → List (Finished semaphore options per_client_stats) → List (ℕ × ℤ)
  recordings i [] = []
  recordings i (f ∷ finished) =
      map (λ z. (i, z)) f.state.shared_latency ++ recordings (suc i) finished

  length-recordings :
      (i : ℕ) (finished : List (Finished semaphore options per_client_stats))
      → length (recordings i finished)
        ≡ timed options.qos (total acked (final_counters semaphore options small finished))
  length-recordings i [] = ground arith
  length-recordings i (f ∷ finished) =
      let here : List (ℕ × ℤ) = map (λ z. (i, z)) f.state.shared_latency in
      let (a, b, own, c) = disconnect_accounts semaphore options small f.run f.over in
      let rest = length-recordings (suc i) finished in
      omega (
        arith,
        length-append here (recordings (suc i) finished),
        length-map {B = ℕ × ℤ} f.state.shared_latency (λ z. (i, z)),
        own,
        rest,
        timed-add options.qos f.state.counters.acked
            (total acked (final_counters semaphore options small finished)),
      )

  module _ {W : Type 0} ⦃float64 : Float64 W⦄ (hdr : HdrHistogram W)
      (counting : IsCounting hdr) where
    open hdr use {histogram, new, total_count}

    -- When every client of a run has ended, cancelled or not, what their goroutines recorded in the
    -- shared counters, in any order, was recorded without a panic. The histogram of the report then
    -- counts as many latencies as the summary says messages were acked at QoS 1 and 2, and none at
    -- QoS 0; and the report leaves out its ack latencies exactly if that number is 0.
    pub report_times_acks :
        (finished : List (Finished semaphore options per_client_stats)) (course : Course)
        → (0 < course.first_time) × (0 < course.second_time)
        → course.connected ≡ none
        → course.counters ≡ final_counters semaphore options small finished
        → Countable course.counters
        → (procs : ℕ) (calls : List (ℕ × ℤ)) → Perm (recordings 0 finished) calls
        → let ended = (run_publish course (new_publish_progress (length finished))).0 in
          let acks = timed options.qos (snapshot ended).summary.acked in
          (shared : LatencyBucketSet) × (record_all record_for (new_latency_bucket_set procs) calls
            ≡ some shared)
          × (total_count (Shared.add_to histogram shared new) ≡ pos acks)
          × ((stats : PublishStats)
              → stats.latency ≡ shared
              → (build_ack_latency hdr stats ≡ none) ↔ (acks ≡ 0))
    unfolding build_ack_latency
    report_times_acks finished course times connected counters countable procs calls order =
        let sum = run_acked (length finished) course times countable connected in
        let counted = ap (timed options.qos) (sum ∙ ap (total acked) counters) in
        let size : length calls
            ≡ timed options.qos
                (snapshot
                  (run_publish course (new_publish_progress (length finished))).0).summary.acked =
          sym (total-one calls)
          ∙ sym (total-Perm (λ c. 1) order)
          ∙ total-one (recordings 0 finished)
          ∙ length-recordings 0 finished
          ∙ sym counted in
        let few = acked_bounded course.counters countable in
        let bounded = timed-bounded options.qos (total acked course.counters) in
        let (shared, runs, all) =
          recorded_total hdr counting procs calls
            (omega (arith, size, ap (timed options.qos) sum, bounded, few)) in
        let all_acks = all ∙ ap pos size in
        (
          shared,
          runs,
          all_acks,
          λ stats e.
              unless_empty-none _ _ _
                (ap (λ s. total_count (Shared.add_to histogram s new)) e ∙ all_acks),
        )
