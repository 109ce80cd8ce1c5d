-- ===== src/Latency/HdrTotals.antt =====
-- The totals of the histograms that the counters of latency_buckets.go are added to.
use mqtt_load_generator.Base.{
  ℕ, suc, ◌+◌, ◌^◌, ◌<◌, ◌≡◌, if◌then◌else◌, ◌==◌, ℤ, pos, List, [], ◌∷◌, some, length, total,
  Bool-cases, inl, inr, refl, sym, ap, ◌∙◌, arith,
}
use mqtt_load_generator.Base.Words.{to_int64}
use mqtt_load_generator.Base.Text.{All}
use mqtt_load_generator.Latency.{latency_value_for_index}
use mqtt_load_generator.Latency.Counters.{
  LatencyBuckets, Histogram, add_one, record_latency, record_all, add_counts,
}
use mqtt_load_generator.Latency.Counters
use mqtt_load_generator.Latency.Shared.{
  LatencyBucketSet, set_size, new_latency_bucket_set, record_for,
}
use mqtt_load_generator.Latency.Shared
use mqtt_load_generator.Latency.Hdr.{HdrHistogram, IsCounting}
use mqtt_load_generator.Latency.SharedTotals.{
  record_dense, weight-empty, empty-IsSound, InRange, sum_of, weight, IsSound, new-Held,
  record_calls,
}
use mqtt_load_generator.Latency.Chunked.{ChunkedLatencyBuckets}
use mqtt_load_generator.Latency.Chunked
use mqtt_load_generator.Latency.Refinement.{chunked_refines_dense}

in_range_tail :
    (from c : ℕ) (counts : List ℕ) → InRange from (c ∷ counts) → InRange (from + 1) counts
in_range_tail from c counts h i b found positive =
    let there : from + suc i ≡ from + 1 + i = omega arith in
    omega (arith, h (suc i) b found positive, ap latency_value_for_index there)

module _ {W : Type 0} (hdr : HdrHistogram W) (counting : IsCounting hdr) where
  open hdr use {histogram, new, total_count}

  add_one_count :
      (from c m : ℕ) (counts : List ℕ) (h : histogram.Hist)
      → InRange from (c ∷ counts)
      → total_count h ≡ pos m
      → m + c < 2 ^ 63
      → total_count (
          if c == 0
          then h
          else histogram.record_values h (pos (latency_value_for_index from)) (to_int64 c))
        ≡ pos (m + c)
  add_one_count from c m counts h range e few = elim (Bool-cases (c == 0)) [
    | inl zero_count ↦
        let none_more : m + c ≡ m = ground (arith, zero_count) in rw (zero_count, none_more) e
    | inr some_count ↦
        let fits : to_int64 c ≡ pos c = ground (arith, few) in
        let here : from + 0 ≡ from = omega arith in
        let bounded = range 0 c refl (ground (arith, some_count)) in
        rw (some_count, fits)
          (counting.total_count-record_values h (latency_value_for_index from) c m
            (omega (arith, bounded, ap latency_value_for_index here)) e few)
  ]

  pub add_counts_total :
      (counts : List ℕ) (from m : ℕ) (h : histogram.Hist)
      → InRange from counts
      → total_count h ≡ pos m
      → m + sum_of counts < 2 ^ 63
      → total_count (add_counts histogram from counts h) ≡ pos (m + sum_of counts)
  unfolding add_counts
  add_counts_total [] from m h range e few = e ∙ ap pos (omega arith)
  add_counts_total (c ∷ counts) from m h range e few =
      add_counts_total counts (from + 1) (m + c) _ (in_range_tail from c counts range)
        (add_one_count from c m counts h range e (omega arith)) (omega arith)
      ∙ ap pos (omega arith)

  add_members_total :
      (members : List LatencyBuckets) (m : ℕ) (h : histogram.Hist)
      → All IsSound members
      → total_count h ≡ pos m
      → m + total weight members < 2 ^ 63
      → total_count (Shared.add_to histogram (record { buckets = members }) h)
        ≡ pos (m + total weight members)
  unfolding Shared.add_to Counters.add_to
  add_members_total [] m h sound e few = e ∙ ap pos (omega arith)
  add_members_total (member ∷ members) m h sound e few =
      add_members_total members (m + weight member) _ sound.1
        (add_counts_total member.counts 0 m h sound.0.in_range e (omega arith)) (omega arith)
      ∙ ap pos (omega arith)

  -- Any recordings, fewer than 2^63 and by clients of any numbers, into the shared counters of a new
  -- run succeed, and the histogram that the counters are then added to counts each of them once.
  pub recorded_total :
      (procs : ℕ) (calls : List (ℕ × ℤ))
      → length calls < 2 ^ 63
      → (shared : LatencyBucketSet) × (record_all record_for (new_latency_bucket_set procs) calls
          ≡ some shared)
        × (total_count (Shared.add_to histogram shared new) ≡ pos (length calls))
  recorded_total procs calls few =
      let r = record_calls calls (new_latency_bucket_set procs) 0 (new-Held procs) (omega arith) in
      (
        r.after,
        r.runs,
        add_members_total r.after.buckets 0 new r.held.all_sound counting.total_count-new
              (omega (arith, r.held.sum))
            ∙ ap pos (omega (arith, r.held.sum)),
      )

  -- The same of the counters of one client.
  pub client_total :
      (zs : List ℤ)
      → length zs < 2 ^ 63
      → (c : ChunkedLatencyBuckets) × (record_all Chunked.record_latency Chunked.empty zs ≡ some c)
        × (total_count (Chunked.add_to histogram c new) ≡ pos (length zs))
  unfolding Counters.add_to
  client_total zs few =
      let (d, c, dense, chunked, same) = chunked_refines_dense histogram zs in
      let r = record_dense zs Counters.empty empty-IsSound (omega (arith, weight-empty)) in
      let e : r.after ≡ d = ground (arith, dense, r.runs) in
      let total =
        add_counts_total r.after.counts 0 0 new r.sound.in_range counting.total_count-new
          (omega (arith, r.sum, weight-empty)) in
      (
        c,
        chunked,
        ap total_count (same new)
            ∙ ap (λ d. total_count (Counters.add_to histogram d new)) (sym e)
            ∙ total
            ∙ ap pos (omega (arith, r.sum, weight-empty)),
      )
