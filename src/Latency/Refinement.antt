-- ===== src/Latency/Refinement.antt =====
-- The chunked counters of latency_buckets.go against the dense ones.
use mqtt_load_generator.Base.{
  ℕ, zero, suc, ◌+◌, ◌*◌, ◌%◌, ℤ, List, [], ◌∷◌, ◌++◌, Option, none, some, replicate, length,
  replicate-add, ◌≡◌, refl, sym, ap, ap₂, ◌∙◌, arith,
}
use mqtt_load_generator.Base.Words.{ones, bit_and-ones}
use mqtt_load_generator.Latency.{latency_counts_index}
use mqtt_load_generator.Latency.Index.{latency_counts_index-lt}
use mqtt_load_generator.Latency.Counters.{
  Histogram, LatencyBuckets, add_one, add_counts, record_all,
}
use mqtt_load_generator.Latency.Counters
use mqtt_load_generator.Latency.Chunked.{
  ChunkedLatencyBuckets, new_chunk, chunk_number, chunk_offset,
}
use mqtt_load_generator.Latency.Chunked
use mqtt_load_generator.Latency.Flat.{flat, Full, record_at-flat, add_chunks-flat}

-- The dense counters stand for the chunked ones.
record Agree (dense : LatencyBuckets) (chunked : ChunkedLatencyBuckets) : Type 0 where
  counts : dense.counts ≡ flat chunked.chunks
  full : Full chunked.chunks
  size : length chunked.chunks ≡ 26

empty_slots :
    (k n : ℕ)
    → n ≡ k * 128
    → Full (replicate k none)
      × (replicate n 0 ≡ flat (replicate k none))
      × (length (replicate {A = Option (List ℕ)} k none) ≡ k)
unfolding flat
empty_slots zero n e = let p : n ≡ 0 = omega arith in rw p (tt, refl, refl)
empty_slots (suc k) n e =
    let (f, same, l) = empty_slots k (k * 128) refl in
    ((refl, f), replicate-add 128 (k * 128) n 0 (omega arith) ∙ ap (◌++◌ new_chunk) same, ap suc l)

empty-Agree : Agree Counters.empty Chunked.empty
unfolding Counters.empty Chunked.empty
empty-Agree =
    let (f, same, l) = empty_slots 26 3328 refl in record { counts = same; full = f; size = l }

offset-eq-mod : (i : ℕ) → chunk_offset i ≡ i % 128
unfolding ones
offset-eq-mod i = bit_and-ones 7 i

record BothRecord (dense : LatencyBuckets) (chunked : ChunkedLatencyBuckets) (z : ℤ) : Type 0 where
  dense' : LatencyBuckets
  chunked' : ChunkedLatencyBuckets
  dense_runs : Counters.record_latency dense z ≡ some dense'
  chunked_runs : Chunked.record_latency chunked z ≡ some chunked'
  agree : Agree dense' chunked'

record-Agree :
    (d : LatencyBuckets) (c : ChunkedLatencyBuckets) (z : ℤ) → Agree d c → BothRecord d c z
unfolding Counters.record_latency Chunked.record_latency
record-Agree d c z a =
    let i = latency_counts_index z in
    let split : chunk_number i * 128 + chunk_offset i ≡ i = omega (arith, offset-eq-mod i) in
    let r =
      record_at-flat c.chunks (chunk_number i) (chunk_offset i) a.full
        (omega (arith, latency_counts_index-lt z, a.size)) (omega (arith, offset-eq-mod i)) in
    let found : add_one d.counts i ≡ some (flat r.after) =
      ap₂ add_one a.counts (sym split) ∙ r.same in
    record {
      dense' = record { counts = flat r.after };
      chunked' = record { chunks = r.after };
      dense_runs = rw (found, Counters.record_latency) refl;
      chunked_runs = rw (r.runs, Chunked.record_latency) refl;
      agree = record { counts = refl; full = r.full; size = r.size ∙ a.size };
    }

record_all-Agree :
    (d : LatencyBuckets) (c : ChunkedLatencyBuckets) (zs : List ℤ)
    → Agree d c
    → (d' : LatencyBuckets) × (c' : ChunkedLatencyBuckets) × (record_all Counters.record_latency d
          zs
        ≡ some d')
      × (record_all Chunked.record_latency c zs ≡ some c')
      × Agree d' c'
unfolding record_all
record_all-Agree d c [] a = (d, c, refl, refl, a)
record_all-Agree d c (z ∷ zs) a =
    let b = record-Agree d c z a in
    let (d', c', p, q, a') = record_all-Agree b.dense' b.chunked' zs b.agree in
    (d', c', rw (b.dense_runs, record_all) p, rw (b.chunked_runs, record_all) q, a')

add_to-Agree :
    (histogram : Histogram) (d : LatencyBuckets) (c : ChunkedLatencyBuckets)
    → Agree d c
    → (h : histogram.Hist) → Chunked.add_to histogram c h ≡ Counters.add_to histogram d h
unfolding Chunked.add_to Counters.add_to
add_to-Agree histogram d c a h =
    add_chunks-flat histogram 0 c.chunks h a.full
    ∙ ap (λ counts. add_counts histogram 0 counts h) (sym a.counts)

-- Whatever latencies a client records, in whatever order, neither kind of counters panics, and
-- reading out the chunked counters adds to a histogram exactly what the dense ones add.
pub chunked_refines_dense :
    (histogram : Histogram) (zs : List ℤ)
    → (d : LatencyBuckets) × (c : ChunkedLatencyBuckets) × (record_all Counters.record_latency
          Counters.empty zs
        ≡ some d)
      × (record_all Chunked.record_latency Chunked.empty zs ≡ some c)
      × ((h : histogram.Hist) → Chunked.add_to histogram c h ≡ Counters.add_to histogram d h)
chunked_refines_dense histogram zs =
    let (d, c, p, q, a) = record_all-Agree Counters.empty Chunked.empty zs empty-Agree in
    (d, c, p, q, add_to-Agree histogram d c a)
