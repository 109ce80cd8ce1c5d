-- ===== src/Latency/Chunked.antt =====
-- `chunkedLatencyBuckets` of latency_buckets.go: counters whose memory is allocated by chunk.
use Prim.Native.Nat.{bit_and}
use mqtt_load_generator.Base.{
  ℕ, ◌+◌, ◌-◌, ◌*◌, ◌/◌, ◌^◌, ℤ, List, [], ◌∷◌, Option, none, some, get_elem?, set, replicate,
}
use mqtt_load_generator.Latency.{
  latency_counts_length, latency_sub_bucket_half_count, latency_sub_bucket_half_shift,
  latency_counts_index,
}
use mqtt_load_generator.Latency.Counters.{Histogram, add_one, add_counts}

-- A chunk is a list of 128 counters, and an empty slot is a nil pointer.
pub record ChunkedLatencyBuckets : Type 0 where
  pub chunks : List (Option (List ℕ))

abbrev pub new_chunk : List ℕ
new_chunk = replicate latency_sub_bucket_half_count 0

unfoldable pub empty : ChunkedLatencyBuckets
empty = record { chunks = replicate (latency_counts_length / latency_sub_bucket_half_count) none }

-- The chunk that a call finds or installs.
abbrev pub chunk_or_new : Option (List ℕ) → List ℕ
chunk_or_new none = new_chunk
chunk_or_new (some chunk) = chunk

abbrev pub chunk_number : ℕ → ℕ
chunk_number counts_index = counts_index / 2 ^ latency_sub_bucket_half_shift

abbrev pub chunk_offset : ℕ → ℕ
chunk_offset counts_index = bit_and counts_index (latency_sub_bucket_half_count - 1)

-- `record` of a `chunkedLatencyBuckets`, with no other goroutine in between: the compare-and-swap
-- of an empty slot succeeds.
unfoldable pub record_at : List (Option (List ℕ)) → ℕ → ℕ → Option (List (Option (List ℕ)))
record_at chunks number offset = elim (get_elem? chunks number) [
  | none ↦ none
  | some slot ↦ elim (add_one (chunk_or_new slot) offset) [
    | none ↦ none
    | some chunk ↦ some (set chunks number (some chunk))
  ]
]

unfoldable pub record_latency : ChunkedLatencyBuckets → ℤ → Option ChunkedLatencyBuckets
record_latency buckets microseconds =
    let counts_index = latency_counts_index microseconds in
    elim (record_at buckets.chunks (chunk_number counts_index) (chunk_offset counts_index)) [
      | none ↦ none
      | some chunks ↦ some (record { chunks = chunks })
    ]

module _ (histogram : Histogram) where
  open histogram use {Hist}

  -- The loops of `addTo`. The inner one visits the positions from `chunkNumber << 7` on.
  unfoldable pub add_chunks : ℕ → List (Option (List ℕ)) → Hist → Hist
  add_chunks chunk_number [] h = h
  add_chunks chunk_number (none ∷ chunks) h = add_chunks (chunk_number + 1) chunks h
  add_chunks chunk_number (some chunk ∷ chunks) h =
      add_chunks (chunk_number + 1) chunks
        (add_counts histogram (chunk_number * 2 ^ latency_sub_bucket_half_shift) chunk h)

  unfoldable pub add_to : ChunkedLatencyBuckets → Hist → Hist
  unfolding add_chunks
  add_to buckets h = add_chunks 0 buckets.chunks h
