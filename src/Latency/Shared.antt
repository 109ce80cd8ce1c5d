-- ===== src/Latency/Shared.antt =====
-- `latencyBucketSet` of latency_buckets.go: a fixed number of dense arrays shared by all clients.
use mqtt_load_generator.Base.{
  ℕ, zero, suc, ◌*◌, ◌%◌, Bool, ltb, ◌&&◌, if◌then◌else◌, ℤ, List, [], ◌∷◌, Option, none, some,
  get_elem?, set, replicate, length,
}
use mqtt_load_generator.Latency.Counters.{Histogram, LatencyBuckets, record_latency}
use mqtt_load_generator.Latency.Counters

pub record LatencyBucketSet : Type 0 where
  pub buckets : List LatencyBuckets

-- `size < 4*runtime.GOMAXPROCS(0) && size < 256`
abbrev pub must_grow : ℕ → ℕ → Bool
must_grow procs size = ltb size (4 * procs) && ltb size 256

-- The loop of `newLatencyBucketSet`, for a number of rounds.
unfoldable pub grow_size : ℕ → ℕ → ℕ → ℕ
grow_size zero procs size = size
grow_size (suc rounds) procs size =
    let rest = grow_size rounds procs (size * 2) in if must_grow procs size then rest else size

unfoldable pub set_size : ℕ → ℕ
unfolding grow_size
set_size procs = grow_size 3 procs 64

unfoldable pub new_latency_bucket_set : ℕ → LatencyBucketSet
new_latency_bucket_set procs = record { buckets = replicate (set_size procs) Counters.empty }

-- `forClient` returns a pointer: the number of the member that the client shares.
unfoldable pub for_client : LatencyBucketSet → ℕ → ℕ
for_client shared client_number = client_number % length shared.buckets

-- `set.forClient(clientNumber).record(microseconds)`
unfoldable pub record_for : LatencyBucketSet → ℕ × ℤ → Option LatencyBucketSet
unfolding for_client
record_for shared (client_number, microseconds) =
    let slot = for_client shared client_number in
    elim (get_elem? shared.buckets slot) [
      | none ↦ none
      | some member ↦ elim (record_latency member microseconds) [
        | none ↦ none
        | some recorded ↦ some (record { buckets = set shared.buckets slot recorded })
      ]
    ]

module _ (histogram : Histogram) where
  open histogram use {Hist}

  unfoldable pub add_members : List LatencyBuckets → Hist → Hist
  add_members [] h = h
  add_members (member ∷ members) h = add_members members (Counters.add_to histogram member h)

  unfoldable pub add_to : LatencyBucketSet → Hist → Hist
  unfolding add_members
  add_to shared h = add_members shared.buckets h
