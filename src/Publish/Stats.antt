-- ===== src/Publish/Stats.antt =====
-- `PublishStats` of internal/mqttload/publish_stats.go, as it stands when a run has ended.
use mqtt_load_generator.Base.{
  ℕ, zero, suc, if◌then◌else◌, Bool, ℤ, pos, List, [], ◌∷◌, Option, none, some,
}
use mqtt_load_generator.Base.Text.{Bytes}
use mqtt_load_generator.Base.Times.{Time}
use mqtt_load_generator.Latency.Chunked.{ChunkedLatencyBuckets}
use mqtt_load_generator.Latency.Chunked
use mqtt_load_generator.Latency.Shared.{LatencyBucketSet, new_latency_bucket_set, for_client}

-- `clientStats`: durations in nanoseconds; the shared counters by their number in the set, and `none`
-- for the nil pointer of a client without its own counters.
pub record ClientStats : Type 0 where
  pub client_id : Bytes
  pub connect_duration : ℤ
  pub inflight_wait : ℤ
  pub finished_at : Time
  pub shared_latency : ℕ
  pub per_client_latency : Option ChunkedLatencyBuckets

-- A slice, with `none` for nil.
abbrev pub Slice : Type 0 → Type 0
Slice A = Option (List A)

abbrev pub elements : {A : Type 0} → Slice A → List A
elements none = []
elements (some values) = values

pub record PublishStats : Type 0 where
  pub latency : LatencyBucketSet
  pub clients : List ClientStats
  pub acked_per_interval : Slice ℤ

abbrev pub new_client_stats : LatencyBucketSet → Bool → ℕ → ClientStats
new_client_stats latency per_client_stats i = record {
  client_id = [];
  connect_duration = pos 0;
  inflight_wait = pos 0;
  finished_at = 0;
  shared_latency = for_client latency i;
  per_client_latency = if per_client_stats then some Chunked.empty else none;
}

-- The loop of `NewPublishStats`, with `left` clients to go from number `i` on.
unfoldable pub new_clients : LatencyBucketSet → Bool → ℕ → ℕ → List ClientStats
new_clients latency per_client_stats i zero = []
new_clients latency per_client_stats i (suc left) =
    new_client_stats latency per_client_stats i ∷ new_clients latency per_client_stats (suc i) left

-- `procs` is `runtime.GOMAXPROCS(0)`.
unfoldable pub new_publish_stats : ℕ → ℕ → Bool → PublishStats
unfolding new_clients
new_publish_stats procs clients per_client_stats =
    let latency = new_latency_bucket_set procs in
    record {
      latency = latency;
      clients = new_clients latency per_client_stats 0 clients;
      acked_per_interval = none;
    }
