-- ===== src/Publish/Sampler.antt =====
-- The clients of `RunPublish` beside the goroutine of `sampleTotal` (internal/mqttload/publish.go,
-- publish_stats.go), interleaved in any order.
use mqtt_load_generator.Base.{
  ℕ, ◌≡◌, Bool, true, List, [], ◌∷◌, ◌++◌, some, map, length, get_elem?, set, total, replicate,
}
use mqtt_load_generator.Base.Words.{u64}
use mqtt_load_generator.Publish.{PublishOptions, Semaphore}
use mqtt_load_generator.Publish.Client.{ClientState, start}
use mqtt_load_generator.Publish.Steps.{Step}

-- The acked messages that the snapshot under way has read, from the first client on, and the totals
-- of the snapshots so far.
pub record Sampled (Sem : Type 0) : Type 0 where
  pub clients : List (ClientState Sem)
  pub read : List ℕ
  pub ticks : List ℕ

abbrev pub cancel_client : {Sem : Type 0} → ClientState Sem → ClientState Sem
cancel_client s = record s { cancelled = true }

module _ (semaphore : Semaphore) (options : PublishOptions) (per_client_stats : Bool) where
  open semaphore use {Sem}

  abbrev pub begin_sampling : ℕ → Sampled Sem
  begin_sampling n = record {
    clients = replicate n (start semaphore options per_client_stats);
    read = [];
    ticks = [];
  }

  pub data SampledRun (n : ℕ) : Sampled Sem → Type 0 where
    begin : SampledRun n (begin_sampling n)
    works :
        {r : Sampled Sem} (i : ℕ) (s t : ClientState Sem)
        → SampledRun n r
        → get_elem? r.clients i ≡ some s
        → Step semaphore options s t
        → SampledRun n (record r { clients = set r.clients i t })
    -- Ctrl-C, for the context that all clients share.
    cancels :
        {r : Sampled Sem}
        → SampledRun n r
        → SampledRun n (record r { clients = map cancel_client r.clients })
    -- `Snapshot` reads one counter after the other, while the clients go on.
    reads :
        {r : Sampled Sem} (s : ClientState Sem)
        → SampledRun n r
        → get_elem? r.clients (length r.read) ≡ some s
        → SampledRun n (record r { read = r.read ++ (s.counters.acked ∷ []) })
    -- The last one is read; the sum wraps.
    samples :
        {r : Sampled Sem}
        → SampledRun n r
        → length r.read ≡ length r.clients
        → SampledRun n
            (record r { read = []; ticks = r.ticks ++ (u64 (total (λ a. a) r.read) ∷ []) })
