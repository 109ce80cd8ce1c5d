-- ===== src/Publish/Steps.antt =====
-- The goroutines of one client of publish.go, interleaved in any order: the sending goroutine, one
-- `waitForResult` for each publish, and whoever cancels the context.
use mqtt_load_generator.Base.{ℕ, ◌+◌, ◌<◌, ◌≡◌, Bool, true, List, ◌∷◌, ◌++◌, some}
use mqtt_load_generator.Publish.{PublishOptions, Semaphore}
use mqtt_load_generator.Publish.Client.{
  acquiring, sending, pacing, returned, waited, Outcome, ClientState, loop_head, start, take_slot,
  publish, count_result, free_slot, done, finish_waiting, disconnect,
}

module _ (semaphore : Semaphore) (options : PublishOptions) where
  open semaphore use {Sem, acquire, release}

  -- One step of one goroutine.
  pub data Step (s : ClientState Sem) : ClientState Sem → Type 0 where
    acquires :
        (i now waited_for : ℕ) (taken : Sem)
        → s.sender ≡ acquiring i
        → acquire s.inflight ≡ some taken
        → Step s (take_slot i now waited_for taken s)
    publishes :
        (i started_at : ℕ)
        → s.sender ≡ sending i started_at
        → Step s (publish options i started_at s)
    -- `pacer.wait` returns true, and the loop goes on.
    paces :
        (i : ℕ)
        → s.sender ≡ pacing i
        → Step s (record s { sender = loop_head options.count (i + 1) })
    -- `Acquire` returns the context's error.
    gives_up :
        (i : ℕ)
        → s.sender ≡ acquiring i
        → s.cancelled ≡ true
        → Step s (record s { sender = returned })
    -- `pacer.wait` returns false: it has a time to wait, and the context is cancelled.
    stops_pacing :
        (i : ℕ)
        → s.sender ≡ pacing i
        → 0 < options.interval_milliseconds
        → s.cancelled ≡ true
        → Step s (record s { sender = returned })
    counts :
        (before after : List ℕ) (started_at : ℕ) (outcome : Outcome)
        → s.waiting ≡ before ++ (started_at ∷ after)
        → Step s (count_result options before after outcome s)
    frees :
        (freed : Sem) → 0 < s.counted → release s.inflight ≡ some freed → Step s (free_slot freed s)
    finishes : 0 < s.released → 0 < s.outstanding → Step s (done s)
    stops_waiting :
        (now : ℕ) → s.sender ≡ returned → s.outstanding ≡ 0 → Step s (finish_waiting now s)
    disconnects : s.sender ≡ waited → Step s (disconnect s)

  pub data Reach (per_client_stats : Bool) : ClientState Sem → Type 0 where
    begin : Reach per_client_stats (start semaphore options per_client_stats)
    later : {s t : ClientState Sem} → Reach per_client_stats s → Step s t → Reach per_client_stats t
    -- Ctrl-C
    cancel :
        {s : ClientState Sem}
        → Reach per_client_stats s
        → Reach per_client_stats (record s { cancelled = true })
