-- ===== src/Subscribe/Steps.antt =====
-- The goroutines of one subscribe run (subscribe.go), interleaved in any order.
use mqtt_load_generator.Base.{ℕ, suc, ◌+◌, ◌<◌, ◌≡◌, ◌⊎◌, Bool, true, List, ◌∷◌, ◌++◌, length}
use mqtt_load_generator.Base.Text.{Bytes}
use mqtt_load_generator.Subscribe.Run.{
  Callback, subscribing, selecting, stopping, disconnecting, finishing, SubscribeRun, start, arrive,
  advance, subscribe_acknowledged, stop, finish,
}

-- One step of one goroutine. The clock reads a time after 1970.
pub data Step (count : ℕ) (s : SubscribeRun) : SubscribeRun → Type 0 where
  advances :
      (before after : List Callback) (callback : Callback)
      → s.callbacks ≡ before ++ (callback ∷ after)
      → Step count s (advance count before callback after s)
  acknowledges :
      (now : ℕ) → 0 < now → s.runner ≡ subscribing → Step count s (subscribe_acknowledged now s)
  -- `subscribeAndWait` returns an error: it timed out, or the broker refused.
  fails : s.runner ≡ subscribing → Step count s (record s { runner = disconnecting })
  selects :
      s.runner ≡ selecting
      → (s.cancelled ≡ true) ⊎ (s.count_reached ≡ true)
      → Step count s (record s { runner = stopping })
  stops : (now : ℕ) → 0 < now → s.runner ≡ stopping → Step count s (stop now s)
  disconnects : s.runner ≡ disconnecting → Step count s (record s { runner = finishing })
  finishes : (now : ℕ) → 0 < now → s.runner ≡ finishing → Step count s (finish now s)

-- A run: its steps, the messages that arrive, and Ctrl-C.
pub data Reach (benchmark : Bool) (count : ℕ) : SubscribeRun → Type 0 where
  begin : Reach benchmark count (start benchmark)
  later : {s t : SubscribeRun} → Reach benchmark count s → Step count s t → Reach benchmark count t
  message :
      {s : SubscribeRun} (now : ℕ) (payload : Bytes)
      → 0 < now
      → Reach benchmark count s
      → Reach benchmark count (arrive now payload s)
  cancel :
      {s : SubscribeRun}
      → Reach benchmark count s
      → Reach benchmark count (record s { cancelled = true })

-- How many messages have arrived in a run, and their bytes.
abbrev pub arrivals :
    {benchmark : Bool} {count : ℕ} {s : SubscribeRun} → Reach benchmark count s → ℕ
arrivals begin = 0
arrivals (later r _) = arrivals r
arrivals (message _ _ _ r) = suc (arrivals r)
arrivals (cancel r) = arrivals r

abbrev pub arrived_bytes :
    {benchmark : Bool} {count : ℕ} {s : SubscribeRun} → Reach benchmark count s → ℕ
arrived_bytes begin = 0
arrived_bytes (later r _) = arrived_bytes r
arrived_bytes (message _ payload _ r) = arrived_bytes r + length payload
arrived_bytes (cancel r) = arrived_bytes r
