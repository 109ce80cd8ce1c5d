-- ===== src/Publish.antt =====
-- internal/mqttload/publish.go: the settings of a publish run, and the limit on publishes in flight.
pub mod Topic
pub mod Client
pub mod Progress
pub mod Stats
pub mod Run
pub mod EndToEnd
pub mod Steps
pub mod Sampler
pub mod Readings
pub mod Sampled
pub mod Invariant
pub mod Safety
pub mod Termination
pub mod Counting
mod Examples
mod SampledExamples
pub mod RunExamples
use mqtt_load_generator.Base.{ℕ, suc, ◌≤◌, ◌<◌, ◌≡◌, Bool, List, Option, some}

-- `PublishOptions`. Durations are in nanoseconds, and a topic and a schedule are texts of bytes.
pub record PublishOptions : Type 0 where
  pub topic : List ℕ
  pub qos : ℕ  -- byte
  pub count : ℕ
  pub size : ℕ
  pub interval_milliseconds : ℕ
  pub schedule : List ℕ
  pub clients : ℕ
  pub suffix : Bool
  pub benchmark : Bool
  pub in_flight : ℕ
  pub ack_timeout : ℕ
  pub connect_concurrency : ℕ

-- `semaphore.Weighted` of golang.org/x/sync, as its documentation describes it for weight 1.
-- `acquire` is an `Acquire` that returns nil: `none` says that it blocks. `release` is `none` where
-- `Release` panics, on a release of more than is held.
pub record Semaphore : Type 1 where
  pub Sem : Type 0
  pub new_weighted : ℕ → Sem
  pub acquire : Sem → Option Sem
  pub release : Sem → Option Sem
  pub held : Sem → ℕ
  pub size : Sem → ℕ
  pub held-new_weighted : (n : ℕ) → held (new_weighted n) ≡ 0
  pub size-new_weighted : (n : ℕ) → size (new_weighted n) ≡ n
  pub held-acquire : (s t : Sem) → acquire s ≡ some t → held t ≡ suc (held s)
  pub size-acquire : (s t : Sem) → acquire s ≡ some t → size t ≡ size s
  pub acquire_fits : (s t : Sem) → acquire s ≡ some t → held s < size s
  pub acquire_free : (s : Sem) → held s < size s → (t : Sem) × (acquire s ≡ some t)
  pub held-release : (s t : Sem) → release s ≡ some t → suc (held t) ≡ held s
  pub size-release : (s t : Sem) → release s ≡ some t → size t ≡ size s
  pub release_held : (s : Sem) → 0 < held s → (t : Sem) × (release s ≡ some t)
