-- ===== src/Publish/Counting.antt =====
-- Test data for the publish loop: a semaphore that counts, and settings for two messages.
use mqtt_load_generator.Base.{
  ℕ, zero, suc, ◌<◌, ◌≡◌, refl, ltb, if◌then◌else◌, false, [], ◌∷◌, Option, none, some, arith,
}
use mqtt_load_generator.Publish.{PublishOptions, Semaphore}

pub record Count : Type 0 where
  pub held : ℕ
  pub size : ℕ

abbrev pub count_acquire : Count → Option Count
count_acquire s = if ltb s.held s.size then some (record s { held = suc s.held }) else none

abbrev pub give_back : ℕ → ℕ → Option Count
give_back zero n = none
give_back (suc k) n = some (record { held = k; size = n })

abbrev pub count_release : Count → Option Count
count_release s = give_back s.held s.size

pub held-count_acquire : (s t : Count) → count_acquire s ≡ some t → t.held ≡ suc s.held
held-count_acquire s t e = ground arith

pub size-count_acquire : (s t : Count) → count_acquire s ≡ some t → t.size ≡ s.size
size-count_acquire s t e = ground arith

pub count_acquire_fits : (s t : Count) → count_acquire s ≡ some t → s.held < s.size
count_acquire_fits s t e = ground arith

pub count_acquire_free : (s : Count) → s.held < s.size → (t : Count) × (count_acquire s ≡ some t)
count_acquire_free s h = (record s { held = suc s.held }, ground arith)

pub held-count_release : (s t : Count) → count_release s ≡ some t → suc t.held ≡ s.held
held-count_release s t e = ground arith

pub size-count_release : (s t : Count) → count_release s ≡ some t → t.size ≡ s.size
size-count_release s t e = ground arith

pub give_back_pos : (k n : ℕ) → 0 < k → (t : Count) × (give_back k n ≡ some t)
give_back_pos zero n h = absurd (omega arith)
give_back_pos (suc k) n h = (record { held = k; size = n }, refl)

abbrev pub counting : Semaphore
counting = record {
  Sem = Count;
  new_weighted = λ n. record { held = 0; size = n };
  acquire = count_acquire;
  release = count_release;
  held = λ s. s.held;
  size = λ s. s.size;
  held-new_weighted = λ n. refl;
  size-new_weighted = λ n. refl;
  held-acquire = held-count_acquire;
  size-acquire = size-count_acquire;
  acquire_fits = count_acquire_fits;
  acquire_free = count_acquire_free;
  held-release = held-count_release;
  size-release = size-count_release;
  release_held = λ s h. give_back_pos s.held s.size h;
}

abbrev pub two_messages : PublishOptions
two_messages = record {
  topic = b'/' ∷ b'a' ∷ [];
  qos = 1;
  count = 2;
  size = 100;
  interval_milliseconds = 1;
  schedule = [];
  clients = 1;
  suffix = false;
  benchmark = false;
  in_flight = 1;
  ack_timeout = 30_000_000_000;
  connect_concurrency = 16;
}
