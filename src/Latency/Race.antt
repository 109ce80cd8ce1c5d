-- ===== src/Latency/Race.antt =====
-- Goroutines that record into the same chunk slot of a `chunkedLatencyBuckets` at the same time
-- (internal/mqttload/latency_buckets.go), in every order.
use mqtt_load_generator.Base.{
  ℕ, suc, ◌+◌, ◌≡◌, ◌==◌, ◌&&◌, if◌then◌else◌, Bool, true, false, List, [], ◌∷◌, ◌++◌, Option, none,
  some, flag,
}
use mqtt_load_generator.Base.Words.{u64}

-- Where a call of `record` stands, behind its index: `offset` is the place in the chunk.
pub data RecordStage : Type 0 where
  loading : RecordStage  -- before `chunkSlot.Load`
  installing : RecordStage  -- the slot was empty: before `CompareAndSwap`
  reloading : RecordStage  -- it was not empty any more: before the second `Load`
  adding : (address : ℕ) → RecordStage  -- before `Add(1)` in the chunk at an address

pub record Recorder : Type 0 where
  pub offset : ℕ
  pub stage : RecordStage

-- The slot holds the address of a chunk, `heap` the counts of the chunk at each address, and `fresh`
-- is the next address. `panicked` says that a nil chunk was used.
pub record SlotState : Type 0 where
  pub slot : Option ℕ
  pub heap : ℕ → ℕ → ℕ
  pub fresh : ℕ
  pub recorders : List Recorder
  pub panicked : Bool

abbrev pub empty_slot : SlotState
empty_slot = record { slot = none; heap = λ a i. 0; fresh = 0; recorders = []; panicked = false }

abbrev pub move_to : Recorder → RecordStage → List Recorder
move_to recorder stage = record recorder { stage = stage } ∷ []

abbrev pub loaded : Option ℕ → RecordStage
loaded none = installing
loaded (some address) = adding address

abbrev pub reloaded : Option ℕ → RecordStage
reloaded none = reloading
reloaded (some address) = adding address

abbrev pub is_nil : Option ℕ → Bool
is_nil none = true
is_nil (some address) = false

unfoldable pub load_chunk : List Recorder → Recorder → List Recorder → SlotState → SlotState
load_chunk before recorder after s = record s {
  recorders = before ++ (move_to recorder (loaded s.slot) ++ after);
}

-- The compare-and-swap, with a new chunk, all zero.
unfoldable pub install_chunk : List Recorder → Recorder → List Recorder → SlotState → SlotState
install_chunk before recorder after s =
    if is_nil s.slot
    then record s {
      slot = some s.fresh;
      heap = λ a i. if a == s.fresh then 0 else s.heap a i;
      fresh = suc s.fresh;
      recorders = before ++ (move_to recorder (adding s.fresh) ++ after);
    }
    else record s { recorders = before ++ (move_to recorder reloading ++ after) }

-- The second `Load`; a nil chunk there is a panic at its use.
unfoldable pub reload_chunk : List Recorder → Recorder → List Recorder → SlotState → SlotState
reload_chunk before recorder after s = record s {
  panicked = if is_nil s.slot then true else s.panicked;
  recorders = before ++ (move_to recorder (reloaded s.slot) ++ after);
}

unfoldable pub add_in_chunk : ℕ → List Recorder → Recorder → List Recorder → SlotState → SlotState
add_in_chunk address before recorder after s = record s {
  heap = λ a i. if a == address && i == recorder.offset then u64 (s.heap a i + 1) else s.heap a i;
  recorders = before ++ ([] ++ after);
}

pub data RecordStep (s : SlotState) : SlotState → Type 0 where
  loads :
      (before after : List Recorder) (r : Recorder)
      → s.recorders ≡ before ++ (r ∷ after)
      → r.stage ≡ loading
      → RecordStep s (load_chunk before r after s)
  installs :
      (before after : List Recorder) (r : Recorder)
      → s.recorders ≡ before ++ (r ∷ after)
      → r.stage ≡ installing
      → RecordStep s (install_chunk before r after s)
  reloads :
      (before after : List Recorder) (r : Recorder)
      → s.recorders ≡ before ++ (r ∷ after)
      → r.stage ≡ reloading
      → RecordStep s (reload_chunk before r after s)
  adds :
      (address : ℕ) (before after : List Recorder) (r : Recorder)
      → s.recorders ≡ before ++ (r ∷ after)
      → r.stage ≡ adding address
      → RecordStep s (add_in_chunk address before r after s)

pub data Race : SlotState → Type 0 where
  begin : Race empty_slot
  calls :
      {s : SlotState} (offset : ℕ)
      → Race s
      → Race (record s { recorders = record { offset = offset; stage = loading } ∷ s.recorders })
  later : {s t : SlotState} → Race s → RecordStep s t → Race t

-- How many calls there have been for an offset, and in all.
abbrev pub calls_at : ℕ → {s : SlotState} → Race s → ℕ
calls_at i begin = 0
calls_at i (calls offset r) = flag (offset == i) + calls_at i r
calls_at i (later r step) = calls_at i r
