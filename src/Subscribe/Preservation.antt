-- ===== src/Subscribe/Preservation.antt =====
-- Every step of a subscribe run keeps its invariant (subscribe.go).
use mqtt_load_generator.Base.{
  ℕ, suc, ◌+◌, ◌^◌, ◌<◌, ◌≡◌, Bool, true, List, [], ◌∷◌, ◌++◌, length, Moved, weigh, refl, arith,
}
use mqtt_load_generator.Base.Text.{Bytes}
use mqtt_load_generator.Subscribe.Run.{
  Stage, adding_bytes, setting_last, setting_first, timing, closing_first, closing_count, Callback,
  SubscribeRun, start, arrive, advance, subscribe_acknowledged, stop, finish,
}
use mqtt_load_generator.Subscribe.Steps.{
  Step, advances, acknowledges, fails, selects, stops, disconnects, finishes, Reach, begin, later,
  message, cancel, arrivals, arrived_bytes,
}
use mqtt_load_generator.Subscribe.Invariant.{
  bytes_due, time_due, timing_due, first_due, count_due, unclocked, Inv,
}

start-Inv : (benchmark : Bool) (count : ℕ) → Inv benchmark count 0 0 (start benchmark)
start-Inv benchmark count = ground arith

arrive-Inv :
    {benchmark : Bool} {count messages bytes : ℕ} {s : SubscribeRun} (now : ℕ) (payload : Bytes)
    → 0 < now
    → messages < 2 ^ 63
    → Inv benchmark count messages bytes s
    → Inv benchmark count (suc messages) (bytes + length payload) (arrive now payload s)
unfolding arrive
arrive-Inv now payload clock few v = ground arith

-- All the weights of the invariant.
record Ledger (count : ℕ) (s : SubscribeRun) (before : List Callback) (c : Callback)
    (moved after : List Callback) : Type 0 where
  bytes : Moved bytes_due s.callbacks before c moved after
  time : Moved time_due s.callbacks before c moved after
  timings : Moved timing_due s.callbacks before c moved after
  firsts : Moved first_due s.callbacks before c moved after
  counts : Moved (count_due count) s.callbacks before c moved after
  clocks : Moved unclocked s.callbacks before c moved after

ledger :
    (count : ℕ) (s : SubscribeRun) (before : List Callback) (c : Callback)
    (moved after : List Callback)
    → s.callbacks ≡ before ++ (c ∷ after)
    → Ledger count s before c moved after
ledger count s before c moved after e = record {
  bytes = weigh bytes_due s.callbacks before c moved after e;
  time = weigh time_due s.callbacks before c moved after e;
  timings = weigh timing_due s.callbacks before c moved after e;
  firsts = weigh first_due s.callbacks before c moved after e;
  counts = weigh (count_due count) s.callbacks before c moved after e;
  clocks = weigh unclocked s.callbacks before c moved after e;
}

advance-Inv :
    {benchmark : Bool} {count messages bytes : ℕ} {s : SubscribeRun} (before after : List Callback)
    (c : Callback) (stage : Stage)
    → c.stage ≡ stage
    → messages < 2 ^ 63
    → bytes < 2 ^ 63
    → s.callbacks ≡ before ++ (c ∷ after)
    → Inv benchmark count messages bytes s
    → Inv benchmark count messages bytes (advance count before c after s)
unfolding advance
advance-Inv {count} {s} before after c adding_bytes at few short e v =
    ground (arith, ledger count s before c (record c { stage = setting_last } ∷ []) after e)
advance-Inv {count} {s} before after c setting_last at few short e v =
    ground (arith, ledger count s before c (record c { stage = setting_first } ∷ []) after e)
advance-Inv {count} {s} before after c setting_first at few short e v =
    ground (arith, ledger count s before c (record c { stage = timing } ∷ []) after e)
advance-Inv {count} {s} before after c timing at few short e v =
    ground (arith, ledger count s before c (record c { stage = closing_first } ∷ []) after e)
advance-Inv {count} {s} before after c closing_first at few short e v =
    ground (arith, ledger count s before c (record c { stage = closing_count } ∷ []) after e)
advance-Inv {count} {s} before after c closing_count at few short e v =
    ground (arith, ledger count s before c [] after e)

Step-Inv :
    {benchmark : Bool} {count messages bytes : ℕ} {s t : SubscribeRun}
    → messages < 2 ^ 63
    → bytes < 2 ^ 63
    → Step count s t
    → Inv benchmark count messages bytes s
    → Inv benchmark count messages bytes t
unfolding subscribe_acknowledged stop finish
Step-Inv few short (advances before after c e) v =
    advance-Inv before after c c.stage refl few short e v
Step-Inv few short (acknowledges now clock at) v = ground arith
Step-Inv few short (fails at) v = ground arith
Step-Inv few short (selects at why) v = ground arith
Step-Inv few short (stops now clock at) v = ground arith
Step-Inv few short (disconnects at) v = ground arith
Step-Inv few short (finishes now clock at) v = ground arith

cancel-Inv :
    {benchmark : Bool} {count messages bytes : ℕ} {s : SubscribeRun}
    → Inv benchmark count messages bytes s
    → Inv benchmark count messages bytes (record s { cancelled = true })
cancel-Inv v = ground arith

pub Reach-Inv :
    {benchmark : Bool} {count : ℕ} {s : SubscribeRun} (r : Reach benchmark count s)
    → arrivals r < 2 ^ 63
    → arrived_bytes r < 2 ^ 63
    → Inv benchmark count (arrivals r) (arrived_bytes r) s
Reach-Inv {benchmark} {count} begin few short = start-Inv benchmark count
Reach-Inv (later r st) few short = Step-Inv few short st (Reach-Inv r few short)
Reach-Inv (message now payload clock r) few short =
    arrive-Inv now payload clock (omega arith) (Reach-Inv r (omega arith) (omega arith))
Reach-Inv (cancel r) few short = cancel-Inv (Reach-Inv r few short)
