-- ===== src/Dump/Run.antt =====
-- `messagePrinter.Print` of internal/display/dump.go and `RunDump` of internal/mqttload/dump.go, in
-- every order of the callbacks.
use mqtt_load_generator.Base.{
  ℕ, ◌+◌, ◌-◌, ◌<◌, ◌≤◌, ◌≡◌, ◌⊎◌, if◌then◌else◌, Bool, true, false, List, [], ◌∷◌, Option, none,
  some, flag, refl, arith,
}
use mqtt_load_generator.Base.Text.{Bytes}

-- `lines` are those written, newest first.
pub record MessagePrinter : Type 0 where
  pub lines : List Bytes
  pub failed : Bool

-- `Print` of a line that was built, under the mutex, and whether it returns an error; `writes` says
-- whether the write succeeds. A message that gives no line is skipped.
unfoldable pub print : Option Bytes → Bool → MessagePrinter → MessagePrinter × Bool
print none writes printer = (printer, false)
print (some line) writes printer =
    if printer.failed
    then (printer, false)
    else if writes
    then (record printer { lines = line ∷ printer.lines }, false)
    else (record printer { failed = true }, true)

-- Where `RunDump` stands.
pub data Runner : Type 0 where
  subscribing : Runner
  selecting : Runner
  disconnecting : (print_failed subscribe_failed : Bool) → Runner
  returned : (print_failed subscribe_failed : Bool) → Runner

-- `print_failed` is the channel of capacity 1, and `to_send` counts the callbacks that have an error
-- and are before their `select`.
pub record DumpRun : Type 0 where
  pub runner : Runner
  pub printer : MessagePrinter
  pub print_failed : Bool
  pub to_send : ℕ
  pub disconnects : ℕ
  pub cancelled : Bool

abbrev pub start : DumpRun
start = record {
  runner = subscribing;
  printer = record { lines = []; failed = false };
  print_failed = false;
  to_send = 0;
  disconnects = 0;
  cancelled = false;
}

-- A callback prints its message.
unfoldable pub print_message : Option Bytes → Bool → DumpRun → DumpRun
unfolding print
print_message line writes run =
    let (printer, error) = print line writes run.printer in
    record run { printer = printer; to_send = if error then run.to_send + 1 else run.to_send }

-- The send with a default case: where the channel is full the error is dropped.
abbrev pub send_error : DumpRun → DumpRun
send_error run = record run { print_failed = true; to_send = run.to_send - 1 }

abbrev pub receive_error : DumpRun → DumpRun
receive_error run = record run { runner = disconnecting true false; print_failed = false }

abbrev pub disconnect : Bool → Bool → DumpRun → DumpRun
disconnect print_failed subscribe_failed run = record run {
  runner = returned print_failed subscribe_failed;
  disconnects = run.disconnects + 1;
}

pub data Step (s : DumpRun) : DumpRun → Type 0 where
  prints : (line : Option Bytes) (writes : Bool) → Step s (print_message line writes s)
  sends : 0 < s.to_send → Step s (send_error s)
  acknowledges : s.runner ≡ subscribing → Step s (record s { runner = selecting })
  fails : s.runner ≡ subscribing → Step s (record s { runner = disconnecting false true })
  cancels :
      s.runner ≡ selecting
      → s.cancelled ≡ true
      → Step s (record s { runner = disconnecting false false })
  receives : s.runner ≡ selecting → s.print_failed ≡ true → Step s (receive_error s)
  disconnects :
      (print_failed subscribe_failed : Bool)
      → s.runner ≡ disconnecting print_failed subscribe_failed
      → Step s (disconnect print_failed subscribe_failed s)

pub data Reach : DumpRun → Type 0 where
  begin : Reach start
  later : {s t : DumpRun} → Reach s → Step s t → Reach t
  cancel : {s : DumpRun} → Reach s → Reach (record s { cancelled = true })

-- The runner has taken the error from the channel.
abbrev pub has_error : Runner → Bool
has_error (disconnecting print_failed subscribe_failed) = print_failed
has_error (returned print_failed subscribe_failed) = print_failed
has_error _ = false

abbrev pub has_returned : Runner → Bool
has_returned (returned print_failed subscribe_failed) = true
has_returned _ = false

record Inv (s : DumpRun) : Type 0 where
  one_error : s.to_send + flag s.print_failed + flag (has_error s.runner) ≡ flag s.printer.failed
  once : s.disconnects ≡ flag (has_returned s.runner)

Step-Inv : {s t : DumpRun} → Step s t → Inv s → Inv t
unfolding print_message
Step-Inv (prints none writes) v = ground (arith, v)
Step-Inv {s} (prints (some line) writes) v = ground (arith, v)
Step-Inv {s} (sends h) v = ground (arith, v, h)
Step-Inv {s} (acknowledges m) v = ground (arith, v, m)
Step-Inv {s} (fails m) v = ground (arith, v, m)
Step-Inv {s} (cancels m c) v = ground (arith, v, m)
Step-Inv {s} (receives m e) v = ground (arith, v, m, e)
Step-Inv {s} (disconnects a b m) v = ground (arith, v, m)

Reach-Inv : {s : DumpRun} → Reach s → Inv s
Reach-Inv begin = ground arith
Reach-Inv (later r step) = Step-Inv step (Reach-Inv r)
Reach-Inv (cancel {s} r) = let v = Reach-Inv r in ground (arith, v)

-- In every order of its callbacks `RunDump` disconnects exactly once, by the time it returns, and
-- returns a write error only if a write failed. Only one call of `Print` ever returns an error, so
-- the send into the channel never drops it: after a failed write the error is about to be sent, in
-- the channel, or taken.
pub dump_errors :
    {s : DumpRun}
    → Reach s
    → (s.disconnects ≡ flag (has_returned s.runner))
      × (has_error s.runner ≡ true → s.printer.failed ≡ true)
      × (s.to_send + flag s.print_failed ≤ 1)
      × (s.printer.failed ≡ true
          → (0 < s.to_send) ⊎ (s.print_failed ≡ true) ⊎ (has_error s.runner ≡ true))
dump_errors r = let v = Reach-Inv r in ground (arith, v)

frozen :
    (printer : MessagePrinter)
    → printer.failed ≡ true
    → (line : Option Bytes) (writes : Bool) → print line writes printer ≡ (printer, false)
unfolding print
frozen printer broken none writes = refl
frozen printer broken (some line) writes = rw (broken) refl

-- A failed write ends the run: nothing is written after it, and while `RunDump` is in its last select
-- the error is on its way to it: when no callback is about to send, the select can take it.
pub dump_stops :
    {s : DumpRun}
    → Reach s
    → s.printer.failed ≡ true
    → ((line : Option Bytes) (writes : Bool) → print line writes s.printer ≡ (s.printer, false))
      × (s.runner ≡ selecting → s.to_send ≡ 0 → Step s (receive_error s))
dump_stops {s} r broken =
    let v = Reach-Inv r in
    (frozen s.printer broken, λ at idle. receives at (ground (arith, v, at, idle, broken)))
