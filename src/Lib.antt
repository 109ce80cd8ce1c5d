-- ===== src/Lib.antt =====
-- Verification of mqtt-load-generator, a load generator for MQTT brokers with the commands pub,
-- sub and dump.
--
-- pub checks its settings, connects its clients in parallel, runs one publish loop for each of
-- them, and writes a report. A loop takes a slot of the in-flight window, publishes, and leaves a
-- goroutine behind that waits for the broker's answer, counts it and frees the slot. sub connects
-- one client, and its callback counts each message and, with --benchmark, reads the timestamp in
-- the payload and records how long the message took. Both record times in counters of a
-- histogram's layout. The commands meet in the settings and in the broker package, which decides
-- on the URL and on TLS.
--
-- The files, each with the code it is about:
-- - Base/ for shared names, lists, signed and 64-bit integers, texts of bytes, decimal numbers as
--   strconv.AppendInt writes them.
-- - Latency/ for internal/mqttload/latency_buckets.go. Counters.antt has latencyBuckets,
--   Chunked.antt chunkedLatencyBuckets, Shared.antt latencyBucketSet, Race.antt the goroutines
--   that record into one chunk slot of chunkedLatencyBuckets, and Latency.antt itself the index
--   arithmetic.
-- - Payload/ for internal/mqttload/payload.go and, in Timestamp.antt, benchmarkTimestamp of
--   subscribe_stats.go.
-- - Connect/ for internal/mqttload/connect.go. Connect.antt has the updates that the goroutines
--   of connectClients make, Steps.antt their interleavings.
-- - Publish/ for internal/mqttload/publish.go, counters.go and publish_progress.go. Client.antt
--   and Steps.antt have one client's loop and its waiting goroutines, Progress.antt the progress
--   value, Run.antt RunPublish, EndToEnd.antt puts the clients' loops into it, Sampler.antt has
--   the sampler's goroutine beside those loops, Topic.antt clientTopic.
-- - Subscribe/ for internal/mqttload/subscribe.go, subscribe_progress.go, subscribe_stats.go and
--   atomic_time.go. Run.antt has the callback and RunSubscribe, cut at each update that another
--   goroutine can see, Steps.antt their interleavings.
-- - Report/ for internal/mqttload/publish_report.go and subscribe_report.go. Report.antt has what
--   they share, Publish.antt and Subscribe.antt the two reports, Sorting.antt the sort of the
--   rates, Acks.antt puts the clients' loops, the counters of their latencies and the report
--   together; Publish/Stats.antt has the statistics of publish_stats.go.
-- - Pacer/ for internal/mqttload/pacer.go.
-- - Config/ for internal/cli/config.go, logging.go, environment.go and broker.go: the settings,
--   their checks, and what becomes of them.
-- - Broker/ for internal/broker: URL and TLS configuration in Broker.antt, Dial of paho.go in
--   Dial.antt.
-- - Display/ for sampleTotal of internal/mqttload/publish_stats.go, and the bars and log lines of
--   internal/display/publish.go and subscribe.go, by what they read at each tick of their timer;
--   their summary lines are in Summary.antt.
-- - Dump/ for internal/display/dump.go and internal/mqttload/dump.go: the default line in
--   Dump.antt and Quote.antt and a reader of it in Unquote.antt, the lines of --json in Json.antt
--   and Escape.antt, the printer and RunDump in Run.antt and Terminal.antt.
-- - Commands/ for the run functions of internal/cli/publish.go, subscribe.go and dump.go, and in
--   Flags.antt and Tree.antt the flags of every command and what internal/cli/root.go runs before
--   it.
--
-- State is a record and an operation a function on it. Goroutines are a data type of steps on
-- that record, and a run is a chain of steps in any order, so a theorem about every run is about
-- every schedule. A callback's updates are single steps; an errgroup function ends and reports
-- its error in one step. Times are natural numbers that a step is given. A channel that is only
-- closed is a flag, and closing it twice sets another flag that stands for the panic.
--
-- Counters are int64 values in the code. Here they are natural numbers that wrap at 2 ^ 64, and
-- the theorems ask for fewer than 2 ^ 63 messages and bytes where that matters. Text is a list of
-- bytes.
--
-- Loops are structural where they can be. The only fuel is in the printing of an int64, with a
-- round for each of the at most 19 digits, and in newLatencyBucketSet, with the 2 doublings that
-- lead from 64 to 256 and a spare one.
--
-- Code that is not in this repository is a parameter with the documented behaviour as laws: the
-- weighted semaphore (Publish.antt), errgroup (Connect.antt), the histogram
-- (Latency/Counters.antt and Hdr.antt), float64 with what IEEE 754 promises (Base/Floats.antt),
-- the random source (Pacer.antt), the JSON encoder and the table of unicode.IsPrint
-- (Dump/Json.antt), the MQTT client, the file system and the certificate parsers (Broker). Each
-- has an instance in the tests.
--
-- Not modelled: the moment at which a timer ticks, the writing of the reports, the drawing of
-- progress bars, the formatting of log lines, and the wiring of cobra commands and signals in
-- cmd/main.go and internal/cli/root.go. These are left because they are output or library calls.
pub mod Base
pub mod Broker
pub mod Commands
pub mod Config
pub mod Connect
pub mod Display
pub mod Dump
pub mod Latency
pub mod Pacer
pub mod Payload
pub mod Publish
pub mod Report
pub mod Subscribe
