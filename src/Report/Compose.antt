-- ===== src/Report/Compose.antt =====
-- `BuildPublishReport` of publish_report.go after `RunPublish`: the run, its counters and the report.
use mqtt_load_generator.Base.{
  ℕ, suc, ◌+◌, ◌^◌, ◌<◌, ◌≡◌, ◌≢◌, Bool, true, false, pos, pos_part, List, [], ◌∷◌, ◌++◌, none,
  some, length, length-append, get_elem?, total, Option-cases, inl, inr, refl, sym, ap, ap₂, subst,
  ◌∙◌, arith,
}
use mqtt_load_generator.Base.Words.{to_int64}
use mqtt_load_generator.Base.Text.{Bytes, All}
use mqtt_load_generator.Base.Floats.{Float64}
use mqtt_load_generator.Latency.Hdr.{HdrHistogram}
use mqtt_load_generator.Publish.{PublishOptions}
use mqtt_load_generator.Publish.Client.{PublishCounters, no_counts}
use mqtt_load_generator.Publish.Progress.{
  PublishProgress, new_publish_progress, snapshot, finish, finish_connecting, sum_publish_counters,
}
use mqtt_load_generator.Publish.Run.{
  Course, run_publish, Countable, published, acked, unsuccessful, sum_from_lem,
}
use mqtt_load_generator.Publish.Stats.{ClientStats, PublishStats, Slice}
use mqtt_load_generator.Report.Publish.{
  PublishReport, PublishReportClient, acked_of, consed, present, entries_for, report_client,
  build_client_ack_latency, report_clients, clients_report, build_clients, publish_report_of,
  build_publish_report,
}
use mqtt_load_generator.Report.Rates.{per_client_rates_exist}
use mathlib.Core.List.{append_assoc}

-- Whether a client has its own latency counters.
abbrev pub Kept : Bool → ClientStats → Type 0
Kept true client = client.per_client_latency ≢ none
Kept false client = client.per_client_latency ≡ none

abbrev pub entry_acked : PublishReportClient → ℕ
entry_acked entry = pos_part entry.acked

get_elem?-middle :
    {A : Type 0} (before : List A) (a : A) (after : List A)
    → get_elem? (before ++ (a ∷ after)) (length before) ≡ some a
get_elem?-middle [] a after = refl
get_elem?-middle (x ∷ before) a after = get_elem?-middle before a after

module _ {W : Type 0} ⦃float64 : Float64 W⦄ (hdr : HdrHistogram W)
    (progress : PublishProgress) where
  record Entries (i : ℕ) (clients : List ClientStats) (counters : List PublishCounters)
      : Type 0 where
    entries : List PublishReportClient
    runs : report_clients hdr progress i clients ≡ some entries
    size : length entries ≡ length clients
    sum : total entry_acked entries ≡ total acked counters

  cons-Entries :
      (i : ℕ) (client : ClientStats) (clients : List ClientStats)
      → (counter : PublishCounters) (counters : List PublishCounters)
      → client.per_client_latency ≢ none
      → get_elem? progress.counters i ≡ some counter
      → counter.acked < 2 ^ 63
      → Entries (suc i) clients counters
      → Entries i (client ∷ clients) (counter ∷ counters)
  unfolding report_clients
  cons-Entries i client clients counter counters own at few r =
      let known : acked_of progress i ≡ some (to_int64 counter.acked) = rw (acked_of, at) refl in
      elim (Option-cases client.per_client_latency) [
        | inl e ↦ absurd (own e)
        | inr (latency, e) ↦
            let entry : PublishReportClient = record {
              client_id = client.client_id;
              acked = to_int64 counter.acked;
              ack_latency_microseconds = build_client_ack_latency hdr latency;
            } in
            record {
              entries = entry ∷ r.entries;
              runs = ap₂ consed (ap₂ (report_client hdr client) known e) r.runs;
              size = ap suc r.size;
              sum =
                  let fits : entry_acked entry ≡ counter.acked = ground (arith, few) in
                  omega (arith, fits, r.sum);
            }
      ]

  clients-Entries :
      (clients : List ClientStats) (before counters : List PublishCounters)
      → progress.counters ≡ before ++ counters
      → total acked counters < 2 ^ 63
      → length clients ≡ length counters
      → All (Kept true) clients
      → Entries (length before) clients counters
  unfolding report_clients
  clients-Entries [] before [] e few same kept = record {
    entries = [];
    runs = refl;
    size = refl;
    sum = refl;
  }
  clients-Entries [] before (counter ∷ counters) e few same kept = absurd (omega arith)
  clients-Entries (client ∷ clients) before [] e few same kept = absurd (omega arith)
  clients-Entries (client ∷ clients) before (counter ∷ counters) e few same kept =
      let at : get_elem? progress.counters (length before) ≡ some counter =
        ap (λ cs. get_elem? cs (length before)) e ∙ get_elem?-middle before counter counters in
      let next : length (before ++ (counter ∷ [])) ≡ suc (length before) =
        omega (arith, length-append before (counter ∷ [])) in
      let rest =
        clients-Entries clients (before ++ (counter ∷ [])) counters
          (e ∙ sym (append_assoc before (counter ∷ []) counters)) (omega arith) (omega arith)
          kept.1 in
      cons-Entries (length before) client clients counter counters kept.0 at (omega arith)
        (subst (λ i. Entries i clients counters) next rest)

-- What a report says of the counters of a run.
pub record AddsUp {W : Type 0} (report : PublishReport W) (per_client : Bool)
    (counters : List PublishCounters) : Type 0 where
  pub published_sum : report.messages.published ≡ pos (total published counters)
  pub acked_sum : report.messages.acked ≡ pos (total acked counters)
  pub unsuccessful_sum :
      pos_part report.messages.failed + pos_part report.messages.timed_out
      ≡ total unsuccessful counters
  pub left_out : per_client ≡ false → report.clients ≡ none
  pub listed :
      per_client ≡ true
      → (entries : List PublishReportClient) × (report.clients ≡ some entries)
        × (length entries ≡ length counters)
        × (total entry_acked entries ≡ total acked counters)

ended-counters :
    (clients : ℕ) (course : Course)
    → course.connected ≡ none
    → (run_publish course (new_publish_progress clients)).0.counters ≡ course.counters
unfolding run_publish finish finish_connecting
ended-counters clients course e = rw (e) (ground arith)

module _ {W : Type 0} ⦃float64 : Float64 W⦄ (hdr : HdrHistogram W) where
  record Listed (per_client : Bool) (progress : PublishProgress) (stats : PublishStats)
      : Type 0 where
    clients : Slice PublishReportClient
    runs : build_clients hdr progress stats ≡ some clients
    left_out : per_client ≡ false → clients ≡ none
    listed :
        per_client ≡ true
        → (entries : List PublishReportClient) × (clients ≡ some entries)
          × (length entries ≡ length progress.counters)
          × (total entry_acked entries ≡ total acked progress.counters)

  clients-Listed :
      (per_client : Bool) (progress : PublishProgress) (stats : PublishStats)
      (cs : List ClientStats)
      → stats.clients ≡ cs
      → 0 < length cs
      → length cs ≡ length progress.counters
      → total acked progress.counters < 2 ^ 63
      → All (Kept per_client) cs
      → Listed per_client progress stats
  unfolding build_clients
  clients-Listed per_client progress stats [] e some_client same few kept = absurd (omega arith)
  clients-Listed false progress stats (c ∷ cs) e some_client same few kept = record {
    clients = none;
    runs = rw (e, kept.0) refl;
    left_out = λ f. refl;
    listed = λ f. absurd (ground (arith, f));
  }
  clients-Listed true progress stats (c ∷ cs) e some_client same few kept =
      let r = clients-Entries hdr progress (c ∷ cs) [] progress.counters refl few same kept in
      elim (Option-cases c.per_client_latency) [
        | inl f ↦ absurd (kept.0 f)
        | inr (latency, f) ↦ record {
          clients = some r.entries;
          runs =
              ap (clients_report hdr progress) e
              ∙ ap (entries_for hdr progress (c ∷ cs)) f
              ∙ ap present r.runs;
          left_out = λ g. absurd (ground (arith, g));
          listed = λ g. (r.entries, refl, r.size ∙ same, r.sum);
        }
      ]

  report-Listed :
      (per_client : Bool) (progress : PublishProgress) (stats : PublishStats)
      → (options : PublishOptions) (host : Bytes) (procs : ℕ) → Countable progress.counters
      → 0 < length stats.clients
      → length stats.clients ≡ length progress.counters
      → All (Kept per_client) stats.clients
      → (report : PublishReport W) × (build_publish_report hdr progress stats options host procs
          ≡ some report)
        × AddsUp report per_client progress.counters
  unfolding build_publish_report sum_publish_counters
  report-Listed per_client progress stats options host procs countable some_client same kept =
      let sum = sum_from_lem no_counts progress.counters (omega (arith, countable)) in
      let few : total acked progress.counters < 2 ^ 63 = omega (arith, sum) in
      let c =
        clients-Listed per_client progress stats stats.clients refl some_client same few kept in
      let (rates, r) =
        per_client_rates_exist progress stats (snapshot progress).publish_started_at
          (omega (arith, same)) in
      (
        _,
        ap₂ (publish_report_of hdr (snapshot progress) stats options host procs) r c.runs,
        record {
          published_sum = ground (arith, sum);
          acked_sum = ground (arith, sum);
          unsuccessful_sum = ground (arith, sum);
          left_out = c.left_out;
          listed = c.listed;
        },
      )

  -- The report of a run whose clients all connected is built without a panic, where there is at least
  -- one client, each has a counter, the counters add up below 2^63, and either every client has its
  -- own latency counters or none does. It says as many messages published, acked, and failed or timed
  -- out as the clients counted; and it has an entry for each client, with acked messages that add up
  -- to the same total, exactly with per-client counters.
  pub report-AddsUp :
      (per_client : Bool) (clients : ℕ) (course : Course) (stats : PublishStats)
      → (options : PublishOptions) (host : Bytes) (procs : ℕ) → course.connected ≡ none
      → Countable course.counters
      → 0 < length stats.clients
      → length stats.clients ≡ length course.counters
      → All (Kept per_client) stats.clients
      → let ended = (run_publish course (new_publish_progress clients)).0 in
        (report : PublishReport W) × (build_publish_report hdr ended stats options host procs
          ≡ some report)
        × AddsUp report per_client course.counters
  report-AddsUp per_client clients course stats options host procs connected countable some_client
        same kept =
      let ended = (run_publish course (new_publish_progress clients)).0 in
      let e = ended-counters clients course connected in
      let (report, runs, sums) =
        report-Listed per_client ended stats options host procs (subst Countable (sym e) countable)
          some_client (same ∙ ap length (sym e)) kept in
      (report, runs, subst (AddsUp report per_client) e sums)
