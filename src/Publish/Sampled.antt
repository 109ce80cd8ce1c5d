-- ===== src/Publish/Sampled.antt =====
-- What the samples of the acks of a run are, in every order of its goroutines (publish.go,
-- publish_stats.go).
use mqtt_load_generator.Base.{
  ℕ, zero, suc, ◌*◌, ◌^◌, ◌≤◌, ◌<◌, ◌≡◌, Bool, pos, ◌≤ℤ◌, List, [], ◌∷◌, ◌++◌, some, map, length,
  length-map, length-set, length-replicate, get_elem?, set, total, replicate, refl, sym, ap, subst,
  false, ◌∙◌, arith,
}
use native.Mathlib.Nat.{suc-mul}
use mqtt_load_generator.Base.Words.{u64}
use mqtt_load_generator.Base.Text.{All, All-get_elem?, All-set, All-replicate}
use mqtt_load_generator.Display.{sample_total}
use mqtt_load_generator.Display.Samples.{sum, Rising, last_total, last_total-snoc, samples_add_up}
use mqtt_load_generator.Publish.{PublishOptions, Semaphore}
use mqtt_load_generator.Publish.Client.{
  Outcome, ClientState, take_slot, publish, count_result, free_slot, done, finish_waiting,
  disconnect,
}
use mqtt_load_generator.Publish.Steps.{
  Step, Reach, begin, later, cancel, acquires, publishes, paces, gives_up, stops_pacing, counts,
  frees, finishes, stops_waiting, disconnects,
}
use mqtt_load_generator.Publish.Invariant.{Inv, Reach-Inv}
use mqtt_load_generator.Publish.Sampler.{Sampled, SampledRun, cancel_client, begin_sampling}
use mqtt_load_generator.Publish.Readings.{
  acked_so_far, sum_read, Tracks, Tracks-set, Tracks-read, Tracks-sample, Tracks-cancel,
  Tracks-under, Tracks-begin,
}

Rising-snoc :
    (previous : ℕ) (ticks : List ℕ) (t : ℕ)
    → Rising previous ticks
    → last_total previous ticks ≤ t
    → Rising previous (ticks ++ (t ∷ []))
Rising-snoc previous [] t rising h = (h, tt)
Rising-snoc previous (u ∷ ticks) t (le, rising) h = (le, Rising-snoc u ticks t rising h)

module _ (semaphore : Semaphore) (options : PublishOptions) (per_client_stats : Bool)
    (small : options.count < 2 ^ 63) where
  open semaphore use {Sem}

  acked_rises :
      {s t : ClientState Sem}
      → Step semaphore options s t
      → Inv semaphore options per_client_stats s
      → acked_so_far s ≤ acked_so_far t
  unfolding take_slot publish count_result free_slot done finish_waiting disconnect
  acked_rises (acquires i now waited_for taken at e) v = omega arith
  acked_rises (publishes i started_at at) v = omega arith
  acked_rises (paces i at) v = omega arith
  acked_rises (gives_up i at c) v = omega arith
  acked_rises (stops_pacing i at positive c) v = omega arith
  acked_rises (counts before after started_at (Outcome.acked microseconds) at) v =
      ground (arith, v, small)
  acked_rises (counts before after started_at Outcome.failed at) v = omega arith
  acked_rises (counts before after started_at Outcome.timed_out at) v = omega arith
  acked_rises (frees freed positive e) v = omega arith
  acked_rises (finishes released outstanding) v = omega arith
  acked_rises (stops_waiting now at idle) v = omega arith
  acked_rises (disconnects at) v = omega arith

  abbrev Reached : ClientState Sem → Type 0
  Reached s = Reach semaphore options per_client_stats s

  Reached-cancel :
      (ss : List (ClientState Sem)) → All Reached ss → All Reached (map cancel_client ss)
  Reached-cancel [] h = tt
  Reached-cancel (s ∷ ss) (r, h) = (cancel r, Reached-cancel ss h)

  acked_within :
      (ss : List (ClientState Sem))
      → All Reached ss
      → total acked_so_far ss ≤ length ss * options.count
  acked_within [] h = omega arith
  acked_within (s ∷ ss) (r, h) =
      let v = Reach-Inv semaphore options small r in
      omega (arith, v, acked_within ss h, suc-mul (length ss) options.count)

  -- What holds at every moment, with what the last snapshot read of each client.
  record Sound (n : ℕ) (r : Sampled Sem) : Type 0 where
    seen : List ℕ
    size : length r.clients ≡ n
    reached : All Reached r.clients
    tracks : Tracks seen r.read r.clients
    rising : Rising 0 r.ticks
    last : last_total 0 r.ticks ≡ sum_read seen

  begin-Sound : (n : ℕ) → Sound n (begin_sampling semaphore options per_client_stats n)
  unfolding sum_read
  begin-Sound n = record {
    seen = replicate n 0;
    size = length-replicate n _;
    reached = All-replicate Reached n _ begin;
    tracks = Tracks-begin n _;
    rising = tt;
    last = none_seen n;
  }
    where
      none_seen : (m : ℕ) → 0 ≡ sum_read (replicate m 0)
      none_seen zero = refl
      none_seen (suc m) = omega (arith, none_seen m)

  works-Sound :
      {n : ℕ} {r : Sampled Sem} (i : ℕ) (s t : ClientState Sem)
      → get_elem? r.clients i ≡ some s
      → Step semaphore options s t
      → Sound n r
      → Sound n (record r { clients = set r.clients i t })
  works-Sound {r = r} i s t at step h =
      let reach = All-get_elem? Reached r.clients i s h.reached at in
      let v = Reach-Inv semaphore options small reach in
      record {
        seen = h.seen;
        size = length-set r.clients i t ∙ h.size;
        reached = All-set Reached r.clients i t h.reached (later reach step);
        tracks = Tracks-set h.seen r.read r.clients i s t at (acked_rises step v) h.tracks;
        rising = h.rising;
        last = h.last;
      }

  module _ {n : ℕ} (few : n * options.count < 2 ^ 63) where
    samples-Sound :
        {r : Sampled Sem}
        → length r.read ≡ length r.clients
        → Sound n r
        → Sound n (record r { read = []; ticks = r.ticks ++ (u64 (sum_read r.read) ∷ []) })
    samples-Sound {r} whole h =
        let (tracks, up, under) = Tracks-sample h.seen r.read r.clients whole h.tracks in
        let bound = acked_within r.clients h.reached in
        let sized = ap (λ k. k * options.count) h.size in
        let fits : u64 (sum_read r.read) ≡ sum_read r.read =
          ground (arith, under, bound, sized, few) in
        record {
          seen = r.read;
          size = h.size;
          reached = h.reached;
          tracks = tracks;
          rising =
              Rising-snoc 0 r.ticks (u64 (sum_read r.read)) h.rising
                (omega (arith, h.last, up, fits));
          last = last_total-snoc 0 r.ticks (u64 (sum_read r.read)) ∙ fits;
        }

    SampledRun-Sound :
        {r : Sampled Sem} → SampledRun semaphore options per_client_stats n r → Sound n r
    unfolding sum_read
    SampledRun-Sound SampledRun.begin = begin-Sound n
    SampledRun-Sound (SampledRun.works i s t r at step) =
        works-Sound i s t at step (SampledRun-Sound r)
    SampledRun-Sound (SampledRun.cancels {r = q} r) =
        let h = SampledRun-Sound r in
        record {
          seen = h.seen;
          size = length-map q.clients cancel_client ∙ h.size;
          reached = Reached-cancel q.clients h.reached;
          tracks = Tracks-cancel h.seen q.read q.clients h.tracks;
          rising = h.rising;
          last = h.last;
        }
    SampledRun-Sound (SampledRun.reads {r = q} s r at) =
        let h = SampledRun-Sound r in
        record {
          seen = h.seen;
          size = h.size;
          reached = h.reached;
          tracks = Tracks-read h.seen q.read q.clients s at h.tracks;
          rising = h.rising;
          last = h.last;
        }
    SampledRun-Sound (SampledRun.samples r whole) = samples-Sound whole (SampledRun-Sound r)

    -- At any moment of a run of n clients, where n times `Count` is below 2^63, the sampler has noted
    -- one interval for each tick, none of them is negative, and together they are at most the acks
    -- that the clients have counted, though the clients go on while a snapshot reads their counters.
    pub intervals_within :
        {r : Sampled Sem}
        → SampledRun semaphore options per_client_stats n r
        → (length (sample_total r.ticks) ≡ length r.ticks)
          × All (λ i. pos 0 ≤ℤ i) (sample_total r.ticks)
          × (sum (sample_total r.ticks) ≤ℤ pos (total acked_so_far r.clients))
    intervals_within {r} run =
        let h = SampledRun-Sound run in
        let (size, adds, positive, bar, connects) = samples_add_up r.ticks 0 false in
        let under = Tracks-under h.seen r.read r.clients h.tracks in
        let up : pos (last_total 0 r.ticks) ≤ℤ pos (total acked_so_far r.clients) =
          omega (arith, h.last) in
        (
          size,
          positive h.rising,
          subst (λ z. z ≤ℤ pos (total acked_so_far r.clients)) (sym adds) up,
        )
