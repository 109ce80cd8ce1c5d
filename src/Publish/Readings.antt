-- ===== src/Publish/Readings.antt =====
-- What a snapshot reads of the counters of publish_progress.go, one after the other, while they grow.
use mqtt_load_generator.Base.{
  ℕ, zero, suc, ◌≤◌, ◌≡◌, List, [], ◌∷◌, ◌++◌, some, map, length, get_elem?, set, total, replicate,
  arith,
}
use mqtt_load_generator.Publish.Client.{ClientState}
use mqtt_load_generator.Publish.Sampler.{cancel_client}

abbrev pub acked_so_far : {Sem : Type 0} → ClientState Sem → ℕ
acked_so_far s = s.counters.acked

unfoldable pub sum_read : List ℕ → ℕ
sum_read = total λ a. a

module _ {Sem : Type 0} where
  -- What the last snapshot read of each client, what this one has read, and the clients now.
  abbrev pub Tracks : List ℕ → List ℕ → List (ClientState Sem) → Type 0
  Tracks [] [] [] = Unit
  Tracks (v ∷ vs) [] (s ∷ ss) = (v ≤ acked_so_far s) × Tracks vs [] ss
  Tracks (v ∷ vs) (w ∷ ws) (s ∷ ss) = (v ≤ w) × (w ≤ acked_so_far s) × Tracks vs ws ss
  Tracks [] (w ∷ ws) ss = ⊥
  Tracks [] [] (s ∷ ss) = ⊥
  Tracks (v ∷ vs) ws [] = ⊥

  pub Tracks-set :
      (vs ws : List ℕ) (ss : List (ClientState Sem)) (i : ℕ) (s t : ClientState Sem)
      → get_elem? ss i ≡ some s
      → acked_so_far s ≤ acked_so_far t
      → Tracks vs ws ss
      → Tracks vs ws (set ss i t)
  Tracks-set [] [] [] i s t e le h = tt
  Tracks-set (v ∷ vs) [] (x ∷ ss) zero s t e le h =
      let here : acked_so_far x ≡ acked_so_far s = ground (arith, e) in (omega (arith, h.0), h.1)
  Tracks-set (v ∷ vs) [] (x ∷ ss) (suc i) s t e le h = (h.0, Tracks-set vs [] ss i s t e le h.1)
  Tracks-set (v ∷ vs) (w ∷ ws) (x ∷ ss) zero s t e le (a, b, h) =
      let here : acked_so_far x ≡ acked_so_far s = ground (arith, e) in (a, omega arith, h)
  Tracks-set (v ∷ vs) (w ∷ ws) (x ∷ ss) (suc i) s t e le (a, b, h) =
      (a, b, Tracks-set vs ws ss i s t e le h)
  Tracks-set [] (w ∷ ws) ss i s t e le h = absurd h
  Tracks-set [] [] (x ∷ ss) i s t e le h = absurd h
  Tracks-set (v ∷ vs) ws [] i s t e le h = absurd h

  pub Tracks-read :
      (vs ws : List ℕ) (ss : List (ClientState Sem)) (s : ClientState Sem)
      → get_elem? ss (length ws) ≡ some s
      → Tracks vs ws ss
      → Tracks vs (ws ++ (acked_so_far s ∷ [])) ss
  Tracks-read [] [] [] s e h = absurd (ground (arith, e))
  Tracks-read (v ∷ vs) [] (x ∷ ss) s e h =
      let here : acked_so_far x ≡ acked_so_far s = ground (arith, e) in
      (omega (arith, h.0), omega arith, h.1)
  Tracks-read (v ∷ vs) (w ∷ ws) (x ∷ ss) s e (a, b, h) = (a, b, Tracks-read vs ws ss s e h)
  Tracks-read [] (w ∷ ws) ss s e h = absurd h
  Tracks-read [] [] (x ∷ ss) s e h = absurd h
  Tracks-read (v ∷ vs) ws [] s e h = absurd h

  pub Tracks-sample :
      (vs ws : List ℕ) (ss : List (ClientState Sem))
      → length ws ≡ length ss
      → Tracks vs ws ss
      → Tracks ws [] ss × (sum_read vs ≤ sum_read ws) × (sum_read ws ≤ total acked_so_far ss)
  unfolding sum_read
  Tracks-sample [] [] [] e h = (tt, omega arith, omega arith)
  Tracks-sample (v ∷ vs) [] (x ∷ ss) e h = absurd (omega (arith, e))
  Tracks-sample (v ∷ vs) (w ∷ ws) (x ∷ ss) e (a, b, h) =
      let (rest, up, under) = Tracks-sample vs ws ss (omega (arith, e)) h in
      ((b, rest), omega arith, omega arith)
  Tracks-sample [] (w ∷ ws) ss e h = absurd h
  Tracks-sample [] [] (x ∷ ss) e h = absurd h
  Tracks-sample (v ∷ vs) ws [] e h = absurd h

  pub Tracks-cancel :
      (vs ws : List ℕ) (ss : List (ClientState Sem))
      → Tracks vs ws ss
      → Tracks vs ws (map cancel_client ss)
  Tracks-cancel [] [] [] h = tt
  Tracks-cancel (v ∷ vs) [] (x ∷ ss) h = (h.0, Tracks-cancel vs [] ss h.1)
  Tracks-cancel (v ∷ vs) (w ∷ ws) (x ∷ ss) (a, b, h) = (a, b, Tracks-cancel vs ws ss h)
  Tracks-cancel [] (w ∷ ws) ss h = absurd h
  Tracks-cancel [] [] (x ∷ ss) h = absurd h
  Tracks-cancel (v ∷ vs) ws [] h = absurd h

  pub Tracks-under :
      (vs ws : List ℕ) (ss : List (ClientState Sem))
      → Tracks vs ws ss
      → sum_read vs ≤ total acked_so_far ss
  unfolding sum_read
  Tracks-under [] [] [] h = omega arith
  Tracks-under (v ∷ vs) [] (x ∷ ss) h = omega (arith, h.0, Tracks-under vs [] ss h.1)
  Tracks-under (v ∷ vs) (w ∷ ws) (x ∷ ss) (a, b, h) = omega (arith, Tracks-under vs ws ss h)
  Tracks-under [] (w ∷ ws) ss h = absurd h
  Tracks-under [] [] (x ∷ ss) h = absurd h
  Tracks-under (v ∷ vs) ws [] h = absurd h

  pub Tracks-begin : (n : ℕ) (s : ClientState Sem) → Tracks (replicate n 0) [] (replicate n s)
  Tracks-begin zero s = tt
  Tracks-begin (suc n) s = (omega arith, Tracks-begin n s)
