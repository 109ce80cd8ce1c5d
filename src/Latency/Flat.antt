-- ===== src/Latency/Flat.antt =====
-- The chunked counters of latency_buckets.go laid out as one dense array.
use mathlib.Core.Option
use mqtt_load_generator.Base.{
  ℕ, zero, suc, ◌+◌, ◌*◌, ◌<◌, List, [], ◌∷◌, ◌++◌, Option, none, some, set, replicate, length,
  Option-cases, get_elem?-some, length-set, ◌≡◌, refl, sym, ap, ◌∙◌, arith,
}
use mqtt_load_generator.Base.Words.{u64}
use mqtt_load_generator.Latency.Counters.{Histogram, add_one, add_counts}
use mqtt_load_generator.Latency.Chunked.{new_chunk, chunk_or_new, record_at, add_chunks}

-- The dense array that the chunks stand for.
unfoldable pub flat : List (Option (List ℕ)) → List ℕ
flat [] = []
flat (slot ∷ slots) = chunk_or_new slot ++ flat slots

-- Every chunk holds 128 counters.
abbrev pub Full : List (Option (List ℕ)) → Type 0
Full [] = Unit
Full (slot ∷ slots) = (length (chunk_or_new slot) ≡ 128) × Full slots

add_one-some :
    (xs : List ℕ) (i : ℕ)
    → i < length xs
    → (ys : List ℕ) × (add_one xs i ≡ some ys) × (length ys ≡ length xs)
unfolding add_one
add_one-some xs i h =
    let (c, e) = get_elem?-some xs i h in
    (set xs i (u64 (c + 1)), rw (e, add_one) refl, length-set xs i (u64 (c + 1)))

add_one-append_left :
    (xs ys : List ℕ) (i : ℕ)
    → i < length xs
    → add_one (xs ++ ys) i ≡ Option.map (λ c. c ++ ys) (add_one xs i)
unfolding add_one
add_one-append_left [] ys i h = elim h [ ]
add_one-append_left (x ∷ xs) ys zero h = refl
add_one-append_left (x ∷ xs) ys (suc i) h = ground (arith, add_one-append_left xs ys i)

add_one-append_right :
    (xs ys : List ℕ) (i j : ℕ)
    → j ≡ length xs + i
    → add_one (xs ++ ys) j ≡ Option.map (λ c. xs ++ c) (add_one ys i)
unfolding add_one
add_one-append_right [] ys i j h =
    let e : j ≡ i = omega arith in rw e (ground (arith, Option-cases (add_one ys i)))
add_one-append_right (x ∷ xs) ys i zero h = absurd (omega arith)
add_one-append_right (x ∷ xs) ys i (suc j) h = ground (arith, add_one-append_right xs ys i j)

pub record Recorded (slots : List (Option (List ℕ))) (number offset : ℕ) : Type 0 where
  pub after : List (Option (List ℕ))
  pub runs : record_at slots number offset ≡ some after
  pub same : add_one (flat slots) (number * 128 + offset) ≡ some (flat after)
  pub full : Full after
  pub size : length after ≡ length slots

pub record_at-flat :
    (slots : List (Option (List ℕ))) (number offset : ℕ)
    → Full slots
    → number < length slots
    → offset < 128
    → Recorded slots number offset
unfolding record_at flat
record_at-flat [] number offset f h lt = elim h [ ]
record_at-flat (slot ∷ slots) zero offset f h lt =
    let (chunk, e, l) = add_one-some (chunk_or_new slot) offset (omega arith) in
    record {
      after = some chunk ∷ slots;
      runs = rw (e, record_at) refl;
      same =
          ap (add_one (flat (slot ∷ slots))) (let p : 0 * 128 + offset ≡ offset = omega arith in p)
          ∙ add_one-append_left (chunk_or_new slot) (flat slots) offset (omega arith)
          ∙ ap (Option.map (λ c. c ++ flat slots)) e;
      full = (omega arith, f.1);
      size = refl;
    }
record_at-flat (slot ∷ slots) (suc number) offset f h lt =
    let r = record_at-flat slots number offset f.1 (omega arith) lt in
    record {
      after = slot ∷ r.after;
      runs = ground (arith, r.runs);
      same =
          add_one-append_right (chunk_or_new slot) (flat slots) (number * 128 + offset)
            (suc number * 128 + offset) (omega arith)
          ∙ ap (Option.map (λ c. chunk_or_new slot ++ c)) r.same;
      full = (f.0, r.full);
      size = ap suc r.size;
    }

module _ (histogram : Histogram) where
  open histogram use {Hist}

  add_counts-append :
      (n m : ℕ) (xs ys : List ℕ) (h : Hist)
      → m ≡ n + length xs
      → add_counts histogram n (xs ++ ys) h
        ≡ add_counts histogram m ys (add_counts histogram n xs h)
  unfolding add_counts
  add_counts-append n m [] ys h e = let p : m ≡ n = omega arith in rw p refl
  add_counts-append n m (x ∷ xs) ys h e = add_counts-append (n + 1) m xs ys _ (omega arith)

  add_counts-zeros : (n k : ℕ) (h : Hist) → add_counts histogram n (replicate k 0) h ≡ h
  unfolding add_counts
  add_counts-zeros n zero h = refl
  add_counts-zeros n (suc k) h = add_counts-zeros (n + 1) k h

  -- The chunk loops read out what the dense loop reads out of the same counters.
  pub add_chunks-flat :
      (n : ℕ) (slots : List (Option (List ℕ))) (h : Hist)
      → Full slots
      → add_chunks histogram n slots h ≡ add_counts histogram (n * 128) (flat slots) h
  unfolding add_chunks flat add_counts
  add_chunks-flat n [] h f = refl
  add_chunks-flat n (none ∷ slots) h f =
      add_chunks-flat (n + 1) slots h f.1
      ∙ sym (
          add_counts-append (n * 128) ((n + 1) * 128) new_chunk (flat slots) h (omega arith)
          ∙ ap (add_counts histogram ((n + 1) * 128) (flat slots))
              (add_counts-zeros (n * 128) 128 h))
  add_chunks-flat n (some chunk ∷ slots) h f =
      add_chunks-flat (n + 1) slots _ f.1
      ∙ sym (add_counts-append (n * 128) ((n + 1) * 128) chunk (flat slots) h (omega arith))
