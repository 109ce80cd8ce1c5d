-- ===== src/Payload/Accepts.antt =====
-- What `benchmarkTimestamp` of subscribe_stats.go accepts.
use native.Mathlib.Nat.{pow-le-pow_right, pow-suc}
use mqtt_load_generator.Base.{
  ℕ, suc, ◌+◌, ◌-◌, ◌*◌, ◌^◌, ◌≤◌, ◌<◌, true, [], ◌∷◌, ◌++◌, some, some, length, ◌≡◌, ◌↔◌, refl,
  sym, ap, ◌∙◌, arith, Option-cases, Bool-cases, inl, inr,
}
use mqtt_load_generator.Base.Words.{u64}
use mqtt_load_generator.Base.Text.{Bytes, All, IsDigit, value}
use mqtt_load_generator.Payload.Timestamp.{
  benchmark_timestamp_prefix, max_timestamp_digits, max_int64, is_digit, is_terminator,
  scan_timestamp, scan_rest, strip_prefix, benchmark_timestamp,
}

-- A text that starts with a number of at most 19 digits, counted with those before it, and goes on
-- with a comma or a closing brace.
pub record Reads (text : Bytes) (before count result : ℕ) : Type 0 where
  pub digits : Bytes
  pub terminator : ℕ
  pub rest : Bytes
  pub shape : text ≡ digits ++ (terminator ∷ rest)
  pub all_digits : All IsDigit digits
  pub some_digit : 0 < count + length digits
  pub few : count + length digits ≤ max_timestamp_digits
  pub ends : is_terminator terminator ≡ true
  pub exact : result ≡ value before digits
  pub fits : result ≤ max_int64

-- One round over a digit, which does not wrap the uint64.
IsDigit-round :
    (c before count result : ℕ) (text : Bytes)
    → before < 10 ^ count
    → is_digit c ≡ true
    → scan_timestamp (c ∷ text) before count ≡ some result
    → let next = before * 10 + (c - b'0') in
      IsDigit c
      × (count + 1 ≤ max_timestamp_digits)
      × (next < 10 ^ suc count)
      × (scan_timestamp text next (count + 1) ≡ some result)
unfolding scan_timestamp
IsDigit-round c before count result text low d h =
    let next = before * 10 + (c - b'0') in
    let digit : IsDigit c = ground arith in
    let few : count + 1 ≤ max_timestamp_digits = ground arith in
    let below : next < 10 ^ suc count = omega (arith, pow-suc 10 count) in
    let top : 10 ^ suc count ≤ 10 ^ 19 = pow-le-pow_right (omega arith) {j = 19} (omega arith) in
    let same : u64 next ≡ next = omega arith in
    let kept : scan_timestamp text (u64 next) (count + 1) ≡ some result = ground arith in
    (digit, few, below, rw same at kept)

scan_sound :
    (text : Bytes) (before count result : ℕ)
    → before < 10 ^ count
    → count ≤ max_timestamp_digits
    → scan_timestamp text before count ≡ some result
    → Reads text before count result
unfolding scan_timestamp
scan_sound [] before count result low few h = cc
scan_sound (c ∷ text) before count result low few h = elim (Bool-cases (is_digit c)) [
  | inl d ↦
      let (digit, fewer, below, kept) = IsDigit-round c before count result text low d h in
      let r =
        scan_sound text (before * 10 + (c - b'0')) (count + 1) result
          (let e : suc count ≡ count + 1 = omega arith in rw e at below) fewer kept in
      record {
        digits = c ∷ r.digits;
        terminator = r.terminator;
        rest = r.rest;
        shape = ap (◌∷◌ c) r.shape;
        all_digits = (digit, r.all_digits);
        some_digit = omega arith;
        few = omega (arith, r.few);
        ends = r.ends;
        exact = r.exact;
        fits = r.fits;
      }
  | inr other ↦ record {
    digits = [];
    terminator = c;
    rest = text;
    shape = refl;
    all_digits = tt;
    some_digit = ground arith;
    few = omega arith;
    ends = ground arith;
    exact = ground arith;
    fits = ground arith;
  }
]

le-value : (digits : Bytes) (n : ℕ) → n ≤ value n digits
le-value [] n = omega arith
le-value (c ∷ s) n = omega (arith, le-value s (n * 10 + (c - b'0')))

scan_complete :
    (digits rest : Bytes) (c before count : ℕ)
    → All IsDigit digits
    → 0 < count + length digits
    → count + length digits ≤ max_timestamp_digits
    → is_terminator c ≡ true
    → value before digits ≤ max_int64
    → scan_timestamp (digits ++ (c ∷ rest)) before count ≡ some (value before digits)
unfolding scan_timestamp
scan_complete [] rest c before count all some_digit few ends fits = ground arith
scan_complete (d ∷ digits) rest c before count (hd, all) some_digit few ends fits =
    let next = before * 10 + (d - b'0') in
    ground (
      arith,
      scan_complete digits rest c next (count + 1) all (omega arith) (omega arith) ends fits,
      le-value digits next,
    )

pub strip_prefix-append : (prefix text : Bytes) → strip_prefix prefix (prefix ++ text) ≡ some text
unfolding strip_prefix
strip_prefix-append [] text = refl
strip_prefix-append (p ∷ prefix) text = ground (arith, strip_prefix-append prefix text)

strip_prefix_sound :
    (prefix text rest : Bytes) → strip_prefix prefix text ≡ some rest → text ≡ prefix ++ rest
unfolding strip_prefix
strip_prefix_sound [] text rest h = ground arith
strip_prefix_sound (p ∷ prefix) [] rest h = cc
strip_prefix_sound (p ∷ prefix) (c ∷ text) rest h =
    ground (arith, strip_prefix_sound prefix text rest)

-- A payload with a readable timestamp: the prefix, a number of 1 to 19 digits that is at most the
-- largest int64, and a comma or a closing brace.
pub record HasTimestamp (payload : Bytes) (result : ℕ) : Type 0 where
  pub text : Bytes
  pub prefixed : payload ≡ benchmark_timestamp_prefix ++ text
  pub reads : Reads text 0 0 result

timestamp_sound :
    (payload : Bytes) (result : ℕ)
    → benchmark_timestamp payload ≡ some result
    → HasTimestamp payload result
unfolding benchmark_timestamp
timestamp_sound payload result h =
    elim (Option-cases (strip_prefix benchmark_timestamp_prefix payload)) [
      | inl e ↦ cc (ap scan_rest e)
      | inr (text, e) ↦ record {
        text = text;
        prefixed = strip_prefix_sound benchmark_timestamp_prefix payload text e;
        reads = scan_sound text 0 0 result (omega arith) (omega arith) (sym (ap scan_rest e) ∙ h);
      }
    ]

pub timestamp_complete :
    (payload : Bytes) (result : ℕ)
    → HasTimestamp payload result
    → benchmark_timestamp payload ≡ some result
unfolding benchmark_timestamp
timestamp_complete payload result t =
    let r = t.reads in
    ap (λ p. scan_rest (strip_prefix benchmark_timestamp_prefix p)) t.prefixed
    ∙ ap scan_rest (strip_prefix-append benchmark_timestamp_prefix t.text)
    ∙ ap (λ text. scan_timestamp text 0 0) r.shape
    ∙ scan_complete r.digits r.rest r.terminator 0 0 r.all_digits r.some_digit r.few r.ends
        (omega (arith, r.exact, r.fits))
    ∙ ap some (sym r.exact)

-- `benchmarkTimestamp` returns a number exactly when the payload starts with {"timestamp": and goes
-- on with 1 to 19 digits that spell that number, at most the largest int64, and then a comma or a
-- closing brace: no accepted number has wrapped around.
pub benchmark_timestamp_iff :
    (payload : Bytes) (result : ℕ)
    → (benchmark_timestamp payload ≡ some result) ↔ HasTimestamp payload result
benchmark_timestamp_iff payload result =
    (timestamp_sound payload result, timestamp_complete payload result)
