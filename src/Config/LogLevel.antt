-- ===== src/Config/LogLevel.antt =====
-- `parseLogLevel` of internal/cli/logging.go, with the parser of log/slog that it calls.
use mqtt_load_generator.Base.{
  ℕ, ◌-◌, ◌^◌, ltb, leb, ◌==◌, if◌then◌else◌, Bool, true, not, ◌&&◌, ◌||◌, ℤ, pos, negsuc, ◌+ℤ◌, [],
  ◌∷◌, Option, none, some,
}
use mqtt_load_generator.Base.Words.{wrap_int64}
use mqtt_load_generator.Base.Text.{Bytes, codes, same, value}

abbrev pub is_sign : ℕ → Bool
is_sign c = c == b'+' || c == b'-'

-- The text before the first sign, and from there on: `strings.IndexAny(s, "+-")`.
abbrev pub cut_at_sign : Bytes → Bytes × Bytes
cut_at_sign [] = ([], [])
cut_at_sign (c ∷ s) =
    let (name, offset) = cut_at_sign s in if is_sign c then ([], c ∷ s) else (c ∷ name, offset)

-- `strings.ToUpper`, as far as the level names go: of the letters that are not ASCII only the
-- dotless i, bytes 196 177, has an upper-case letter that occurs in one.
abbrev pub to_upper : Bytes → Bytes
to_upper [] = []
to_upper (c ∷ []) = (if leb b'a' c && leb c b'z' then c - 32 else c) ∷ []
to_upper (c ∷ d ∷ s) =
    let rest = to_upper s in
    let next = to_upper (d ∷ s) in
    if c == 196 && d == 177
    then b'I' ∷ rest
    else (if leb b'a' c && leb c b'z' then c - 32 else c) ∷ next

abbrev pub all_digits : Bytes → Bool
all_digits [] = true
all_digits (c ∷ s) = leb b'0' c && leb c b'9' && all_digits s

-- `strconv.Atoi` of a text that begins with a sign.
abbrev pub atoi_signed : Bytes → Option ℤ
atoi_signed [] = some (pos 0)
atoi_signed (sign ∷ []) = none
atoi_signed (sign ∷ c ∷ s) =
    let n = value 0 (c ∷ s) in
    if not (all_digits (c ∷ s))
    then none
    else if sign == b'-'
    then if ltb (2 ^ 63) n then none else (if n == 0 then some (pos 0) else some (negsuc (n - 1)))
    else if leb (2 ^ 63) n
    then none
    else some (pos n)

abbrev pub named_level : Bytes → Option ℤ
named_level name =
    if same name (codes "DEBUG")
    then some (negsuc 3)
    else if same name (codes "INFO")
    then some (pos 0)
    else if same name (codes "WARN")
    then some (pos 4)
    else if same name (codes "ERROR")
    then some (pos 8)
    else none

abbrev pub shifted : Option ℤ → Option ℤ → Option ℤ
shifted none level = none
shifted (some offset) none = none
shifted (some offset) (some level) = some (wrap_int64 (level +ℤ offset))

-- `Level.UnmarshalText`: a name in any case, and an offset behind it such as in `info+2`.
unfoldable pub parse_log_level : Bytes → Option ℤ
parse_log_level text =
    let (name, offset) = cut_at_sign text in
    shifted (atoi_signed offset) (named_level (to_upper name))
