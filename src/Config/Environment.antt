-- ===== src/Config/Environment.antt =====
-- `applyEnvironmentFallback` of internal/cli/environment.go.
use mqtt_load_generator.Base.{
  Bool-cases, inl, inr, ◌≡◌, refl, sym, ap, ◌∙◌, if◌then◌else◌, Bool, true, false, ◌||◌, List, [],
  ◌∷◌, Option, none, some, arith,
}
use mqtt_load_generator.Base.Text.{Bytes, codes, same, same_eq}

-- A pflag flag: its text, and whether the command line set it.
pub record Flag : Type 0 where
  pub value : Bytes
  pub changed : Bool

-- The flags of a command by name; `none` is a name it does not have.
abbrev pub FlagSet : Type 0
FlagSet = Bytes → Option Flag

unfoldable pub environment_variable_by_flag : Bytes → Option Bytes
environment_variable_by_flag flag_name =
    if same flag_name (codes "username")
    then some (codes "MQTT_USERNAME")
    else if same flag_name (codes "password")
    then some (codes "MQTT_PASSWORD")
    else if same flag_name (codes "ca")
    then some (codes "MQTT_CA")
    else if same flag_name (codes "cert")
    then some (codes "MQTT_CERT")
    else if same flag_name (codes "key")
    then some (codes "MQTT_KEY")
    else none

module _ (lookup_env : Bytes → Option Bytes) where
  -- The value of a variable, where the flag has one and it is set.
  abbrev pub variable_value : Option Bytes → Option Bytes
  variable_value none = none
  variable_value (some environment_name) = lookup_env environment_name

  -- A flag that was not changed takes the variable's value; all five flags are texts, and setting
  -- one never fails.
  abbrev pub set_flag : Option Flag → Option Bytes → Option Flag
  set_flag none value = none
  set_flag (some flag) none = some flag
  set_flag (some flag) (some value) =
      if flag.changed then some flag else some (record flag { value = value })

  -- The body of the loop.
  abbrev pub apply_fallback : Bytes → FlagSet → FlagSet
  apply_fallback flag_name flags name =
      if same name flag_name
      then set_flag (flags flag_name) (variable_value (environment_variable_by_flag flag_name))
      else flags name

  -- `order` is the order in which `range` visits the keys of the map.
  abbrev pub apply_environment_fallback : List Bytes → FlagSet → FlagSet
  apply_environment_fallback [] flags = flags
  apply_environment_fallback (flag_name ∷ order) flags =
      apply_environment_fallback order (apply_fallback flag_name flags)

  abbrev pub visits : Bytes → List Bytes → Bool
  visits name [] = false
  visits name (flag_name ∷ order) = same name flag_name || visits name order

  -- The flag that `name` has in the end, by the documented rule.
  abbrev pub fallback : Bytes → Option Flag → Option Flag
  fallback name flag = set_flag flag (variable_value (environment_variable_by_flag name))

  set_flag_twice :
      (flag : Option Flag) (value : Option Bytes)
      → set_flag (set_flag flag value) value ≡ set_flag flag value
  set_flag_twice none value = refl
  set_flag_twice (some flag) none = refl
  set_flag_twice (some flag) (some value) = ground arith

  apply_fallback_at :
      (name flag_name : Bytes) (flags : FlagSet)
      → apply_fallback flag_name flags name
        ≡ (if same name flag_name then fallback name (flags name) else flags name)
  apply_fallback_at name flag_name flags = elim (Bool-cases (same name flag_name)) [
    | inl e ↦ let k = same_eq name flag_name e in rw (e) (ap (λ n. fallback n (flags n)) (sym k))
    | inr e ↦ rw (e) refl
  ]

  one_visit :
      (a b : Bool) (f : Option Flag → Option Flag) (x : Option Flag)
      → f (f x) ≡ f x
      → (if b then f (if a then f x else x) else (if a then f x else x))
        ≡ (if a || b then f x else x)
  one_visit true true f x e = e
  one_visit true false f x e = refl
  one_visit false true f x e = refl
  one_visit false false f x e = refl

  visited :
      (order : List Bytes) (flags : FlagSet) (name : Bytes)
      → apply_environment_fallback order flags name
        ≡ (if visits name order then fallback name (flags name) else flags name)
  visited [] flags name = refl
  visited (flag_name ∷ order) flags name =
      let f = fallback name in
      visited order (apply_fallback flag_name flags) name
      ∙ ap (λ x. if visits name order then f x else x) (apply_fallback_at name flag_name flags)
      ∙ one_visit (same name flag_name) (visits name order) f (flags name)
          (set_flag_twice (flags name) (variable_value (environment_variable_by_flag name)))

  kept :
      (flag : Flag)
      → flag.changed ≡ true
      → (value : Option Bytes) → set_flag (some flag) value ≡ some flag
  kept flag changed none = refl
  kept flag changed (some value) = rw (changed) refl

  not_set : (flag : Option Flag) (value : Option Bytes) → value ≡ none → set_flag flag value ≡ flag
  not_set none value e = refl
  not_set (some flag) value e = rw (e) refl

  pub fallback_rule :
      (order : List Bytes) (flags : FlagSet) (name : Bytes)
      → (visits name order ≡ false → environment_variable_by_flag name ≡ none)
      → apply_environment_fallback order flags name ≡ fallback name (flags name)
  fallback_rule order flags name all = elim (Bool-cases (visits name order)) [
    | inl seen ↦ visited order flags name ∙ rw (seen) refl
    | inr unseen ↦
        let same_flag =
          not_set (flags name) (variable_value (environment_variable_by_flag name))
            (rw (all unseen) refl) in
        visited order flags name ∙ rw (unseen) (sym same_flag)
  ]

  -- In whatever order Go visits the map, `applyEnvironmentFallback` gives the flag set of the
  -- documented rule: a flag of the map that the command line did not set takes the value of its
  -- environment variable, if that is set; a flag that the command line set keeps its value, and so
  -- does every flag that is not in the map.
  pub fallback_any_order :
      (order : List Bytes) (flags : FlagSet) (name : Bytes)
      → (visits name order ≡ false → environment_variable_by_flag name ≡ none)
      → (environment_variable_by_flag name ≡ none
          → apply_environment_fallback order flags name ≡ flags name)
        × ((flag : Flag)
            → flags name ≡ some flag
            → flag.changed ≡ true
            → apply_environment_fallback order flags name ≡ some flag)
        × ((flag : Flag) (variable value : Bytes)
            → flags name ≡ some flag
            → flag.changed ≡ false
            → environment_variable_by_flag name ≡ some variable
            → lookup_env variable ≡ some value
            → apply_environment_fallback order flags name ≡ some (record flag { value = value }))
  fallback_any_order order flags name all =
      let end = fallback_rule order flags name all in
      (
        λ e.
            end
            ∙ not_set (flags name) (variable_value (environment_variable_by_flag name))
                (rw (e) refl),
        λ flag e changed.
            end ∙ rw (e) (kept flag changed (variable_value (environment_variable_by_flag name))),
        λ flag variable value e changed v set. end ∙ rw (e, v, set, changed) refl,
      )
