-- ===== src/Config/Override.antt =====
-- main.py: `parse_runtime_overrides`, the command line as a dictionary of texts, and
-- `resolve_enum_value`, the names of OCCID enumerations in the configuration.
use Prim.Native.Char.{code}
use text.Mathlib.TextLemmas.{nil-append, cons-append}
use mpfc.Prelude.{
  String, ◌≡◌, refl, ◌≢◌, Bool, false, ◌||◌, Option, none, some, List, [], ◌∷◌, map, arith,
  nat_equality, string_equality, pair_equality, ◌==◌, ne→beq, if◌then◌else◌, All,
}
use mpfc.Dict.{Dict, insert}
use mpfc.Exec.{ErrorClass, Result, ok, ◌>>=◌, ◌>>◌, raise_if, or_raise}
use mpfc.Text.{◌<>◌}
use mpfc.Mqtt.Prefix.{strip_prefix, strip_prefix-append}

-- `raw.split("=", 1)`, where there is an equals sign.
unfoldable pub split_once : String → Option (String × String)
split_once String.[] = none
split_once (String.◌∷◌ c s) =
    let rest = split_once s in
    if code c == b'='
    then some ("", s)
    else (elim rest [ none ↦ none | some (k, v) ↦ some (String.◌∷◌ c k, v) ])

unfoldable pub parse_argument : String → Result (String × String)
unfolding split_once
parse_argument arg = do
  raw ←
      or_raise (strip_prefix "--" arg) ErrorClass.runtime_error
        "invalid argument: expected --key=value"
  pair ← or_raise (split_once raw) ErrorClass.runtime_error "invalid argument: expected --key=value"
  raise_if (pair.0 == "") ErrorClass.runtime_error "invalid argument: empty override key"
  ok pair

-- The loop of `parse_runtime_overrides`.
unfoldable pub parse_arguments : List String → Dict String String → Result (Dict String String)
unfolding parse_argument
parse_arguments [] overrides = ok overrides
parse_arguments (arg ∷ rest) overrides = do
  pair ← parse_argument arg
  parse_arguments rest (insert pair.0 pair.1 overrides)

-- `parse_runtime_overrides`
unfoldable pub parse_runtime_overrides : List String → Result (Dict String String)
unfolding parse_arguments
parse_runtime_overrides argv = parse_arguments argv []

-- The argument that sets a key.
abbrev pub argument : String × String → String
argument (k, v) = "--" <> (k <> ("=" <> v))

unfoldable pub has_equals : String → Bool
has_equals String.[] = false
has_equals (String.◌∷◌ c s) = code c == b'=' || has_equals s

abbrev pub IsKey : String → Type 0
IsKey k = (k ≢ "") × (has_equals k ≡ false)

equals : (v : String) → split_once ("=" <> v) ≡ some ("", v)
unfolding split_once
equals v = rw (cons-append "=" "" v, nil-append v) refl

split_once-append :
    (k v : String) → has_equals k ≡ false → split_once (k <> ("=" <> v)) ≡ some (k, v)
unfolding split_once has_equals
split_once-append String.[] v h = rw (nil-append ("=" <> v)) (equals v)
split_once-append (String.◌∷◌ c k) v h =
    rw (cons-append c k ("=" <> v)) (ground (arith, h, split_once-append k v))

parse_argument-argument : (k v : String) → IsKey k → parse_argument (argument (k, v)) ≡ ok (k, v)
unfolding parse_argument
parse_argument-argument k v (some_key, plain) =
    rw
      (
        strip_prefix-append "--" (k <> ("=" <> v)),
        split_once-append k v plain,
        ne→beq k "" some_key,
      )
      refl

-- What a dictionary of overrides sets, one after another.
abbrev pub set_all : List (String × String) → Dict String String → Dict String String
set_all [] d = d
set_all ((k, v) ∷ rest) d = set_all rest (insert k v d)

-- The command line sets exactly what its arguments say, a later one over an earlier one: keys without
-- an equals sign come back with their values, whatever stands in the values.
pub parse_runtime_overrides-argument :
    (settings : List (String × String))
    → All (λ x. IsKey x.0) settings
    → parse_runtime_overrides (map argument settings) ≡ ok (set_all settings [])
unfolding parse_runtime_overrides
parse_runtime_overrides-argument settings h = go settings [] h
  where
    go :
        (settings : List (String × String)) (d : Dict String String)
        → All (λ x. IsKey x.0) settings
        → parse_arguments (map argument settings) d ≡ ok (set_all settings d)
    go [] d h = refl
    go ((k, v) ∷ rest) d (key, h) = rw (parse_argument-argument k v key) (go rest (insert k v d) h)
