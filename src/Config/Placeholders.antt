-- ===== src/Config/Placeholders.antt =====
-- main.py: `collect_named_scalars` and `resolve_placeholders`, which put the configuration's own settings
-- in place of `<name>` in its texts.
use Prim.Native.Char.{Char, code}
use mpfc.Prelude.{
  ℕ, zero, suc, ◌-◌, String, Bool, true, false, not, ◌&&◌, ◌||◌, Option, none, some, List, [], ◌∷◌,
  ◌++◌, nat_equality, string_equality, pair_equality, ◌==◌, leb, if◌then◌else◌, is_some, all,
}
use mpfc.Dict.{Dict, contains, insert}
use mpfc.Exec.{ErrorClass, Result, ok, ◌>>=◌, raise}
use mpfc.Prelude.Int.{ℤ, pos, negsuc}
use mpfc.Json.{Value, Items, Fields, null, bool, int, float, str, list, dict, nil, cons, end, field}
use mpfc.Text.{◌<>◌, decimal}
use mpfc.Mqtt.Prefix.{strip_prefix}

-- `str(n)`
abbrev show_int : ℤ → String
show_int (pos n) = decimal n
show_int (negsuc n) = "-" <> decimal (suc n)

abbrev show_bool : Bool → String
show_bool true = "True"
show_bool false = "False"

unfoldable mutual
  -- `collect_named_scalars`
  pub collect_named_scalars : Value → Dict String String → Dict String String
  collect_named_scalars (dict d) out = collect_fields d out
  collect_named_scalars (list xs) out = collect_items xs out
  collect_named_scalars _ out = out

  pub collect_fields : Fields → Dict String String → Dict String String
  collect_fields end out = out
  collect_fields (field k (str s) rest) out = collect_fields rest (insert k s out)
  collect_fields (field k (int n) rest) out = collect_fields rest (insert k (show_int n) out)
  collect_fields (field k (float x) rest) out = collect_fields rest (insert k x out)
  collect_fields (field k (bool b) rest) out = collect_fields rest (insert k (show_bool b) out)
  collect_fields (field k null rest) out = collect_fields rest out
  collect_fields (field k (list xs) rest) out = collect_fields rest (collect_items xs out)
  collect_fields (field k (dict d) rest) out = collect_fields rest (collect_fields d out)

  pub collect_items : Items → Dict String String → Dict String String
  collect_items nil out = out
  collect_items (cons v vs) out = collect_items vs (collect_named_scalars v out)

abbrev is_word_char : Char → Bool
is_word_char c =
    (leb b'A' (code c) && leb (code c) b'Z')
    || (leb b'a' (code c) && leb (code c) b'z')
    || (leb b'0' (code c) && leb (code c) b'9')
    || code c == b'_'

abbrev begin_name : Char → Option String
begin_name c = if code c == b'<' then some "" else none

-- The name behind the last `<`, as far as it is read, after one more character.
abbrev read_name : Char → Option String → Option String
read_name c none = begin_name c
read_name c (some name) = if is_word_char c then some (name <> String.◌∷◌ c "") else begin_name c

-- The name that a character closes.
abbrev closed_name : Char → Option String → List String
closed_name c none = []
closed_name c (some name) = if code c == b'>' && not (name == "") then name ∷ [] else []

names_from : Option String → String → List String
names_from name String.[] = []
names_from name (String.◌∷◌ c s) = closed_name c name ++ names_from (read_name c name) s

-- `PLACEHOLDER_RE.findall(text)`
unfoldable pub placeholders : String → List String
unfolding names_from
placeholders text = names_from none text

abbrev pub len : String → ℕ
len String.[] = 0
len (String.◌∷◌ c s) = suc (len s)

-- `text.replace(old, new)` for an `old` that is not empty; the characters that still belong to a match are
-- counted.
unfoldable pub replace_from : String → String → ℕ → String → String
replace_from old new skip String.[] = ""
replace_from old new (suc skip) (String.◌∷◌ c s) = replace_from old new skip s
replace_from old new zero (String.◌∷◌ c s) =
    let matched = new <> replace_from old new (len old - 1) s in
    let kept = String.◌∷◌ c (replace_from old new 0 s) in
    if is_some (strip_prefix old (String.◌∷◌ c s)) then matched else kept

-- The loop over the values.
unfoldable pub replace_all : Dict String String → String → String
unfolding replace_from
replace_all [] text = text
replace_all ((key, value) ∷ rest) text =
    replace_all rest (replace_from (String.◌∷◌ "<" (key <> ">")) value 0 text)

abbrev pub all_known : Dict String String → String → Bool
all_known values text = all (λ name. contains name values) (placeholders text)

-- `resolve_placeholders` on a text
unfoldable pub resolve_text : Dict String String → String → Result String
unfolding placeholders replace_all
resolve_text values text =
    if all_known values text
    then ok (replace_all values text)
    else raise ErrorClass.runtime_error "unknown placeholder(s)"

unfoldable mutual
  unfolding resolve_text

  -- `resolve_placeholders`
  pub resolve_placeholders : Dict String String → Value → Result Value
  resolve_placeholders values (dict d) = resolve_fields values d >>= λ resolved. ok (dict resolved)
  resolve_placeholders values (list xs) = resolve_items values xs >>= λ resolved. ok (list resolved)
  resolve_placeholders values (str text) =
      resolve_text values text >>= λ resolved. ok (str resolved)
  resolve_placeholders values node = ok node

  pub resolve_fields : Dict String String → Fields → Result Fields
  resolve_fields values end = ok end
  resolve_fields values (field k v rest) = resolve_placeholders values v >>= λ w.
      resolve_fields values rest >>= λ resolved. ok (field k w resolved)

  pub resolve_items : Dict String String → Items → Result Items
  resolve_items values nil = ok nil
  resolve_items values (cons v vs) = resolve_placeholders values v >>= λ w.
      resolve_items values vs >>= λ resolved. ok (cons w resolved)
