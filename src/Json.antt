-- ===== src/Json.antt =====
-- The values of YAML and JSON: configuration trees, bus payloads and the envelopes of lib/common.py.
-- A float is kept as the text that Python prints for it.
pub mod Laws
use mpfc.Prelude.{
  ℕ, zero, suc, ◌+◌, ◌-◌, ◌*◌, ◌/◌, ◌%◌, ◌≤◌, ◌<◌, min, max, String, ◌≡◌, refl, sym, ap, ◌∙◌, ◌≢◌,
  ◌↔◌, ◌⊎◌, inl, inr, Bool, true, false, not, ◌&&◌, ◌||◌, Option, none, some, List, [], ◌∷◌, ◌++◌,
  map, arith, eq_iff, Equality, nat_equality, string_equality, pair_equality, ◌==◌, beq_refl,
  beq-sym, beq→eq, ne→beq, ltb, leb, if◌then◌else◌, is_some, ltb→lt, lt→ltb, ge→ltb, ltb→ge,
  Bool-cases, Option-cases, length, length-append, any, all, keep, All, All-append,
}
use mpfc.Prelude.Int.{ℤ, pos}
use mpfc.Exec.{
  ErrorClass, Error, error, is_data_error, is_exception, Result, ok, err, ◌>>=◌, ◌>>◌, raise,
  raise_if, or_raise,
}
use Prim.Native.Char.{Char, code}

mutual
  pub data Value : Type 0 where
    null : Value
    bool : Bool → Value
    int : ℤ → Value
    float : String → Value
    str : String → Value
    list : Items → Value
    dict : Fields → Value

  pub data Items : Type 0 where
    nil : Items
    cons : Value → Items → Items

  pub data Fields : Type 0 where
    end : Fields
    field : String → Value → Fields → Fields

-- `d.get(k)`
unfoldable pub get : String → Fields → Option Value
get k end = none
get k (field j v d) = if j == k then some v else get k d

-- `d[k] = v`
unfoldable pub put : String → Value → Fields → Fields
put k v end = field k v end
put k v (field j w d) = if j == k then field j v d else field j w (put k v d)

-- `v[k]` on any value
unfoldable pub get_item : String → Value → Result Value
unfolding get
get_item k (dict d) = or_raise (get k d) ErrorClass.key_error k
get_item k (str s) = raise ErrorClass.type_error "string indices must be integers"
get_item k (list xs) = raise ErrorClass.type_error "list indices must be integers"
get_item k _ = raise ErrorClass.type_error "object is not subscriptable"

-- `build_envelope`; the argument `now` is `int(time.time() * 1000)`.
unfoldable pub build_envelope : String → String → ℕ → Value → Value
build_envelope client_id topic now payload = dict (
    field "client" (str client_id)
      (field "topic" (str topic) (field "time" (int (pos now)) (field "data" payload end))))

-- The text behind the last dot, if there is a dot.
after_dot : String → Option String
after_dot String.[] = none
after_dot (String.◌∷◌ c rest) = elim (after_dot rest) [
  | some found ↦ some found
  | none ↦ if code c == b'.' then some rest else none
]

-- `key.rsplit(".", 1)[-1]`
unfoldable pub last_part : String → String
unfolding after_dot
last_part key = elim (after_dot key) [ none ↦ key | some rest ↦ rest ]

-- A value that is no dictionary is published as a dictionary of one field, named for the key.
unfoldable pub as_payload : String → Value → Value
unfolding last_part
as_payload key (dict d) = dict d
as_payload key value = dict (field (last_part key) value end)
