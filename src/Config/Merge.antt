-- ===== src/Config/Merge.antt =====
-- main.py: `deep_merge_dict`, by which the entry of a plugin overrides the plugin's template.
use mathlib.Core.Path.{subst}
use mpfc.Prelude.{
  String, ◌≡◌, refl, ◌∙◌, inl, inr, Option, none, some, nat_equality, string_equality,
  pair_equality, ◌==◌, beq→eq, Bool-cases,
}
use mpfc.Json.{Value, Fields, dict, end, field, get, put}
use mpfc.Json.Laws.{get-put}

unfoldable mutual
  -- `deep_merge_dict(base, override)`
  pub deep_merge_dict : Fields → Fields → Fields
  deep_merge_dict base end = base
  deep_merge_dict base (field k v rest) =
      deep_merge_dict (put k (merge_value (get k base) v) base) rest

  -- What a key holds behind the merge: two dictionaries merge, and else the override wins.
  pub merge_value : Option Value → Value → Value
  merge_value (some (dict d)) (dict o) = dict (deep_merge_dict d o)
  merge_value _ v = v

-- No key stands twice.
abbrev pub Distinct : Fields → Type 0
Distinct end = Unit
Distinct (field k v rest) = (get k rest ≡ none) × Distinct rest

-- What a key holds in the merge: the value of the base, unless the override has one.
abbrev pub merged : Option Value → Option Value → Option Value
merged old none = old
merged old (some v) = some (merge_value old v)

-- Every key holds in the merge what the two dictionaries say about it: the base's value where the
-- override has none, the merge of the two where both are dictionaries, and else the override's value.
pub get-deep_merge_dict :
    (k : String) (base override : Fields)
    → Distinct override
    → get k (deep_merge_dict base override) ≡ merged (get k base) (get k override)
unfolding deep_merge_dict get
get-deep_merge_dict k base end h = refl
get-deep_merge_dict k base (field j v rest) (new, h) =
    get-deep_merge_dict k (put j (merge_value (get j base) v) base) rest h
    ∙ elim (Bool-cases (j == k)) [
      | inl same ↦
          rw (get-put j k (merge_value (get j base) v) base, same)
            (subst
              (λ i.
                merged (some (merge_value (get j base) v)) (get i rest)
                ≡ some (merge_value (get i base) v))
              (beq→eq j k same) (rw new refl))
      | inr other ↦ rw (get-put j k (merge_value (get j base) v) base, other) refl
    ]
