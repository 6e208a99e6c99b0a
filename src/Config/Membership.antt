-- ===== src/Config/Membership.antt =====
-- The names that resolve_enum_value and resolve_enum_list give.
use mathlib.Core.Path.{subst}
use mpfc.Prelude.{
  String, ◌≡◌, inl, inr, true, List, arith, nat_equality, string_equality, pair_equality, ◌==◌,
  Bool-cases, Option-cases, any, All,
}
use mpfc.Exec.{ok, >>=-eq-ok, ok-injective}
use mpfc.Json.{Value, Items, null, str, list, dict, nil, cons}
use mpfc.Config.Names.{
  EnumType, known_member, rsplit_dot, lstrip, rstrip, resolve_enum_value, resolve_items,
  resolve_enum_list,
}

abbrev pub IsMember : EnumType → String → Type 0
IsMember e token = any (λ m. m == token) e.members ≡ true

known_member-IsMember :
    (e : EnumType) (token found : String) → known_member token e ≡ ok found → IsMember e found
known_member-IsMember e token found h = elim (Bool-cases (any (λ m. m == token) e.members)) [
  | inl known ↦ subst (IsMember e) (ok-injective (rw known at h)) known
  | inr unknown ↦ absurd (ground (arith, rw unknown at h))
]

resolve_enum_value-IsMember :
    (v : Value) (e : EnumType) (found : String)
    → resolve_enum_value v e ≡ ok found
    → IsMember e found
unfolding resolve_enum_value
resolve_enum_value-IsMember (str raw) e found h =
    elim (Option-cases (rsplit_dot (rstrip (lstrip raw)))) [
      | inl plain ↦ known_member-IsMember e _ found (rw (plain, resolve_enum_value) at h)
      | inr ((enum_name, token), dotted) ↦ elim (Bool-cases (enum_name == e.name)) [
        | inl own ↦
            known_member-IsMember e token found (rw own at (rw (dotted, resolve_enum_value) at h))
        | inr other ↦ absurd (ground (arith, rw other at (rw (dotted, resolve_enum_value) at h)))
      ]
    ]
resolve_enum_value-IsMember null e found h = absurd (ground (arith, h))
resolve_enum_value-IsMember (Value.bool _) e found h = absurd (ground (arith, h))
resolve_enum_value-IsMember (Value.int _) e found h = absurd (ground (arith, h))
resolve_enum_value-IsMember (Value.float _) e found h = absurd (ground (arith, h))
resolve_enum_value-IsMember (list _) e found h = absurd (ground (arith, h))
resolve_enum_value-IsMember (dict _) e found h = absurd (ground (arith, h))

resolve_items-IsMember :
    (vs : Items) (e : EnumType) (names : List String)
    → resolve_items vs e ≡ ok names
    → All (IsMember e) names
unfolding resolve_items
resolve_items-IsMember nil e names h = subst (All (IsMember e)) (ok-injective h) tt
resolve_items-IsMember (cons v vs) e names h =
    let (token, first, rest) = >>=-eq-ok (resolve_enum_value v e) _ h in
    let (tokens, others, done) = >>=-eq-ok (resolve_items vs e) _ rest in
    subst (All (IsMember e)) (ok-injective done)
      (resolve_enum_value-IsMember v e token first, resolve_items-IsMember vs e tokens others)

pub resolve_enum_list-IsMember :
    (v : Value) (e : EnumType) (names : List String)
    → resolve_enum_list v e ≡ ok names
    → All (IsMember e) names
unfolding resolve_enum_list
resolve_enum_list-IsMember (list vs) e names h = resolve_items-IsMember vs e names h
resolve_enum_list-IsMember null e names h = absurd (ground (arith, h))
resolve_enum_list-IsMember (Value.bool _) e names h = absurd (ground (arith, h))
resolve_enum_list-IsMember (Value.int _) e names h = absurd (ground (arith, h))
resolve_enum_list-IsMember (Value.float _) e names h = absurd (ground (arith, h))
resolve_enum_list-IsMember (str _) e names h = absurd (ground (arith, h))
resolve_enum_list-IsMember (dict _) e names h = absurd (ground (arith, h))
