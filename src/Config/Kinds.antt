-- ===== src/Config/Kinds.antt =====
-- What overrides do to the core's configuration: settings keep their types, and an override of the whole
-- mission hides what is written into the mission behind it.
use mpfc.Prelude.{
  String, ◌≡◌, refl, sym, ap, ◌∙◌, ◌≢◌, inr, Bool, false, ◌&&◌, none, some, [], ◌∷◌, arith,
  nat_equality, string_equality, pair_equality, ◌==◌, ne→beq, if◌then◌else◌,
}
use mpfc.Dict.{Dict}
use mpfc.Exec.{ok, ◌>>=◌, >>=-eq-ok, ok-injective}
use mpfc.Json.{Value, Fields, dict, get, put}
use mpfc.Json.Laws.{get-put}
use mpfc.Config.Apply.{
  Readers, Target, cast_override_value, set_core, set_mission, override_mission, apply_override,
  apply_overrides,
}
use mpfc.Config.Casting.{kind, KeepsKind, KeepsKind-trans, apply_override-KeepsKind}

-- Whatever the command line overrides, every setting of the core beside the mission stays: none is added or
-- removed, and a Boolean, a number or a text keeps its type.
pub apply_overrides-KeepsKind :
    (R : Readers) (overrides : Dict String String) (c c' : Target) (k : String)
    → k ≢ "mission"
    → apply_overrides R overrides c ≡ ok c'
    → KeepsKind (get k c.core_cfg) (get k c'.core_cfg)
unfolding apply_overrides
apply_overrides-KeepsKind R [] c c' k other h =
    inr (ap (λ (x : Target). kind (get k x.core_cfg)) (ok-injective h))
apply_overrides-KeepsKind R ((key, raw) ∷ rest) c c' k other h =
    let (b, first, then_rest) = >>=-eq-ok (apply_override R key raw c) _ h in
    KeepsKind-trans (get k c.core_cfg) (get k b.core_cfg) (get k c'.core_cfg)
      (apply_override-KeepsKind R raw k key c b other first)
      (apply_overrides-KeepsKind R rest b c' k other then_rest)

apply_override-core :
    (R : Readers) (key raw : String) (c : Target) (existing value : Value)
    → (key == "my_name") ≡ false
    → get key c.core_cfg ≡ some existing
    → cast_override_value R raw existing ≡ ok value
    → apply_override R key raw c ≡ ok (set_core key value c)
unfolding apply_override
apply_override-core R key raw c existing value setting found cast =
    rw setting (rw (found, apply_override) (rw cast refl))

apply_override-mission :
    (R : Readers) (key raw : String) (c : Target) (m : Fields) (existing value : Value)
    → (key == "my_name") ≡ false
    → get key c.core_cfg ≡ none
    → c.mission ≡ some m
    → get key m ≡ some existing
    → cast_override_value R raw existing ≡ ok value
    → apply_override R key raw c ≡ ok (set_mission key value m c)
unfolding apply_override
apply_override-mission R key raw c m existing value setting absent kept there cast = rw setting (
    rw (absent, apply_override)
      (ap (λ o. override_mission R key raw o c) kept ∙ rw (there, override_mission) (rw cast refl)))

unattached : (b : Bool) → (b && false) ≡ false
unattached b = ground arith

-- An override of the whole mission, and then one of a key that only the old mission has: both are taken,
-- and the configuration holds nothing of the second.
pub apply_overrides_lost :
    (R : Readers) (json raw key : String) (c : Target) (m : Fields) (loaded existing value : Value)
    → get "mission" c.core_cfg ≡ some (dict m)
    → c.mission ≡ some m
    → key ≢ "my_name"
    → key ≢ "mission"
    → get key c.core_cfg ≡ none
    → get key m ≡ some existing
    → R.loads json ≡ ok loaded
    → cast_override_value R raw existing ≡ ok value
    → (c' : Target) × (apply_overrides R (("mission", json) ∷ (key, raw) ∷ []) c ≡ ok c')
      × (c'.core_cfg ≡ put "mission" loaded c.core_cfg)
unfolding apply_overrides cast_override_value
apply_overrides_lost R json raw key c m loaded existing value held kept not_name not_mission absent
      there read cast =
    let b : Target = set_core "mission" loaded c in
    let c' : Target = set_mission key value m b in
    let first : apply_override R "mission" json c ≡ ok b =
      apply_override-core R "mission" json c (dict m) loaded refl held read in
    let unseen : get key b.core_cfg ≡ none =
      get-put "mission" key loaded c.core_cfg
      ∙ rw (ne→beq "mission" key (λ e. not_mission (sym e))) absent in
    let second : apply_override R key raw b ≡ ok c' =
      apply_override-mission R key raw b m existing value (ne→beq key "my_name" not_name) unseen
        kept there cast in
    (
      c',
      ap (λ r. r >>= apply_overrides R ((key, raw) ∷ [])) first
          ∙ ap (λ r. r >>= apply_overrides R []) second,
      ap (λ held. if held then put "mission" (dict (put key value m)) b.core_cfg else b.core_cfg)
          (unattached c.attached),
    )
