-- ===== src/Config/Prepared.antt =====
-- What the templates and the resolved names leave of the plugins' configuration.
use mathlib.Core.Path.{subst}
use mpfc.Prelude.{
  suc, String, ◌≡◌, refl, sym, ap, ◌∙◌, false, Option, none, some, List, [], ◌∷◌, arith, eq_iff,
  nat_equality, string_equality, pair_equality, ◌==◌, beq_refl, if◌then◌else◌, length, All,
}
use mpfc.Exec.{Result, ok, or_raise, >>=-eq-ok, ok-injective}
use mpfc.Json.{Value, Fields, null, str, list, dict, end, field, get}
use mpfc.Json.Laws.{get-put}
use mpfc.Config.Merge.{Distinct, merged, get-deep_merge_dict}
use mpfc.Config.Names.{EnumType, VehicleEnums, resolve_enum_list}
use mpfc.Config.Templates.{
  as_name, without, apply_template, apply_plugin_config_templates, texts, resolve_names,
  resolve_supports, resolve_cfg, resolve_plugin_supports,
}
use mpfc.Config.Membership.{IsMember, resolve_enum_list-IsMember}

get-without :
    (k key : String) (d : Fields) → get k (without key d) ≡ (if k == key then none else get k d)
unfolding without get
get-without k key end = ground (arith)
get-without k key (field j v rest) =
    ground (arith, eq_iff j key, eq_iff j k, eq_iff k key, get-without k key rest)

-- What a merged entry holds: what the entry says over what the template says, whose notes are left out.
abbrev pub Inherits : (String → Result Fields) → Fields → Fields → Type 0
Inherits load_template entry result =
    (name : String) × (template : Fields) × (get "plugin" entry ≡ some (str name))
    × (load_template name ≡ ok template)
    × ((k : String)
        → get k result ≡ merged (if k == "_notes" then none else get k template) (get k entry))

abbrev pub AllInherit : (String → Result Fields) → List Fields → List Fields → Type 0
AllInherit load_template [] [] = Unit
AllInherit load_template (e ∷ es) (r ∷ rs) =
    Inherits load_template e r × AllInherit load_template es rs
AllInherit load_template _ _ = ⊥

as_name-eq : (o : Option Value) (name : String) → as_name o ≡ ok name → o ≡ some (str name)
as_name-eq none name h = absurd (ground (arith, h))
as_name-eq (some (str s)) name h = ap (λ t. some (str t)) (ok-injective h)
as_name-eq (some null) name h = absurd (ground (arith, h))
as_name-eq (some (Value.bool _)) name h = absurd (ground (arith, h))
as_name-eq (some (Value.int _)) name h = absurd (ground (arith, h))
as_name-eq (some (Value.float _)) name h = absurd (ground (arith, h))
as_name-eq (some (list _)) name h = absurd (ground (arith, h))
as_name-eq (some (dict _)) name h = absurd (ground (arith, h))

apply_template-Inherits :
    (load_template : String → Result Fields) (entry result : Fields)
    → Distinct entry
    → apply_template load_template entry ≡ ok result
    → Inherits load_template entry result
unfolding apply_template
apply_template-Inherits load_template entry result distinct h =
    let (name, named, rest) = >>=-eq-ok (as_name (get "plugin" entry)) _ h in
    let (template, loaded, done) = >>=-eq-ok (load_template name) _ rest in
    (
      name,
      template,
      as_name-eq (get "plugin" entry) name named,
      loaded,
      λ k.
          ap (get k) (sym (ok-injective done))
          ∙ get-deep_merge_dict k (without "_notes" template) entry distinct
          ∙ ap (λ o. merged o (get k entry)) (get-without k "_notes" template),
    )

-- Where no entry holds a key twice, each plugin's configuration holds behind its template what the entry says,
-- merged over what the template says, and nothing of the template's notes; the plugins keep their order.
pub apply_plugin_config_templates-AllInherit :
    (load_template : String → Result Fields) (entries results : List Fields)
    → All Distinct entries
    → apply_plugin_config_templates load_template entries ≡ ok results
    → AllInherit load_template entries results
unfolding apply_plugin_config_templates
apply_plugin_config_templates-AllInherit load_template [] results distinct h =
    subst (AllInherit load_template []) (ok-injective h) tt
apply_plugin_config_templates-AllInherit load_template (e ∷ es) results distinct h =
    let (r, first, rest) = >>=-eq-ok (apply_template load_template e) _ h in
    let (rs, others, done) = >>=-eq-ok (apply_plugin_config_templates load_template es) _ rest in
    subst (AllInherit load_template (e ∷ es)) (ok-injective done) (
      apply_template-Inherits load_template e r distinct.0 first,
      apply_plugin_config_templates-AllInherit load_template es rs distinct.1 others,
    )

-- A key holds a list of members' names.
abbrev pub HoldsNames : String → EnumType → Fields → Type 0
HoldsNames key e d =
    (names : List String) × (get key d ≡ some (list (texts names))) × All (IsMember e) names

resolve_names-HoldsNames :
    (key : String) (e : EnumType) (d d' : Fields)
    → resolve_names key e d ≡ ok d'
    → HoldsNames key e d' × ((k : String) → (key == k) ≡ false → get k d' ≡ get k d)
resolve_names-HoldsNames key e d d' h =
    let (raw, _, rest) = >>=-eq-ok (or_raise (get key d) _ _) _ h in
    let (names, resolved, done) = >>=-eq-ok (resolve_enum_list raw e) _ rest in
    let made : (k : String) → get k d' ≡ (if key == k then some (list (texts names)) else get k d) =
      λ k. ap (get k) (sym (ok-injective done)) ∙ get-put key k (list (texts names)) d in
    (
      (names, made key ∙ rw (beq_refl key) refl, resolve_enum_list-IsMember raw e names resolved),
      λ k other. made k ∙ rw other refl,
    )

-- What a plugin supports is not said, or it is said by the names of members.
abbrev pub IsResolved : VehicleEnums → Option Value → Type 0
IsResolved enums none = Unit
IsResolved enums (some null) = Unit
IsResolved enums (some (dict d)) =
    HoldsNames "autopilot" enums.autopilot d × HoldsNames "telem_type" enums.telemetry d
IsResolved enums (some _) = ⊥

resolve_supports-IsResolved :
    (enums : VehicleEnums) (d d' : Fields)
    → resolve_supports enums d ≡ ok d'
    → IsResolved enums (some (dict d'))
unfolding resolve_supports
resolve_supports-IsResolved enums d d' h =
    let (b, first, second) = >>=-eq-ok (resolve_names "autopilot" enums.autopilot d) _ h in
    let ((names, held, members), _) =
      resolve_names-HoldsNames "autopilot" enums.autopilot d b first in
    let (telem, kept) = resolve_names-HoldsNames "telem_type" enums.telemetry b d' second in
    ((names, kept "autopilot" refl ∙ held, members), telem)

resolve_cfg-IsResolved :
    (enums : VehicleEnums) (o : Option Value) (cfg cfg' : Fields)
    → get "supports" cfg ≡ o
    → resolve_cfg enums o cfg ≡ ok cfg'
    → IsResolved enums (get "supports" cfg')
resolve_cfg-IsResolved enums none cfg cfg' f h =
    subst (λ x. IsResolved enums (get "supports" x)) (ok-injective h)
      (subst (IsResolved enums) (sym f) tt)
resolve_cfg-IsResolved enums (some null) cfg cfg' f h =
    subst (λ x. IsResolved enums (get "supports" x)) (ok-injective h)
      (subst (IsResolved enums) (sym f) tt)
resolve_cfg-IsResolved enums (some (dict d)) cfg cfg' f h =
    let (d', resolved, done) = >>=-eq-ok (resolve_supports enums d) _ h in
    subst (λ x. IsResolved enums (get "supports" x)) (ok-injective done)
      (subst (IsResolved enums) (sym (get-put "supports" "supports" (dict d') cfg))
        (resolve_supports-IsResolved enums d d' resolved))
resolve_cfg-IsResolved enums (some (Value.bool _)) cfg cfg' f h = absurd (ground (arith, h))
resolve_cfg-IsResolved enums (some (Value.int _)) cfg cfg' f h = absurd (ground (arith, h))
resolve_cfg-IsResolved enums (some (Value.float _)) cfg cfg' f h = absurd (ground (arith, h))
resolve_cfg-IsResolved enums (some (str _)) cfg cfg' f h = absurd (ground (arith, h))
resolve_cfg-IsResolved enums (some (list _)) cfg cfg' f h = absurd (ground (arith, h))

-- Behind the resolution every plugin either says nothing of what it supports, or supports autopilots and
-- telemetry types by names that the enumerations have.
pub resolve_plugin_supports-IsResolved :
    (enums : VehicleEnums) (cfgs results : List Fields)
    → resolve_plugin_supports enums cfgs ≡ ok results
    → (length results ≡ length cfgs) × All (λ cfg. IsResolved enums (get "supports" cfg)) results
unfolding resolve_plugin_supports
resolve_plugin_supports-IsResolved enums [] results h =
    let e = ok-injective h in
    (
      sym (ap (λ (r : List Fields). length r) e),
      subst (All (λ cfg. IsResolved enums (get "supports" cfg))) e tt,
    )
resolve_plugin_supports-IsResolved enums (cfg ∷ rest) results h =
    let (r, first, others) = >>=-eq-ok (resolve_cfg enums (get "supports" cfg) cfg) _ h in
    let (rs, behind, done) = >>=-eq-ok (resolve_plugin_supports enums rest) _ others in
    let (same, resolved) = resolve_plugin_supports-IsResolved enums rest rs behind in
    let e = ok-injective done in
    (
      sym (ap (λ (r : List Fields). length r) e) ∙ ap suc same,
      subst (All (λ cfg. IsResolved enums (get "supports" cfg))) e
          (resolve_cfg-IsResolved enums (get "supports" cfg) cfg r refl first, resolved),
    )
