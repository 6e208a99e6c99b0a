-- ===== src/Config/Casting.antt =====
-- A single override keeps the kind of each value.
use mpfc.Prelude.{
  ℕ, ◌≤◌, String, ◌≡◌, refl, sym, ap, ◌∙◌, ◌≢◌, ◌⊎◌, inl, inr, Bool, true, false, Option, none,
  some, arith, nat_equality, string_equality, pair_equality, ◌==◌, beq→eq, ne→beq, if◌then◌else◌,
  Bool-cases, Option-cases,
}
use mathlib.Core.Path.{subst}
use mpfc.Exec.{ErrorClass, error, Result, ok, err, ◌>>=◌, >>=-eq-ok, ok-injective, or_raise}
use mpfc.Json.{Value, Fields, null, bool, int, float, str, list, dict, get, put}
use mpfc.Json.Laws.{get-put}
use mpfc.Config.Apply.{
  Readers, Target, read_int, cast_override_value, set_mission, cast_core, override_name,
  override_mission, apply_override,
}

-- `type(v)` as a number, and 0 for a key that is not there.
abbrev pub kind : Option Value → ℕ
kind none = 0
kind (some null) = 1
kind (some (bool _)) = 2
kind (some (int _)) = 3
kind (some (float _)) = 4
kind (some (str _)) = 5
kind (some (list _)) = 6
kind (some (dict _)) = 7

-- A key stays, and its value keeps its type unless it was a list or a dictionary, which JSON replaces.
abbrev pub KeepsKind : Option Value → Option Value → Type 0
KeepsKind old new = ((6 ≤ kind old) × (1 ≤ kind new)) ⊎ (kind old ≡ kind new)

pub KeepsKind-trans : (a b c : Option Value) → KeepsKind a b → KeepsKind b c → KeepsKind a c
KeepsKind-trans a b c h k = kinds (kind a) (kind b) (kind c) h k
  where
    kinds :
        (i j k : ℕ)
        → ((6 ≤ i) × (1 ≤ j)) ⊎ (i ≡ j)
        → ((6 ≤ j) × (1 ≤ k)) ⊎ (j ≡ k)
        → ((6 ≤ i) × (1 ≤ k)) ⊎ (i ≡ k)
    kinds i j k (inl (p, q)) (inl (r, t)) = inl (p, t)
    kinds i j k (inl (p, q)) (inr e) = inl (p, omega arith)
    kinds i j k (inr e) (inl (r, t)) = inl (omega arith, t)
    kinds i j k (inr e) (inr f) = inr (e ∙ f)

kind_some : (v : Value) → 1 ≤ kind (some v)
kind_some null = omega arith
kind_some (bool b) = omega arith
kind_some (int n) = omega arith
kind_some (float x) = omega arith
kind_some (str s) = omega arith
kind_some (list xs) = omega arith
kind_some (dict d) = omega arith

module _ (R : Readers) (raw : String) where
  cast-KeepsKind :
      (existing value : Value)
      → cast_override_value R raw existing ≡ ok value
      → KeepsKind (some existing) (some value)
  unfolding cast_override_value
  cast-KeepsKind (bool b) value h = inr (ground (arith, h))
  cast-KeepsKind (int n) value h =
      let (m, _, e) = >>=-eq-ok (or_raise (read_int raw) _ _) _ h in
      inr (ap (λ v. kind (some v)) (ok-injective e))
  cast-KeepsKind (float x) value h =
      let (y, _, e) = >>=-eq-ok (R.read_float raw) _ h in
      inr (ap (λ v. kind (some v)) (ok-injective e))
  cast-KeepsKind (str s) value h = inr (ap (λ v. kind (some v)) (ok-injective h))
  cast-KeepsKind (list xs) value h = inl (omega arith, kind_some value)
  cast-KeepsKind (dict d) value h = inl (omega arith, kind_some value)
  cast-KeepsKind null value h = absurd (ground (arith, h))

  put-KeepsKind :
      (k key : String) (existing value : Value) (d : Fields)
      → get key d ≡ some existing
      → KeepsKind (some existing) (some value)
      → KeepsKind (get k d) (get k (put key value d))
  put-KeepsKind k key existing value d found h = elim (Bool-cases (key == k)) [
    | inl same ↦
        rw (get-put key k value d, same)
          (subst (λ (j : String). KeepsKind (get j d) (some value)) (beq→eq key k same)
            (rw found h))
    | inr other ↦ rw (get-put key k value d, other) (inr refl)
  ]

  cast_core-KeepsKind :
      (k key : String) (existing : Value) (c c' : Target)
      → get key c.core_cfg ≡ some existing
      → cast_core R key raw existing c ≡ ok c'
      → KeepsKind (get k c.core_cfg) (get k c'.core_cfg)
  cast_core-KeepsKind k key existing c c' found h =
      let (value, cast, e) = >>=-eq-ok (cast_override_value R raw existing) _ h in
      rw (sym (ap (λ (x : Target). x.core_cfg) (ok-injective e)))
        (put-KeepsKind k key existing value c.core_cfg found (cast-KeepsKind existing value cast))

  override_name-KeepsKind :
      (k : String) (c c' : Target)
      → override_name R raw c ≡ ok c'
      → KeepsKind (get k c.core_cfg) (get k c'.core_cfg)
  override_name-KeepsKind k c c' h =
      let (old, _, rest) = >>=-eq-ok (or_raise c.my_name _ _) _ h in
      let (name, _, done) = >>=-eq-ok (cast_override_value R raw old) _ rest in
      go (get "my_name" c.core_cfg) refl name done
    where
      go :
          (o : Option Value)
          → get "my_name" c.core_cfg ≡ o
          → (name : Value)
          → (elim o as (λ _. Result Target) [
            | none ↦ ok (record c { my_name = some name })
            | some existing ↦ cast_core R "my_name" raw existing (record c { my_name = some name })
          ])
            ≡ ok c'
          → KeepsKind (get k c.core_cfg) (get k c'.core_cfg)
      go none f name e = rw (sym (ap (λ (x : Target). x.core_cfg) (ok-injective e))) (inr refl)
      go (some existing) f name e =
          cast_core-KeepsKind k "my_name" existing (record c { my_name = some name }) c' f e

  put_mission-KeepsKind :
      (k : String) (held : Bool) (m d : Fields)
      → k ≢ "mission"
      → KeepsKind (get k d) (get k (if held then put "mission" (dict m) d else d))
  put_mission-KeepsKind k false m d other = inr refl
  put_mission-KeepsKind k true m d other =
      rw (get-put "mission" k (dict m) d, ne→beq "mission" k (λ e. other (sym e))) (inr refl)

  override_mission-KeepsKind :
      (k key : String) (mission : Option Fields) (c c' : Target)
      → k ≢ "mission"
      → override_mission R key raw mission c ≡ ok c'
      → KeepsKind (get k c.core_cfg) (get k c'.core_cfg)
  override_mission-KeepsKind k key none c c' other h = absurd (ground (arith, h))
  override_mission-KeepsKind k key (some m) c c' other h = go (get key m) h
    where
      go :
          (o : Option Value)
          → (elim o as (λ _. Result Target) [
            | none ↦ err (error ErrorClass.runtime_error "override key not found")
            | some existing ↦
                cast_override_value R raw existing >>= λ value. ok (set_mission key value m c)
          ])
            ≡ ok c'
          → KeepsKind (get k c.core_cfg) (get k c'.core_cfg)
      go none e = absurd (ground (arith, e))
      go (some existing) e =
          let (value, _, done) = >>=-eq-ok (cast_override_value R raw existing) _ e in
          rw (sym (ap (λ (x : Target). x.core_cfg) (ok-injective done)))
            (put_mission-KeepsKind k c.attached (put key value m) c.core_cfg other)

  pub apply_override-KeepsKind :
      (k key : String) (c c' : Target)
      → k ≢ "mission"
      → apply_override R key raw c ≡ ok c'
      → KeepsKind (get k c.core_cfg) (get k c'.core_cfg)
  unfolding apply_override
  apply_override-KeepsKind k key c c' other h = elim (Bool-cases (key == "my_name")) [
    | inl name ↦ override_name-KeepsKind k c c' (rw name at h)
    | inr setting ↦ elim (Option-cases (get key c.core_cfg)) [
      | inl missing ↦
          override_mission-KeepsKind k key c.mission c c' other
            (rw (missing, apply_override) at (rw setting at h))
      | inr (existing, found) ↦
          cast_core-KeepsKind k key existing c c' found
            (rw (found, apply_override) at (rw setting at h))
    ]
  ]
