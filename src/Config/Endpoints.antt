-- ===== src/Config/Endpoints.antt =====
-- What each step of `configure_controller` gives where it raises nothing.

use mpfc.Prelude.{
  String, ◌≡◌, refl, ap, ◌∙◌, ◌⊎◌, inl, inr, Option, none, some, List, [], ◌∷◌, arith, nat_equality,
  string_equality, pair_equality, Option-cases, Bool-cases, any, keep,
}
use mpfc.Exec.{ErrorClass, or_raise, >>=-eq-ok, ok, ok-injective}
use mpfc.Config.Choosing.{endpoint_eq→eq}
use mpfc.Config.Backend.{
  Vehicle, Endpoint, Plugin, Config, endpoint_of, endpoint_eq, find_backend, is_backend, default,
  choose_interface, the_one,
}

the_one-eq : (ps : List Plugin) (p : Plugin) → the_one ps ≡ ok p → ps ≡ p ∷ []
the_one-eq [] p h = absurd (ground (arith, h))
the_one-eq (q ∷ []) p h = ap (λ x. x ∷ []) (ok-injective h)
the_one-eq (q ∷ r ∷ ps) p h = absurd (ground (arith, h))

-- Where the core's interface is taken.
pub record Chooses (expected : Endpoint) (c c' : Config) : Type 0 where
  pub plugins : c'.plugins ≡ c.plugins
  pub interface : c'.interface ≡ some expected
  pub given : (c.interface ≡ none) ⊎ (c.interface ≡ some expected)
  pub vehicle : c'.vehicle ≡ c.vehicle

pub choose_interface-Chooses :
    (expected : Endpoint) (c c' : Config)
    → choose_interface expected c ≡ ok c'
    → Chooses expected c c'
unfolding choose_interface
choose_interface-Chooses expected c c' h = elim (Option-cases c.interface) [
  | inl unset ↦ record {
    plugins = ground (arith, h, unset);
    interface = ground (arith, h, unset);
    given = inl unset;
    vehicle = ground (arith, h, unset);
  }
  | inr (actual, set) ↦ elim (Bool-cases (endpoint_eq actual expected)) [
    | inl same ↦ record {
      plugins = ground (arith, h, set, same);
      interface = ground (arith, h, set, same);
      given = inr (set ∙ ap some (endpoint_eq→eq actual expected same));
      vehicle = ground (arith, h, set, same);
    }
    | inr other ↦ absurd (ground (arith, h, set, other))
  ]
]

pub find_backend-eq :
    (controller : Plugin) (v : Vehicle) (ps : List Plugin) (backend : Plugin)
    → find_backend controller v ps ≡ ok backend
    → (ns : String) × (controller.topic_ns ≡ some ns) × (keep (is_backend ns v) ps ≡ backend ∷ [])
unfolding find_backend
find_backend-eq controller v ps backend h = elim (Option-cases controller.topic_ns) [
  | inl missing ↦ elim (Bool-cases (any (λ p. p.is_interface) ps)) [
    | inl compared ↦ absurd (ground (arith, h, missing, compared))
    | inr alone ↦ absurd (ground (arith, h, missing, alone))
  ]
  | inr (ns, at) ↦
      (ns, at, the_one-eq (keep (is_backend ns v) ps) backend (rw (at, find_backend) at h))
]

pub or_raise-eq :
    {A : Type 0}
    → (o : Option A) (key : String) (value : A) → or_raise o ErrorClass.key_error key ≡ ok value
    → o ≡ some value
or_raise-eq none key value h = absurd (ground (arith, h))
or_raise-eq (some a) key value h = ap some (ok-injective h)

pub endpoint_of-eq :
    (p : Plugin) (e : Endpoint)
    → endpoint_of p ≡ ok e
    → (p.id ≡ some e.id) × (p.topic_ns ≡ some e.topic_ns)
unfolding endpoint_of
endpoint_of-eq p e h =
    let (id, named, h') = >>=-eq-ok (or_raise p.id ErrorClass.key_error "id") _ h in
    let (ns, at, same) = >>=-eq-ok (or_raise p.topic_ns ErrorClass.key_error "topic_ns") _ h' in
    (
      or_raise-eq p.id "id" id named ∙ ap (λ x. some x.id) (ok-injective same),
      or_raise-eq p.topic_ns "topic_ns" ns at ∙ ap (λ x. some x.topic_ns) (ok-injective same),
    )

pub default-cases :
    (given : Option (List String))
    → (given ≡ some (default [] given)) ⊎ ((given ≡ none) × (default [] given ≡ []))
default-cases none = inr (refl, refl)
default-cases (some keys) = inl refl
