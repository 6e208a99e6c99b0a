-- ===== src/Dict/Size.antt =====
-- What the entries of a dictionary weigh together, after each of its operations.
use mathlib.Core.Option.{some-injective}
use mpfc.Prelude.{
  ℕ, ◌+◌, ◌≡◌, refl, ap, inl, inr, none, some, [], ◌∷◌, arith, Equality, nat_equality,
  string_equality, pair_equality, ◌==◌, beq-sym, beq→eq, Bool-cases,
}
use mpfc.Dict.{Dict, lookup, insert, remove}
use mpfc.Dict.Laws.{lookup-insert, lookup-remove}

module _ {ℓ κ} {K : Type ℓ} {V : Type κ} ⦃e : Equality K⦄ where
  -- A dictionary holds a key once.
  abbrev pub IsUnique : Dict K V → Type κ
  IsUnique [] = Unit
  IsUnique ((k, v) ∷ d) = (lookup k d ≡ none) × IsUnique d

  -- What the values of a dictionary weigh together.
  abbrev pub weigh : (V → ℕ) → Dict K V → ℕ
  weigh f [] = 0
  weigh f ((k, v) ∷ d) = f v + weigh f d

  pub weigh-insert_new :
      (f : V → ℕ) (k : K) (v : V) (d : Dict K V)
      → lookup k d ≡ none
      → weigh f (insert k v d) ≡ weigh f d + f v
  unfolding lookup insert
  weigh-insert_new f k v [] h = omega arith
  weigh-insert_new f k v ((j, w) ∷ d) h = elim (Bool-cases (j == k)) [
    | inl same ↦ cc (rw (same, lookup) at h)
    | inr other ↦
        rw (other, insert) (omega (arith, weigh-insert_new f k v d (rw (other, lookup) at h)))
  ]

  pub remove_absent : (k : K) (d : Dict K V) → lookup k d ≡ none → remove k d ≡ d
  unfolding lookup remove
  remove_absent k [] h = refl
  remove_absent k ((j, w) ∷ d) h = elim (Bool-cases (j == k)) [
    | inl same ↦ cc (rw (same, lookup) at h)
    | inr other ↦
        rw (other, remove) (ap (λ d'. (j, w) ∷ d') (remove_absent k d (rw (other, lookup) at h)))
  ]

  pub weigh-remove :
      (f : V → ℕ) (k : K) (v : V) (d : Dict K V)
      → IsUnique d
      → lookup k d ≡ some v
      → weigh f (remove k d) + f v ≡ weigh f d
  unfolding lookup remove
  weigh-remove f k v [] u h = cc
  weigh-remove f k v ((j, w) ∷ d) u h = elim (Bool-cases (j == k)) [
    | inl same ↦
        let found = some-injective w v (rw (same, lookup) at h) in
        rw (same, remove, remove_absent k d (rw (← beq→eq j k same) u.0), found) (omega arith)
    | inr other ↦
        rw (other, remove) (omega (arith, weigh-remove f k v d u.1 (rw (other, lookup) at h)))
  ]

  pub IsUnique-insert : (k : K) (v : V) (d : Dict K V) → IsUnique d → IsUnique (insert k v d)
  unfolding lookup insert
  IsUnique-insert k v [] u = (refl, tt)
  IsUnique-insert k v ((j, w) ∷ d) u = elim (Bool-cases (j == k)) [
    | inl same ↦ rw (same, insert, IsUnique) u
    | inr other ↦
        rw (other, insert, IsUnique)
          (rw (lookup-insert k j v d, beq-sym k j, other) u.0, IsUnique-insert k v d u.1)
  ]

  pub IsUnique-remove : (k : K) (d : Dict K V) → IsUnique d → IsUnique (remove k d)
  unfolding remove
  IsUnique-remove k [] u = tt
  IsUnique-remove k ((j, w) ∷ d) u = elim (Bool-cases (j == k)) [
    | inl same ↦ rw (same, remove, IsUnique) (IsUnique-remove k d u.1)
    | inr other ↦
        rw (other, remove, IsUnique)
          (rw (lookup-remove k j d, beq-sym k j, other) u.0, IsUnique-remove k d u.1)
  ]
