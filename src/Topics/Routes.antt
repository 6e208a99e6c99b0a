-- ===== src/Topics/Routes.antt =====
-- State topics and keys name one another.
use mpfc.Prelude.{
  String, ◌≡◌, refl, sym, ap, ◌∙◌, inl, inr, Bool, true, false, none, some, List, [], ◌∷◌,
  nat_equality, string_equality, pair_equality, ◌==◌, beq_refl, beq→eq, ne→beq, if◌then◌else◌,
  is_some, Bool-cases, any, All,
}
use mpfc.Dict.{Dict, lookup, contains, insert, keys}
use mpfc.Dict.Laws.{lookup-insert}
use text.Mathlib.TextLemmas.{append_cancel_left}
use mpfc.Text.{◌<>◌}
use mpfc.Topics.{state_topic, build_state_topics, topic_to_key}

pub state_topic-injective : (base j k : String) → state_topic base j ≡ state_topic base k → j ≡ k
unfolding state_topic
state_topic-injective base j k h = append_cancel_left (base <> "/STATE/") j k h

abbrev pub listed : String → List String → Bool
listed key keys = any (λ k. k == key) keys

-- Exactly the listed keys have a topic, and it is the state topic of the key.
pub lookup-build_state_topics :
    (base key : String) (ks : List String)
    → lookup key (build_state_topics base ks)
      ≡ (if listed key ks then some (state_topic base key) else none)
unfolding build_state_topics lookup
lookup-build_state_topics base key [] = refl
lookup-build_state_topics base key (k ∷ ks) = elim (Bool-cases (k == key)) [
  | inl same ↦
      rw
        (
          lookup-insert k key (state_topic base k) (build_state_topics base ks),
          same,
          beq→eq k key same,
        )
        refl
  | inr other ↦
      rw (lookup-insert k key (state_topic base k) (build_state_topics base ks), other)
        (lookup-build_state_topics base key ks)
]

-- Every entry of a table is the state topic of its key.
abbrev Entries : String → Dict String String → Type 0
Entries base d = All (λ (entry : String × String). entry.1 ≡ state_topic base entry.0) d

Entries-insert :
    (base k : String) (d : Dict String String)
    → Entries base d
    → Entries base (insert k (state_topic base k) d)
unfolding insert
Entries-insert base k [] h = (refl, tt)
Entries-insert base k ((j, t) ∷ d) h = elim (Bool-cases (j == k)) [
  | inl same ↦ rw (same, insert, Entries) (ap (state_topic base) (sym (beq→eq j k same)), h.1)
  | inr other ↦ rw (other, insert, Entries) (h.0, Entries-insert base k d h.1)
]

Entries-build : (base : String) (ks : List String) → Entries base (build_state_topics base ks)
unfolding build_state_topics
Entries-build base [] = tt
Entries-build base (k ∷ ks) =
    Entries-insert base k (build_state_topics base ks) (Entries-build base ks)

lookup-topic_to_key :
    (base key : String) (d : Dict String String)
    → Entries base d
    → lookup (state_topic base key) (topic_to_key d) ≡ (if contains key d then some key else none)
unfolding topic_to_key lookup
lookup-topic_to_key base key [] h = refl
lookup-topic_to_key base key ((j, t) ∷ d) h = elim (Bool-cases (j == key)) [
  | inl same ↦ rw (
    lookup-insert t (state_topic base key) j (topic_to_key d),
    h.0,
    same,
    beq→eq j key same,
    beq_refl (state_topic base key),
  )
  | inr other ↦
      rw
        (
          lookup-insert t (state_topic base key) j (topic_to_key d),
          h.0,
          other,
          ne→beq (state_topic base j) (state_topic base key)
              (λ e. cc (state_topic-injective base j key e, other, beq_refl j)),
        )
        (lookup-topic_to_key base key d h.1)
]

-- The table from topics to keys that a plugin builds from its state keys leads the state topic of
-- each listed key back to that key, and no other key's topic anywhere.
pub topic_to_key-build_state_topics :
    (base key : String) (ks : List String)
    → lookup (state_topic base key) (topic_to_key (build_state_topics base ks))
      ≡ (if listed key ks then some key else none)
topic_to_key-build_state_topics base key ks =
    lookup-topic_to_key base key (build_state_topics base ks) (Entries-build base ks)
    ∙ ap (λ o. if is_some o then some key else none) (lookup-build_state_topics base key ks)
    ∙ flatten (listed key ks)
  where
    flatten :
        (b : Bool)
        → (if is_some (if b then some (state_topic base key) else none) then some key else none)
          ≡ (if b then some key else none)
    flatten true = refl
    flatten false = refl
