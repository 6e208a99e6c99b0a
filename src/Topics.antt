-- ===== src/Topics.antt =====
-- The topic names of lib/common.py.
pub mod Routes
use mpfc.Prelude.{
  ℕ, zero, suc, ◌+◌, ◌-◌, ◌*◌, ◌/◌, ◌%◌, ◌≤◌, ◌<◌, min, max, String, ◌≡◌, refl, sym, ap, ◌∙◌, ◌≢◌,
  ◌↔◌, ◌⊎◌, inl, inr, Bool, true, false, not, ◌&&◌, ◌||◌, Option, none, some, List, [], ◌∷◌, ◌++◌,
  map, arith, eq_iff, Equality, nat_equality, string_equality, pair_equality, ◌==◌, beq_refl,
  beq-sym, beq→eq, ne→beq, ltb, leb, if◌then◌else◌, is_some, ltb→lt, lt→ltb, ge→ltb, ltb→ge,
  Bool-cases, Option-cases, length, length-append, any, all, keep, All, All-append,
}
use mpfc.Dict.{Dict, lookup, contains, insert, remove, keys}
use mpfc.Text.{◌<>◌}

unfoldable pub build_topic_base : String → String → String
build_topic_base component_id topic_ns = component_id <> "/" <> topic_ns

unfoldable pub build_request_topic : String → String → String
unfolding build_topic_base
build_request_topic component_id topic_ns = build_topic_base component_id topic_ns <> "/REQUEST"

unfoldable pub build_response_topic : String → String → String
unfolding build_topic_base
build_response_topic component_id topic_ns = build_topic_base component_id topic_ns <> "/RESPONSE"

unfoldable pub build_set_topic : String → String
build_set_topic component_id = "SET/" <> component_id

unfoldable pub state_topic : String → String → String
state_topic base key = base <> "/STATE/" <> key

unfoldable pub event_topic : String → String → String
event_topic base key = base <> "/EVENT/" <> key

-- A dictionary built by a comprehension: a key that comes again keeps its place.
unfoldable pub build_state_topics : String → List String → Dict String String
build_state_topics base [] = []
build_state_topics base (key ∷ rest) =
    insert key (state_topic base key) (build_state_topics base rest)

unfoldable pub build_event_topics : String → List String → Dict String String
build_event_topics base [] = []
build_event_topics base (key ∷ rest) =
    insert key (event_topic base key) (build_event_topics base rest)

-- `{topic: key for key, topic in topics.items()}`
unfoldable pub topic_to_key : Dict String String → Dict String String
topic_to_key [] = []
topic_to_key ((key, topic) ∷ rest) = insert topic key (topic_to_key rest)
