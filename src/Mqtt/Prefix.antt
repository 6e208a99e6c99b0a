-- ===== src/Mqtt/Prefix.antt =====
-- `full_topic.startswith(prefix)` and `full_topic[len(prefix):]`, in one pass.
use mpfc.Prelude.{
  String, ◌≡◌, sym, ap, inl, inr, Option, none, some, nat_equality, string_equality, pair_equality,
  ◌==◌, beq_refl, beq→eq, if◌then◌else◌, Bool-cases,
}
use Prim.Native.Char.{code}
use mathlib.Core.Path.{ap₂}
use text.Mathlib.TextEquality.{Char-path}
use text.Mathlib.TextLemmas.{nil-append, cons-append}
use mpfc.Text.{◌<>◌}

unfoldable pub strip_prefix : String → String → Option String
strip_prefix String.[] s = some s
strip_prefix (String.◌∷◌ c p) String.[] = none
strip_prefix (String.◌∷◌ c p) (String.◌∷◌ d s) =
    let rest = strip_prefix p s in if code c == code d then rest else none

pub strip_prefix-append : (p s : String) → strip_prefix p (p <> s) ≡ some s
unfolding strip_prefix
strip_prefix-append String.[] s = ap some (nil-append s)
strip_prefix-append (String.◌∷◌ c p) s =
    rw (cons-append c p s, strip_prefix, beq_refl (code c)) (strip_prefix-append p s)

pub append-strip_prefix : (p s t : String) → strip_prefix p s ≡ some t → s ≡ p <> t
unfolding strip_prefix
append-strip_prefix String.[] s t h = rw (nil-append t) (cc)
append-strip_prefix (String.◌∷◌ c p) String.[] t h = cc
append-strip_prefix (String.◌∷◌ c p) (String.◌∷◌ d s) t h = elim (Bool-cases (code c == code d)) [
  | inl same ↦ rw (cons-append c p t) (
      ap₂ String.◌∷◌ (sym (Char-path c d (beq→eq (code c) (code d) same)))
        (append-strip_prefix p s t (rw (same, strip_prefix) at h)))
  | inr other ↦ cc (rw (other, strip_prefix) at h)
]
