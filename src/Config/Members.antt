-- ===== src/Config/Members.antt =====
-- The names of enumeration members are read back, with and without the enumeration's own name.
use Prim.Native.Char.{code}
use text.Mathlib.TextLemmas.{nil-append, cons-append}
use mpfc.Prelude.{
  String, ◌≡◌, refl, ap, ◌∙◌, Bool, true, false, not, ◌&&◌, none, some, arith, nat_equality,
  string_equality, pair_equality, ◌==◌, beq_refl, any,
}
use mpfc.Exec.{ok}
use mpfc.Text.{◌<>◌}
use mpfc.Json.{str}
use mpfc.Config.Names.{
  EnumType, is_space, lstrip, rstrip, rsplit_dot, known_member, resolve_enum_value,
}

unfoldable pub has_no_space : String → Bool
has_no_space String.[] = true
has_no_space (String.◌∷◌ c s) = not (is_space c) && has_no_space s

unfoldable pub has_no_dot : String → Bool
has_no_dot String.[] = true
has_no_dot (String.◌∷◌ c s) = not (code c == b'.') && has_no_dot s

and-true : (a b : Bool) → (a && b) ≡ true → (a ≡ true) × (b ≡ true)
and-true a b h = ground arith

not-true : (a : Bool) → not a ≡ true → a ≡ false
not-true a h = ground arith

lstrip-no_space : (s : String) → has_no_space s ≡ true → lstrip s ≡ s
unfolding lstrip has_no_space
lstrip-no_space String.[] h = refl
lstrip-no_space (String.◌∷◌ c s) h =
    rw (not-true (is_space c) (and-true (not (is_space c)) (has_no_space s) h).0) refl

rstrip-no_space : (s : String) → has_no_space s ≡ true → rstrip s ≡ s
unfolding rstrip has_no_space
rstrip-no_space String.[] h = refl
rstrip-no_space (String.◌∷◌ c s) h =
    let (c_plain, s_plain) = and-true (not (is_space c)) (has_no_space s) h in
    rw (not-true (is_space c) c_plain, rstrip-no_space s s_plain) refl

rsplit_dot-no_dot : (s : String) → has_no_dot s ≡ true → rsplit_dot s ≡ none
unfolding rsplit_dot has_no_dot
rsplit_dot-no_dot String.[] h = refl
rsplit_dot-no_dot (String.◌∷◌ c s) h =
    let (c_plain, s_plain) = and-true (not (code c == b'.')) (has_no_dot s) h in
    rw (rsplit_dot-no_dot s s_plain, not-true (code c == b'.') c_plain) refl

dot-append : (s : String) → "." <> s ≡ String.◌∷◌ "." s
dot-append s = cons-append "." "" s ∙ ap (λ t. String.◌∷◌ "." t) (nil-append s)

rsplit_dot-append :
    (front back : String)
    → has_no_dot back ≡ true
    → rsplit_dot (front <> ("." <> back)) ≡ some (front, back)
unfolding rsplit_dot
rsplit_dot-append String.[] back h =
    rw (nil-append ("." <> back), dot-append back, rsplit_dot, rsplit_dot-no_dot back h) refl
rsplit_dot-append (String.◌∷◌ c front) back h =
    rw (cons-append c front ("." <> back), rsplit_dot, rsplit_dot-append front back h) refl

has_no_space-append :
    (s t : String) → has_no_space s ≡ true → has_no_space t ≡ true → has_no_space (s <> t) ≡ true
unfolding has_no_space
has_no_space-append String.[] t hs ht = rw (nil-append t) ht
has_no_space-append (String.◌∷◌ c s) t hs ht =
    let (c_plain, s_plain) = and-true (not (is_space c)) (has_no_space s) hs in
    rw (cons-append c s t, has_no_space, c_plain) (has_no_space-append s t s_plain ht)

-- A member of an enumeration is read back as it is named, by itself or behind the enumeration's name and
-- a dot, where the names hold no white space and the member's name no dot.
pub resolve_enum_value_names :
    (enum_type : EnumType) (member : String)
    → any (λ m. m == member) enum_type.members ≡ true
    → has_no_space enum_type.name ≡ true
    → has_no_space member ≡ true
    → has_no_dot member ≡ true
    → (resolve_enum_value (str member) enum_type ≡ ok member)
      × (resolve_enum_value (str (enum_type.name <> ("." <> member))) enum_type ≡ ok member)
unfolding resolve_enum_value has_no_space
resolve_enum_value_names e m known name_plain plain no_dot =
    let whole_plain =
      has_no_space-append e.name ("." <> m) name_plain (has_no_space-append "." m refl plain) in
    let whole = e.name <> ("." <> m) in
    (
      rw
          (
            resolve_enum_value,
            lstrip-no_space m plain,
            rstrip-no_space m plain,
            rsplit_dot-no_dot m no_dot,
            lstrip-no_space m plain,
            rstrip-no_space m plain,
            known_member,
            known,
          )
          refl,
      rw
          (
            resolve_enum_value,
            lstrip-no_space whole whole_plain,
            rstrip-no_space whole whole_plain,
            rsplit_dot-append e.name m no_dot,
            beq_refl e.name,
            known_member,
            known,
          )
          refl,
    )
