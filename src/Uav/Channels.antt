-- ===== src/Uav/Channels.antt =====
-- What an auxiliary channel holds behind a merge.
use mpfc.Prelude.{
  ℕ, zero, suc, ◌-◌, ◌≡◌, refl, sym, ap, ◌∙◌, Option, none, some, List, [], ◌∷◌, arith,
  nat_equality, string_equality, pair_equality, if◌then◌else◌, length,
}
use mpfc.Json.{Value, float}
use mpfc.Uav.{extend, assign, is_null, merge_aux}

-- A channel of a list, `none` behind its end.
abbrev pub channel : ℕ → List Value → Option Value
channel n [] = none
channel zero (x ∷ xs) = some x
channel (suc n) (x ∷ xs) = channel n xs

-- What a channel is to hold: the override's value where it has one that is not None, else the base's,
-- else 0.0 where the override names the channel.
abbrev pub wanted : Option Value → Option Value → Option Value
wanted old none = old
wanted (some b) (some o) = if is_null o then some b else some o
wanted none (some o) = if is_null o then some (float "0.0") else some o

extend_cons : (k : ℕ) (x : Value) (xs : List Value) → extend k (x ∷ xs) ≡ x ∷ extend k xs
unfolding extend
extend_cons zero x xs = refl
extend_cons (suc k) x xs = refl

zero_sub : (n : ℕ) → 0 - n ≡ 0
zero_sub n = omega arith

suc_sub : (m n : ℕ) → suc m - suc n ≡ m - n
suc_sub m n = omega arith

sub_zero : (n : ℕ) → n - 0 ≡ n
sub_zero n = omega arith

merge_aux-none : (base : List Value) → merge_aux base [] ≡ base
unfolding merge_aux extend assign
merge_aux-none base = ap (λ k. extend k base) (zero_sub (length base))

merge_aux-both :
    (b o : Value) (base override : List Value)
    → merge_aux (b ∷ base) (o ∷ override) ≡ (if is_null o then b else o) ∷ merge_aux base override
unfolding merge_aux assign
merge_aux-both b o base override =
    ap (λ k. assign (extend k (b ∷ base)) (o ∷ override)) (suc_sub (length override) (length base))
    ∙ ap (λ xs. assign xs (o ∷ override)) (extend_cons (length override - length base) b base)

merge_aux-new :
    (o : Value) (override : List Value)
    → merge_aux [] (o ∷ override) ≡ (if is_null o then float "0.0" else o) ∷ merge_aux [] override
unfolding merge_aux extend assign
merge_aux-new o override =
    ap (λ k. assign (extend k []) (o ∷ override)) (sub_zero (suc (length override)))
    ∙ ap (λ k. (if is_null o then float "0.0" else o) ∷ assign (extend k []) override)
        (sym (sub_zero (length override)))

-- Every channel holds behind the merge what the base and the override say about that channel alone.
pub channel-merge_aux :
    (n : ℕ) (base override : List Value)
    → channel n (merge_aux base override) ≡ wanted (channel n base) (channel n override)
channel-merge_aux n base [] = ap (channel n) (merge_aux-none base)
channel-merge_aux zero [] (o ∷ override) = rw (merge_aux-new o override) (ground arith)
channel-merge_aux (suc n) [] (o ∷ override) =
    rw (merge_aux-new o override) (channel-merge_aux n [] override)
channel-merge_aux zero (b ∷ base) (o ∷ override) =
    rw (merge_aux-both b o base override) (ground arith)
channel-merge_aux (suc n) (b ∷ base) (o ∷ override) =
    rw (merge_aux-both b o base override) (channel-merge_aux n base override)
