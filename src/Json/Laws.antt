-- ===== src/Json/Laws.antt =====
-- What a field shows after an assignment.
use mpfc.Prelude.{
  String, ◌≡◌, refl, some, arith, eq_iff, nat_equality, string_equality, pair_equality, ◌==◌,
  if◌then◌else◌,
}
use mpfc.Json.{Value, Fields, end, field, get, put}

pub get-put :
    (k j : String) (v : Value) (d : Fields)
    → get j (put k v d) ≡ (if k == j then some v else get j d)
unfolding get put
get-put k j v end = refl
get-put k j v (field i w d) = ground (arith, eq_iff k j, eq_iff i k, eq_iff i j, get-put k j v d)
