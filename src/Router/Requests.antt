-- ===== src/Router/Requests.antt =====
-- Request ids are fresh.
use mpfc.Prelude.{
  ℕ, zero, suc, ◌+◌, ◌≤◌, ◌<◌, String, ◌≢◌, List, [], ◌∷◌, arith, nat_equality, string_equality,
  pair_equality, All,
}
use text.Mathlib.TextLemmas.{append_cancel_left}
use mpfc.Text.{◌<>◌, decimal, decimal-injective}
use mpfc.Router.{BusRouter, next_request_id}

-- The ids of a number of requests in a row.
pub ids : ℕ → BusRouter → List String
ids zero r = []
ids (suc n) r = let (id, r') = next_request_id r in id ∷ ids n r'

-- The id `id` is not that of a request with a number above `k`.
abbrev pub IsOld : ℕ → String → Type 0
IsOld k id = (n : ℕ) → k < n → "req-" <> decimal n ≢ id

ids-All-new :
    (n : ℕ) (k : ℕ) (id : String) (r : BusRouter)
    → IsOld k id
    → k ≤ r.request_counter
    → All (λ j. j ≢ id) (ids n r)
unfolding ids next_request_id
ids-All-new zero k id r old h = tt
ids-All-new (suc n) k id r old h = (
  old (r.request_counter + 1) (omega arith),
  ids-All-new n k id (record r { request_counter = r.request_counter + 1 }) old (omega arith),
)

abbrev pub Distinct : List String → Type 0
Distinct [] = Unit
Distinct (x ∷ xs) = All (λ y. y ≢ x) xs × Distinct xs

-- However many requests a router sends, no two of them carry the same id.
pub ids-Distinct : (n : ℕ) (r : BusRouter) → Distinct (ids n r)
unfolding ids next_request_id
ids-Distinct zero r = tt
ids-Distinct (suc n) r =
    let r' = record r { request_counter = r.request_counter + 1 } in
    (
      ids-All-new n (r.request_counter + 1) ("req-" <> decimal (r.request_counter + 1)) r'
          (λ m h e. absurd (
            omega (
              arith,
              decimal-injective m (r.request_counter + 1)
                  (append_cancel_left "req-" (decimal m) (decimal (r.request_counter + 1)) e),
            )))
          (omega arith),
      ids-Distinct n r',
    )
