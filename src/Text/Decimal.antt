-- ===== src/Text/Decimal.antt =====
-- Python's `str` of a natural number, and that two numbers never read alike.
use mpfc.Prelude.{
  ℕ, zero, suc, ◌+◌, ◌-◌, ◌*◌, ◌/◌, ◌%◌, ◌≤◌, ◌<◌, String, ◌≡◌, sym, ap, ◌∙◌, inl, inr, arith,
  nat_equality, string_equality, pair_equality, ltb, if◌then◌else◌, ltb→lt, ltb→ge, Bool-cases,
}
use Prim.Native.Char.{code}
use Prim.Native.String
use text.Mathlib.TextLemmas.{nil-append, cons-append}

-- One decimal digit.
digit : ℕ → String
digit zero = "0"
digit (suc zero) = "1"
digit (suc (suc zero)) = "2"
digit (suc (suc (suc zero))) = "3"
digit (suc (suc (suc (suc zero)))) = "4"
digit (suc (suc (suc (suc (suc zero))))) = "5"
digit (suc (suc (suc (suc (suc (suc zero)))))) = "6"
digit (suc (suc (suc (suc (suc (suc (suc zero))))))) = "7"
digit (suc (suc (suc (suc (suc (suc (suc (suc zero)))))))) = "8"
digit _ = "9"

digits : ℕ → ℕ → String
digits zero n = digit n
digits (suc f) n =
    let front = digits f (n / 10) in
    if ltb n 10 then digit n else String.◌++◌ front (digit (n % 10))

-- `str(n)`
unfoldable pub decimal : ℕ → String
unfolding digit digits
decimal n = digits n n

-- The number that a text of digits stands for, behind the number read so far.
read : ℕ → String → ℕ
read acc String.[] = acc
read acc (String.◌∷◌ c s) = read (acc * 10 + (code c - 48)) s

read-digit : (acc d : ℕ) → d < 10 → read acc (digit d) ≡ acc * 10 + d
unfolding read digit
read-digit acc zero h = omega arith
read-digit acc (suc zero) h = omega arith
read-digit acc (suc (suc zero)) h = omega arith
read-digit acc (suc (suc (suc zero))) h = omega arith
read-digit acc (suc (suc (suc (suc zero)))) h = omega arith
read-digit acc (suc (suc (suc (suc (suc zero))))) h = omega arith
read-digit acc (suc (suc (suc (suc (suc (suc zero)))))) h = omega arith
read-digit acc (suc (suc (suc (suc (suc (suc (suc zero))))))) h = omega arith
read-digit acc (suc (suc (suc (suc (suc (suc (suc (suc zero)))))))) h = omega arith
read-digit acc (suc (suc (suc (suc (suc (suc (suc (suc (suc zero))))))))) h = omega arith
read-digit acc (suc (suc (suc (suc (suc (suc (suc (suc (suc (suc d)))))))))) h =
    absurd (omega arith)

read-append_digit :
    (acc : ℕ) (s : String) (d : ℕ)
    → d < 10
    → read acc (String.◌++◌ s (digit d)) ≡ read acc s * 10 + d
unfolding read
read-append_digit acc String.[] d h = rw (nil-append (digit d)) (read-digit acc d h)
read-append_digit acc (String.◌∷◌ c s) d h =
    rw (cons-append c s (digit d)) (read-append_digit (acc * 10 + (code c - 48)) s d h)

read-digits : (f n : ℕ) → n ≤ f → read 0 (digits f n) ≡ n
unfolding digits
read-digits zero n h = rw (read-digit 0 n (omega arith)) (omega arith)
read-digits (suc f) n h = elim (Bool-cases (ltb n 10)) [
  | inl small ↦ rw small (rw (read-digit 0 n (ltb→lt n 10 small)) (omega arith))
  | inr large ↦
      let big = ltb→ge n 10 large in
      let ih = read-digits f (n / 10) (omega arith) in
      rw large
        (rw (read-append_digit 0 (digits f (n / 10)) (n % 10) (omega arith)) (rw ih (omega arith)))
]

pub decimal-injective : (m n : ℕ) → decimal m ≡ decimal n → m ≡ n
unfolding decimal
decimal-injective m n h =
    sym (read-digits m m (omega arith)) ∙ ap (read 0) h ∙ read-digits n n (omega arith)
