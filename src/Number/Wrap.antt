-- ===== src/Number/Wrap.antt =====
-- Integer arithmetic of src/number.c around 2 ^ 32.
use streem.Base.{ℕ, some, [], ◌∷◌, ◌≡◌, refl, ap, ◌<◌, ◌^◌, ◌%◌, ◌+◌, ◌-◌, arith}
use streem.Value.{int}
use streem.Number.{Arith, num_plus, num_minus, i32_neg}

-- A sum of two integers less the second is the first, whether the sum wraps around or not; and a
-- number minus another is the number plus the other's negative.
pub num_minus-num_plus :
    (ar : Arith) (a b : ℕ)
    → a < 2 ^ 32
    → b < 2 ^ 32
    → (num_minus ar (int ((a + b) % 2 ^ 32) ∷ int b ∷ []) ≡ some (int a))
      × (num_plus ar (int a) (int b) ≡ some (int ((a + b) % 2 ^ 32)))
      × (num_minus ar (int a ∷ int b ∷ []) ≡ num_plus ar (int a) (int (i32_neg b)))
unfolding num_minus num_plus
num_minus-num_plus ar a b p q =
    let x : ((a + b) % 2 ^ 32 + (2 ^ 32 - b)) % 2 ^ 32 ≡ a = omega arith in
    let y : (a + (2 ^ 32 - b)) % 2 ^ 32 ≡ (a + (2 ^ 32 - b) % 2 ^ 32) % 2 ^ 32 = omega arith in
    (ap (λ n. some (int n)) x, refl, ap (λ n. some (int n)) y)
