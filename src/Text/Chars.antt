-- ===== src/Text/Chars.antt =====
-- `str_chars` of src/string.c.
use streem.Base.{
  ℕ, zero, suc, false, List, [], ◌∷◌, ◌++◌, ◌≡◌, refl, ap, ◌∙◌, length, arith, All, flatten, ◌==◌,
  ◌≤◌, take, drop, ap,
}
use streem.Text.{utf8len, chars_from, str_chars}

take-drop : (n : ℕ) (p : List ℕ) → take n p ++ drop n p ≡ p
take-drop zero p = refl
take-drop (suc n) [] = refl
take-drop (suc n) (c ∷ p) = ap (λ q. c ∷ q) (take-drop n p)

All-drop : (n : ℕ) (Q : ℕ → Type 0) (p : List ℕ) → All Q p → All Q (drop n p)
All-drop zero Q p a = a
All-drop (suc n) Q [] a = a
All-drop (suc n) Q (c ∷ p) a = All-drop n Q p a.1

length-drop : (n : ℕ) (p : List ℕ) → length (drop n p) ≤ length p
length-drop zero p = omega arith
length-drop (suc n) [] = omega arith
length-drop (suc n) (c ∷ p) = let q = length-drop n p in omega arith

length-drop_cons : (n c : ℕ) (p : List ℕ) → 1 ≤ n → length (drop n (c ∷ p)) ≤ length p
length-drop_cons zero c p q = ground arith
length-drop_cons (suc n) c p q = length-drop n p

-- A turn of the loop goes on by a byte at least.
shorter : (l c : ℕ) (p : List ℕ) (f : ℕ) → length p ≤ f → length (drop (utf8len l c p) (c ∷ p)) ≤ f
shorter l c p f q = let d = length-drop_cons (utf8len l c p) c p (ground arith) in omega arith

chars-flatten :
    (f l : ℕ) (p : List ℕ)
    → length p ≤ f
    → All (λ c. (c == 0) ≡ false) p
    → flatten (chars_from f l p) ≡ p
unfolding chars_from
chars-flatten zero l [] q a = refl
chars-flatten zero l (c ∷ p) q a = ground arith
chars-flatten (suc f) l [] q a = refl
chars-flatten (suc f) l (c ∷ p) q a =
    let n = utf8len l c p in
    let d = drop n (c ∷ p) in
    let s : length d ≤ f = shorter l c p f (omega arith) in
    rw (a.0) (
      ap (λ r. take n (c ∷ p) ++ r) (chars-flatten f l d s (All-drop n _ (c ∷ p) a))
      ∙ take-drop n (c ∷ p))

-- The characters of a string without NUL, one after the other, are the string: no byte is lost, and
-- the turns of the loop are enough.
pub str_chars-flatten : (p : List ℕ) → All (λ c. (c == 0) ≡ false) p → flatten (str_chars p) ≡ p
str_chars-flatten p a = chars-flatten (length p) (length p) p (omega arith) a
