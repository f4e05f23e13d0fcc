-- ===== src/Array/Reverse.antt =====
-- `ary_reverse` of src/array.c.
use streem.Base.{
  ℕ, zero, suc, List, [], ◌∷◌, ◌++◌, ◌≡◌, refl, ap, ◌∙◌, sym, ◌-◌, ◌+◌, length, set, replicate,
  arith, append_assoc, append-nil, append-snoc,
}
use streem.Value.{Value, float}
use streem.Array.{reverse_from, ary_reverse}

-- The last element first.
abbrev pub reversed : List Value → List Value
reversed [] = []
reversed (v ∷ vs) = reversed vs ++ (v ∷ [])

set_before :
    (n : ℕ) (x v : Value) (done : List Value)
    → set (replicate (suc n) x ++ done) n v ≡ replicate n x ++ v ∷ done
set_before zero x v done = refl
set_before (suc n) x v done = ap (λ l. x ∷ l) (set_before n x v done)

reverse_from_lem :
    (i : ℕ) (vs done : List Value)
    → reverse_from (i + length vs) i vs (replicate (length vs) (float 0) ++ done)
      ≡ reversed vs ++ done
unfolding reverse_from
reverse_from_lem i [] done = refl
reverse_from_lem i (v ∷ vs) done =
    let ih = reverse_from_lem (suc i) vs (v ∷ done) in
    let m : i + suc (length vs) - i - 1 ≡ length vs = omega arith in
    let n : suc i + length vs ≡ i + suc (length vs) = omega arith in
    let s = set_before (length vs) (float 0) v done in
    ground (arith, ih, m, n, s, append-snoc (reversed vs) v done)

-- `ary_reverse` gives the elements with the last first.
pub ary_reverse_lem : (vs : List Value) → ary_reverse vs ≡ reversed vs
unfolding ary_reverse
ary_reverse_lem vs =
    let e = reverse_from_lem 0 vs [] in
    let n : 0 + length vs ≡ length vs = omega arith in
    ground (arith, e, n, append-nil (reversed vs), append-nil (replicate (length vs) (float 0)))

reversed-append : (xs ys : List Value) → reversed (xs ++ ys) ≡ reversed ys ++ reversed xs
reversed-append [] ys = sym (append-nil (reversed ys))
reversed-append (x ∷ xs) ys =
    ap (λ l. l ++ (x ∷ [])) (reversed-append xs ys)
    ∙ append_assoc (reversed ys) (reversed xs) (x ∷ [])

reversed_twice : (xs : List Value) → reversed (reversed xs) ≡ xs
reversed_twice [] = refl
reversed_twice (x ∷ xs) =
    reversed-append (reversed xs) (x ∷ []) ∙ ap (λ l. x ∷ l) (reversed_twice xs)

-- An array reversed twice is the array.
pub ary_reverse-ary_reverse : (vs : List Value) → ary_reverse (ary_reverse vs) ≡ vs
ary_reverse-ary_reverse vs =
    ary_reverse_lem (ary_reverse vs) ∙ (ap reversed (ary_reverse_lem vs) ∙ reversed_twice vs)
