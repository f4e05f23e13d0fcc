-- ===== src/Sort/Order.antt =====
-- The order of strings and numbers in src/sort.c.
use streem.Base.{
  ℕ, true, List, [], ◌∷◌, ◌≡◌, refl, length, arith, ltb, ◌≤◌, Bool-cases, inl, inr, if◌then◌else◌,
}
use streem.Sort.{Cmp, below, same, above, flip, at_most, str_cmp, str_end, memcmp}

-- The order of strings byte by byte, a prefix first.
abbrev pub lex : List ℕ → List ℕ → Cmp
lex [] [] = same
lex [] (b ∷ ys) = below
lex (a ∷ xs) [] = above
lex (a ∷ xs) (b ∷ ys) = if ltb a b then below else if ltb b a then above else lex xs ys

-- The two lengths that `str_cmp` may compare so many bytes of.
longer-lex :
    (a b : List ℕ)
    → length b ≤ length a
    → str_end (memcmp (length b) a b) (length b) (length a) (length b) ≡ lex a b
longer-lex [] [] l = refl
longer-lex [] (b ∷ ys) l = ground arith
longer-lex (a ∷ xs) [] l = ground arith
longer-lex (a ∷ xs) (b ∷ ys) l = ground (arith, longer-lex xs ys (omega arith))

shorter-lex :
    (a b : List ℕ)
    → length a ≤ length b
    → str_end (memcmp (length a) a b) (length a) (length a) (length b) ≡ lex a b
shorter-lex [] [] l = refl
shorter-lex [] (b ∷ ys) l = ground arith
shorter-lex (a ∷ xs) [] l = ground arith
shorter-lex (a ∷ xs) (b ∷ ys) l = ground (arith, shorter-lex xs ys (omega arith))

-- `str_cmp` is the order of strings byte by byte, in which a prefix comes first.
pub str_cmp-lex : (a b : List ℕ) → str_cmp a b ≡ lex a b
unfolding str_cmp
str_cmp-lex a b = elim (Bool-cases (ltb (length b) (length a))) [
  | inl e ↦ rw e (longer-lex a b (ground arith))
  | inr e ↦ rw e (shorter-lex a b (ground arith))
]

pub lex-flip : (a b : List ℕ) → lex b a ≡ flip (lex a b)
lex-flip [] [] = refl
lex-flip [] (b ∷ ys) = refl
lex-flip (a ∷ xs) [] = refl
lex-flip (a ∷ xs) (b ∷ ys) = ground (arith, lex-flip xs ys)

pub lex_trans :
    (a b c : List ℕ)
    → at_most (lex a b) ≡ true
    → at_most (lex b c) ≡ true
    → at_most (lex a c) ≡ true
lex_trans [] b [] p q = refl
lex_trans [] b (c ∷ zs) p q = refl
lex_trans (a ∷ xs) [] c p q = ground arith
lex_trans (a ∷ xs) (b ∷ ys) [] p q = ground arith
lex_trans (a ∷ xs) (b ∷ ys) (c ∷ zs) p q = ground (arith, lex_trans xs ys zs)
