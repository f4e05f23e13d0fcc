-- ===== src/Text/Split.antt =====
-- `str_split` of src/string.c.
use streem.Base.{
  ℕ, zero, suc, true, false, some, List, [], ◌∷◌, ◌++◌, ◌≡◌, refl, ◌-◌, sym, append-nil, ◌∙◌,
  length, arith, append-snoc, ==_iff, ◌==◌, Bool-cases, Option-cases, All, inl, inr, ltb,
}
use streem.Text.{after_sep, found, count_splits, split_pieces, str_split}

-- A turn that finds no separator.
count_on :
    (s : List ℕ) (a : ℕ) (piece : List ℕ) (b : ℕ) (p : List ℕ) (ps : List (List ℕ))
    → ltb (length s) (length (b ∷ p)) ≡ true
    → found s (b ∷ p) ≡ false
    → split_pieces s a piece (b ∷ p) ≡ some ps
    → (split_pieces s 0 (piece ++ (b ∷ [])) p ≡ some ps
        → length ps ≡ suc (count_splits s 0 (piece ++ (b ∷ [])) p))
    → ((k : ℕ) → split_pieces s k [] p ≡ some ps → length ps ≡ suc (count_splits s k [] p))
    → length ps ≡ suc (count_splits s a piece (b ∷ p))
unfolding count_splits split_pieces
count_on s zero piece b p ps l g e f h =
    let w : split_pieces s 0 (piece ++ (b ∷ [])) p ≡ some ps = ground (arith, l, g, e) in
    ground (arith, l, g, f w)
count_on s (suc k) piece b p ps l g e f h =
    let w : split_pieces s k [] p ≡ some ps = ground (arith, l, g, e) in ground (arith, l, g, h k w)

pieces-count :
    (s : List ℕ) (a : ℕ) (piece p : List ℕ) (ps : List (List ℕ))
    → split_pieces s a piece p ≡ some ps
    → length ps ≡ suc (count_splits s a piece p)
unfolding count_splits split_pieces
pieces-count s a piece [] ps e = ground arith
pieces-count s a piece (b ∷ p) ps e = elim (Bool-cases (ltb (length s) (length (b ∷ p)))) [
  | inr l ↦ ground (arith, l)
  | inl l ↦ elim (Bool-cases (found s (b ∷ p))) [
    | inr g ↦
        count_on s a piece b p ps l g e (λ w. pieces-count s 0 (piece ++ (b ∷ [])) p ps w)
          λ k w. pieces-count s k [] p ps w
    | inl g ↦ elim (Option-cases (split_pieces s (length s - 1) (after_sep s b) p)) [
      | inl n ↦ ground (arith, l, g, n)
      | inr (rest, n) ↦
          let ih = pieces-count s (length s - 1) (after_sep s b) p rest n in
          ground (arith, l, g, n, ih)
    ]
  ]
]

-- Unless it comes to a string of negative length, the second loop of `str_split` makes as many strings
-- as the first one counted, and one more: as many as the array is made for.
pub length-str_split :
    (p s : List ℕ) (ps : List (List ℕ))
    → (str_split p s).1 ≡ some ps
    → length ps ≡ (str_split p s).0
length-str_split p s ps e = pieces-count s 0 [] p ps e

-- Strings with a byte between them.
abbrev pub join : ℕ → List (List ℕ) → List ℕ
join c [] = []
join c (x ∷ []) = x
join c (x ∷ y ∷ ys) = x ++ c ∷ join c (y ∷ ys)

-- The byte c is nowhere in the string, and nowhere but at its end.
abbrev pub Without : ℕ → List ℕ → Type 0
Without c x = All (λ b. (b == c) ≡ false) x

abbrev pub WithoutBeforeEnd : ℕ → List ℕ → Type 0
WithoutBeforeEnd c [] = Unit
WithoutBeforeEnd c (b ∷ []) = Unit
WithoutBeforeEnd c (b ∷ d ∷ x) = ((b == c) ≡ false) × WithoutBeforeEnd c (d ∷ x)

-- The pieces of a string that is split wherever the byte c is, but at its end.
abbrev pub Pieces : ℕ → List (List ℕ) → Type 0
Pieces c [] = ⊥
Pieces c (x ∷ []) = WithoutBeforeEnd c x
Pieces c (x ∷ y ∷ ys) = Without c x × Pieces c (y ∷ ys)

Without-snoc : (c b : ℕ) (x : List ℕ) → Without c x → (b == c) ≡ false → Without c (x ++ (b ∷ []))
Without-snoc c b [] w e = (e, tt)
Without-snoc c b (a ∷ x) w e = (w.0, Without-snoc c b x w.1 e)

Without-end : (c b : ℕ) (x : List ℕ) → Without c x → WithoutBeforeEnd c (x ++ (b ∷ []))
Without-end c b [] w = tt
Without-end c b (a ∷ []) w = (w.0, tt)
Without-end c b (a ∷ d ∷ x) w = (w.0, Without-end c b (d ∷ x) w.1)

Without-whole : (c : ℕ) (x : List ℕ) → Without c x → WithoutBeforeEnd c x
Without-whole c [] w = tt
Without-whole c (a ∷ []) w = tt
Without-whole c (a ∷ d ∷ x) w = (w.0, Without-whole c (d ∷ x) w.1)

-- The last piece, where one byte is left at most.
last-piece :
    (c b : ℕ) (piece p : List ℕ)
    → ltb 1 (length (b ∷ p)) ≡ false
    → Without c piece
    → WithoutBeforeEnd c (piece ++ (b ∷ p))
last-piece c b piece [] l w = Without-end c b piece w
last-piece c b piece (d ∷ p) l w = absurd (ground (arith, l))

split_pieces-join :
    (c : ℕ) (piece p : List ℕ)
    → (c == 32) ≡ false
    → Without c piece
    → (x : List ℕ) × (xs : List (List ℕ)) × (split_pieces (c ∷ []) 0 piece p ≡ some (x ∷ xs))
      × (join c (x ∷ xs) ≡ piece ++ p)
      × Pieces c (x ∷ xs)
unfolding split_pieces
split_pieces-join c piece [] n w =
    (piece, [], refl, sym (append-nil piece), Without-whole c piece w)
split_pieces-join c piece (b ∷ p) n w = elim (Bool-cases (ltb 1 (length (b ∷ p)))) [
  | inr l ↦ (piece ++ (b ∷ p), [], ground (arith, l), refl, last-piece c b piece p l w)
  | inl l ↦ elim (Bool-cases (b == c)) [
    | inr g ↦
        let (x, xs, e, j, q) =
          split_pieces-join c (piece ++ (b ∷ [])) p n (Without-snoc c b piece w g) in
        (x, xs, ground (arith, l, g, e), j ∙ append-snoc piece b p, q)
    | inl g ↦
        let (x, xs, e, j, q) = split_pieces-join c [] p n tt in
        (piece, x ∷ xs, ground (arith, l, g, e, n), ground (arith, j, ==_iff b c), (w, q))
  ]
]

-- A string that is split at one byte, no space, splits at each of these bytes but one that is its last:
-- the pieces with the byte between them are the string, and none of them has the byte, but the last
-- piece may end with it.
pub str_split-join :
    (c : ℕ) (p : List ℕ)
    → (c == 32) ≡ false
    → (ps : List (List ℕ)) × ((str_split p (c ∷ [])).1 ≡ some ps) × (join c ps ≡ p) × Pieces c ps
str_split-join c p n = let (x, xs, e, j, q) = split_pieces-join c [] p n tt in (x ∷ xs, e, j, q)
