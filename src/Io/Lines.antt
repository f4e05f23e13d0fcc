-- ===== src/Io/Lines.antt =====
-- The lines of a text, as the reader of src/io.c is to find them.
use streem.Base.{
  Bool-cases, Option-cases, inl, inr, ℕ, suc, zero, List, [], ◌∷◌, ◌++◌, ◌≡◌, ◌==◌, ◌+◌, take, drop,
  length, none, some, arith, refl, ap, sym, ◌∙◌, append-nil, append-snoc, ◌<◌, true, false, Bool,
}
use streem.Io.{memchr}

-- The lines of a text whose first line starts with the bytes of `piece`. The bytes behind the last
-- newline are a line if there are any.
unfoldable pub lines_from : List ℕ → List ℕ → List (List ℕ)
lines_from [] [] = []
lines_from (a ∷ piece) [] = (a ∷ piece) ∷ []
lines_from piece (c ∷ s) = elim (c == b'\n') [
  | true ↦ piece ∷ lines_from [] s
  | false ↦ lines_from (piece ++ (c ∷ [])) s
]

abbrev pub lines : List ℕ → List (List ℕ)
lines s = lines_from [] s

memchr-here : (c : ℕ) (s : List ℕ) (i : ℕ) → (c == b'\n') ≡ true → memchr (c ∷ s) ≡ some i → i ≡ 0
memchr-here c s i e h = ground (arith, e, h)

memchr-later :
    (c : ℕ) (s : List ℕ) (i : ℕ)
    → (c == b'\n') ≡ false
    → memchr (c ∷ s) ≡ some i
    → (j : ℕ) × (i ≡ suc j) × (memchr s ≡ some j)
memchr-later c s i e h = elim (Option-cases (memchr s)) [
  | inl q ↦ absurd (ground (arith, e, h, q))
  | inr (j, q) ↦ (j, ground (arith, e, h, q), q)
]

memchr-none :
    (c : ℕ) (s : List ℕ) → memchr (c ∷ s) ≡ none → ((c == b'\n') ≡ false) × (memchr s ≡ none)
memchr-none c s h = elim (Option-cases (memchr s)) [
  | inl q ↦ (ground (arith, h, q), q)
  | inr (j, q) ↦ absurd (ground (arith, h, q))
]

lines_from-newline :
    (piece s rest : List ℕ) (i : ℕ)
    → memchr s ≡ some i
    → lines_from piece (s ++ rest) ≡ (piece ++ take i s) ∷ lines_from [] (drop (suc i) s ++ rest)
unfolding lines_from
lines_from-newline piece [] rest i h = cc
lines_from-newline piece (c ∷ s) rest i h = elim (Bool-cases (c == b'\n')) [
  | inl e ↦ rw (memchr-here c s i e h) (rw (e, lines_from) (rw append-nil refl))
  | inr e ↦
      let (j, q, r) = memchr-later c s i e h in
      rw q (
        rw (e, lines_from)
          (lines_from-newline (piece ++ (c ∷ [])) s rest j r
            ∙ ap (λ l. l ∷ lines_from [] (drop (suc j) s ++ rest))
                (append-snoc piece c (take j s))))
]

lines_from-rest :
    (a : ℕ) (piece s : List ℕ) → memchr s ≡ none → lines_from (a ∷ piece) s ≡ (a ∷ piece ++ s) ∷ []
unfolding lines_from
lines_from-rest a piece [] h = rw append-nil refl
lines_from-rest a piece (c ∷ s) h =
    let (e, q) = memchr-none c s h in
    rw (e, lines_from)
      (lines_from-rest a (piece ++ (c ∷ [])) s q ∙ ap (λ l. (a ∷ l) ∷ []) (append-snoc piece c s))

pub memchr-lt-length : (s : List ℕ) (i : ℕ) → memchr s ≡ some i → i < length s
memchr-lt-length [] i h = absurd (cc h)
memchr-lt-length (c ∷ s) i h = elim (Bool-cases (c == b'\n')) [
  | inl e ↦ omega (arith, memchr-here c s i e h)
  | inr e ↦ let (j, q, r) = memchr-later c s i e h in omega (arith, memchr-lt-length s j r)
]

-- The first line ends at the newline that `memchr` finds.
pub lines-newline :
    (s rest : List ℕ) (i : ℕ)
    → memchr s ≡ some i
    → lines (s ++ rest) ≡ take i s ∷ lines (drop (suc i) s ++ rest)
lines-newline s rest i h = lines_from-newline [] s rest i h

-- Where it finds none, the text is one line, if it is not empty.
pub lines-rest : (a : ℕ) (s : List ℕ) → memchr (a ∷ s) ≡ none → lines (a ∷ s) ≡ (a ∷ s) ∷ []
unfolding lines_from
lines-rest a s h = let (e, q) = memchr-none a s h in rw (e, lines_from) (lines_from-rest a [] s q)

drop-nil : (i : ℕ) → drop {A = ℕ} i [] ≡ []
drop-nil zero = refl
drop-nil (suc i) = refl

pub drop-drop : (i j : ℕ) (xs : List ℕ) → drop i (drop j xs) ≡ drop (j + i) xs
drop-drop i zero xs = let e : i ≡ 0 + i = omega arith in ap (λ k. drop k xs) e
drop-drop i (suc j) [] = drop-nil i ∙ sym (drop-nil (suc j + i))
drop-drop i (suc j) (x ∷ xs) =
    let e : suc (j + i) ≡ suc j + i = omega arith in drop-drop i j xs ∙ ap (λ k. drop k (x ∷ xs)) e

pub lines-nil : lines [] ≡ []
unfolding lines_from
lines-nil = refl

-- The text is empty, or a newline is its last byte.
abbrev pub ends_line : List ℕ → Bool
ends_line [] = true
ends_line (c ∷ []) = c == b'\n'
ends_line (c ∷ d ∷ s) = ends_line (d ∷ s)

later : (c : ℕ) (s : List ℕ) (j : ℕ) → memchr s ≡ some j → ends_line s ≡ ends_line (c ∷ s)
later c [] j h = cc
later c (d ∷ s) j h = refl

pub ends_line-drop :
    (s : List ℕ) (i : ℕ) → memchr s ≡ some i → ends_line (drop (suc i) s) ≡ ends_line s
ends_line-drop [] i h = absurd (cc h)
ends_line-drop (c ∷ s) i h = elim (Bool-cases (c == b'\n')) [
  | inl e ↦ rw (memchr-here c s i e h) (here s e)
  | inr e ↦ let (j, q, r) = memchr-later c s i e h in rw q (ends_line-drop s j r ∙ later c s j r)
]
  where
    here : (t : List ℕ) → (c == b'\n') ≡ true → ends_line t ≡ ends_line (c ∷ t)
    here [] e = sym e
    here (d ∷ t) e = refl

pub ends_line-none : (a : ℕ) (s : List ℕ) → memchr (a ∷ s) ≡ none → ends_line (a ∷ s) ≡ false
ends_line-none a [] h = (memchr-none a [] h).0
ends_line-none a (b ∷ s) h = ends_line-none b s (memchr-none a (b ∷ s) h).1
