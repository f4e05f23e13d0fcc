-- ===== src/Text.antt =====
-- src/string.c: splitting a string, its characters, and concatenation.
--
-- A string is the list of its bytes, which a NUL follows.
mod Tests
pub mod Split
pub mod Chars
pub mod Intern
pub mod Canonical
use streem.Base.{
  ℕ, zero, suc, Bool, true, false, not, Option, none, some, List, [], ◌∷◌, ◌++◌, if◌then◌else◌,
  ◌==◌, ◌&&◌, ◌||◌, ◌+◌, ◌-◌, length, ltb, leb, drop, take, map,
}

-- `memcmp(p, s, slen) == 0`
abbrev pub starts : List ℕ → List ℕ → Bool
starts [] p = true
starts (c ∷ s) [] = false
starts (c ∷ s) (b ∷ p) = (c == b) && starts s p

-- `*p == s[0]`, and the separator at p.
abbrev pub found : List ℕ → List ℕ → Bool
found s [] = false
found [] (b ∷ p) = b == 0
found (c ∷ s) (b ∷ p) = (b == c) && starts (c ∷ s) (b ∷ p)

-- A separator that is one space counts for nothing where nothing came before it.
abbrev pub blank : List ℕ → ℕ → List ℕ → Bool
blank (c ∷ []) zero [] = c == 32
blank _ _ _ = false

-- The bytes from t to p after a turn that found the separator, which is not skipped.
abbrev pub after_sep : List ℕ → ℕ → List ℕ
after_sep [] b = b ∷ []
after_sep (c ∷ s) b = []

-- The loops of `str_split` at p. `ahead` is `t - p`, or 0 where t is not beyond p, and `piece` has the
-- bytes from t to p. A loop ends where no more than the length of the separator is left.
-- The first counts.
unfoldable pub count_splits : List ℕ → (ahead : ℕ) → List ℕ → List ℕ → ℕ
count_splits s ahead piece [] = 0
count_splits s ahead piece (b ∷ p) = elim (ltb (length s) (length (b ∷ p))) [
  | false ↦ 0
  | true ↦ elim (found s (b ∷ p)) [
    | true ↦
        let rest = count_splits s (length s - 1) (after_sep s b) p in
        if blank s ahead piece then rest else suc rest
    | false ↦ elim ahead [
      | zero ↦ count_splits s 0 (piece ++ (b ∷ [])) p
      | suc k ↦ count_splits s k [] p
    ]
  ]
]

-- The second makes the strings; none is one with a negative length.
unfoldable pub split_pieces : List ℕ → (ahead : ℕ) → List ℕ → List ℕ → Option (List (List ℕ))
split_pieces s ahead piece [] = some (piece ∷ [])
split_pieces s ahead piece (b ∷ p) = elim (ltb (length s) (length (b ∷ p))) [
  | false ↦ some ((piece ++ drop ahead (b ∷ p)) ∷ [])
  | true ↦ elim (found s (b ∷ p)) [
    | true ↦ elim (split_pieces s (length s - 1) (after_sep s b) p) [
      | none ↦ none
      | some rest ↦
          if blank s ahead piece
          then some rest
          else if ltb 0 ahead
          then none
          else some (piece ∷ rest)
    ]
    | false ↦ elim ahead [
      | zero ↦ split_pieces s 0 (piece ++ (b ∷ [])) p
      | suc k ↦ split_pieces s k [] p
    ]
  ]
]

-- `str_split`: the length of the new array, and the strings.
abbrev pub str_split : List ℕ → List ℕ → ℕ × Option (List (List ℕ))
str_split p s = (suc (count_splits s 0 [] p), split_pieces s 0 [] p)

-- `str_plus`
abbrev pub str_plus : List ℕ → List ℕ → List ℕ
str_plus a b = a ++ b

-- `utf8len_codepage`
abbrev pub utf8len_codepage : ℕ → ℕ
utf8len_codepage c =
    if ltb c 192
    then 1
    else if ltb c 224
    then 2
    else if ltb c 240
    then 3
    else if ltb c 245
    then 4
    else 1

-- The test of the bytes after the first.
abbrev pub continued : ℕ → List ℕ → Bool
continued zero p = true
continued (suc n) [] = false
continued (suc n) (b ∷ p) = (leb 128 b && ltb b 192) && continued n p

-- `utf8len(s, s + slen)`: the bound is one for the whole string.
abbrev pub utf8len : ℕ → ℕ → List ℕ → ℕ
utf8len slen c p =
    let len = utf8len_codepage c in
    if ltb slen len then 1 else if continued (len - 1) p then len else 1

-- The loop of `str_chars`, with as many turns as bytes; a NUL ends it.
unfoldable pub chars_from : ℕ → ℕ → List ℕ → List (List ℕ)
chars_from zero slen p = []
chars_from (suc f) slen [] = []
chars_from (suc f) slen (c ∷ p) =
    let n = utf8len slen c p in
    let rest = chars_from f slen (drop n (c ∷ p)) in if c == 0 then [] else take n (c ∷ p) ∷ rest

-- `str_chars`
abbrev pub str_chars : List ℕ → List (List ℕ)
str_chars p = chars_from (length p) (length p) p
