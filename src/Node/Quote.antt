-- ===== src/Node/Quote.antt =====
-- What `string_escape` of src/node.c makes of the text that `str_dump` of src/value.c writes.
use streem.Base.{
  ℕ, suc, List, [], ◌∷◌, ◌++◌, ◌≡◌, ◌≢◌, ◌<◌, ◌≤◌, length, arith, ◌+◌, ◌==◌, ◌*◌, bool_case,
  option_case, ◌%◌,
}
use streem.Value.Dump.{Exact}
use streem.Node.Escape.{
  Mode, plain, backslash, hex_first, hex_second, escape_from, string_escape, hex_digit,
  escape_letter,
}

-- A byte other than the backslash.
abbrev pub Plain : ℕ → Type 0
Plain c = (c < 256) × (c ≢ 92)

-- The byte c is read back from the text l.
abbrev ReadsBack : ℕ → List ℕ → List ℕ → Type 0
ReadsBack c rest l = escape_from plain (l ++ rest) ≡ c ∷ escape_from plain rest

-- A byte that is no backslash, and no control character but \n, \r and \t.
abbrev pub Quotable : ℕ → Type 0
Quotable c = Plain c × Exact c

-- The bytes that the scan has read and not written yet, at most.
abbrev pending : Mode → ℕ
pending plain = 0
pending backslash = 1
pending hex_first = 2
pending (hex_second c) = 3

length-escape_from : (m : Mode) (s : List ℕ) → length (escape_from m s) ≤ length s + pending m
unfolding escape_from
length-escape_from plain [] = omega arith
length-escape_from backslash [] = omega arith
length-escape_from hex_first [] = omega arith
length-escape_from (hex_second c) [] = omega arith
length-escape_from plain (b ∷ t) =
    bool_case (λ l. length l ≤ suc (length t) + 0) (b == 92) (escape_from backslash t)
      (b ∷ escape_from plain t) (omega (arith, length-escape_from backslash t))
      (omega (arith, length-escape_from plain t))
length-escape_from backslash (b ∷ t) =
    bool_case (λ l. length l ≤ suc (length t) + 1) (b == b'x') (escape_from hex_first t)
      (escape_letter b ∷ escape_from plain t) (omega (arith, length-escape_from hex_first t))
      (omega (arith, length-escape_from plain t))
length-escape_from hex_first (b ∷ t) =
    option_case (λ l. length l ≤ suc (length t) + 2) (hex_digit b) (0 ∷ escape_from plain t)
      (λ d. escape_from (hex_second d) t) (omega (arith, length-escape_from plain t))
      (λ d. omega (arith, length-escape_from (hex_second d) t))
length-escape_from (hex_second c) (b ∷ t) =
    option_case (λ l. length l ≤ suc (length t) + 3) (hex_digit b) (c ∷ escape_from plain t)
      (λ d. ((c * 16 + d) % 256) ∷ escape_from plain t) (omega (arith, length-escape_from plain t))
      (λ d. omega (arith, length-escape_from plain t))

-- The text gets no longer, so the scan never writes over a byte that it has not read.
pub length-string_escape : (s : List ℕ) → length (string_escape s) ≤ length s
length-string_escape s = omega (arith, length-escape_from plain s)
