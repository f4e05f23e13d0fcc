-- ===== src/Node/Escape.antt =====
-- `string_escape` of src/node.c, by which a string literal gets its bytes.
--
-- The scan writes over the text that it reads, never beyond the byte that it has read, so it is a
-- function from the text to the bytes that are left.
use streem.Base.{
  ℕ, true, false, Option, none, some, List, [], ◌∷◌, if◌then◌else◌, ◌==◌, ◌&&◌, ◌+◌, ◌-◌, ◌*◌, ◌%◌,
  leb,
}

-- Where the scan is: outside an escape, behind a backslash, behind `\x`, and behind `\x` and one
-- hexadecimal digit, whose value `c` has.
pub data Mode : Type 0 where
  plain backslash hex_first : Mode
  hex_second : ℕ → Mode

-- The value of a hexadecimal digit, which is a digit or a small letter.
abbrev pub hex_digit : ℕ → Option ℕ
hex_digit b =
    if leb 48 b && leb b 57
    then some (b - 48)
    else if leb 97 b && leb b 102
    then some (b - 97 + 10)
    else none

-- The byte of an escape of one letter.
abbrev pub escape_letter : ℕ → ℕ
escape_letter b =
    if b == b'n'
    then b'\n'
    else if b == b'r'
    then b'\r'
    else if b == b't'
    then b'\t'
    else if b == b'e'
    then 27
    else if b == b'0'
    then 0
    else b

-- The loop of `string_escape`. A byte that ends the digits of `\x` is skipped.
unfoldable pub escape_from : Mode → List ℕ → List ℕ
escape_from plain [] = []
escape_from backslash [] = []
escape_from hex_first [] = 0 ∷ []
escape_from (hex_second c) [] = c ∷ []
escape_from plain (b ∷ t) = elim (b == 92) [
  | true ↦ escape_from backslash t
  | false ↦ b ∷ escape_from plain t
]
escape_from backslash (b ∷ t) = elim (b == b'x') [
  | true ↦ escape_from hex_first t
  | false ↦ escape_letter b ∷ escape_from plain t
]
escape_from hex_first (b ∷ t) = elim (hex_digit b) [
  | none ↦ 0 ∷ escape_from plain t
  | some d ↦ escape_from (hex_second d) t
]
escape_from (hex_second c) (b ∷ t) = elim (hex_digit b) [
  | none ↦ c ∷ escape_from plain t
  | some d ↦ ((c * 16 + d) % 256) ∷ escape_from plain t
]

-- `string_escape`
abbrev pub string_escape : List ℕ → List ℕ
string_escape s = escape_from plain s
