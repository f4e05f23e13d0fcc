-- ===== src/Csv.antt =====
-- src/csv.c: the fields of a line, their values, and the rows of a stream of lines.
--
-- A line is the list of its bytes. The byte after the last, the NUL of a C string or what follows a field
-- in its line, is never a quote.
mod Tests
pub mod Convert
pub mod Line
pub mod Count
pub mod Rows
pub mod Quoted
use streem.Base.{
  ℕ, suc, Bool, true, false, Option, none, some, List, [], ◌∷◌, ◌++◌, if◌then◌else◌, ◌==◌, ◌&&◌,
  ◌||◌,
}

-- `enum csv_type`
pub data CsvType : Type 0 where
  type_unspc type_str type_num type_time type_esc type_int type_float : CsvType

-- `'"'`, `'\n'` and `'\r'`
abbrev pub quote : ℕ
quote = 34

abbrev pub newline : ℕ
newline = 10

abbrev pub carriage_return : ℕ
carriage_return = 13

-- A separator among the two that there are.
abbrev pub sep_p : ℕ → ℕ → Bool
sep_p sep c = ((c == 44) || (c == 9)) && (c == sep)

-- The loop of `count_fields`, with the flag `quoted` and the count so far; none is -1.
unfoldable pub count_from : Bool → ℕ → ℕ → List ℕ → Option ℕ
count_from true sep n [] = none
count_from true sep n (c ∷ []) = if c == quote then some n else none
count_from true sep n (c ∷ d ∷ cs) = elim (c == quote) [
  | false ↦ count_from true sep n (d ∷ cs)
  | true ↦ elim (d == quote) [
    | true ↦ count_from true sep n cs
    | false ↦ count_from false sep n (d ∷ cs)
  ]
]
count_from false sep n [] = some n
count_from false sep n (c ∷ cs) = elim (c == quote) [
  | true ↦ count_from true sep n cs
  | false ↦ count_from false sep (if sep_p sep c then suc n else n) cs
]

abbrev pub count_fields : ℕ → List ℕ → Option ℕ
count_fields sep line = count_from false sep 1 line

-- `types ? types[i] : TYPE_UNSPC`, and the types after it.
abbrev pub next_type : List CsvType → CsvType × List CsvType
next_type [] = (type_unspc, [])
next_type (t ∷ ts) = (t, ts)

-- A quote that opens: at the start of a field, it is left out.
abbrev pub opened : List ℕ → List ℕ × CsvType
opened [] = ([], type_str)
opened (b ∷ bs) = ((b ∷ bs) ++ (quote ∷ []), type_esc)

-- The loop of `sv_accept` over the line, with the flag `in_quote`, the bytes from `fbeg` on, `ftype`,
-- and the types of the fields after this one: the bytes and the type of each field.
unfoldable pub split_from :
    Bool → ℕ → List ℕ → CsvType → List CsvType → List ℕ → List (List ℕ × CsvType)
split_from true sep acc ty tys [] = (acc, ty) ∷ []
split_from true sep acc ty tys (c ∷ []) = (acc ++ (c ∷ []), ty) ∷ []
split_from true sep acc ty tys (c ∷ d ∷ cs) = elim (c == quote) [
  | false ↦ split_from true sep (acc ++ (c ∷ [])) ty tys (d ∷ cs)
  | true ↦ elim (d == quote) [
    | true ↦ split_from true sep (acc ++ (c ∷ d ∷ [])) type_esc tys cs
    | false ↦ split_from false sep (acc ++ (c ∷ [])) ty tys (d ∷ cs)
  ]
]
split_from false sep acc ty tys [] = (acc, ty) ∷ []
split_from false sep acc ty tys (c ∷ cs) = elim (c == quote) [
  | true ↦ split_from true sep (opened acc).0 (opened acc).1 tys cs
  | false ↦ elim (sep_p sep c) [
    | true ↦ (acc, ty) ∷ split_from false sep [] (next_type tys).0 (next_type tys).1 cs
    | false ↦ split_from false sep (acc ++ (c ∷ [])) ty tys cs
  ]
]
