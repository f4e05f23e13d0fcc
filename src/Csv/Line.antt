-- ===== src/Csv/Line.antt =====
-- The callbacks of src/csv.c: `sv_accept`, `sv_finish`, `ltsv_accept`, and `number`.
use streem.Base.{
  ℕ, Bool, true, false, not, Option, none, some, List, [], ◌∷◌, ◌++◌, if◌then◌else◌, ◌==◌, ◌&&◌,
  ◌||◌, ltb, length, map, Status, ok, ng, abort,
}
use streem.Value.{Value, str, arr, owned, bytes, of_list, number_p, string_p}
use streem.Csv.{
  CsvType, type_unspc, type_str, type_num, type_time, newline, carriage_return, count_fields,
  next_type, split_from,
}
use streem.Csv.Convert.{Formats, csv_value}

-- `struct csv_data`: the values of the header line, and the types of the first data line.
pub record CsvData : Type 0 where
  pub headers : Option (List Value)
  pub types : Option (List CsvType)
  pub prev : Option (List ℕ)
  pub sep : ℕ
  pub n : ℕ

-- The allocation in `sv`.
abbrev pub sv : ℕ → CsvData
sv sep = record { headers = none; types = none; prev = none; sep = sep; n = 0 }

-- A row: its values, and the labels that it shows.
pub record Row : Type 0 where
  pub cells : List Value
  pub labels : Option (List Value)

-- What a call of a callback left: the status, the state, the rows emitted, and whether it raised
-- "csv type mismatch".
pub record Accepted : Type 0 where
  pub status : Status
  pub after : CsvData
  pub emitted : List Row
  pub raised : Bool

abbrev pub same_type : CsvType → CsvType → Bool
same_type type_str type_str = true
same_type type_num type_num = true
same_type type_time type_time = true
same_type _ _ = false

-- The loop of the type check; `types` has as many types as the row has values.
abbrev pub types_agree : List CsvType → List CsvType → Bool
types_agree (t ∷ ts) (u ∷ us) = same_type t u && types_agree ts us
types_agree _ _ = true

abbrev pub all_str : List Value → Bool
all_str [] = true
all_str (v ∷ vs) = string_p v && all_str vs

-- Without its last byte, if that is c.
abbrev pub trim : ℕ → List ℕ → List ℕ
trim c [] = []
trim c (b ∷ []) = if b == c then [] else b ∷ []
trim c (a ∷ b ∷ bs) = a ∷ trim c (b ∷ bs)

-- The last field loses a newline, and then a carriage return.
abbrev pub trim_last : List (List ℕ × CsvType) → List (List ℕ × CsvType)
trim_last [] = []
trim_last ((f, t) ∷ []) = (trim carriage_return (trim newline f), t) ∷ []
trim_last (x ∷ y ∷ fs) = x ∷ trim_last (y ∷ fs)

-- The line with the one before it, where that one ended within quotes.
abbrev pub joined : Option (List ℕ) → List ℕ → List ℕ
joined none line = line
joined (some p) line = p ++ newline ∷ line

abbrev pub type_list : Option (List CsvType) → List CsvType
type_list none = []
type_list (some ts) = ts

module _ (fs : Formats) where
  -- `csv_type`
  abbrev pub csv_type : Value → CsvType
  csv_type v = if number_p v then type_num else if fs.time_p v then type_time else type_str

  abbrev pub field_values : List (List ℕ × CsvType) → List Value
  field_values [] = []
  field_values ((f, t) ∷ xs) = csv_value fs f t ∷ field_values xs

  -- The values of a line with the types known.
  unfoldable pub line_values : CsvData → List ℕ → List Value
  unfolding split_from csv_value
  line_values cd line =
      let ts = next_type (type_list cd.types) in
      field_values (trim_last (split_from false cd.sep [] ts.0 ts.1 line))

  -- The end of `sv_accept`, for a row that is not a header line.
  unfoldable pub emit_row : CsvData → List Value → Accepted
  emit_row cd vs =
      let row : Row = record { cells = vs; labels = cd.headers } in
      elim cd.types [
        | some ts ↦
            if types_agree ts (map csv_type vs)
            then record { status = ok; after = cd; emitted = row ∷ []; raised = false }
            else record { status = ng; after = cd; emitted = []; raised = true }
        | none ↦
            let typed = record cd { types = some (map csv_type vs) } in
            elim cd.headers [
              | none ↦ record { status = ok; after = typed; emitted = row ∷ []; raised = false }
              | some h ↦
                  if all_str vs
                  then record {
                    status = ok;
                    after = record typed { headers = none };
                    emitted = record { cells = h; labels = none } ∷ row ∷ [];
                    raised = false;
                  }
                  else record { status = ok; after = typed; emitted = row ∷ []; raised = false }
            ]
      ]

  -- `sv_accept` after the fields are counted.
  unfoldable pub accept_row : CsvData → ℕ → List Value → Accepted
  unfolding emit_row
  accept_row cd k vs =
      let counted = record cd { n = k } in
      elim cd.headers [
        | some h ↦ emit_row cd vs
        | none ↦ elim cd.types [
          | some ts ↦ emit_row cd vs
          | none ↦
              if all_str vs
              then record {
                status = ok;
                after = record counted { headers = some vs };
                emitted = [];
                raised = false;
              }
              else emit_row counted vs
        ]
      ]

  abbrev pub refused : Status → CsvData → Accepted
  refused s cd = record { status = s; after = cd; emitted = []; raised = false }

  -- `sv_accept`. The byte before an empty line is read: `before`.
  unfoldable pub sv_accept : (before : ℕ) → CsvData → List ℕ → Accepted
  unfolding accept_row line_values
  sv_accept before cd text =
      let line = joined cd.prev text in
      let cd1 = record cd { prev = none } in
      let misread = (length line == 0) && ((before == newline) || (before == carriage_return)) in
      elim (count_fields cd.sep line) [
        | none ↦ refused ng (record cd1 { prev = some line })
        | some k ↦
            if ltb 0 cd.n && not (k == cd.n)
            then refused ng cd1
            else if misread
            then refused abort cd1
            else accept_row cd1 k (line_values cd1 line)
      ]

  -- `sv_finish`: a header line without data is a row.
  unfoldable pub sv_finish : CsvData → List Row
  sv_finish cd = elim cd.types [
    | some ts ↦ []
    | none ↦ elim cd.headers [ none ↦ [] | some h ↦ record { cells = h; labels = none } ∷ [] ]
  ]

  -- `memchr` over the rest of the line: what is before the byte, and what is after it if it is there.
  abbrev pub cut : ℕ → List ℕ → List ℕ × Option (List ℕ)
  cut c [] = ([], none)
  cut c (b ∷ bs) = if b == c then ([], some bs) else (b ∷ (cut c bs).0, (cut c bs).1)

  -- A field of `ltsv_accept`: the label, or none, and the value.
  abbrev pub ltsv_field : List ℕ → Option (List ℕ) × Value
  ltsv_field f =
      let r = cut 58 f in
      let rest : List ℕ = elim r.1 [ none ↦ f | some v ↦ v ] in
      let label : Option (List ℕ) = elim r.1 [ none ↦ none | some v ↦ some r.0 ] in
      (label, elim rest [ [] ↦ str (owned []) | b ∷ bs ↦ csv_value fs (b ∷ bs) type_unspc ])

  -- The two loops of `ltsv_accept`, which end with the line: nothing follows a tab at the end. The
  -- first argument is the field so far.
  unfoldable pub ltsv_fields : List ℕ → List ℕ → List (Option (List ℕ) × Value)
  unfolding csv_value
  ltsv_fields [] [] = []
  ltsv_fields (a ∷ acc) [] = ltsv_field (a ∷ acc) ∷ []
  ltsv_fields acc (c ∷ cs) = elim (c == 9) [
    | true ↦ ltsv_field acc ∷ ltsv_fields [] cs
    | false ↦ ltsv_fields (acc ++ (c ∷ [])) cs
  ]

  abbrev pub labels : List (Option (List ℕ) × Value) → List (Option (List ℕ))
  labels [] = []
  labels ((k, v) ∷ xs) = k ∷ labels xs

  abbrev pub values : List (Option (List ℕ) × Value) → List Value
  values [] = []
  values ((k, v) ∷ xs) = v ∷ values xs

  -- `ltsv_accept`: the row emitted; none is "ltsv: string required".
  unfoldable pub ltsv_accept : Value → Option Value
  unfolding ltsv_fields
  ltsv_accept (str s) =
      let xs = ltsv_fields [] (bytes s) in
      some (arr (record { ns = none; labels = some (labels xs) }) (of_list (values xs)))
  ltsv_accept _ = none

  -- `str_number`: none is "invalid string for number".
  unfoldable pub str_number : List ℕ → Option Value
  unfolding csv_value
  str_number s = let v = csv_value fs s type_num in if number_p v then some v else none
