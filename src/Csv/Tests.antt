-- ===== src/Csv/Tests.antt =====
-- Lines of src/csv.c.
use streem.Base.{ℕ, none, some, List, [], ◌∷◌, ◌++◌, ◌≡◌, refl, length, All, arith, false}
use streem.Value.{float, nil, str, owned}
use streem.Csv.{type_unspc, split_from, count_fields, count_from, quote, type_esc}
use streem.Csv.Convert.{Formats, csv_value, csv_string, scanned, unescape}
use streem.Csv.Line.{CsvData, Accepted, sv, sv_accept, line_values}
use streem.Csv.Count.{length-split_from}
use streem.Csv.Rows.{Wf, RowOf, sv_accept-Wf}
use streem.Csv.Quoted.{line_values-quoted}

abbrev formats : Formats
formats = record {
  parse_time = λ s. none;
  time_new = λ s u o. nil;
  time_p = λ v. false;
  fixed = λ f i n. f;
}

-- `a,"b,c"`, at a comma
abbrev line : List ℕ
line = 97 ∷ 44 ∷ 34 ∷ 98 ∷ 44 ∷ 99 ∷ 34 ∷ []

counted : count_fields 44 line ≡ some 2
unfolding count_from
counted = refl

length-split_from_example : length (split_from false 44 [] type_unspc [] line) ≡ 2
length-split_from_example = length-split_from 44 2 type_unspc [] line counted

-- `id,n`, the header line, has been read.
abbrev headed : CsvData
headed = record (sv 44) {
  headers = some (str (owned (105 ∷ 100 ∷ [])) ∷ str (owned (110 ∷ [])) ∷ []);
  n = 2;
}

-- What `7,8` gives after it.
abbrev accepted : Accepted
accepted = sv_accept formats 0 headed (55 ∷ 44 ∷ 56 ∷ [])

sv_accept-Wf_example : Wf accepted.after × All (RowOf accepted.after.n) accepted.emitted
sv_accept-Wf_example = sv_accept-Wf formats 0 headed (55 ∷ 44 ∷ 56 ∷ []) ((refl, omega arith), tt)

line_values-quoted_example :
    line_values formats (sv 44) (quote ∷ (97 ∷ 44 ∷ []) ++ (quote ∷ []))
    ≡ str (owned ((97 ∷ 44 ∷ []) ++ (quote ∷ []))) ∷ []
line_values-quoted_example =
    line_values-quoted formats (sv 44) (97 ∷ 44 ∷ []) (refl, (refl, tt)) refl

-- `1.2.3.4` is read as a number: 23 and 4 tenths.
dots : csv_value formats (49 ∷ 46 ∷ 50 ∷ 46 ∷ 51 ∷ 46 ∷ 52 ∷ []) type_unspc ≡ float 23
unfolding csv_value scanned csv_string
dots = refl

-- The doubled quote in `"a""b"` is lost.
doubled : csv_string formats (97 ∷ 34 ∷ 34 ∷ 98 ∷ 34 ∷ []) type_esc ≡ str (owned (97 ∷ 98 ∷ []))
unfolding csv_string unescape
doubled = refl
