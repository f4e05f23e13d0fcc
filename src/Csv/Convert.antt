-- ===== src/Csv/Convert.antt =====
-- The value of a field: `csv_string` and `csv_value` of src/csv.c.
use streem.Base.{
  ℕ, suc, Bool, true, false, Option, none, some, List, [], ◌∷◌, if◌then◌else◌, ◌==◌, ◌&&◌, ◌||◌,
  ◌+◌, ◌*◌, ◌-◌, ◌%◌, ◌^◌, leb,
}
use streem.Value.{Value, int, float, str, owned}
use streem.Csv.{
  CsvType, type_unspc, type_str, type_num, type_time, type_esc, type_int, type_float, quote,
}

abbrev pub digit_p : ℕ → Bool
digit_p c = leb 48 c && leb c 57

-- `isspace`
abbrev pub space_p : ℕ → Bool
space_p c = (c == 32) || (leb 9 c && leb c 13)

-- The loop of `csv_string` over an escaped string. After a doubled quote the second of the two is
-- looked at again.
unfoldable pub unescape : Bool → List ℕ → List ℕ
unescape q [] = []
unescape false (c ∷ cs) = elim (c == quote) [
  | true ↦ unescape true cs
  | false ↦ c ∷ unescape false cs
]
unescape true (c ∷ []) = if c == quote then [] else c ∷ []
unescape true (c ∷ d ∷ cs) = elim (c == quote) [
  | false ↦ c ∷ unescape true (d ∷ cs)
  | true ↦ elim (d == quote) [
    | true ↦ quote ∷ unescape true (d ∷ cs)
    | false ↦ unescape false (d ∷ cs)
  ]
]

abbrev pub skip_spaces : List ℕ → List ℕ
skip_spaces [] = []
skip_spaces (c ∷ cs) = if space_p c then skip_spaces cs else c ∷ cs

-- The variables of the loop of `csv_value`: `type`, `i`, a `long` with its wrap-around, `f` before the
-- last dot, and how often `pow` was multiplied by 10.
pub record Scan : Type 0 where
  pub type : CsvType
  pub i : ℕ
  pub f : ℕ
  pub pow : ℕ

abbrev pub float_type_p : CsvType → Bool
float_type_p type_float = true
float_type_p _ = false

abbrev pub after_digit : CsvType → CsvType
after_digit type_str = type_int
after_digit t = t

-- A turn of that loop.
abbrev pub scan_byte : Scan → ℕ → Scan
scan_byte s c =
    if digit_p c
    then record s { type = after_digit s.type; i = (s.i * 10 + (c - 48)) % 2 ^ 64; pow = suc s.pow }
    else if c == 46
    then (if float_type_p s.type
        then record s { type = type_time }
        else record { type = type_float; i = 0; f = s.i; pow = 0 })
    else record s { type = type_unspc }

abbrev pub scan : Scan → List ℕ → Scan
scan s [] = s
scan s (c ∷ cs) = scan (scan_byte s c) cs

abbrev pub scan_start : Scan
scan_start = record { type = type_str; i = 0; f = 0; pow = 0 }

-- `parse_time` is `strm_time_parse_time`, `time_new` is `strm_time_new`, and `fixed f i n` is the
-- `double` that is `(double)f + i / pow`, with `pow` 1 multiplied by 10 n times.
pub record Formats : Type 0 where
  pub parse_time : List ℕ → Option (ℕ × ℕ × ℕ)
  pub time_new : ℕ → ℕ → ℕ → Value
  pub time_p : Value → Bool
  pub fixed : ℕ → ℕ → ℕ → ℕ

abbrev pub starts_digit : List ℕ → Bool
starts_digit [] = false
starts_digit (c ∷ cs) = digit_p c

module _ (fs : Formats) where
  -- `csv_string`
  unfoldable pub csv_string : List ℕ → CsvType → Value
  unfolding unescape
  csv_string p type_esc = str (owned (unescape false p))
  csv_string p _ =
      if starts_digit p
      then elim (fs.parse_time p) [
        | none ↦ str (owned p)
        | some (sec, usec, offset) ↦ fs.time_new sec usec offset
      ]
      else str (owned p)

  -- The end of `csv_value`; `strm_int_value` takes an `int32_t`.
  unfoldable pub scanned : Scan → List ℕ → CsvType → Value
  unfolding csv_string
  scanned s p ftype = elim s.type [
    | type_int ↦ int (s.i % 2 ^ 32)
    | type_float ↦ float (fs.fixed s.f s.i s.pow)
    | _ ↦ csv_string p ftype
  ]

  -- `csv_value`
  unfoldable pub csv_value : List ℕ → CsvType → Value
  unfolding scanned csv_string
  csv_value p type_unspc = scanned (scan scan_start (skip_spaces p)) p type_unspc
  csv_value p type_num = scanned (scan scan_start (skip_spaces p)) p type_num
  csv_value p ftype = csv_string p ftype
