-- ===== src/Csv/Quoted.antt =====
-- Quoted fields and numbers in src/csv.c.
use streem.Base.{
  ℕ, suc, true, false, List, [], ◌∷◌, ◌++◌, ◌≡◌, ◌+◌, ◌*◌, ◌<◌, ◌≤◌, ◌^◌, ◌%◌, ◌-◌, refl, ap,
  length, arith, All, map, append-snoc, ◌==◌, ◌∙◌,
}
use streem.Value.{int, str, owned}
use streem.Csv.{
  CsvType, type_unspc, type_str, type_int, quote, newline, carriage_return, split_from,
}
use streem.Csv.Convert.{
  scan_byte, after_digit, digit_p, space_p, Formats, Scan, csv_value, csv_string, scanned, scan,
  scan_start, starts_digit,
}
use streem.Csv.Line.{CsvData, line_values, trim}

abbrev pub Unquoted : List ℕ → Type 0
Unquoted s = All (λ c. (c == quote) ≡ false) s

split-closed :
    (sep : ℕ) (acc : List ℕ) (ty : CsvType) (tys : List CsvType) (s : List ℕ)
    → Unquoted s
    → split_from true sep acc ty tys (s ++ (quote ∷ [])) ≡ (acc ++ (s ++ (quote ∷ [])), ty) ∷ []
unfolding split_from
split-closed sep acc ty tys [] u = refl
split-closed sep acc ty tys (c ∷ []) u =
    ground
      (arith, u.0, split-closed sep (acc ++ (c ∷ [])) ty tys [] tt, append-snoc acc c (quote ∷ []))
split-closed sep acc ty tys (c ∷ d ∷ s) u = ground (
  arith,
  u.0,
  split-closed sep (acc ++ (c ∷ [])) ty tys (d ∷ s) u.1,
  append-snoc acc c (d ∷ s ++ (quote ∷ [])),
)

trim-quote :
    (c : ℕ) (s : List ℕ) → (quote == c) ≡ false → trim c (s ++ (quote ∷ [])) ≡ s ++ (quote ∷ [])
trim-quote c [] e = rw e refl
trim-quote c (b ∷ []) e = rw e refl
trim-quote c (a ∷ b ∷ s) e = ap (λ t. a ∷ t) (trim-quote c (b ∷ s) e)

-- A line that is one quoted string without quotes inside, and that starts with no digit, has the
-- string with the closing quote for its value.
pub line_values-quoted :
    (fs : Formats) (cd : CsvData) (s : List ℕ)
    → Unquoted s
    → starts_digit (s ++ (quote ∷ [])) ≡ false
    → line_values fs cd (quote ∷ s ++ (quote ∷ [])) ≡ str (owned (s ++ (quote ∷ []))) ∷ []
unfolding line_values split_from csv_value csv_string
line_values-quoted fs cd s u d =
    rw
      (
        split-closed cd.sep [] type_str _ s u,
        trim-quote newline s refl,
        trim-quote carriage_return s refl,
        d,
      )
      refl

-- The number that decimal digits write, after others that write n.
abbrev pub decimal : ℕ → List ℕ → ℕ
decimal n [] = n
decimal n (d ∷ ds) = decimal (n * 10 + d) ds

decimal_le : (n : ℕ) (ds : List ℕ) → n ≤ decimal n ds
decimal_le n [] = omega arith
decimal_le n (d ∷ ds) = let p = decimal_le (n * 10 + d) ds in omega arith

digit_step :
    (t : CsvType) (n f p d : ℕ)
    → d < 10
    → n * 10 + d < 2 ^ 32
    → scan_byte (record { type = t; i = n; f = f; pow = p }) (48 + d)
      ≡ record { type = after_digit t; i = n * 10 + d; f = f; pow = suc p }
digit_step t n f p d a l =
    let v : (n * 10 + ((48 + d) - 48)) % 2 ^ 64 ≡ n * 10 + d = omega arith in
    let b : digit_p (48 + d) ≡ true = ground arith in rw (b, v) refl

scan-decimal :
    (n f p : ℕ) (ds : List ℕ)
    → All (λ d. d < 10) ds
    → decimal n ds < 2 ^ 32
    → scan (record { type = type_int; i = n; f = f; pow = p }) (map (λ d. 48 + d) ds)
      ≡ record { type = type_int; i = decimal n ds; f = f; pow = p + length ds }
scan-decimal n f p [] a l = let q : p + 0 ≡ p = omega arith in rw q refl
scan-decimal n f p (d ∷ ds) a l =
    let m = decimal_le (n * 10 + d) ds in
    let q : p + suc (length ds) ≡ suc p + length ds = omega arith in
    let ih = scan-decimal (n * 10 + d) f (suc p) ds a.1 l in
    ap (λ (s : Scan). scan s (map (λ c. 48 + c) ds)) (digit_step type_int n f p d a.0 (omega arith))
    ∙ rw q ih

-- A field of digits that write a number below 2 ^ 32 has the integer with that pattern for its value.
pub csv_value-decimal :
    (fs : Formats) (d : ℕ) (ds : List ℕ)
    → All (λ c. c < 10) (d ∷ ds)
    → decimal 0 (d ∷ ds) < 2 ^ 32
    → csv_value fs (map (λ c. 48 + c) (d ∷ ds)) type_unspc ≡ int (decimal 0 (d ∷ ds))
unfolding csv_value scanned
csv_value-decimal fs d ds a l =
    let m = decimal_le (0 * 10 + d) ds in
    let b : space_p (48 + d) ≡ false = ground arith in
    let w : decimal (0 * 10 + d) ds % 2 ^ 32 ≡ decimal (0 * 10 + d) ds = omega arith in
    let first = digit_step type_str 0 0 0 d a.0 (omega arith) in
    let e : scan scan_start (map (λ c. 48 + c) (d ∷ ds))
        ≡ record { type = type_int; i = decimal (0 * 10 + d) ds; f = 0; pow = 1 + length ds } =
      ap (λ (s : Scan). scan s (map (λ c. 48 + c) ds)) first
      ∙ scan-decimal (0 * 10 + d) 0 1 ds a.1 l in
    let v : scanned fs (scan scan_start (map (λ c. 48 + c) (d ∷ ds))) (map (λ c. 48 + c) (d ∷ ds))
          type_unspc
        ≡ int (decimal 0 (d ∷ ds)) =
      ap (λ (s : Scan). scanned fs s (map (λ c. 48 + c) (d ∷ ds)) type_unspc) e ∙ ap int w in
    rw b v
