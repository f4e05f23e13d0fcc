-- ===== src/Csv/Rows.antt =====
-- The rows that `sv_accept` of src/csv.c emits.
use mathlib.Core.Path.{subst}
use streem.Base.{
  ℕ, suc, false, Option, none, some, List, [], ◌∷◌, ◌≡◌, ◌<◌, refl, abort, ◌||◌, sym, ltb, ◌&&◌,
  not, ◌==◌, ==_iff, length, arith, All, map, option_case, option_case_eq, if_case, if_case_eq, ◌⊎◌,
  ap, ◌∙◌, Bool-cases, inl, inr, ap,
}
use streem.Value.{Value}
use streem.Csv.{newline, carriage_return, CsvType, split_from, count_fields, next_type}
use streem.Csv.Convert.{Formats}
use streem.Csv.Line.{
  refused, CsvData, Row, Accepted, sv_accept, accept_row, emit_row, line_values, field_values,
  trim_last, csv_type, type_list, all_str, types_agree, joined,
}
use streem.Csv.Count.{length-split_from, count_from_le}

-- As many as a line has fields, where there are any.
abbrev pub Fits : {A : Type 0} → Option (List A) → ℕ → Type 0
Fits none n = Unit
Fits (some xs) n = (length xs ≡ n) × (0 < n)

-- The header line and the types are as many as the fields of a line.
abbrev pub Wf : CsvData → Type 0
Wf cd = Fits cd.headers cd.n × Fits cd.types cd.n

-- A row of so many values, with so many labels if it has any.
abbrev pub RowOf : ℕ → Row → Type 0
RowOf n r = (length r.cells ≡ n) × Fits r.labels n

record Good (a : Accepted) : Type 0 where
  wf : Wf a.after
  rows : All (RowOf a.after.n) a.emitted

module _ (fs : Formats) where
  length-field_values :
      (xs : List (List ℕ × CsvType)) → length (field_values fs (trim_last xs)) ≡ length xs
  length-field_values [] = refl
  length-field_values ((f, t) ∷ []) = refl
  length-field_values (x ∷ y ∷ xs) = ap suc (length-field_values (y ∷ xs))

  length-types : (vs : List Value) → length (map (csv_type fs) vs) ≡ length vs
  length-types [] = refl
  length-types (v ∷ vs) = ap suc (length-types vs)

  emit-Good :
      (cd : CsvData) (vs : List Value)
      → Wf cd
      → length vs ≡ cd.n
      → 0 < cd.n
      → Good (emit_row fs cd vs)
  unfolding emit_row
  emit-Good cd vs w e p =
      let t : Fits (some (map (csv_type fs) vs)) cd.n = (length-types vs ∙ e, p) in
      let r : RowOf cd.n (record { cells = vs; labels = cd.headers }) = (e, w.0) in
      option_case Good cd.types _ _
        (option_case_eq Good cd.headers _ _ (λ q. record { wf = (w.0, t); rows = (r, tt) })
          (λ h q.
            let l : Fits (some h) cd.n = subst (λ o. Fits o cd.n) q w.0 in
            if_case Good (all_str vs) _ _ (record { wf = (tt, t); rows = ((l.0, tt), (r, tt)) })
              (record { wf = (w.0, t); rows = (r, tt) })))
        (λ ts.
          if_case Good (types_agree ts (map (csv_type fs) vs)) _ _
            (record { wf = w; rows = (r, tt) }) (record { wf = w; rows = tt }))

  accept-Good :
      (cd : CsvData) (k : ℕ) (vs : List Value)
      → Wf cd
      → length vs ≡ k
      → 0 < k
      → ((cd.n ≡ 0) ⊎ (k ≡ cd.n))
      → Good (accept_row fs cd k vs)
  unfolding accept_row
  accept-Good cd k vs w e p c =
      option_case_eq Good cd.headers _ _
        (λ a.
          option_case_eq Good cd.types _ _
            (λ b.
              let hs : Fits cd.headers k = subst (λ o. Fits o k) (sym a) tt in
              let ts : Fits cd.types k = subst (λ o. Fits o k) (sym b) tt in
              if_case Good (all_str vs) _ _ (record { wf = ((e, p), ts); rows = tt })
                (emit-Good (record cd { n = k }) vs (hs, ts) e p))
            (λ ts b.
              let q : Fits (some ts) cd.n = subst (λ o. Fits o cd.n) b w.1 in
              let r = q.1 in emit-Good cd vs w (ground arith) r))
        (λ h a.
          let q : Fits (some h) cd.n = subst (λ o. Fits o cd.n) a w.0 in
          let r = q.1 in emit-Good cd vs w (ground arith) r)

  same_count : (n k : ℕ) → (ltb 0 n && not (k == n)) ≡ false → (n ≡ 0) ⊎ (k ≡ n)
  same_count n k e = elim (Bool-cases (k == n)) [
    | inl p ↦ inr ((==_iff k n).0 p)
    | inr p ↦ elim (Bool-cases (ltb 0 n)) [ inl q ↦ ground arith | inr q ↦ inl (ground arith) ]
  ]

  sv-Good : (before : ℕ) (cd : CsvData) (line : List ℕ) → Wf cd → Good (sv_accept fs before cd line)
  unfolding sv_accept line_values
  sv-Good before cd text w =
      let line = joined cd.prev text in
      option_case_eq Good (count_fields cd.sep line) _ _ (λ a. record { wf = w; rows = tt })
        (λ k a.
          if_case_eq Good (ltb 0 cd.n && not (k == cd.n)) _ _ (λ b. record { wf = w; rows = tt })
            (λ b.
              let cd1 : CsvData = record cd { prev = none } in
              let ts = next_type (type_list cd.types) in
              let l = length-split_from cd.sep k ts.0 ts.1 line a in
              let m = count_from_le false cd.sep 1 k line a in
              if_case Good
                ((length line == 0) && ((before == newline) || (before == carriage_return)))
                (refused fs abort cd1) (accept_row fs cd1 k (line_values fs cd1 line))
                (record { wf = w; rows = tt })
                (accept-Good cd1 k (line_values fs cd1 line) w
                  (length-field_values (split_from false cd.sep [] ts.0 ts.1 line) ∙ l)
                  (omega arith) (same_count cd.n k b))))

  -- Where the header line and the types that `sv_accept` keeps are as many as the number of fields that
  -- it keeps, they are after a call, whatever the line is, and every row that it emits has as many
  -- values, and as many labels if it has any.
  pub sv_accept-Wf :
      (before : ℕ) (cd : CsvData) (line : List ℕ)
      → Wf cd
      → Wf (sv_accept fs before cd line).after
        × All (RowOf (sv_accept fs before cd line).after.n) (sv_accept fs before cd line).emitted
  sv_accept-Wf before cd line w = let g = sv-Good before cd line w in (g.wf, g.rows)
