-- ===== src/Csv/Count.antt =====
-- The fields of a line of src/csv.c against their count.
use streem.Base.{
  ℕ, suc, Bool, true, false, some, List, [], ◌∷◌, ◌++◌, ◌==◌, ◌≡◌, ◌+◌, ◌≤◌, length, arith,
  Bool-cases, inl, inr,
}
use streem.Csv.{
  CsvType, type_esc, quote, sep_p, count_from, count_fields, split_from, opened, next_type,
}

-- Counting only goes up.
pub count_from_le : (q : Bool) (sep n k : ℕ) (cs : List ℕ) → count_from q sep n cs ≡ some k → n ≤ k
unfolding count_from
count_from_le true sep n k [] e = ground arith
count_from_le true sep n k (c ∷ []) e = ground arith
count_from_le true sep n k (c ∷ d ∷ cs) e = elim (Bool-cases (c == quote)) [
  | inr p ↦
      let e' : count_from true sep n (d ∷ cs) ≡ some k = ground arith in
      ground (arith, count_from_le true sep n k (d ∷ cs) e')
  | inl p ↦ elim (Bool-cases (d == quote)) [
    | inl r ↦
        let e' : count_from true sep n cs ≡ some k = ground arith in
        ground (arith, count_from_le true sep n k cs e')
    | inr r ↦
        let e' : count_from false sep n (d ∷ cs) ≡ some k = ground arith in
        ground (arith, count_from_le false sep n k (d ∷ cs) e')
  ]
]
count_from_le false sep n k [] e = ground arith
count_from_le false sep n k (c ∷ cs) e = elim (Bool-cases (c == quote)) [
  | inl p ↦
      let e' : count_from true sep n cs ≡ some k = ground arith in
      ground (arith, count_from_le true sep n k cs e')
  | inr p ↦ elim (Bool-cases (sep_p sep c)) [
    | inl r ↦
        let e' : count_from false sep (suc n) cs ≡ some k = ground arith in
        ground (arith, count_from_le false sep (suc n) k cs e')
    | inr r ↦
        let e' : count_from false sep n cs ≡ some k = ground arith in
        ground (arith, count_from_le false sep n k cs e')
  ]
]

-- Splitting goes on from a field as counting does.
split-count :
    (q : Bool) (sep n k : ℕ) (acc : List ℕ) (ty : CsvType) (tys : List CsvType) (cs : List ℕ)
    → count_from q sep n cs ≡ some k
    → n + length (split_from q sep acc ty tys cs) ≡ suc k
unfolding count_from split_from
split-count true sep n k acc ty tys [] e = ground arith
split-count true sep n k acc ty tys (c ∷ []) e = ground arith
split-count true sep n k acc ty tys (c ∷ d ∷ cs) e = elim (Bool-cases (c == quote)) [
  | inr p ↦
      let e' : count_from true sep n (d ∷ cs) ≡ some k = ground arith in
      ground (arith, split-count true sep n k (acc ++ (c ∷ [])) ty tys (d ∷ cs) e')
  | inl p ↦ elim (Bool-cases (d == quote)) [
    | inl r ↦
        let e' : count_from true sep n cs ≡ some k = ground arith in
        ground (arith, split-count true sep n k (acc ++ (c ∷ d ∷ [])) type_esc tys cs e')
    | inr r ↦
        let e' : count_from false sep n (d ∷ cs) ≡ some k = ground arith in
        ground (arith, split-count false sep n k (acc ++ (c ∷ [])) ty tys (d ∷ cs) e')
  ]
]
split-count false sep n k acc ty tys [] e = ground arith
split-count false sep n k acc ty tys (c ∷ cs) e = elim (Bool-cases (c == quote)) [
  | inl p ↦
      let e' : count_from true sep n cs ≡ some k = ground arith in
      ground (arith, split-count true sep n k (opened acc).0 (opened acc).1 tys cs e')
  | inr p ↦ elim (Bool-cases (sep_p sep c)) [
    | inl r ↦
        let e' : count_from false sep (suc n) cs ≡ some k = ground arith in
        ground (arith, split-count false sep (suc n) k [] (next_type tys).0 (next_type tys).1 cs e')
    | inr r ↦
        let e' : count_from false sep n cs ≡ some k = ground arith in
        ground (arith, split-count false sep n k (acc ++ (c ∷ [])) ty tys cs e')
  ]
]

-- The loop of `sv_accept` writes as many values as `count_fields` counted, which is what its array
-- has room for.
pub length-split_from :
    (sep k : ℕ) (ty : CsvType) (tys : List CsvType) (line : List ℕ)
    → count_fields sep line ≡ some k
    → length (split_from false sep [] ty tys line) ≡ k
length-split_from sep k ty tys line e =
    let p = split-count false sep 1 k [] ty tys line e in omega arith
