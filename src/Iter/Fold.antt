-- ===== src/Iter/Fold.antt =====
-- `count`, `min`, `max` and `reduce` of src/iter.c: streams that answer when they are closed.
use streem.Base.{
  sym, append-nil, append-snoc, ℕ, ◌+◌, ◌%◌, ◌^◌, ◌<◌, ◌≡◌, refl, Bool, true, false, not, Option,
  none, some, List, [], ◌∷◌, ◌++◌, arith, if◌then◌else◌, length, i32_inc, All, Option-cases, inl,
  inr, Bool-cases, ap, ◌∙◌,
}
use mathlib.Core.Path.{subst}
use streem.Iter.Best.{IsOrder, IsBest, IsBest-new, IsBest-old, IsBest-one}
use streem.Value.{Value, nil, int, nil_p, FloatOps, value_float}
use streem.Iter.{Out, emitting, quiet, failing, aborting, next, run, drain, drain-step}

-- `struct count_data` is its one field.
unfoldable pub iter_count : ℕ → Value → Out ℕ
iter_count d x = quiet (i32_inc d)

unfoldable pub count_finish : ℕ → Out ℕ
count_finish d = emitting d (int d ∷ [])

count_from :
    (c : ℕ) (xs : List Value)
    → c < 2 ^ 32
    → drain iter_count count_finish c xs ≡ int ((c + length xs) % 2 ^ 32) ∷ []
count_from c [] h = unfold drain count_finish in ap (λ n. int n ∷ []) (omega arith)
count_from c (x ∷ xs) h =
    drain-step iter_count count_finish c (i32_inc c) x [] xs (unfold iter_count in refl)
    ∙ count_from (i32_inc c) xs (omega arith)
    ∙ ap (λ n. int n ∷ []) (omega arith)

-- `count()` answers with the number of values, as a 32-bit integer, and with nothing else.
pub iter_count_lem :
    (xs : List Value) → drain iter_count count_finish 0 xs ≡ int (length xs % 2 ^ 32) ∷ []
iter_count_lem xs = count_from 0 xs (omega arith) ∙ ap (λ n. int n ∷ []) (omega arith)

-- `struct reduce_data`.
pub record Reduce : Type 0 where
  pub init : Bool
  pub acc : Value
  pub func : Value

-- `exec_reduce`, by the number of arguments.
unfoldable pub exec_reduce : Value → Option Value → Reduce
exec_reduce v1 none = record { init = false; acc = nil; func = v1 }
exec_reduce v1 (some v2) = record { init = true; acc = v1; func = v2 }

module _ (call : Value → List Value → Option Value) where
  unfoldable pub iter_reduce : Reduce → Value → Out Reduce
  iter_reduce d x =
      if not d.init
      then quiet (record d { init = true; acc = x })
      else elim (call d.func (d.acc ∷ x ∷ [])) [
        | none ↦ failing d
        | some v ↦ quiet (record d { acc = v })
      ]

unfoldable pub reduce_finish : Reduce → Out Reduce
reduce_finish d = if not d.init then failing d else emitting d (d.acc ∷ [])

module _ (call : Value → List Value → Option Value) (f : Value) where
  -- A fold from the left; a value on which the function fails is passed over.
  abbrev pub fold : Value → List Value → Value
  fold acc [] = acc
  fold acc (x ∷ xs) = fold (elim (call f (acc ∷ x ∷ [])) [ none ↦ acc | some v ↦ v ]) xs

  reduce_from :
      (acc : Value) (xs : List Value)
      → drain (iter_reduce call) reduce_finish (record { init = true; acc = acc; func = f }) xs
        ≡ fold acc xs ∷ []
  unfolding drain run next iter_reduce reduce_finish
  reduce_from acc [] = refl
  reduce_from acc (x ∷ xs) = elim (Option-cases (call f (acc ∷ x ∷ []))) [
    | inl e ↦ ground (arith, reduce_from acc xs)
    | inr (v, e) ↦ ground (arith, reduce_from v xs)
  ]

  -- `reduce(v, f)` answers with the fold of all values from v, `reduce(f)` with the fold of the
  -- others from the first value, and with nothing where there is no value.
  pub iter_reduce_lem :
      (v x : Value) (xs : List Value)
      → (drain (iter_reduce call) reduce_finish (exec_reduce v (some f)) xs ≡ fold v xs ∷ [])
        × (drain (iter_reduce call) reduce_finish (exec_reduce f none) (x ∷ xs) ≡ fold x xs ∷ [])
        × (drain (iter_reduce call) reduce_finish (exec_reduce f none) [] ≡ [])
  unfolding exec_reduce
  iter_reduce_lem v x xs = (
    reduce_from v xs,
    (unfold drain run next iter_reduce in reduce_from x xs),
    (unfold drain reduce_finish in refl),
  )

-- `struct minmax_data`; `num` and `key` are the machine's doubles.
pub record MinMax : Type 0 where
  pub start : Bool
  pub min : Bool
  pub best : Value
  pub num : ℕ
  pub func : Value

-- `exec_minmax`, with nil for a function that is not given.
unfoldable pub exec_minmax : Value → Bool → MinMax
exec_minmax func min = record { start = true; min = min; best = nil; num = 0; func = func }

module _ (fo : FloatOps) (call : Value → List Value → Option Value) where
  -- The update with the number of the new value.
  abbrev pub better : MinMax → Value → ℕ → MinMax
  better d x num =
      if d.start
      then record d { start = false; num = num; best = x }
      else if d.min
      then (if fo.flt num d.num then record d { num = num; best = x } else d)
      else (if fo.flt d.num num then record d { num = num; best = x } else d)

  abbrev measured : MinMax → Value → Value → Out MinMax
  measured d x e = elim (value_float fo e) [ none ↦ aborting d | some num ↦ quiet (better d x num) ]

  unfoldable pub iter_minmax : MinMax → Value → Out MinMax
  iter_minmax d x =
      if not (nil_p d.func)
      then elim (call d.func (x ∷ [])) [ none ↦ failing d | some e ↦ measured d x e ]
      else measured d x x

unfoldable pub minmax_finish : MinMax → Out MinMax
minmax_finish d = emitting d (d.best ∷ [])

-- What is documented of `<` on doubles that are no NaN (`a == a`).
pub record FloatLaws (fo : FloatOps) : Type 0 where
  pub asym : (a b : ℕ) → fo.flt a b ≡ true → fo.flt b a ≡ false
  pub neg_trans :
      (a b c : ℕ) → fo.feq b b ≡ true → fo.flt a b ≡ false → fo.flt b c ≡ false → fo.flt a c ≡ false

module _ (fo : FloatOps) (call : Value → List Value → Option Value) where
  -- The number by which a value is judged: its own, or that of the function's result.
  abbrev pub judged : Value → Value → Option ℕ
  judged func x =
      if not (nil_p func)
      then elim (call func (x ∷ [])) [ none ↦ none | some e ↦ value_float fo e ]
      else value_float fo x

  -- Whether one value is better than another, by numbers known for them.
  abbrev pub ahead : Bool → (Value → ℕ) → Value → Value → Bool
  ahead min k x y = if min then fo.flt (k x) (k y) else fo.flt (k y) (k x)

  ahead-IsOrder :
      (min : Bool) (k : Value → ℕ)
      → FloatLaws fo
      → ((x : Value) → fo.feq (k x) (k x) ≡ true)
      → IsOrder (ahead min k)
  ahead-IsOrder true k l n = record {
    asym = λ x y h. l.asym (k x) (k y) h;
    neg_trans = λ x y z g h. l.neg_trans (k x) (k y) (k z) (n y) g h;
  }
  ahead-IsOrder false k l n = record {
    asym = λ x y h. l.asym (k y) (k x) h;
    neg_trans = λ x y z g h. l.neg_trans (k z) (k y) (k x) (n y) h g;
  }

  minmax_step :
      (d : MinMax) (x : Value) (num : ℕ)
      → judged d.func x ≡ some num
      → iter_minmax fo call d x ≡ quiet (better fo call d x num)
  unfolding iter_minmax
  minmax_step d x num h = ground arith

  module _ (func : Value) (min : Bool) (k : Value → ℕ) (o : IsOrder (ahead min k)) where
    abbrev holding : Value → MinMax
    holding b = record { start = false; min = min; best = b; num = k b; func = func }

    minmax_from :
        (ys : List Value) (b : Value) (xs : List Value)
        → IsBest (ahead min k) ys b
        → All (λ x. judged func x ≡ some (k x)) xs
        → (c : Value) × (drain (iter_minmax fo call) minmax_finish (holding b) xs ≡ c ∷ [])
          × IsBest (ahead min k) (ys ++ xs) c
    minmax_from ys b [] h a = (
      b,
      (unfold drain minmax_finish in refl),
      subst (λ l. IsBest (ahead min k) l b) (sym (append-nil ys)) h,
    )
    minmax_from ys b (x ∷ xs) h a = elim (Bool-cases (ahead min k x b)) [
      | inl e ↦
          let (c, p, q) = minmax_from (ys ++ (x ∷ [])) x xs (IsBest-new _ o ys b x h e) a.1 in
          (
            c,
            drain-step (iter_minmax fo call) minmax_finish (holding b) (holding x) x [] xs
                  (minmax_step (holding b) x (k x) a.0 ∙ ground arith)
                ∙ p,
            subst (λ l. IsBest (ahead min k) l c) (append-snoc ys x xs) q,
          )
      | inr e ↦
          let (c, p, q) = minmax_from (ys ++ (x ∷ [])) b xs (IsBest-old _ o ys b x h e) a.1 in
          (
            c,
            drain-step (iter_minmax fo call) minmax_finish (holding b) (holding b) x [] xs
                  (minmax_step (holding b) x (k x) a.0 ∙ ground arith)
                ∙ p,
            subst (λ l. IsBest (ahead min k) l c) (append-snoc ys x xs) q,
          )
    ]

  -- `min` and `max` answer with one of the values: every value before it is strictly worse and none
  -- after it is better, where all values, or the function's results on them, are numbers and no NaN.
  pub iter_minmax_lem :
      (func : Value) (min : Bool) (k : Value → ℕ) (x : Value) (xs : List Value)
      → FloatLaws fo
      → ((y : Value) → fo.feq (k y) (k y) ≡ true)
      → All (λ y. judged func y ≡ some (k y)) (x ∷ xs)
      → (c : Value) × (drain (iter_minmax fo call) minmax_finish (exec_minmax func min) (x ∷ xs)
          ≡ c ∷ [])
        × IsBest (ahead min k) (x ∷ xs) c
  unfolding exec_minmax
  iter_minmax_lem func min k x xs l n a =
      let o = ahead-IsOrder min k l n in
      let (c, p, q) = minmax_from func min k o (x ∷ []) x xs (IsBest-one _ o x) a.1 in
      (
        c,
        drain-step (iter_minmax fo call) minmax_finish (exec_minmax func min)
              (holding func min k o x) x [] xs (minmax_step (exec_minmax func min) x (k x) a.0)
            ∙ p,
        q,
      )
