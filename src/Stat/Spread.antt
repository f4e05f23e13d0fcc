-- ===== src/Stat/Spread.antt =====
-- The deviations and the correlation of src/stat.c.
use streem.Base.{
  ℕ, Bool, true, false, Option, none, some, List, [], ◌∷◌, if◌then◌else◌, Status, ok, ng, abort,
  i32_inc, i32_dec, ◌&&◌, suc, length,
}
use streem.Value.{Value, end, cons, arr, float, number_p, value_float, ary_new}
use streem.Stat.{StatOps, of_int, fadd, fsub, fmul, fdiv, convert_number}

-- `enum stdev_mode`
pub data StdevMode : Type 0 where
  mode_stdev mode_variance mode_mean_stdev mode_mean_variance : StdevMode

-- `struct stdev_data`, less its function and its mode: the count, the mean and the sum of squares.
pub record StdevData : Type 0 where
  pub num : ℕ
  pub s1 : ℕ
  pub s2 : ℕ

-- `struct correl_data`
pub record CorrelData : Type 0 where
  pub n : ℕ
  pub sx : ℕ
  pub sy : ℕ
  pub sxx : ℕ
  pub syy : ℕ
  pub sxy : ℕ

module _ (so : StatOps) where
  -- `m * a * b / n`
  abbrev pub scaled : ℕ → ℕ → ℕ → ℕ → ℕ
  scaled m a b n = fdiv so (fmul so (fmul so (of_int so m) a) b) (of_int so n)

  -- The mean and the sum of squares after the value number n, where m is n - 1.
  abbrev pub spread : (m n : ℕ) → ℕ → ℕ → ℕ → ℕ × ℕ
  spread m n s1 s2 v =
      let x : ℕ = fsub so v s1 in
      (fadd so s1 (fdiv so x (of_int so n)), fadd so s2 (scaled m x x n))

  abbrev pub stdev_add : StdevData → ℕ → StdevData
  stdev_add d v =
      let n = i32_inc d.num in
      let (a, b) = spread (i32_dec n) n d.s1 d.s2 v in record { num = n; s1 = a; s2 = b }

  -- `iter_stdev`, which does not look whether the value is a number.
  unfoldable pub iter_stdev : StdevData → Value → Status × StdevData
  iter_stdev d v = elim (value_float so.ar.ops v) [
    | none ↦ (abort, d)
    | some x ↦ (ok, stdev_add d x)
  ]

  -- `iter_stdevf`
  unfoldable pub iter_stdevf : (Value → Option Value) → StdevData → Value → Status × StdevData
  iter_stdevf func d v =
      let w : Value = (convert_number func v).0 in
      elim (number_p w) [
        | false ↦ (ng, d)
        | true ↦ elim (value_float so.ar.ops w) [ none ↦ (abort, d) | some x ↦ (ok, stdev_add d x) ]
      ]

  -- `float2`
  abbrev pub float2 : ℕ → ℕ → Value
  float2 m s = ary_new (float m ∷ float s ∷ [])

  -- `stdev_finish`: the value emitted.
  unfoldable pub stdev_finish : StdevMode → StdevData → Value
  stdev_finish mode d =
      let s : ℕ = fdiv so d.s2 (of_int so (i32_dec d.num)) in
      elim mode [
        | mode_stdev ↦ float (so.fsqrt s)
        | mode_variance ↦ float s
        | mode_mean_stdev ↦ float2 d.s1 (so.fsqrt s)
        | mode_mean_variance ↦ float2 d.s1 s
      ]

  -- `exec_var_stdev`
  abbrev pub stdev_new : StdevData
  stdev_new = record { num = 0; s1 = of_int so 0; s2 = of_int so 0 }

  -- The loop of `ary_var_stdev` from the element i on, by the function; none is STRM_NG.
  unfoldable pub ary_spread : (Value → Option Value) → ℕ → ℕ × ℕ → List Value → Option (ℕ × (ℕ × ℕ))
  ary_spread func i acc [] = some (i, acc)
  ary_spread func i acc (v ∷ vs) =
      let w : Value = (convert_number func v).0 in
      elim (number_p w) [
        | false ↦ none
        | true ↦ elim (value_float so.ar.ops w) [
          | none ↦ none
          | some x ↦ ary_spread func (suc i) (spread i (suc i) acc.0 acc.1 x) vs
        ]
      ]

  -- `ary_var_stdev` with a function. Without one the code calls a variable that it has not set, since
  -- the array itself is an argument.
  unfoldable pub ary_var_stdev : (stdev : Bool) → (Value → Option Value) → List Value → Option Value
  unfolding ary_spread
  ary_var_stdev stdev func vs = elim (ary_spread func 0 (of_int so 0, of_int so 0) vs) [
    | none ↦ none
    | some (i, (s1, s2)) ↦
        let s : ℕ = fdiv so s2 (of_int so (i32_dec i)) in
        some (float (if stdev then so.fsqrt s else s))
  ]

  -- The sums after the pair number n.
  abbrev pub correl_add : (m n : ℕ) → CorrelData → ℕ → ℕ → CorrelData
  correl_add m n d x y =
      let dx : ℕ = fsub so x d.sx in
      let dy : ℕ = fsub so y d.sy in
      record {
        n = n;
        sx = fadd so d.sx (fdiv so dx (of_int so n));
        sy = fadd so d.sy (fdiv so dy (of_int so n));
        sxx = fadd so d.sxx (scaled m dx dx n);
        syy = fadd so d.syy (scaled m dy dy n);
        sxy = fadd so d.sxy (scaled m dx dy n);
      }

  -- The two values of an array of two.
  abbrev pub pair_of : Value → Option (Value × Value)
  pair_of (arr h (cons a (cons b end))) = some (a, b)
  pair_of _ = none

  -- `iter_correl`
  unfoldable pub iter_correl : CorrelData → Value → Status × CorrelData
  iter_correl d v = elim (pair_of v) [
    | none ↦ (ng, d)
    | some (a, b) ↦ elim (number_p a && number_p b) [
      | false ↦ (ng, d)
      | true ↦ elim (value_float so.ar.ops a) [
        | none ↦ (abort, d)
        | some x ↦ elim (value_float so.ar.ops b) [
          | none ↦ (abort, d)
          | some y ↦ let n = i32_inc d.n in (ok, correl_add (i32_dec n) n d x y)
        ]
      ]
    ]
  ]

  -- The coefficient of the sums over m + 1 pairs.
  abbrev pub coefficient : ℕ → CorrelData → ℕ
  coefficient m d =
      let sx = so.fsqrt (fdiv so d.sxx (of_int so m)) in
      let sy = so.fsqrt (fdiv so d.syy (of_int so m)) in
      fdiv so d.sxy (fmul so (fmul so (of_int so m) sx) sy)

  -- `correl_finish`: the value emitted.
  abbrev pub correl_finish : CorrelData → Value
  correl_finish d = float (coefficient (i32_dec d.n) d)

  abbrev pub correl_new : CorrelData
  correl_new = let z = of_int so 0 in record { n = 0; sx = z; sy = z; sxx = z; syy = z; sxy = z }

  -- The loop of `ary_correl` from the element i on: an element that is no pair is skipped, and counted
  -- all the same. none is a failed assertion.
  unfoldable pub ary_correl_from : ℕ → CorrelData → List Value → Option CorrelData
  ary_correl_from i d [] = some d
  ary_correl_from i d (v ∷ vs) = elim (pair_of v) [
    | none ↦ ary_correl_from (suc i) d vs
    | some (a, b) ↦ elim (value_float so.ar.ops a) [
      | none ↦ none
      | some x ↦ elim (value_float so.ar.ops b) [
        | none ↦ none
        | some y ↦ ary_correl_from (suc i) (correl_add i (suc i) d x y) vs
      ]
    ]
  ]

  -- `ary_correl`
  unfoldable pub ary_correl : List Value → Option Value
  unfolding ary_correl_from
  ary_correl vs = elim (ary_correl_from 0 correl_new vs) [
    | none ↦ none
    | some d ↦ some (float (coefficient (i32_dec (length vs)) d))
  ]
