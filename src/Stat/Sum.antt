-- ===== src/Stat/Sum.antt =====
-- The sums of src/stat.c: compensated summation, on streams and on arrays.
use streem.Base.{
  ℕ, Bool, true, false, Option, none, some, List, [], ◌∷◌, if◌then◌else◌, Status, ok, ng, abort,
  i32_inc, length,
}
use streem.Value.{Value, float, number_p, value_float}
use streem.Stat.{StatOps, of_int, fadd, fsub, fdiv, convert_number}

-- `struct sum_data`, less its function.
pub record SumData : Type 0 where
  pub sum : ℕ
  pub c : ℕ
  pub num : ℕ

module _ (so : StatOps) where
  -- The sum and the compensation after x: what the addition lost is added to `c`.
  unfoldable pub compensated : ℕ × ℕ → ℕ → ℕ × ℕ
  compensated (sum, c) x =
      let t : ℕ = fadd so sum x in
      if so.ar.fle (so.fabs x) (so.fabs sum)
      then (t, fadd so c (fadd so (fsub so sum t) x))
      else (t, fadd so c (fadd so (fsub so x t) sum))

  -- The number is added and counted.
  abbrev pub summed : SumData → ℕ → SumData
  summed d x =
      let (t, c') = compensated (d.sum, d.c) x in record { sum = t; c = c'; num = i32_inc d.num }

  -- `iter_sum`
  unfoldable pub iter_sum : SumData → Value → Status × SumData
  iter_sum d v = elim (number_p v) [
    | false ↦ (ng, d)
    | true ↦ elim (value_float so.ar.ops v) [ none ↦ (abort, d) | some x ↦ (ok, summed d x) ]
  ]

  -- `iter_sumf`. The message of `convert_number` goes to the stream, and is not in the result.
  unfoldable pub iter_sumf : (Value → Option Value) → SumData → Value → Status × SumData
  unfolding iter_sum
  iter_sumf func d v = iter_sum d (convert_number func v).0

  -- `exec_sum_avg`
  abbrev pub sum_new : SumData
  sum_new = record { sum = of_int so 0; c = of_int so 0; num = 0 }

  -- `sum_finish` and `avg_finish`: the value emitted.
  abbrev pub sum_finish : SumData → Value
  sum_finish d = float (fadd so d.sum d.c)

  abbrev pub avg_finish : SumData → Value
  avg_finish d = float (fdiv so (fadd so d.sum d.c) (of_int so d.num))

  -- The loops of `ary_sum_avg`, with the function if there is one; none is STRM_NG.
  unfoldable pub ary_total : Option (Value → Option Value) → ℕ × ℕ → List Value → Option (ℕ × ℕ)
  ary_total func acc [] = some acc
  ary_total func acc (v ∷ vs) =
      let w : Value = elim func [ none ↦ v | some f ↦ (convert_number f v).0 ] in
      elim (number_p w) [
        | false ↦ none
        | true ↦ elim (value_float so.ar.ops w) [
          | none ↦ none
          | some x ↦ ary_total func (compensated acc x) vs
        ]
      ]

  -- `ary_sum_avg`
  unfoldable pub ary_sum_avg :
      (avg : Bool) → Option (Value → Option Value) → List Value → Option Value
  unfolding ary_total
  ary_sum_avg avg func vs = elim (ary_total func (of_int so 0, of_int so 0) vs) [
    | none ↦ none
    | some (sum, c) ↦
        let total : ℕ = fadd so sum c in
        some (float (if avg then fdiv so total (of_int so (length vs)) else total))
  ]
