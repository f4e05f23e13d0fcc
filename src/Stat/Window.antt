-- ===== src/Stat/Window.antt =====
-- The moving average of src/stat.c.
use streem.Base.{
  ℕ, Bool, true, false, Option, none, some, List, [], ◌∷◌, if◌then◌else◌, Status, ok, ng, abort,
  ◌+◌, ◌==◌, length, set, ltb, ◌||◌,
}
use streem.Value.{Value, nil, float, number_p, value_float}
use streem.Stat.{StatOps, of_int, fadd, fdiv, convert_number}
use streem.Stat.Sum.{compensated}

-- `struct mvavg_data`, less its function: `num` is the length of `buf`, the array at its end.
pub record MvavgData : Type 0 where
  pub buf : List ℕ
  pub i : ℕ
  pub filled : Bool

-- What a call of `iter_mvavg` does: its status, the value emitted, and the data.
pub record Averaged : Type 0 where
  pub status : Status
  pub emitted : Option Value
  pub state : MvavgData

-- The number written in its place, and the place of the next one.
abbrev pub mvavg_put : MvavgData → ℕ → MvavgData
mvavg_put d x =
    let wraps : Bool = d.i + 1 == length d.buf in
    record { buf = set d.buf d.i x; i = if wraps then 0 else d.i + 1; filled = wraps || d.filled }

module _ (so : StatOps) where
  abbrev pub total_from : ℕ × ℕ → List ℕ → ℕ × ℕ
  total_from acc [] = acc
  total_from acc (x ∷ xs) = total_from (compensated so acc x) xs

  -- The average of the numbers in the array.
  abbrev pub average : List ℕ → ℕ
  average xs =
      let (sum, c) = total_from (of_int so 0, of_int so 0) xs in
      fdiv so (fadd so sum c) (of_int so (length xs))

  -- `iter_mvavg`; a number beyond the array is a write outside of memory.
  unfoldable pub iter_mvavg : Option (Value → Option Value) → MvavgData → Value → Averaged
  iter_mvavg func d v =
      let w : Value = elim func [ none ↦ v | some f ↦ (convert_number f v).0 ] in
      let failing : Status → Averaged = λ s. record { status = s; emitted = none; state = d } in
      elim (number_p w) [
        | false ↦ failing ng
        | true ↦ elim (value_float so.ar.ops w) [
          | none ↦ failing abort
          | some x ↦ elim (ltb d.i (length d.buf)) [
            | false ↦ failing abort
            | true ↦
                let d' : MvavgData = mvavg_put d x in
                record {
                  status = ok;
                  emitted = some (if d'.filled then float (average d'.buf) else nil);
                  state = d';
                }
          ]
        ]
      ]

-- `exec_mvavg`; `malloc` leaves the array as it was.
abbrev pub mvavg_new : List ℕ → MvavgData
mvavg_new buf = record { buf = buf; i = 0; filled = false }
