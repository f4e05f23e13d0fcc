-- ===== src/Stat.antt =====
-- src/stat.c: sums, averages, deviations and correlations.
--
-- A double is its pattern, and the machine's operations on doubles are parameters.
pub mod Sum
pub mod Window
pub mod Spread
pub mod Exact
pub mod Arrays
pub mod Rolling
mod Tests
use streem.Base.{ℕ, Bool, true, false, Option, none, some, if◌then◌else◌}
use streem.Value.{Value, nil, number_p}
use streem.Number.{Arith}

-- The operations of a `double` that src/stat.c uses, with those of libm.
pub record StatOps : Type 0 where
  pub ar : Arith
  pub fabs : ℕ → ℕ
  pub fsqrt : ℕ → ℕ

abbrev pub of_int : StatOps → ℕ → ℕ
of_int so n = so.ar.ops.of_int n

abbrev pub fadd : StatOps → ℕ → ℕ → ℕ
fadd so a b = so.ar.ops.fadd a b

abbrev pub fsub : StatOps → ℕ → ℕ → ℕ
fsub so a b = so.ar.fsub a b

abbrev pub fmul : StatOps → ℕ → ℕ → ℕ
fmul so a b = so.ar.fmul a b

abbrev pub fdiv : StatOps → ℕ → ℕ → ℕ
fdiv so a b = so.ar.fdiv a b

-- `convert_number` by the program's function, where none is a failed call: the value, or nil, and
-- whether "number required" is raised.
unfoldable pub convert_number : (Value → Option Value) → Value → Value × Bool
convert_number func v = elim (func v) [
  | none ↦ (nil, false)
  | some w ↦ if number_p w then (w, false) else (nil, true)
]
