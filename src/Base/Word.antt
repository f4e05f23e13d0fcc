-- ===== src/Base/Word.antt =====
-- 32-bit signed integers as bit patterns below 2 ^ 32, and the status of a call.
use Prim.Native.Nat.{ℕ, ◌+◌, ◌-◌, ◌%◌, ◌^◌}
use mathlib.Core.Bool.{Bool}
use streem.Base.Tests.{ltb}

-- `strm_int`: the pattern of an `int32_t`; a pattern from 2 ^ 31 on stands for a negative number.
abbrev pub i32_mod : ℕ
i32_mod = 2 ^ 32

abbrev pub i32_inc : ℕ → ℕ
i32_inc n = (n + 1) % 2 ^ 32

abbrev pub i32_dec : ℕ → ℕ
i32_dec n = (n + (2 ^ 32 - 1)) % 2 ^ 32

abbrev pub i32_negative : ℕ → Bool
i32_negative n = ltb (2 ^ 31 - 1) n

-- `STRM_OK` and `STRM_NG`.
pub data Status : Type 0 where
  ok ng : Status
  -- An `assert` failed, or memory outside an object was touched: nothing more is said of the process.
  abort : Status
