-- ===== src/Number.antt =====
-- src/number.c: the operators of numbers.
--
-- An integer is the pattern of an `int32_t`; where a result does not fit, it wraps around.
pub mod Wrap
use streem.Base.{
  ℕ, suc, Bool, true, false, Option, none, some, List, [], ◌∷◌, if◌then◌else◌, ◌==◌, ◌&&◌, ◌||◌,
  ◌+◌, ◌-◌, ◌*◌, ◌%◌, ◌^◌, i32_negative,
}
use streem.Value.{Value, FloatOps, int, float, bool, number_p, value_float}

-- The operations of a `double` that src/number.c adds to those of src/value.c.
pub record Arith : Type 0 where
  pub ops : FloatOps
  pub fsub : ℕ → ℕ → ℕ
  pub fneg : ℕ → ℕ
  pub fmul : ℕ → ℕ → ℕ
  pub fdiv : ℕ → ℕ → ℕ
  pub fle : ℕ → ℕ → Bool
  pub fmod : ℕ → ℕ → ℕ

abbrev pub i32_neg : ℕ → ℕ
i32_neg n = (2 ^ 32 - n) % 2 ^ 32

-- The absolute value of the number that a pattern stands for.
abbrev pub i32_abs : ℕ → ℕ
i32_abs n = if i32_negative n then 2 ^ 32 - n else n

module _ (ar : Arith) where
  -- An operator on two arguments that "N" takes: on two integers, or on two numbers as doubles. none is
  -- a failed conversion.
  abbrev pub by_kind : (ℕ → ℕ → Value) → (ℕ → ℕ → ℕ) → Value → Value → Option Value
  by_kind f g (int a) (int b) = some (f a b)
  by_kind f g x y = elim (value_float ar.ops x) [
    | none ↦ none
    | some a ↦ elim (value_float ar.ops y) [ none ↦ none | some b ↦ some (float (g a b)) ]
  ]

  -- `num_plus`
  unfoldable pub num_plus : Value → Value → Option Value
  num_plus x y = by_kind (λ a b. int ((a + b) % 2 ^ 32)) ar.ops.fadd x y

  -- `num_minus`, with one argument or two
  unfoldable pub num_minus : List Value → Option Value
  num_minus (int a ∷ []) = some (int (i32_neg a))
  num_minus (float f ∷ []) = some (float (ar.fneg f))
  num_minus (x ∷ y ∷ []) = by_kind (λ a b. int ((a + (2 ^ 32 - b)) % 2 ^ 32)) ar.fsub x y
  num_minus _ = none

  -- `num_mult`
  unfoldable pub num_mult : Value → Value → Option Value
  num_mult x y = by_kind (λ a b. int ((a * b) % 2 ^ 32)) ar.fmul x y

  -- The operators that take their arguments by "ff".
  abbrev pub on_floats : (ℕ → ℕ → Value) → Value → Value → Option Value
  on_floats f x y = elim (value_float ar.ops x) [
    | none ↦ none
    | some a ↦ elim (value_float ar.ops y) [ none ↦ none | some b ↦ some (f a b) ]
  ]

  -- `num_div`, `num_gt`, `num_ge`, `num_lt` and `num_le`
  unfoldable pub num_div : Value → Value → Option Value
  num_div x y = on_floats (λ a b. float (ar.fdiv a b)) x y

  unfoldable pub num_gt : Value → Value → Option Value
  num_gt x y = on_floats (λ a b. bool (ar.ops.flt b a)) x y

  unfoldable pub num_ge : Value → Value → Option Value
  num_ge x y = on_floats (λ a b. bool (ar.fle b a)) x y

  unfoldable pub num_lt : Value → Value → Option Value
  num_lt x y = on_floats (λ a b. bool (ar.ops.flt a b)) x y

  unfoldable pub num_le : Value → Value → Option Value
  num_le x y = on_floats (λ a b. bool (ar.fle a b)) x y

  -- `num_mod` by an `int32_t`; none is no number, or a division that
  -- stops the program: by zero, or of the least integer by -1. The
  -- remainder has the sign of the dividend.
  unfoldable pub num_mod : Value → ℕ → Option Value
  num_mod (int a) y =
      let r = i32_abs a % i32_abs y in
      if (y == 0) || ((a == 2 ^ 31) && (y == 2 ^ 32 - 1))
      then none
      else some (int (if i32_negative a then i32_neg r else r))
  num_mod (float f) y = some (float (ar.fmod f (ar.ops.of_int y)))
  num_mod _ y = none
