-- ===== src/Iter/Tests.antt =====
-- Short streams for the iterators of src/iter.c. The machine's doubles are the natural numbers here.
use streem.Base.{
  ◌≡◌, refl, ℕ, zero, suc, Bool, false, Option, none, some, List, [], ◌∷◌, ◌<◌, ◌+◌, ◌==◌, ltb,
  length, flatten, map, arith,
}
use streem.Value.{Value, Values, cons, end, FloatOps, nil, bool, int, ary_new}
use streem.Iter.{drain, made}
use streem.Iter.Consec.{windows, iter_consec_lem}
use streem.Iter.Fold.{FloatLaws}
use streem.Iter.Window.{iter_slice, finish_slice, iter_consec, finish_consec, slice_new}
use streem.Iter.Cut.{IsCut, iter_slice_lem}
use streem.Iter.Source.{Repeat, Cycle, Seq, exec_repeat, exec_cycle, past, nth_number}

abbrev doubles : FloatOps
doubles = record { of_int = λ n. n; feq = λ a b. a == b; flt = λ a b. ltb a b; fadd = λ a b. a + b }

abbrev three : List Value
three = int 4 ∷ int 2 ∷ int 7 ∷ []

-- A function that adds its integers, one that knows the small ones, and one that repeats them.
abbrev plus : Value → List Value → Option Value
plus f (int a ∷ int b ∷ []) = some (int (a + b))
plus f _ = none

abbrev small : Value → List Value → Option Value
small f (int a ∷ []) = some (bool (ltb a 5))
small f _ = none

abbrev twice : Value → List Value → Option Value
twice f (int a ∷ []) = some (ary_new (int a ∷ int a ∷ []))
twice f _ = none

abbrev below_five : Value → Bool
below_five (int n) = ltb n 5
below_five _ = false

abbrev number : Value → ℕ
number (int n) = n
number _ = 0

doubles-FloatLaws : FloatLaws doubles
doubles-FloatLaws = record { asym = λ a b h. ground arith; neg_trans = λ a b c n h k. ground arith }

abbrev block : List Value
block = nil ∷ nil ∷ []

iter_slice_lem_example :
    (gs : List (List Value)) × (drain iter_slice finish_slice (slice_new block) three
      ≡ map ary_new gs)
    × (flatten gs ≡ three)
    × IsCut (length block) gs
iter_slice_lem_example = iter_slice_lem block three (omega arith)

iter_consec_lem_example :
    drain iter_consec finish_consec (slice_new block) three
    ≡ map ary_new (windows (length block) three)
iter_consec_lem_example = iter_consec_lem block three (omega arith)

abbrev repeat_twice : Repeat
repeat_twice = record { v = int 8; count = 2 }

repeats : exec_repeat (int 8) (some 2) ≡ made repeat_twice
unfolding exec_repeat
repeats = refl

abbrev cycle_twice : Cycle
cycle_twice = record { ary = three; count = 2 }

cycles : exec_cycle three (some 2) ≡ made cycle_twice
unfolding exec_cycle
cycles = refl

-- The numbers 1, 3, 5 up to 6.
abbrev odd : Seq
odd = record { n = 1; end = 6; inc = 2 }

odd_below : (i : ℕ) → i < 3 → past doubles odd (nth_number doubles odd i) ≡ false
odd_below zero h = refl
odd_below (suc zero) h = refl
odd_below (suc (suc zero)) h = refl
odd_below (suc (suc (suc n))) h = absurd (omega arith)

-- `[4, [2, 7]]`, with a function that gives each element itself.
abbrev nested : Values
nested = cons (int 4) (cons (ary_new (int 2 ∷ int 7 ∷ [])) end)

abbrev same : Value → List Value → Option Value
same f (v ∷ []) = some v
same f _ = none
