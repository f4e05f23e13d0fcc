-- ===== src/Array.antt =====
-- src/array.c: the length of an array, and its reverse.
pub mod Reverse
use streem.Base.{ℕ, zero, suc, List, [], ◌∷◌, ◌-◌, ◌%◌, ◌^◌, length, set, replicate}
use streem.Value.{Value, int, float, ary_new}

-- `ary_length`; a length is a `strm_int`.
unfoldable pub ary_length : List Value → Value
ary_length vs = int (length vs % 2 ^ 32)

-- The loop of `ary_reverse` from the i-th element on, over the new array.
unfoldable pub reverse_from : ℕ → ℕ → List Value → List Value → List Value
reverse_from len i [] v2 = v2
reverse_from len i (v ∷ vs) v2 = reverse_from len (suc i) vs (set v2 (len - i - 1) v)

-- `ary_reverse`; the new array is all zero bytes, which is the `double` 0.
unfoldable pub ary_reverse : List Value → List Value
unfolding reverse_from
ary_reverse vs = reverse_from (length vs) 0 vs (replicate (length vs) (float 0))
