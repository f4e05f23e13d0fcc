-- ===== src/Sort.antt =====
-- src/sort.c: the order of values, and sorting of arrays and streams.
--
-- A comparison function gives its sign. `qsort` and `qsort_r` of the C library are a parameter.
mod Tests
pub mod Order
pub mod Library
pub mod Stream
pub mod Room
pub mod Sorted
use streem.Base.{
  ℕ, suc, Bool, true, false, Option, none, some, List, [], ◌∷◌, ◌++◌, if◌then◌else◌, ◌==◌, ◌&&◌,
  ◌||◌, ◌*◌, ◌%◌, ◌^◌, length, leb, ltb, map, i32_negative,
}
use streem.Value.{
  Value, FloatOps, int, float, nil, nil_p, number_p, string_p, str, bytes, value_float, ary_new,
}

-- The sign of an `int`.
pub data Cmp : Type 0 where
  below same above : Cmp

abbrev pub flip : Cmp → Cmp
flip below = above
flip same = same
flip above = below

abbrev pub at_most : Cmp → Bool
at_most above = false
at_most _ = true

-- `memcmp` of so many bytes.
abbrev pub memcmp : ℕ → List ℕ → List ℕ → Cmp
memcmp (suc n) (a ∷ xs) (b ∷ ys) =
    if ltb a b then below else if ltb b a then above else memcmp n xs ys
memcmp _ _ _ = same

-- The end of `str_cmp`, with `len` and what `memcmp` gave.
abbrev pub str_end : Cmp → ℕ → ℕ → ℕ → Cmp
str_end same len alen blen = if ltb len alen then above else if ltb len blen then below else same
str_end c len alen blen = c

-- `str_cmp`
unfoldable pub str_cmp : List ℕ → List ℕ → Cmp
str_cmp a b =
    let len = if ltb (length b) (length a) then length b else length a in
    str_end (memcmp len a b) len (length a) (length b)

-- `str_lt`, `str_le`, `str_gt` and `str_ge`
abbrev pub str_lt : List ℕ → List ℕ → Bool
str_lt x y = elim (str_cmp x y) [ below ↦ true | _ ↦ false ]

abbrev pub str_le : List ℕ → List ℕ → Bool
str_le x y = elim (str_cmp x y) [ above ↦ false | _ ↦ true ]

abbrev pub str_gt : List ℕ → List ℕ → Bool
str_gt x y = elim (str_cmp x y) [ above ↦ true | _ ↦ false ]

abbrev pub str_ge : List ℕ → List ℕ → Bool
str_ge x y = elim (str_cmp x y) [ below ↦ false | _ ↦ true ]

-- The bytes of a string.
abbrev pub text : Value → List ℕ
text (str s) = bytes s
text _ = []

module _ (fo : FloatOps) where
  -- The `double` of a number.
  abbrev pub num : Value → ℕ
  num v = elim (value_float fo v) [ none ↦ 0 | some f ↦ f ]

  abbrev pub float_cmp : ℕ → ℕ → Cmp
  float_cmp a b = if fo.flt b a then above else if fo.flt a b then below else same

  -- `num_cmp`
  abbrev pub num_cmp : Value → Value → Cmp
  num_cmp x y = float_cmp (num x) (num y)

  -- `strm_cmp`
  unfoldable pub strm_cmp : Value → Value → Cmp
  unfolding str_cmp
  strm_cmp a b =
      if number_p a
      then (if number_p b then num_cmp a b else below)
      else if string_p a
      then (if string_p b then str_cmp (text a) (text b) else if number_p b then above else above)
      else above

  -- `sort_cmpf`: `call` is the function given, none where its call fails, and `to_i32` the conversion of
  -- a double.
  unfoldable pub sort_cmpf : (Value → Value → Option Value) → (ℕ → ℕ) → Value → Value → Cmp
  sort_cmpf call to_i32 a b =
      let sign = λ (n : ℕ). if i32_negative n then below else if n == 0 then same else above in
      elim (call a b) [ some (int n) ↦ sign n | some (float f) ↦ sign (to_i32 f) | _ ↦ same ]

  -- `struct sortby_value`: the key and the value.
  abbrev pub Keyed : Type 0
  Keyed = Value × Value

  -- `sortby_cmp`
  unfoldable pub sortby_cmp : Value × Value → Value × Value → Cmp
  sortby_cmp (v, o) (w, p) =
      if number_p v
      then (if number_p w then num_cmp v w else below)
      else if number_p w
      then above
      else same
