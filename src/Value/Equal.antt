-- ===== src/Value/Equal.antt =====
-- Equality of values: `strm_value_eq` of src/value.c, `strm_ary_eq` of src/array.c and `strm_str_eq`
-- of src/string.c.
use streem.Base.{
  ℕ, ◌≡◌, refl, Bool, true, false, ◌&&◌, arith, ◌==◌, List, [], ◌∷◌, bytes_eq, length, ◌||◌,
}
use streem.Value.{
  Str, inline, owned, foreign, bytes, Value, nil, bool, int, float, str, arr, cfunc, ptr, Values,
  end, cons, FloatOps, to_list,
}

-- Two descriptors of strings outside the heap are compared by address; all else by length and
-- `memcmp`.
unfoldable pub str_eq : Str → Str → Bool
str_eq (foreign a s) (foreign b t) = a == b
str_eq a b = bytes_eq (bytes a) (bytes b)

abbrev pub bool_eq : Bool → Bool → Bool
bool_eq true b = b
bool_eq false true = false
bool_eq false false = true

-- Equal words are equal values. Of two words with one tag, arrays go to `strm_ary_eq` and strings
-- `_O`, `_F` to `strm_str_eq`; the rest are equal only as numbers. Two owned strings or two arrays at
-- one address have the same content, so the first test adds nothing there.
module _ (fo : FloatOps) where
  unfoldable mutual
    pub value_eq : Value → Value → Bool
    value_eq nil nil = true
    value_eq (bool a) (bool b) = bool_eq a b
    value_eq (int a) (int b) = (a == b) || fo.feq (fo.of_int a) (fo.of_int b)
    value_eq (int a) (float b) = fo.feq (fo.of_int a) b
    value_eq (float a) (int b) = fo.feq a (fo.of_int b)
    value_eq (float a) (float b) = (a == b) || fo.feq a b
    value_eq (str (inline s)) (str (inline t)) = bytes_eq s t
    value_eq (str (owned s)) (str (owned t)) = str_eq (owned s) (owned t)
    value_eq (str (foreign a s)) (str (foreign b t)) = str_eq (foreign a s) (foreign b t)
    value_eq (arr h xs) (arr k ys) = (length (to_list xs) == length (to_list ys)) && ary_eq xs ys
    value_eq (cfunc a) (cfunc b) = a == b
    value_eq (ptr s a) (ptr t b) = a == b
    value_eq _ _ = false

    -- The loop of `strm_ary_eq`, over two arrays of one length.
    pub ary_eq : Values → Values → Bool
    ary_eq (cons x xs) (cons y ys) = value_eq x y && ary_eq xs ys
    ary_eq _ _ = true

pub bytes_eq_refl : (s : List ℕ) → bytes_eq s s ≡ true
bytes_eq_refl [] = refl
bytes_eq_refl (b ∷ bs) = ground (arith, bytes_eq_refl bs)

pub bytes_eq_comm : (s t : List ℕ) → bytes_eq s t ≡ bytes_eq t s
bytes_eq_comm [] [] = refl
bytes_eq_comm [] (b ∷ t) = refl
bytes_eq_comm (a ∷ s) [] = refl
bytes_eq_comm (a ∷ s) (b ∷ t) = ground (arith, bytes_eq_comm s t)

module _ (fo : FloatOps) where
  mutual
    unfolding value_eq str_eq

    refl_value : (v : Value) → value_eq fo v v ≡ true
    refl_value nil = refl
    refl_value (bool true) = refl
    refl_value (bool false) = refl
    refl_value (int n) = ground arith
    refl_value (float n) = ground arith
    refl_value (str (inline s)) = bytes_eq_refl s
    refl_value (str (owned s)) = bytes_eq_refl s
    refl_value (str (foreign a s)) = ground arith
    refl_value (arr h xs) = ground (arith, refl_values xs)
    refl_value (cfunc a) = ground arith
    refl_value (ptr t a) = ground arith

    refl_values : (vs : Values) → ary_eq fo vs vs ≡ true
    refl_values end = refl
    refl_values (cons v vs) = ground (arith, refl_value v, refl_values vs)

-- Every value equals itself, a NaN too, whatever the machine's comparison of doubles says.
pub value_eq_refl : (fo : FloatOps) (v : Value) → value_eq fo v v ≡ true
value_eq_refl fo v = refl_value fo v

-- A string of one storage class never equals one of another, although `strm_str_eq` says that they
-- have the same content.
pub value_eq_storage :
    (fo : FloatOps) (a : ℕ) (s : List ℕ)
    → (value_eq fo (str (owned s)) (str (foreign a s)) ≡ false)
      × (str_eq (owned s) (foreign a s) ≡ true)
unfolding value_eq str_eq
value_eq_storage fo a s = (refl, bytes_eq_refl s)
