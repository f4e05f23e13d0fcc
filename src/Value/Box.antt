-- ===== src/Value/Box.antt =====
-- The 64-bit words of src/value.c and src/strm.h: a 16-bit tag over a 48-bit payload.
use streem.Base.{
  ℕ, ◌+◌, ◌-◌, ◌*◌, ◌/◌, ◌%◌, ◌^◌, ◌<◌, ◌≡◌, ◌↔◌, Bool, true, false, ◌&&◌, ◌||◌, not, arith, ◌==◌,
  ltb, if◌then◌else◌, ◌⊎◌,
}

-- `STRM_MAKE_TAG(n)` is `(0xFFF0 | n) << 48`.
abbrev pub make_tag : ℕ → ℕ
make_tag n = (0xfff0 + n) * 2 ^ 48

abbrev pub tag_nan : ℕ
tag_nan = make_tag 0

abbrev pub tag_bool : ℕ
tag_bool = make_tag 1

abbrev pub tag_int : ℕ
tag_int = make_tag 2

abbrev pub tag_array : ℕ
tag_array = make_tag 4

abbrev pub tag_cfunc : ℕ
tag_cfunc = make_tag 0xb

abbrev pub tag_ptr : ℕ
tag_ptr = make_tag 0xd

-- `v & STRM_TAG_MASK` and `v & STRM_VAL_MASK`: the high 16 bits in place, and the low 48.
pub value_tag : ℕ → ℕ
value_tag v = v / 2 ^ 48 * 2 ^ 48

pub value_val : ℕ → ℕ
value_val v = v % 2 ^ 48

-- `STRM_TAG_PTR | (p & STRM_VAL_MASK)`: the tag's payload bits are zero, so `|` is a sum.
pub ptr_value : ℕ → ℕ
ptr_value p = tag_ptr + p % 2 ^ 48

pub cfunc_value : ℕ → ℕ
cfunc_value f = tag_cfunc + f % 2 ^ 48

-- `!!i` is 0 or 1.
pub bool_value : ℕ → ℕ
bool_value i = tag_bool + (if i == 0 then 0 else 1)

pub nil_value : ℕ
nil_value = tag_ptr

-- The conversion of an `int32_t` to `uint64_t` extends its sign.
pub sign_extend : ℕ → ℕ
sign_extend i = if ltb i (2 ^ 31) then i else i + (2 ^ 64 - 2 ^ 32)

pub int_value : ℕ → ℕ
unfolding sign_extend
int_value i = tag_int + sign_extend i % 2 ^ 48

-- `(int32_t)(v & ~STRM_TAG_MASK)` keeps the low 32 bits.
pub to_int : ℕ → ℕ
to_int v = v % 2 ^ 48 % 2 ^ 32

-- Every exponent bit and the sign bit are set in `STRM_TAG_NAN`: `(v & NAN) != NAN` says that one
-- of the high 12 bits of `v` is clear.
pub float_p : ℕ → Bool
float_p v = (v == tag_nan) || not (v / 2 ^ 52 == 0xfff)

pub int_p : ℕ → Bool
unfolding value_tag
int_p v = value_tag v == tag_int

pub bool_p : ℕ → Bool
unfolding value_tag
bool_p v = value_tag v == tag_bool

pub cfunc_p : ℕ → Bool
unfolding value_tag
cfunc_p v = value_tag v == tag_cfunc

pub nil_p : ℕ → Bool
unfolding value_tag value_val
nil_p v = if not (value_tag v == tag_ptr) then false else value_val v == 0

-- `isnan` of a double's pattern: all exponent bits set and some fraction bit set.
pub is_nan : ℕ → Bool
is_nan f = (f / 2 ^ 52 % 2 ^ 11 == 0x7ff) && not (f % 2 ^ 52 == 0)

-- `strm_float_value`: every NaN becomes the one NaN word.
pub float_value : ℕ → ℕ
unfolding is_nan
float_value f = if is_nan f then tag_nan else f

-- An integer comes back from its word as it went in, the word is one of 64 bits, and it is taken for
-- an integer and for nothing else.
pub int_value_roundtrip :
    (i : ℕ)
    → i < 2 ^ 32
    → (to_int (int_value i) ≡ i)
      × (int_value i < 2 ^ 64)
      × (int_p (int_value i) ≡ true)
      × (float_p (int_value i) ≡ false)
      × (bool_p (int_value i) ≡ false)
      × (nil_p (int_value i) ≡ false)
unfolding to_int int_value int_p float_p bool_p nil_p
int_value_roundtrip i h = ground arith

-- A pointer that fits 48 bits comes back from its word, and the word is nil exactly for NULL.
pub ptr_value_roundtrip :
    (p : ℕ)
    → p < 2 ^ 48
    → (value_val (ptr_value p) ≡ p)
      × (value_tag (ptr_value p) ≡ tag_ptr)
      × (float_p (ptr_value p) ≡ false)
      × ((nil_p (ptr_value p) ≡ true) ↔ (p ≡ 0))
unfolding value_val value_tag ptr_value float_p nil_p
ptr_value_roundtrip p h = ground arith

-- A double's word is taken for a float, and for no integer, bool, function or nil, and a double that
-- is no NaN is its own word.
pub float_value-float_p :
    (f : ℕ)
    → f < 2 ^ 64
    → (float_p (float_value f) ≡ true)
      × (int_p (float_value f) ≡ false)
      × (bool_p (float_value f) ≡ false)
      × (cfunc_p (float_value f) ≡ false)
      × (nil_p (float_value f) ≡ false)
      × ((is_nan f ≡ true) ⊎ (float_value f ≡ f))
unfolding float_value float_p int_p bool_p cfunc_p nil_p
float_value-float_p f h = ground arith

-- The word that stands for every NaN is the pattern of minus infinity, which is no NaN.
pub float_value_nan :
    (f : ℕ)
    → is_nan f ≡ true
    → (float_value f ≡ float_value (0xfff * 2 ^ 52)) × (is_nan (float_value f) ≡ false)
unfolding float_value
float_value_nan f h = ground arith
