-- ===== src/Value.antt =====
-- The dynamic values of src/strm.h and the tests on them of src/value.c.
--
-- A `strm_value` is a 64-bit word whose tag says what it is; `Value` is what the word stands for.
-- An integer is kept as the pattern of its `int32_t`, a float as the pattern of its double. The
-- words themselves are the subject of `Value.Box`.
mod Tests
pub mod Box
pub mod Equal
pub mod Dump
use streem.Base.{
  ℕ, ◌%◌, ◌^◌, Bool, true, false, not, Option, none, some, List, [], ◌∷◌, ◌==◌, ◌&&◌, ◌||◌,
  if◌then◌else◌, length,
}

-- A string: held in the word itself (`STRM_TAG_STRING_I`, `_6`), in a block that it owns (`_O`), or
-- at an address outside the heap (`_F`).
pub data Str : Type 0 where
  inline : List ℕ → Str
  owned : List ℕ → Str
  foreign : (address : ℕ) → List ℕ → Str

-- `enum strm_ptr_type`, for a pointer that is not NULL.
pub data PtrType : Type 0 where
  stream lambda genfunc io aux : PtrType

-- What an array carries beside its elements: a namespace, and a label for each element, if any.
pub record Header : Type 0 where
  pub ns : Option ℕ
  pub labels : Option (List (Option (List ℕ)))

mutual
  pub data Value : Type 0 where
    nil : Value
    bool : Bool → Value
    int : ℕ → Value
    float : ℕ → Value
    str : Str → Value
    arr : Header → Values → Value
    cfunc : ℕ → Value
    ptr : PtrType → ℕ → Value

  pub data Values : Type 0 where
    end : Values
    cons : Value → Values → Values

abbrev pub to_list : Values → List Value
to_list end = []
to_list (cons v vs) = v ∷ to_list vs

abbrev pub of_list : List Value → Values
of_list [] = end
of_list (v ∷ vs) = cons v (of_list vs)

abbrev pub plain : Header
plain = record { ns = none; labels = none }

-- `strm_ary_new(p, len)`: an array of those elements, with no namespace and no labels.
abbrev pub ary_new : List Value → Value
ary_new vs = arr plain (of_list vs)

abbrev pub bytes : Str → List ℕ
bytes (inline s) = s
bytes (owned s) = s
bytes (foreign a s) = s

abbrev pub nil_p : Value → Bool
nil_p nil = true
nil_p _ = false

abbrev pub int_p : Value → Bool
int_p (int n) = true
int_p _ = false

abbrev pub float_p : Value → Bool
float_p (float f) = true
float_p _ = false

abbrev pub number_p : Value → Bool
number_p (int n) = true
number_p (float f) = true
number_p _ = false

abbrev pub bool_p : Value → Bool
bool_p (bool b) = true
bool_p _ = false

abbrev pub string_p : Value → Bool
string_p (str s) = true
string_p _ = false

abbrev pub array_p : Value → Bool
array_p (arr h vs) = true
array_p _ = false

abbrev pub cfunc_p : Value → Bool
cfunc_p (cfunc f) = true
cfunc_p _ = false

abbrev pub all_zero : List ℕ → Bool
all_zero [] = true
all_zero (b ∷ bs) = (b == 0) && all_zero bs

-- The payload of the word (`strm_value_val`) is zero.
abbrev pub payload_zero : Value → Bool
payload_zero nil = true
payload_zero (bool b) = not b
payload_zero (int n) = n == 0
payload_zero (float f) = f % 2 ^ 48 == 0
payload_zero (str (inline s)) = (length s == 0) || ((length s == 6) && all_zero s)
payload_zero _ = false

-- `strm_value_bool`; `none` is a failed `assert`: a zero payload that is neither a bool nor nil.
abbrev pub value_bool : Value → Option Bool
value_bool v =
    if payload_zero v then (if bool_p v || nil_p v then some false else none) else some true

-- The arithmetic of doubles is the machine's. These are the operations on their patterns that the
-- code uses: the conversion of an `int32_t`, `==`, `<`, and for `seq` the sum and the constants.
pub record FloatOps : Type 0 where
  pub of_int : ℕ → ℕ
  pub feq : ℕ → ℕ → Bool
  pub flt : ℕ → ℕ → Bool
  pub fadd : ℕ → ℕ → ℕ

-- `strm_value_float`; `none` is a failed `assert`.
abbrev pub value_float : FloatOps → Value → Option ℕ
value_float fo (int n) = some (fo.of_int n)
value_float fo (float f) = some f
value_float fo _ = none
