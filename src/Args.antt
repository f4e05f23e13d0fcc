-- ===== src/Args.antt =====
-- src/args.c: `strm_parse_args`, which checks the arguments of a call against a format.
mod Tests
pub mod Accept
use streem.Base.{
  ℕ, Bool, true, false, not, Option, none, some, List, [], ◌∷◌, ◌++◌, Status, ok, ng, if◌then◌else◌,
  ◌||◌,
}
use streem.Value.{
  Value, Values, Str, FloatOps, nil, str, arr, nil_p, number_p, string_p, array_p, value_bool,
  value_float, bytes,
}

-- A letter of a format that takes an argument: `v`, `N`, `S`, `s`, `A`, `a`, `f`, `i` and `b`.
pub data Letter : Type 0 where
  any number string characters array elements floating integer boolean : Letter

-- A character of a format: a letter; `|`; `?`; any other, `*` and `&` among them, which are
-- exempt from the check of the number of arguments; and the rest, which are not.
pub data Spec : Type 0 where
  letter : Letter → Spec
  optional : Spec
  given : Spec
  invalid_exempt : Spec
  invalid : Spec

-- What the code stores through the pointers that one character takes from its caller; `skipped`
-- is nothing.
pub data Slot : Type 0 where
  to_value : Value → Slot
  to_bytes : List ℕ → Slot
  to_elements : Option Values → Slot
  to_float : Option ℕ → Slot
  to_int : Option ℕ → Slot
  to_bool : Option Bool → Slot
  to_given : Bool → Slot
  skipped : Slot

-- The messages of `strm_raise`.
pub data Message : Type 0 where
  wrong_number number_required string_required array_required boolean_required invalid_specifier :
      Message

-- What a call stored, raised and returned.
pub record Parsed : Type 0 where
  pub slots : List Slot
  pub raised : List Message
  pub status : Status

abbrev pub failing : Message → Parsed
failing m = record { slots = []; raised = m ∷ []; status = ng }

abbrev pub storing : Slot → Parsed → Parsed
storing s p = record p { slots = s ∷ p.slots }

abbrev pub warning : Message → Parsed → Parsed
warning m p = record p { raised = m ∷ p.raised }

-- The message for a value that the letter does not take. `N` has one, and takes the value anyway. `b`
-- takes none: the word goes through a `strm_int`, an int32_t, before `strm_bool_p` looks for its tag, and
-- what is widened from 32 bits has the tag 0 or 0xFFFF, never that of a boolean.
unfoldable pub mismatch : Letter → Value → Option Message
mismatch any v = none
mismatch number v = none
mismatch string v = if string_p v then none else some string_required
mismatch characters v = if string_p v then none else some string_required
mismatch array v = if array_p v then none else some array_required
mismatch elements v = if nil_p v || array_p v then none else some array_required
mismatch floating v = if number_p v then none else some number_required
mismatch integer v = if number_p v then none else some number_required
mismatch boolean v = some boolean_required

unfoldable pub warned : Letter → Value → Bool
warned number v = not (number_p v)
warned _ v = false

abbrev pub bytes_of : Value → List ℕ
bytes_of (str s) = bytes s
bytes_of _ = []

abbrev pub elements_of : Value → Option Values
elements_of (arr h vs) = some vs
elements_of _ = none

-- The machine's doubles, and `strm_value_int`.
module _ (fo : FloatOps) (value_int : Value → Option ℕ) where
  unfoldable pub stored : Letter → Value → Slot
  stored characters v = to_bytes (bytes_of v)
  stored elements v = to_elements (elements_of v)
  stored floating v = to_float (value_float fo v)
  stored integer v = to_int (value_int v)
  stored boolean v = to_bool (value_bool v)
  stored _ v = to_value v

  -- `strm_parse_args` from a character of the format on, with the arguments that are left, and its
  -- variables `opt` and `given`.
  unfoldable pub parse_from : List Spec → List Value → Bool → Bool → Parsed
  unfolding mismatch warned stored
  parse_from [] [] opt g = record { slots = []; raised = []; status = ok }
  parse_from [] (v ∷ vs) opt g = failing wrong_number
  parse_from (optional ∷ f) vs opt g = parse_from f vs true g
  parse_from (given ∷ f) vs opt g = storing (to_given g) (parse_from f vs opt g)
  parse_from (invalid_exempt ∷ f) vs opt g = warning invalid_specifier (parse_from f vs opt g)
  parse_from (invalid ∷ f) [] opt g =
      let rest = parse_from f [] opt false in
      if opt then warning invalid_specifier rest else failing wrong_number
  parse_from (invalid ∷ f) (v ∷ vs) opt g = warning invalid_specifier (parse_from f (v ∷ vs) opt g)
  parse_from (letter c ∷ f) [] opt g =
      let rest = parse_from f [] opt false in
      if opt then storing skipped rest else failing wrong_number
  parse_from (letter c ∷ f) (v ∷ vs) opt g =
      let rest = parse_from f vs opt g in
      let done = storing (stored c v) rest in
      elim (mismatch c v) [
        | some m ↦ failing m
        | none ↦ if warned c v then warning number_required done else done
      ]

  unfoldable pub strm_parse_args : List Spec → List Value → Parsed
  unfolding parse_from
  strm_parse_args f vs = parse_from f vs false true
