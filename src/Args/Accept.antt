-- ===== src/Args/Accept.antt =====
-- The arguments that `strm_parse_args` of src/args.c accepts.
use streem.Base.{
  ◌≡◌, ◌↔◌, ℕ, zero, suc, ◌≤◌, Bool, true, false, Option, none, List, [], ◌∷◌, ok, ◌||◌, ◌&&◌, leb,
  length, arith, refl,
}
use streem.Value.{Value, FloatOps, string_p, array_p, nil_p, number_p}
use streem.Args.{
  Letter, any, number, string, characters, array, elements, floating, integer, boolean, Spec,
  letter, optional, given, invalid, invalid_exempt, mismatch, parse_from, strm_parse_args,
}

-- The letters of a format.
abbrev pub letters : List Spec → List Letter
letters [] = []
letters (letter c ∷ f) = c ∷ letters f
letters (optional ∷ f) = letters f
letters (given ∷ f) = letters f
letters (invalid ∷ f) = letters f
letters (invalid_exempt ∷ f) = letters f

-- The number of letters before the first `|`.
abbrev pub required : List Spec → ℕ
required [] = zero
required (letter c ∷ f) = suc (required f)
required (optional ∷ f) = zero
required (given ∷ f) = required f
required (invalid ∷ f) = required f
required (invalid_exempt ∷ f) = required f

-- A format of letters, `|` and `?` alone.
abbrev pub valid : List Spec → Bool
valid [] = true
valid (letter c ∷ f) = valid f
valid (optional ∷ f) = valid f
valid (given ∷ f) = valid f
valid (invalid ∷ f) = false
valid (invalid_exempt ∷ f) = false

-- The values that a letter takes.
abbrev pub takes : Letter → Value → Bool
takes any v = true
takes number v = true
takes string v = string_p v
takes characters v = string_p v
takes array v = array_p v
takes elements v = nil_p v || array_p v
takes floating v = number_p v
takes integer v = number_p v
takes boolean v = false

mismatch-takes : (c : Letter) (v : Value) → (mismatch c v ≡ none) ↔ (takes c v ≡ true)
unfolding mismatch
mismatch-takes any v = ground arith
mismatch-takes number v = ground arith
mismatch-takes string v = ground arith
mismatch-takes characters v = ground arith
mismatch-takes array v = ground arith
mismatch-takes elements v = ground arith
mismatch-takes floating v = ground arith
mismatch-takes integer v = ground arith
mismatch-takes boolean v = ground arith

-- Each argument is one that its letter takes.
abbrev pub fit : List Letter → List Value → Bool
fit (c ∷ cs) (v ∷ vs) = takes c v && fit cs vs
fit _ _ = true

fit-nil : (cs : List Letter) → fit cs [] ≡ true
fit-nil [] = refl
fit-nil (c ∷ cs) = refl

module _ (fo : FloatOps) (value_int : Value → Option ℕ) where
  -- The condition on the arguments that are left.
  abbrev Accepts : List Spec → List Value → Bool → Type 0
  Accepts f vs opt =
      (opt || leb (required f) (length vs))
        && (leb (length vs) (length (letters f)) && fit (letters f) vs)
      ≡ true

  abbrev IsOk : List Spec → List Value → Bool → Bool → Type 0
  IsOk f vs opt g = (parse_from fo value_int f vs opt g).status ≡ ok

  accept_none :
      (c : Letter) (f : List Spec) (opt g : Bool)
      → IsOk f [] opt false ↔ Accepts f [] opt
      → IsOk (letter c ∷ f) [] opt g ↔ Accepts (letter c ∷ f) [] opt
  unfolding parse_from
  accept_none c f opt g r = ground (arith, r, fit-nil (letters f))

  accept_letter :
      (c : Letter) (f : List Spec) (v : Value) (vs : List Value) (opt g : Bool)
      → IsOk f vs opt g ↔ Accepts f vs opt
      → IsOk (letter c ∷ f) (v ∷ vs) opt g ↔ Accepts (letter c ∷ f) (v ∷ vs) opt
  unfolding parse_from
  accept_letter c f v vs opt g r = ground (arith, r, mismatch-takes c v)

  accept_from :
      (f : List Spec) (vs : List Value) (opt g : Bool)
      → valid f ≡ true
      → IsOk f vs opt g ↔ Accepts f vs opt
  unfolding parse_from
  accept_from [] [] opt g w = ground arith
  accept_from [] (v ∷ vs) opt g w = ground arith
  accept_from (optional ∷ f) vs opt g w = ground (arith, accept_from f vs true g w)
  accept_from (given ∷ f) vs opt g w = accept_from f vs opt g w
  accept_from (invalid ∷ f) vs opt g w = ground arith
  accept_from (invalid_exempt ∷ f) vs opt g w = ground arith
  accept_from (letter c ∷ f) [] opt g w = accept_none c f opt g (accept_from f [] opt false w)
  accept_from (letter c ∷ f) (v ∷ vs) opt g w =
      accept_letter c f v vs opt g (accept_from f vs opt g w)

  -- `strm_parse_args` with a format of letters, `|` and `?` returns STRM_OK exactly where there are
  -- at least as many arguments as letters before the first `|`, at most as many as letters, and each
  -- is of the type of its letter; `v` and `N` take any value, and `b` takes none, not even a boolean.
  pub strm_parse_args_iff :
      (f : List Spec) (vs : List Value)
      → valid f ≡ true
      → ((strm_parse_args fo value_int f vs).status ≡ ok) ↔ (
          (required f ≤ length vs) × (length vs ≤ length (letters f)) × (fit (letters f) vs ≡ true))
  unfolding strm_parse_args
  strm_parse_args_iff f vs w = ground (arith, accept_from f vs false true w)
