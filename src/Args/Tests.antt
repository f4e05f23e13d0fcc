-- ===== src/Args/Tests.antt =====
-- Calls that `strm_parse_args` of src/args.c checks.
use streem.Base.{◌≡◌, ◌↔◌, refl, true, List, [], ◌∷◌, ◌≤◌, length, ok, ◌==◌, ltb, ◌+◌}
use streem.Value.{Value, FloatOps, int, str, inline, value_float}
use streem.Args.{Spec, letter, optional, given, integer, string, strm_parse_args}
use streem.Args.Accept.{letters, required, fit, strm_parse_args_iff}

abbrev doubles : FloatOps
doubles = record { of_int = λ n. n; feq = λ a b. a == b; flt = λ a b. ltb a b; fadd = λ a b. a + b }

-- The format `i|S?`.
abbrev format : List Spec
format = letter integer ∷ optional ∷ letter string ∷ given ∷ []

abbrev arguments : List Value
arguments = int 4 ∷ str (inline (97 ∷ [])) ∷ []

strm_parse_args_iff_example :
    ((strm_parse_args doubles (value_float doubles) format arguments).status ≡ ok) ↔ (
      (required format ≤ length arguments)
      × (length arguments ≤ length (letters format))
      × (fit (letters format) arguments ≡ true))
strm_parse_args_iff_example =
    strm_parse_args_iff doubles (value_float doubles) format arguments refl
