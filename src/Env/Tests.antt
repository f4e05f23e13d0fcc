-- ===== src/Env/Tests.antt =====
-- Scopes of src/env.c on small tables.
use streem.Base.{◌≡◌, refl, Bool, true, Option, none, some, List, [], ◌∷◌, ℕ, ok}
use streem.Value.{Value, nil, int}
use streem.Khash.Assoc.{table, same, laws}
use streem.Env.{Scope, strm_var_set, strm_var_match, innermost_get, strm_env_copy}

abbrev Table : Type 0
Table = List (ℕ × Value)

-- Name 1 in the frame, 1 and 2 in the enclosing one, and 3 in the program.
abbrev scope : Scope Table
scope = record {
  frames = some ((1, int 10) ∷ []) ∷ none ∷ some ((1, int 11) ∷ (2, int 20) ∷ []) ∷ [];
  globals = some ((3, int 30) ∷ []);
  started = true;
}

-- The scope after `2 = 21`.
abbrev assigned : Scope Table
assigned = record scope {
  frames =
      some ((2, int 21) ∷ (1, int 10) ∷ []) ∷ none ∷ some ((1, int 11) ∷ (2, int 20) ∷ []) ∷ [];
}

assigns : strm_var_set (table nil) scope 2 (int 21) ≡ (ok, assigned)
unfolding strm_var_set streem.Khash.Assoc.put streem.Khash.Assoc.assign
assigns = refl

has_one : innermost_get (table nil) scope.frames 1 ≡ some (int 10)
unfolding innermost_get
has_one = refl

abbrev words : Value → Value → Bool
words v w = true

matches : strm_var_match (table nil) words scope 2 (int 21) ≡ (ok, assigned)
unfolding strm_var_match streem.Khash.Assoc.put streem.Khash.Assoc.assign
matches = refl

abbrev imported : Table
imported = (5, int 50) ∷ (6, int 60) ∷ []

abbrev target : Option Table
target = some ((1, int 10) ∷ [])

abbrev copied : Table
copied = (6, int 60) ∷ (5, int 50) ∷ (1, int 10) ∷ []

copies_all : strm_env_copy (table nil) target (some imported) ≡ (ok, copied)
unfolding strm_env_copy streem.Khash.Assoc.put streem.Khash.Assoc.assign streem.Khash.Assoc.entries
    streem.Khash.Assoc.remove
copies_all = refl
