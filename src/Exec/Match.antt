-- ===== src/Exec/Match.antt =====
-- The patterns of src/exec.c: `pmatch`, `pmatch_struct` and `pattern_match`.
use streem.Base.{
  ℕ, suc, Bool, true, false, not, Option, none, some, List, [], ◌∷◌, if◌then◌else◌, ◌==◌, ◌&&◌,
  ◌||◌, ◌+◌, ◌-◌, Status, ok, ng, abort, bytes_eq, length, take, drop, leb, get_elem?,
}
use streem.Khash.{Khash}
use streem.Value.{
  Value, FloatOps, int, float, str, arr, nil_p, array_p, value_bool, value_float, bytes, to_list,
  of_list, ary_new,
}
use streem.Node.{
  Name, Pattern, Patterns, Pairs, pident, pstr, pint, pnil, pbool, pfloat, pns, parray, psplat,
  psplat_tail, psplat_struct, pstruct, pother, pend, pcons, no_pair, pair,
}
use streem.Exec.{Machine}
use streem.Exec.State.{strm_ns_get, var_match}

abbrev pub count : Patterns → ℕ
count pend = 0
count (pcons p ps) = suc (count ps)

abbrev pub count_pairs : Pairs → ℕ
count_pairs no_pair = 0
count_pairs (pair k p ps) = suc (count_pairs ps)

-- `pattern_placeholder_p`: the name `_`.
abbrev pub placeholder_p : Name → Bool
placeholder_p k = bytes_eq k (95 ∷ [])

-- The place of a label from the i-th on; none where the loop of `pmatch_struct` runs out of the
-- labels, which it does not check.
abbrev pub label_at : Name → List (Option Name) → ℕ → Option ℕ
label_at k [] i = none
label_at k (none ∷ ls) i = label_at k ls (suc i)
label_at k (some l ∷ ls) i = if bytes_eq l k then some i else label_at k ls (suc i)

-- The bit of a place in the table of `pmatch_struct`.
abbrev pub marked : ℕ → List ℕ → Bool
marked i [] = false
marked i (j ∷ js) = (i == j) || marked i js

-- The elements at the places from the i-th on that have no mark.
abbrev pub unmarked {ℓ} : {A : Type ℓ} → List ℕ → ℕ → List A → List A
unmarked t i [] = []
unmarked t i (x ∷ xs) = let rest = unmarked t (suc i) xs in if marked i t then rest else x ∷ rest

abbrev pub values_of : Value → List Value
values_of (arr h vs) = to_list vs
values_of _ = []

abbrev pub labels_of : Value → Option (List (Option Name))
labels_of (arr h vs) = h.labels
labels_of _ = none

abbrev pub all_labels : Value → List (Option Name)
all_labels v = elim (labels_of v) [ none ↦ [] | some ls ↦ ls ]

abbrev pub with_labels : List (Option Name) → List Value → Value
with_labels ls vs = arr (record { ns = none; labels = some ls }) (of_list vs)

abbrev pub test : Bool → Status
test true = ok
test false = ng

-- What a match gave: the status, the memory, and the places that `pmatch_struct` marked.
abbrev pub Matched : Type 0 → Type 0
Matched T = Status × Machine T

-- Go on if the match succeeded.
abbrev pub and_then : {T : Type 0} → Matched T → (Machine T → Matched T) → Matched T
and_then (ok, m) k = k m
and_then (r, m) k = (r, m)

-- `value_ns` is `strm_value_ns`, with what the machine's memory says of pointers.
module _ {T : Type 0} (h : Khash T Name Value) (fo : FloatOps) (value_eq : Value → Value → Bool)
    (value_ns : Machine T → Value → Option ℕ) where
  abbrev same_ns : Option ℕ → Option ℕ → Bool
  same_ns none none = true
  same_ns (some a) (some b) = a == b
  same_ns _ _ = false

  -- `val` against a literal.
  abbrev pub match_int : ℕ → Value → Status
  match_int n (int i) = test (n == i)
  match_int n (float f) = test (fo.feq (fo.of_int n) f)
  match_int n _ = ng

  abbrev pub match_bool : Bool → Value → Status
  match_bool b v = elim (value_bool v) [ none ↦ abort | some c ↦ test (if b then c else not c) ]

  abbrev pub match_float : ℕ → Value → Status
  match_float g v = elim (value_float fo v) [ none ↦ ng | some f ↦ test (fo.feq g f) ]

  abbrev pub match_str : List ℕ → Value → Status
  match_str s (str t) = test (bytes_eq (bytes t) s)
  match_str s _ = ng

  -- The labels, and as many values as pairs: the two first tests of `pmatch_struct`.
  abbrev pub struct_fits : Pairs → Value → Bool
  struct_fits ps v = elim (labels_of v) [
    | none ↦ false
    | some ls ↦ leb (count_pairs ps) (length (values_of v))
  ]

  -- `pmatch` of a value, and `pattern_match` of a list of arguments, where `args` is true and `v` is
  -- an array of them. `pattern_match` reads every node but a splat as a list of nodes, so that one
  -- that is no list is memory misread; a pair is no pattern, so that only an empty struct matches
  -- arguments, and no arguments at that.
  unfoldable mutual
    unfolding var_match

    pub match_node : Pattern → (args : Bool) → Machine T → ℕ → Value → Matched T
    match_node (pident k) true m a v = (abort, m)
    match_node (pident k) false m a v =
        if placeholder_p k then (ok, m) else var_match h value_eq m a k v
    match_node (pstr s) args m a v = (if args then abort else match_str s v, m)
    match_node (pint n) args m a v = (if args then abort else match_int n v, m)
    match_node pnil args m a v = (if args then abort else test (nil_p v), m)
    match_node (pbool b) args m a v = (if args then abort else match_bool b v, m)
    match_node (pfloat g) args m a v = (if args then abort else match_float g v, m)
    match_node (pns k p) true m a v = (abort, m)
    match_node (pns k p) false m a v =
        let rest = match_node p false m a v in
        if same_ns (strm_ns_get m k) (value_ns m v) then rest else (ng, m)
    match_node (parray ps) args m a v =
        let rest = match_each ps m a (values_of v) in if array_p v then rest else (ng, m)
    match_node (psplat ps p) args m a v =
        let vs = values_of v in
        let rest =
          and_then (match_each ps m a (take (count ps) vs))
            λ m1. match_node p false m1 a (ary_new (drop (count ps) vs)) in
        if array_p v && leb (count ps) (length vs) then rest else (ng, m)
    match_node (psplat_tail ps p qs) args m a v =
        let vs = values_of v in
        let n = length vs - count ps - count qs in
        let headed = match_each ps m a (take (count ps) vs) in
        let rest = and_then headed λ m1.
          and_then (match_node p true m1 a (ary_new (take n (drop (count ps) vs))))
            λ m2. match_each qs m2 a (drop (length vs - count qs) vs) in
        if array_p v && leb (count ps) (length vs)
        then (if leb (count ps + count qs) (length vs)
            then rest
            else and_then headed λ m1. (ng, m1))
        else (ng, m)
    match_node (psplat_struct ps p) true m a v =
        let rest = match_node p false m a v in if count_pairs ps == 0 then rest else (ng, m)
    match_node (psplat_struct ps p) false m a v =
        let r = match_pairs ps true m a v [] in
        let rest = and_then r.0 λ m1.
          match_node p false m1 a
            (with_labels (unmarked r.1 0 (all_labels v)) (unmarked r.1 0 (values_of v))) in
        if array_p v && struct_fits ps v then rest else (ng, m)
    match_node (pstruct ps) true m a v =
        (test ((count_pairs ps == 0) && (length (values_of v) == 0)), m)
    match_node (pstruct ps) false m a v =
        let r = match_pairs ps false m a v [] in
        if array_p v && struct_fits ps v then r.0 else (ng, m)
    match_node pother args m a v = (if args then abort else ng, m)

    -- The loop of `pattern_match`.
    pub match_each : Patterns → Machine T → ℕ → List Value → Matched T
    match_each pend m a [] = (ok, m)
    match_each pend m a (v ∷ vs) = (ng, m)
    match_each (pcons p ps) m a [] = (ng, m)
    match_each (pcons p ps) m a (v ∷ vs) =
        let rest = and_then (match_node p false m a v) λ m1. match_each ps m1 a vs in
        if length vs == count ps then rest else (ng, m)

    -- The loop of `pmatch_struct`, with the places marked. With a table, the shift of an `int` by 31
    -- or more is not defined.
    pub match_pairs : Pairs → (tbl : Bool) → Machine T → ℕ → Value → List ℕ → Matched T × List ℕ
    match_pairs no_pair tbl m a v t = ((ok, m), t)
    match_pairs (pair k p ps) tbl m a v t = elim (label_at k (all_labels v) 0) [
      | none ↦ ((abort, m), t)
      | some j ↦ elim (get_elem? (values_of v) j) [
        | none ↦ ((abort, m), t)
        | some x ↦
            let r = match_node p false m a x in
            let rest = match_pairs ps tbl r.1 a v (j ∷ t) in
            elim r.0 [ ok ↦ if tbl && leb 31 j then ((abort, r.1), t) else rest | _ ↦ (r, t) ]
      ]
    ]

  abbrev pub pmatch : Pattern → Machine T → ℕ → Value → Matched T
  pmatch p m a v = match_node p false m a v

  -- `pattern_match`; without a pattern, for `else`, everything matches.
  abbrev pub pattern_match : Option Pattern → Machine T → ℕ → List Value → Matched T
  pattern_match none m a vs = (ok, m)
  pattern_match (some p) m a vs = match_node p true m a (ary_new vs)
