-- ===== src/Iter/Map.antt =====
-- `each`, `map`, `flatmap` and `filter` of src/iter.c, on streams and on arrays.
use streem.Base.{
  map, ◌↔◌, ℕ, ◌+◌, ◌≡◌, refl, Bool, true, false, Option, none, some, List, [], ◌∷◌, ◌++◌, arith,
  length, filter, filter_map, flatten, All, length-append,
}
use streem.Value.{Value, arr, Values, end, cons, to_list, value_bool}
use streem.Iter.{Out, emitting, quiet, failing, raising, aborting, running, next, run}

-- `strm_funcall`, with `none` for `STRM_NG`. A stream's data is the function `func`.
module _ (call : Value → List Value → Option Value) where
  unfoldable pub iter_each : Value → Value → Out Value
  iter_each func x = elim (call func (x ∷ [])) [ none ↦ failing func | some v ↦ quiet func ]

  unfoldable pub iter_map : Value → Value → Out Value
  iter_map func x = elim (call func (x ∷ [])) [
    | none ↦ failing func
    | some v ↦ emitting func (v ∷ [])
  ]

  abbrev flat_out : Value → Value → Out Value
  flat_out func (arr h vs) = emitting func (to_list vs)
  flat_out func _ = raising func "no array given for flatmap"

  unfoldable pub iter_flatmap : Value → Value → Out Value
  iter_flatmap func x = elim (call func (x ∷ [])) [ none ↦ failing func | some v ↦ flat_out func v ]

  unfoldable pub iter_filter : Value → Value → Out Value
  iter_filter func x = elim (call func (x ∷ [])) [
    | none ↦ failing func
    | some v ↦ elim (value_bool v) [
      | none ↦ aborting func
      | some true ↦ emitting func (x ∷ [])
      | some false ↦ quiet func
    ]
  ]

  -- `ary_each` gives its array back, `ary_map` the array of results; both stop at the first failure.
  unfoldable pub ary_each : Value → List Value → Option (List Value)
  ary_each func [] = some []
  ary_each func (x ∷ xs) =
      let rest = ary_each func xs in
      elim (call func (x ∷ [])) [
        | none ↦ none
        | some v ↦ elim rest [ none ↦ none | some r ↦ some (x ∷ r) ]
      ]

  unfoldable pub ary_map : Value → List Value → Option (List Value)
  ary_map func [] = some []
  ary_map func (x ∷ xs) =
      let rest = ary_map func xs in
      elim (call func (x ∷ [])) [
        | none ↦ none
        | some v ↦ elim rest [ none ↦ none | some r ↦ some (v ∷ r) ]
      ]

-- `flatmap_len`: the number of elements that are no arrays, at every depth.
unfoldable mutual
  pub flatmap_len : Values → ℕ
  flatmap_len end = 0
  flatmap_len (cons v vs) = leaves v + flatmap_len vs

  pub leaves : Value → ℕ
  leaves (arr h vs) = flatmap_len vs
  leaves _ = 1

module _ (call : Value → List Value → Option Value) (func : Value) where
  abbrev join : Option (List Value) → Option (List Value) → Option (List Value)
  join none r = none
  join (some a) none = none
  join (some a) (some b) = some (a ++ b)

  -- `flatmap_push`: what it writes from `*p` on.
  unfoldable mutual
    pub flatmap_push : Values → Option (List Value)
    flatmap_push end = some []
    flatmap_push (cons v vs) = join (push_leaves v) (flatmap_push vs)

    pub push_leaves : Value → Option (List Value)
    push_leaves (arr h vs) = flatmap_push vs
    push_leaves v = elim (call func (v ∷ [])) [ none ↦ none | some r ↦ some (r ∷ []) ]

module _ (call : Value → List Value → Option Value) (func : Value) where
  -- The result of the function on one value.
  abbrev pub apply : Value → Option Value
  apply x = call func (x ∷ [])

  -- A stream `map(f)` sends on the results of f in order, leaves out the values on which f fails,
  -- and stays open.
  pub iter_map_lem :
      (xs : List Value)
      → ((run (iter_map call) func xs).emits ≡ filter_map apply xs)
        × ((run (iter_map call) func xs).end ≡ running)
  unfolding run next iter_map
  iter_map_lem [] = (refl, refl)
  iter_map_lem (x ∷ xs) = ground (arith, iter_map_lem xs)

  -- A stream `each(f)` sends nothing on and stays open.
  pub iter_each_lem :
      (xs : List Value)
      → ((run (iter_each call) func xs).emits ≡ []) × ((run (iter_each call) func xs).end ≡ running)
  unfolding run next iter_each
  iter_each_lem [] = (refl, refl)
  iter_each_lem (x ∷ xs) = ground (arith, iter_each_lem xs)

  -- What `iter_filter` reads as the answer on one value: a failing call counts as no, and `none` is
  -- a failed `assert`.
  abbrev pub verdict : Value → Option Bool
  verdict x = elim (call func (x ∷ [])) [ none ↦ some false | some v ↦ value_bool v ]

  -- Where the answers are those of a test p, a stream `filter(f)` sends on exactly the values that
  -- pass p, in order, and stays open.
  pub iter_filter_lem :
      (p : Value → Bool) (xs : List Value)
      → All (λ x. verdict x ≡ some (p x)) xs
      → ((run (iter_filter call) func xs).emits ≡ filter p xs)
        × ((run (iter_filter call) func xs).end ≡ running)
  unfolding run next iter_filter
  iter_filter_lem p [] h = (refl, refl)
  iter_filter_lem p (x ∷ xs) h = ground (arith, iter_filter_lem p xs h.1, h.0)

  -- The elements of the array that the function gives, and nothing for a failure or another value.
  abbrev pub spread : Option Value → List Value
  spread (some (arr h vs)) = to_list vs
  spread _ = []

  -- A stream `flatmap(f)` sends on the elements of the arrays that f gives, in order, skips the
  -- values on which f fails or gives no array, and stays open.
  pub iter_flatmap_lem :
      (xs : List Value)
      → ((run (iter_flatmap call) func xs).emits ≡ flatten (map (λ x. spread (apply x)) xs))
        × ((run (iter_flatmap call) func xs).end ≡ running)
  unfolding run next iter_flatmap
  iter_flatmap_lem [] = (refl, refl)
  iter_flatmap_lem (x ∷ xs) = ground (arith, iter_flatmap_lem xs)

  ary_map-apply : (xs ys : List Value) → ary_map call func xs ≡ some ys → map apply xs ≡ map some ys
  unfolding ary_map
  ary_map-apply [] [] h = refl
  ary_map-apply [] (y ∷ ys) h = cc
  ary_map-apply (x ∷ xs) [] h = ground arith
  ary_map-apply (x ∷ xs) (y ∷ ys) h = ground (arith, ary_map-apply xs ys)

  apply-ary_map : (xs ys : List Value) → map apply xs ≡ map some ys → ary_map call func xs ≡ some ys
  unfolding ary_map
  apply-ary_map [] [] h = refl
  apply-ary_map [] (y ∷ ys) h = cc
  apply-ary_map (x ∷ xs) [] h = cc
  apply-ary_map (x ∷ xs) (y ∷ ys) h = ground (arith, apply-ary_map xs ys)

  -- `ary.map(f)` gives the array of the results of f, in order, exactly where f fails on no element.
  pub ary_map_iff :
      (xs ys : List Value) → (ary_map call func xs ≡ some ys) ↔ (map apply xs ≡ map some ys)
  ary_map_iff xs ys = (ary_map-apply xs ys, apply-ary_map xs ys)

  join_parts :
      (a b : Option (List Value)) (out : List Value)
      → join call func a b ≡ some out
      → (p q : List Value) × (a ≡ some p) × (b ≡ some q) × (out ≡ p ++ q)
  join_parts none b out h = cc
  join_parts (some p) none out h = cc
  join_parts (some p) (some q) out h = (p, q, refl, refl, ground arith)

  mutual
    unfolding flatmap_push flatmap_len

    push_length :
        (vs : Values) (out : List Value)
        → flatmap_push call func vs ≡ some out
        → length out ≡ flatmap_len vs
    push_length end out h = ground arith
    push_length (cons v vs) out h =
        let (p, q, e, f, g) =
          join_parts (push_leaves call func v) (flatmap_push call func vs) out h in
        rw (g, length-append p q, push_leaves-length v p e, push_length vs q f)

    push_leaves-length :
        (v : Value) (out : List Value) → push_leaves call func v ≡ some out → length out ≡ leaves v
    push_leaves-length (arr h vs) out e = push_length vs out e
    push_leaves-length _ out e = ground arith
