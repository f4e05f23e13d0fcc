-- ===== src/Sort/Stream.antt =====
-- The callbacks of src/sort.c.
use streem.Base.{
  map, ℕ, Bool, true, false, Option, none, some, List, [], ◌∷◌, ◌++◌, if◌then◌else◌, ◌*◌, ◌%◌, ◌^◌,
  length, leb, ltb,
}
use streem.Value.{Value, FloatOps, ary_new}
use streem.Sort.{Cmp, strm_cmp, sortby_cmp}

-- `struct sort_data` and `struct sortby_data`: `buf` has the `len` elements written, and `capa` is the
-- number of elements that the memory has room for.
pub record Buffer (A : Type 0) : Type 0 where
  pub buf : List A
  pub capa : ℕ

-- SORT_FIRST_CAPA, in `exec_sort` and `exec_sortby`.
abbrev pub empty_buffer : {A : Type 0} → Buffer A
empty_buffer = record { buf = []; capa = 1024 }

-- Room for one more element. `capa` is an `int32_t`.
abbrev pub grown : {A : Type 0} → Buffer A → Buffer A
grown d = if leb d.capa (length d.buf) then record d { capa = (d.capa * 2) % 2 ^ 32 } else d

-- `d->buf[d->len] = x; d->len++;` behind that. Where the capacity has become negative, `realloc` has
-- refused the size, and there is no buffer to write to: none.
abbrev pub appended : {A : Type 0} → Buffer A → A → Option (Buffer A)
appended g x = if ltb g.capa (2 ^ 31) then some (record g { buf = g.buf ++ (x ∷ []) }) else none

-- `iter_sort`
unfoldable pub iter_sort : Buffer Value → Value → Option (Buffer Value)
iter_sort d v = appended (grown d) v

-- `iter_sortby`, where `key` is the function, and none its failure.
unfoldable pub iter_sortby :
    (Value → Option Value) → Buffer (Value × Value) → Value → Option (Bool × Buffer (Value × Value))
iter_sortby key d v =
    let g = grown d in
    let next : Bool × Buffer (Value × Value) = elim (key v) [
      | none ↦ (false, g)
      | some k ↦ (true, record g { buf = g.buf ++ ((k, v) ∷ []) })
    ] in
    if ltb g.capa (2 ^ 31) then some next else none

abbrev pub originals : List (Value × Value) → List Value
originals xs = map (λ p. p.1) xs

-- The loop of `ary_sortby`; none is a failed call.
abbrev pub keyed : (Value → Option Value) → List Value → Option (List (Value × Value))
keyed key [] = some []
keyed key (v ∷ vs) = elim (key v) [
  | none ↦ none
  | some k ↦ elim (keyed key vs) [ none ↦ none | some xs ↦ some ((k, v) ∷ xs) ]
]

module _ (qsort : (A : Type 0) → (A → A → Cmp) → List A → List A) (fo : FloatOps) where
  -- `mem_sort`, with the comparison function, or none for `sort_cmp`.
  unfoldable pub mem_sort : Option (Value → Value → Cmp) → List Value → List Value
  mem_sort none vs = qsort Value (strm_cmp fo) vs
  mem_sort (some c) vs = qsort Value c vs

  -- `finish_sort`: the values emitted.
  unfoldable pub finish_sort : Option (Value → Value → Cmp) → Buffer Value → List Value
  unfolding mem_sort
  finish_sort c d = mem_sort c d.buf

  -- `ary_sort`
  unfoldable pub ary_sort : Option (Value → Value → Cmp) → List Value → Value
  unfolding mem_sort
  ary_sort c vs = ary_new (mem_sort c vs)

  -- `finish_sortby`: the values emitted.
  unfoldable pub finish_sortby : Buffer (Value × Value) → List Value
  finish_sortby d = originals (qsort (Value × Value) (sortby_cmp fo) d.buf)

  -- `ary_sortby`
  unfoldable pub ary_sortby : (Value → Option Value) → List Value → Option Value
  ary_sortby key vs = elim (keyed key vs) [
    | none ↦ none
    | some xs ↦ some (ary_new (originals (qsort (Value × Value) (sortby_cmp fo) xs)))
  ]
