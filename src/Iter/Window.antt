-- ===== src/Iter/Window.antt =====
-- `slice` and `consec` of src/iter.c: values gathered in a buffer of n places.
use streem.Base.{
  ℕ, zero, suc, ◌+◌, ◌-◌, List, [], ◌∷◌, ltb, ◌==◌, if◌then◌else◌, length, take, set, get_or,
}
use streem.Value.{Value, nil, ary_new}
use streem.Iter.{Out, emitting, quiet}

-- `struct slice_data`, with the n places of `buf` as a list.
pub record Slice : Type 0 where
  pub n : ℕ
  pub i : ℕ
  pub buf : List Value

-- `exec_slice` and `exec_consec` with the number read by `strm_get_args`; the content of a new block
-- is what `malloc` left there.
unfoldable pub slice_new : List Value → Slice
slice_new block = record { n = length block; i = 0; buf = block }

unfoldable pub iter_slice : Slice → Value → Out Slice
iter_slice d x =
    let buf = set d.buf d.i x in
    if d.i + 1 == d.n
    then emitting (record d { buf = buf; i = 0 }) (ary_new (take d.n buf) ∷ [])
    else quiet (record d { buf = buf; i = d.i + 1 })

unfoldable pub finish_slice : Slice → Out Slice
finish_slice d = if ltb 0 d.i then emitting d (ary_new (take d.i d.buf) ∷ []) else quiet d

-- `for (i=0; i<len; i++) buf[i] = buf[i+1]`, with k rounds left.
unfoldable pub shift : ℕ → ℕ → List Value → List Value
shift zero i buf = buf
shift (suc k) i buf = shift k (i + 1) (set buf i (get_or buf (i + 1) nil))

unfoldable pub iter_consec : Slice → Value → Out Slice
unfolding shift
iter_consec d x =
    if ltb d.i d.n
    then (let buf = set d.buf d.i x in
        let d' = record d { buf = buf; i = d.i + 1 } in
        if d.i + 1 == d.n then emitting d' (ary_new (take d.n buf) ∷ []) else quiet d')
    else (let buf = set (shift (d.n - 1) 0 d.buf) (d.n - 1) x in
        emitting (record d { buf = buf }) (ary_new (take d.n buf) ∷ []))

unfoldable pub finish_consec : Slice → Out Slice
finish_consec d = quiet d
