-- ===== src/Iter/Consec.antt =====
-- `consec` of src/iter.c, beside the windows of its input.
use streem.Base.{
  drop, take-append, ℕ, suc, ◌+◌, ◌-◌, ◌<◌, ◌≡◌, refl, sym, ap, ◌∙◌, List, [], ◌∷◌, ◌++◌, arith,
  leb, ◌==◌, if◌then◌else◌, length, take, set, map, get_or, take-set_last, length-set,
  length-append, append-snoc, set-append, get_or-append, take_all, Bool-cases, inl, inr,
  length-take_le,
}
use streem.Value.{Value, nil, ary_new}
use streem.Iter.{emitting, quiet, drain, drain-step}
use streem.Iter.Window.{Slice, slice_new, shift, iter_consec, finish_consec}

-- The windows of n neighbouring values, in order.
abbrev pub windows : ℕ → List Value → List (List Value)
windows n [] = []
windows n (x ∷ xs) = if leb n (length (x ∷ xs)) then take n (x ∷ xs) ∷ windows n xs else []

shift-set :
    (pre : List Value) (a : Value) (post : List Value) (x : Value) (i j k : ℕ)
    → i ≡ length pre
    → k ≡ length post
    → j ≡ i + k
    → set (shift k i (pre ++ (a ∷ post))) j x ≡ pre ++ (post ++ (x ∷ []))
unfolding shift
shift-set pre a [] x i j k e f g = rw f (set-append pre a [] x j (omega arith))
shift-set pre a (b ∷ post) x i j k e f g = rw f (
    ap (λ buf. set (shift (length post) (i + 1) buf) j x) moved
    ∙ shift-set (pre ++ (b ∷ [])) b post x (i + 1) j (length post)
        (omega (arith, length-append pre (b ∷ []))) refl (omega arith)
    ∙ append-snoc pre b (post ++ (x ∷ [])))
  where
    moved :
        set (pre ++ (a ∷ b ∷ post)) i (get_or (pre ++ (a ∷ b ∷ post)) (i + 1) nil)
        ≡ (pre ++ (b ∷ [])) ++ (b ∷ post)
    moved =
        ap (λ v. set (pre ++ (a ∷ b ∷ post)) i v)
          (get_or-append pre a b post nil (i + 1) (omega arith))
        ∙ set-append pre a (b ∷ post) b i e
        ∙ sym (append-snoc pre b (b ∷ post))

-- A full buffer loses its oldest value and takes the new one at its end.
consec_full :
    (n : ℕ) (a : Value) (post : List Value) (x : Value)
    → n ≡ suc (length post)
    → iter_consec (record { n = n; i = n; buf = a ∷ post }) x
      ≡ emitting (record { n = n; i = n; buf = post ++ (x ∷ []) }) (ary_new (post ++ (x ∷ [])) ∷ [])
unfolding iter_consec
consec_full n a post x h = ground (
  arith,
  shift-set [] a post x 0 (n - 1) (n - 1),
  take_all n (post ++ (x ∷ [])),
  length-append post (x ∷ []),
)

consec_fill :
    (d : Slice) (x : Value)
    → d.i + 1 < d.n
    → iter_consec d x ≡ quiet (record d { buf = set d.buf d.i x; i = d.i + 1 })
unfolding iter_consec
consec_fill d x h = ground arith

consec_first :
    (d : Slice) (x : Value)
    → d.i + 1 ≡ d.n
    → d.n ≡ length d.buf
    → iter_consec d x
      ≡ emitting
          (record d { buf = take d.i d.buf ++ (x ∷ []); i = d.n })
          (ary_new (take d.i d.buf ++ (x ∷ [])) ∷ [])
unfolding iter_consec
consec_first d x h n =
    ground
      (arith, take_all d.n (set d.buf d.i x), length-set d.buf d.i x, take-set_last d.buf d.i d.n x)

windows_short : (n : ℕ) (xs : List Value) → length xs < n → windows n xs ≡ []
windows_short n [] h = refl
windows_short n (x ∷ xs) h = ground arith

windows_cons :
    (n : ℕ) (w xs : List Value)
    → n ≡ length w
    → 0 < n
    → windows n (w ++ xs) ≡ w ∷ windows n (drop 1 w ++ xs)
windows_cons n [] xs h p = absurd (omega arith)
windows_cons n (y ∷ ys) xs h p = ground (arith, take-append (y ∷ ys) xs n h, length-append ys xs)

-- Once the buffer is full, every value sends on the window that it ends.
consec_run_full :
    (n : ℕ) (buf xs : List Value)
    → n ≡ length buf
    → 0 < n
    → drain iter_consec finish_consec (record { n = n; i = n; buf = buf }) xs
      ≡ map ary_new (windows n (drop 1 buf ++ xs))
consec_run_full n [] xs h p = absurd (omega arith)
consec_run_full n (a ∷ post) [] h p =
    unfold drain finish_consec in
    ap (map ary_new) (sym (windows_short n (post ++ []) (omega (arith, length-append post []))))
consec_run_full n (a ∷ post) (x ∷ xs) h p =
    drain-step iter_consec finish_consec (record { n = n; i = n; buf = a ∷ post })
      (record { n = n; i = n; buf = post ++ (x ∷ []) }) x _ xs (consec_full n a post x h)
    ∙ ap (λ t. ary_new (post ++ (x ∷ [])) ∷ t) (consec_run_full n (post ++ (x ∷ [])) xs len p)
    ∙ ap (map ary_new) (sym (windows_cons n (post ++ (x ∷ [])) xs len p))
    ∙ ap (λ t. map ary_new (windows n t)) (append-snoc post x xs)
  where
    len : n ≡ length (post ++ (x ∷ []))
    len = omega (arith, length-append post (x ∷ []))

consec_run :
    (d : Slice) (xs : List Value)
    → d.i < d.n
    → d.n ≡ length d.buf
    → drain iter_consec finish_consec d xs ≡ map ary_new (windows d.n (take d.i d.buf ++ xs))
consec_run d [] h n =
    unfold drain finish_consec in
    ap (map ary_new) (
      sym (
        windows_short d.n (take d.i d.buf ++ []) (
          omega
            (arith, length-append (take d.i d.buf) [], length-take_le d.i d.buf (omega arith)))))
consec_run d (x ∷ xs) h n = elim (Bool-cases (d.i + 1 == d.n)) [
  | inl e ↦
      drain-step iter_consec finish_consec d (record { n = d.n; i = d.n; buf = w }) x _ xs
        (consec_first d x (ground arith) n)
      ∙ ap (λ t. ary_new w ∷ t)
          (consec_run_full d.n w xs
            (ground (arith, length-append (take d.i d.buf) (x ∷ []), length-take_le d.i d.buf))
            (omega arith))
      ∙ ap (map ary_new) (
          sym (
            windows_cons d.n w xs
              (ground (arith, length-append (take d.i d.buf) (x ∷ []), length-take_le d.i d.buf))
              (omega arith)))
      ∙ ap (λ t. map ary_new (windows d.n t)) (append-snoc (take d.i d.buf) x xs)
  | inr e ↦
      drain-step iter_consec finish_consec d d' x _ xs (consec_fill d x (ground arith))
      ∙ consec_run d' xs (ground arith) (omega (arith, length-set d.buf d.i x))
      ∙ ap (λ t. map ary_new (windows d.n (t ++ xs)))
          (take-set_last d.buf d.i (d.i + 1) x (omega arith) (omega arith))
      ∙ ap (λ t. map ary_new (windows d.n t)) (append-snoc (take d.i d.buf) x xs)
]
  where
    w : List Value
    w = take d.i d.buf ++ (x ∷ [])

    d' : Slice
    d' = record d { buf = set d.buf d.i x; i = d.i + 1 }

-- A stream `consec(n)` with 0 < n sends on every window of n neighbouring values, in order, and
-- nothing on closing.
pub iter_consec_lem :
    (block xs : List Value)
    → 0 < length block
    → drain iter_consec finish_consec (slice_new block) xs ≡ map ary_new (windows (length block) xs)
unfolding slice_new
iter_consec_lem block xs h = consec_run (slice_new block) xs h refl
