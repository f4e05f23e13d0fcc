-- ===== src/Iter/Cut.antt =====
-- `slice` of src/iter.c, beside the groups that its input is cut into.
use streem.Base.{
  ℕ, zero, suc, ◌+◌, ◌≤◌, ◌<◌, ◌≡◌, refl, ◌∙◌, List, [], ◌∷◌, ◌++◌, arith, ◌==◌, if◌then◌else◌,
  length, take, set, flatten, map, take-set_last, length-set, length-append, append-snoc,
  Bool-cases, inl, inr, length-take_le,
}
use streem.Value.{Value, ary_new}
use streem.Iter.{emitting, quiet, drain, drain-step}
use streem.Iter.Window.{Slice, slice_new, iter_slice, finish_slice}

-- The values cut into groups of n, the values of an unfinished group given.
abbrev pub groups : ℕ → List Value → List Value → List (List Value)
groups n [] [] = []
groups n (a ∷ acc) [] = (a ∷ acc) ∷ []
groups n acc (x ∷ xs) =
    if length acc + 1 == n
    then (acc ++ (x ∷ [])) ∷ groups n [] xs
    else groups n (acc ++ (x ∷ [])) xs

-- Groups of n values each, but for the last, which has at least one and at most n.
abbrev pub IsCut : ℕ → List (List Value) → Type 0
IsCut n [] = Unit
IsCut n (g ∷ []) = (0 < length g) × (length g ≤ n)
IsCut n (g ∷ h ∷ gs) = (length g ≡ n) × IsCut n (h ∷ gs)

groups-flatten : (n : ℕ) (acc xs : List Value) → flatten (groups n acc xs) ≡ acc ++ xs
groups-flatten n [] [] = refl
groups-flatten n (a ∷ acc) [] = refl
groups-flatten n acc (x ∷ xs) = elim (Bool-cases (length acc + 1 == n)) [
  | inl e ↦ rw e (rw (groups-flatten n [] xs) (append-snoc acc x xs))
  | inr e ↦ rw e (groups-flatten n (acc ++ (x ∷ [])) xs ∙ append-snoc acc x xs)
]

IsCut-cons :
    (n : ℕ) (g : List Value) (gs : List (List Value))
    → 0 < n
    → length g ≡ n
    → IsCut n gs
    → IsCut n (g ∷ gs)
IsCut-cons n g [] p h c = (omega arith, omega arith)
IsCut-cons n g (k ∷ gs) p h c = (h, c)

groups-IsCut : (n : ℕ) (acc xs : List Value) → 0 < n → length acc < n → IsCut n (groups n acc xs)
groups-IsCut n [] [] p h = tt
groups-IsCut n (a ∷ acc) [] p h = (omega arith, omega arith)
groups-IsCut n acc (x ∷ xs) p h = elim (Bool-cases (length acc + 1 == n)) [
  | inl e ↦ rw e (
      IsCut-cons n (acc ++ (x ∷ [])) (groups n [] xs) p (ground (arith, length-append acc (x ∷ [])))
        (groups-IsCut n [] xs p p))
  | inr e ↦
      rw e (groups-IsCut n (acc ++ (x ∷ [])) xs p (ground (arith, length-append acc (x ∷ []))))
]

last_group :
    (n i : ℕ) (buf : List Value)
    → i ≤ length buf
    → (finish_slice (record { n = n; i = i; buf = buf })).emits
      ≡ map ary_new (groups n (take i buf) [])
unfolding finish_slice
last_group n zero buf h = refl
last_group n (suc i) [] h = absurd (omega arith)
last_group n (suc i) (b ∷ buf) h = ground arith

slice_step_full :
    (d : Slice) (x : Value)
    → d.i + 1 ≡ d.n
    → length d.buf ≡ d.n
    → iter_slice d x
      ≡ emitting
          (record d { buf = set d.buf d.i x; i = 0 })
          (ary_new (take d.i d.buf ++ (x ∷ [])) ∷ [])
unfolding iter_slice
slice_step_full d x h l = ground (arith, take-set_last d.buf d.i d.n x)

slice_step_more :
    (d : Slice) (x : Value)
    → d.i + 1 < d.n
    → iter_slice d x ≡ quiet (record d { buf = set d.buf d.i x; i = d.i + 1 })
unfolding iter_slice
slice_step_more d x h = ground arith

slice_from :
    (d : Slice) (xs : List Value)
    → d.i < d.n
    → length d.buf ≡ d.n
    → drain iter_slice finish_slice d xs ≡ map ary_new (groups d.n (take d.i d.buf) xs)
slice_from d [] h l = unfold drain in last_group d.n d.i d.buf (omega arith)
slice_from d (x ∷ xs) h l = elim (Bool-cases (d.i + 1 == d.n)) [
  | inl e ↦
      let d' : Slice = record d { buf = set d.buf d.i x; i = 0 } in
      drain-step iter_slice finish_slice d d' x _ xs (slice_step_full d x (ground arith) l)
      ∙ ground (arith, slice_from d' xs, length-set d.buf d.i x, length-take_le d.i d.buf)
  | inr e ↦
      let d' : Slice = record d { buf = set d.buf d.i x; i = d.i + 1 } in
      drain-step iter_slice finish_slice d d' x _ xs (slice_step_more d x (ground arith))
      ∙ ground (
        arith,
        slice_from d' xs,
        length-set d.buf d.i x,
        length-take_le d.i d.buf,
        take-set_last d.buf d.i (d.i + 1) x,
      )
]

-- A stream `slice(n)` with 0 < n sends on the values in arrays: put together they are the input in
-- order, each array but the last holds n values, and the last, sent on closing, holds 1 to n.
pub iter_slice_lem :
    (block xs : List Value)
    → 0 < length block
    → (gs : List (List Value)) × (drain iter_slice finish_slice (slice_new block) xs
        ≡ map ary_new gs)
      × (flatten gs ≡ xs)
      × IsCut (length block) gs
unfolding slice_new
iter_slice_lem block xs h = (
  groups (length block) [] xs,
  slice_from (slice_new block) xs h refl,
  groups-flatten (length block) [] xs,
  groups-IsCut (length block) [] xs h h,
)
