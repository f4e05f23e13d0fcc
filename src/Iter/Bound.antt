-- ===== src/Iter/Bound.antt =====
-- `take`, `drop` and `uniq` of src/iter.c.
use streem.Base.{
  take_all, map, inl, inr, ℕ, zero, suc, ◌-◌, ◌^◌, ◌<◌, ◌≡◌, refl, Bool, true, false, not, Option,
  none, some, List, [], ◌∷◌, arith, ltb, ◌==◌, if◌then◌else◌, length, take, drop, i32_dec,
  i32_negative, ◌&&◌, ap, ◌∙◌, ltb_lt, filter_map, Option-cases,
}
use streem.Value.{Value, nil, FloatOps}
use streem.Value.Equal.{value_eq}
use mathlib.Core.Option
use streem.Iter.{Made, made, refused, Out, emitting, quiet, failing, running, stopped, next, run}

-- `exec_take` and `exec_drop`, with the number that `strm_get_args` read.
unfoldable pub exec_take : ℕ → Made ℕ
exec_take n = if i32_negative n then refused "negative iteration" else made n

unfoldable pub exec_drop : ℕ → Made ℕ
exec_drop n = if i32_negative n then refused "negative iteration" else made n

-- The count is an `int`: it is decremented after the value has gone out.
unfoldable pub iter_take : ℕ → Value → Out ℕ
iter_take n v = let m = i32_dec n in record (emitting m (v ∷ [])) { closed = m == 0 }

-- `d->n > 0`, on the pattern of an `int`.
unfoldable pub iter_drop : ℕ → Value → Out ℕ
iter_drop n v =
    if not (n == 0) && not (i32_negative n) then quiet (i32_dec n) else emitting n (v ∷ [])

dec-pos : (n : ℕ) → 0 < n → n < 2 ^ 32 → i32_dec n ≡ n - 1
dec-pos n h k = omega arith

take_last :
    (x : Value) (xs : List Value)
    → ((run iter_take 1 (x ∷ xs)).emits ≡ x ∷ []) × ((run iter_take 1 (x ∷ xs)).end ≡ stopped)
unfolding run next iter_take
take_last x xs = (refl, refl)

-- While more than one value is still to go, a step lowers the count.
take_more :
    (n : ℕ) (x : Value) (xs : List Value)
    → suc n < 2 ^ 32
    → 0 < n
    → run iter_take (suc n) (x ∷ xs)
      ≡ record (run iter_take n xs) { emits = x ∷ (run iter_take n xs).emits }
unfolding run next iter_take
take_more n x xs h k =
    let e : i32_dec (suc n) ≡ n = omega arith in
    let t : (n == 0) ≡ false = ground arith in rw (e, t)

-- A stream `take(n)` with 0 < n passes the first n values on in order and closes itself with the
-- n-th; with fewer it stays open.
pub iter_take_lem :
    (n : ℕ) (xs : List Value)
    → 0 < n
    → n < 2 ^ 32
    → ((run iter_take n xs).emits ≡ take n xs)
      × ((run iter_take n xs).end ≡ (if ltb (length xs) n then running else stopped))
unfolding run next iter_take
iter_take_lem zero xs h k = absurd (omega arith)
iter_take_lem (suc n) [] h k = (refl, ground arith)
iter_take_lem (suc zero) (x ∷ xs) h k = (refl, ground arith)
iter_take_lem (suc (suc n)) (x ∷ xs) h k =
    ground (arith, take_more (suc n) x xs, iter_take_lem (suc n) xs (omega arith) (omega arith))

-- A count that the input does not reach.
iter_take_all :
    (n : ℕ) (xs : List Value)
    → length xs < n
    → n < 2 ^ 32
    → ((run iter_take n xs).emits ≡ xs) × ((run iter_take n xs).end ≡ running)
iter_take_all n xs h k =
    let r = iter_take_lem n xs (omega arith) k in
    (r.0 ∙ take_all n xs (omega arith), r.1 ∙ rw (ltb_lt (length xs) n h))

take_first :
    (x : Value) (xs : List Value)
    → run iter_take 0 (x ∷ xs)
      ≡ record (run iter_take (2 ^ 32 - 1) xs) { emits = x ∷ (run iter_take (2 ^ 32 - 1) xs).emits }
unfolding run next iter_take
take_first x xs = refl

-- A stream `take(0)` sends its first value before it counts down, so the count never meets zero: it
-- passes on every value and stays open, for any input shorter than 2^31.
pub iter_take_zero :
    (xs : List Value)
    → length xs < 2 ^ 31
    → ((run iter_take 0 xs).emits ≡ xs) × ((run iter_take 0 xs).end ≡ running)
unfolding run
iter_take_zero [] h = (refl, refl)
iter_take_zero (x ∷ xs) h =
    let r = iter_take_all (2 ^ 32 - 1) xs (omega arith) (omega arith) in
    rw (take_first x xs) (ap (λ t. x ∷ t) r.0, r.1)

drop_step : (n : ℕ) (x : Value) → suc n < 2 ^ 31 → iter_drop (suc n) x ≡ quiet n
unfolding iter_drop
drop_step n x h = let e : i32_dec (suc n) ≡ n = omega arith in rw e (ground arith)

-- A stream `drop(n)` skips the first n values, passes on all the others in order, and stays open.
pub iter_drop_lem :
    (n : ℕ) (xs : List Value)
    → n < 2 ^ 31
    → ((run iter_drop n xs).emits ≡ drop n xs) × ((run iter_drop n xs).end ≡ running)
unfolding run next iter_drop
iter_drop_lem zero [] k = (refl, refl)
iter_drop_lem zero (x ∷ xs) k = ground (arith, iter_drop_lem zero xs)
iter_drop_lem (suc n) [] k = (refl, refl)
iter_drop_lem (suc n) (x ∷ xs) k = rw (drop_step n x k) (iter_drop_lem n xs (omega arith))

-- `exec_uniq`: without a function the values themselves are compared, with one its results.
pub record Uniq : Type 0 where
  pub last : Value
  pub v : Value
  pub init : Bool

abbrev pub uniq_new : Uniq
uniq_new = record { last = nil; v = nil; init = false }

-- `d->v` is written before it is read.
unfoldable pub iter_uniq : FloatOps → Uniq → Value → Out Uniq
iter_uniq fo d x =
    if not d.init
    then emitting (record d { init = true; last = x }) (x ∷ [])
    else if not (value_eq fo x d.last)
    then emitting (record d { last = x }) (x ∷ [])
    else quiet d

-- `call` is `strm_funcall`, with `none` for `STRM_NG`.
unfoldable pub iter_uniqf :
    FloatOps → (Value → List Value → Option Value) → Value → Uniq → Value → Out Uniq
iter_uniqf fo call func d x = elim (call func (x ∷ [])) [
  | none ↦ failing d
  | some val ↦
      if not d.init
      then emitting (record { init = true; last = x; v = val }) (x ∷ [])
      else if not (value_eq fo val d.v)
      then emitting (record { init = true; last = x; v = val }) (x ∷ [])
      else quiet d
]

module _ {A : Type 0} where
  -- The first value of each run of equal neighbours, given the value before.
  abbrev pub dedup_from : (A → A → Bool) → A → List A → List A
  dedup_from eq p [] = []
  dedup_from eq p (x ∷ xs) = if eq x p then dedup_from eq p xs else x ∷ dedup_from eq x xs

  abbrev pub dedup : (A → A → Bool) → List A → List A
  dedup eq [] = []
  dedup eq (x ∷ xs) = x ∷ dedup_from eq x xs

module _ (fo : FloatOps) where
  uniq_from :
      (d : Uniq) (xs : List Value)
      → d.init ≡ true
      → (run (iter_uniq fo) d xs).emits ≡ dedup_from (value_eq fo) d.last xs
  unfolding run next iter_uniq
  uniq_from d [] h = refl
  uniq_from d (x ∷ xs) h = ground (arith, uniq_from d xs h, uniq_from (record d { last = x }) xs h)

  -- `uniq()` sends on the first value of every run of neighbours that are equal to it, in order.
  pub iter_uniq_lem :
      (xs : List Value) → (run (iter_uniq fo) uniq_new xs).emits ≡ dedup (value_eq fo) xs
  unfolding run next iter_uniq
  iter_uniq_lem [] = refl
  iter_uniq_lem (x ∷ xs) =
      ap (λ t. x ∷ t) (uniq_from (record uniq_new { init = true; last = x }) xs refl)

module _ (fo : FloatOps) (call : Value → List Value → Option Value) (func : Value) where
  -- A value with the result of the function on it, where it gives one.
  abbrev pub keyed : Value → Option (Value × Value)
  keyed x = Option.map (λ k. (x, k)) (call func (x ∷ []))

  abbrev pub same_key : Value × Value → Value × Value → Bool
  same_key p q = value_eq fo p.1 q.1

  uniqf_from :
      (d : Uniq) (xs : List Value)
      → d.init ≡ true
      → (run (iter_uniqf fo call func) d xs).emits
        ≡ map (λ p. p.0) (dedup_from same_key (d.last, d.v) (filter_map keyed xs))
  unfolding run next iter_uniqf
  uniqf_from d [] h = refl
  uniqf_from d (x ∷ xs) h = elim (Option-cases (call func (x ∷ []))) [
    | inl e ↦ ground (arith, uniqf_from d xs h)
    | inr (k, e) ↦
        ground
          (arith, uniqf_from d xs h, uniqf_from (record { init = true; last = x; v = k }) xs refl)
  ]

  -- `uniq(f)` leaves out the values on which f fails, and of the others sends on the first of every
  -- run of neighbours on which f gives equal results.
  pub iter_uniqf_lem :
      (xs : List Value)
      → (run (iter_uniqf fo call func) uniq_new xs).emits
        ≡ map (λ p. p.0) (dedup same_key (filter_map keyed xs))
  unfolding run next iter_uniqf
  iter_uniqf_lem [] = refl
  iter_uniqf_lem (x ∷ xs) = elim (Option-cases (call func (x ∷ []))) [
    | inl e ↦ ground (arith, iter_uniqf_lem xs)
    | inr (k, e) ↦ ground (arith, uniqf_from (record { init = true; last = x; v = k }) xs refl)
  ]
