-- ===== src/Iter/Source.antt =====
-- The producers `seq`, `repeat` and `cycle` of src/iter.c.
use streem.Base.{
  sym, append-nil, ◌≢◌, ℕ, zero, suc, ◌-◌, ◌^◌, ◌≤◌, ◌<◌, ◌≡◌, refl, Bool, true, false, ◌&&◌,
  Option, none, some, List, [], ◌∷◌, ◌++◌, arith, if◌then◌else◌, length, i32_dec, i32_negative,
  replicate, flatten, take, get_elem?, ap, abort, ◌==◌, ◌||◌,
}
use streem.Value.{Value, float, FloatOps}
use streem.Iter.{Out, emitting, aborting, Made, made, refused, Ran, running, stopped, aborted}

-- The values of `strm_emit(strm, v, itself)`.
abbrev pub repeating : {D : Type 0} → D → List Value → Out D
repeating d vs = record (emitting d vs) { again = true }

-- The values sent, with `strm_stream_close(strm)` behind them.
abbrev pub closing : {D : Type 0} → D → List Value → Out D
closing d vs = record (emitting d vs) { closed = true }

-- A producer's tasks in turn: each call of the callback that asks for another is followed by it.
-- The fuel bounds the number of calls.
unfoldable pub follow : {D : Type 0} → Out D → Ran D → Ran D
follow o rest = elim o.status [
  | abort ↦ record { state = o.state; emits = o.emits; end = aborted }
  | _ ↦
      if o.closed
      then record { state = o.state; emits = o.emits; end = stopped }
      else if o.again
      then record rest { emits = o.emits ++ rest.emits }
      else record { state = o.state; emits = o.emits; end = running }
]

unfoldable pub source : {D : Type 0} → ℕ → (D → Out D) → D → Ran D
unfolding follow
source zero g d = record { state = d; emits = []; end = running }
source (suc f) g d = let rest = source f g (g d).state in follow (g d) rest

pub record Repeat : Type 0 where
  pub v : Value
  pub count : ℕ

-- `exec_repeat`; without a number the count is -1.
unfoldable pub exec_repeat : Value → Option ℕ → Made Repeat
exec_repeat v none = made (record { v = v; count = 2 ^ 32 - 1 })
exec_repeat v (some n) =
    if i32_negative n || (n == 0)
    then refused "invalid count number"
    else made (record { v = v; count = n })

unfoldable pub gen_repeat : Repeat → Out Repeat
gen_repeat d =
    let d' : Repeat = record d { count = i32_dec d.count } in
    if d'.count == 0 then closing d' (d.v ∷ []) else repeating d' (d.v ∷ [])

pub record Cycle : Type 0 where
  pub ary : List Value
  pub count : ℕ

unfoldable pub exec_cycle : List Value → Option ℕ → Made Cycle
exec_cycle a none = made (record { ary = a; count = 2 ^ 32 - 1 })
exec_cycle a (some n) =
    if i32_negative n || (n == 0)
    then refused "invalid count number"
    else made (record { ary = a; count = n })

-- In the last round all elements go out; in the others the last element goes with the request for
-- the next round, and reading it from an empty array is a read outside it.
unfoldable pub gen_cycle : Cycle → Out Cycle
gen_cycle d =
    let d' : Cycle = record d { count = i32_dec d.count } in
    if d'.count == 0 then closing d' d.ary else elim (get_elem? d.ary (length d.ary - 1)) [
      | none ↦ aborting d'
      | some v ↦ repeating d' (take (length d.ary - 1) d.ary ++ (v ∷ []))
    ]

-- `struct seq_data`, in doubles.
pub record Seq : Type 0 where
  pub n : ℕ
  pub end : ℕ
  pub inc : ℕ

-- `exec_seq` by the number of arguments; with none given it counts from 1 without end.
unfoldable pub exec_seq : FloatOps → List ℕ → Option Seq
exec_seq fo [] = some (record { n = fo.of_int 1; end = fo.of_int (2 ^ 32 - 1); inc = fo.of_int 1 })
exec_seq fo (a ∷ []) = some (record { n = fo.of_int 1; end = a; inc = fo.of_int 1 })
exec_seq fo (a ∷ b ∷ []) = some (record { n = a; end = b; inc = fo.of_int 1 })
exec_seq fo (a ∷ b ∷ c ∷ []) = some (record { n = a; end = c; inc = b })
exec_seq fo _ = none

unfoldable pub gen_seq : FloatOps → Seq → Out Seq
gen_seq fo d =
    if fo.flt (fo.of_int 0) d.end && fo.flt d.end d.n
    then closing d []
    else repeating (record d { n = fo.fadd d.n d.inc }) (float d.n ∷ [])

module _ {D : Type 0} (g : D → Out D) (d e : D) (vs : List Value) where
  source-again :
      (f : ℕ)
      → g d ≡ repeating e vs
      → source (suc f) g d ≡ record (source f g e) { emits = vs ++ (source f g e).emits }
  source-again f h = unfold source follow in ap (λ o. follow o (source f g o.state)) h

  source-close :
      (f : ℕ)
      → g d ≡ closing e vs
      → source (suc f) g d ≡ record { state = e; emits = vs; end = stopped }
  source-close f h = unfold source follow in ap (λ o. follow o (source f g o.state)) h

module _ (v : Value) where
  abbrev left : ℕ → Repeat
  left n = record { v = v; count = n }

  repeat_more :
      (n m : ℕ) → n ≡ suc m → 0 < m → n < 2 ^ 32 → gen_repeat (left n) ≡ repeating (left m) (v ∷ [])
  unfolding gen_repeat
  repeat_more n m e p h = let c : i32_dec n ≡ m = omega arith in rw c (ground arith)

  repeat_from :
      (n f : ℕ)
      → n < 2 ^ 32
      → n ≤ f
      → 0 < n
      → ((source f gen_repeat (left n)).emits ≡ replicate n v)
        × ((source f gen_repeat (left n)).end ≡ stopped)
  repeat_from zero f h k p = absurd (omega arith)
  repeat_from (suc n) zero h k p = absurd (omega arith)
  repeat_from (suc zero) (suc f) h k p =
      rw (source-close gen_repeat (left 1) (left 0) (v ∷ []) f (unfold gen_repeat in refl))
        (refl, refl)
  repeat_from (suc (suc n)) (suc f) h k p =
      let r = repeat_from (suc n) f (omega arith) (omega arith) (omega arith) in
      rw
        (source-again gen_repeat (left (suc (suc n))) (left (suc n)) (v ∷ []) f
          (repeat_more (suc (suc n)) (suc n) refl (omega arith) h))
        (ap (λ t. v ∷ t) r.0, r.1)

  -- No number given: as many values as there are calls.
  repeat_on :
      (n f : ℕ)
      → n < 2 ^ 32
      → f < n
      → ((source f gen_repeat (left n)).emits ≡ replicate f v)
        × ((source f gen_repeat (left n)).end ≡ running)
  repeat_on n zero h k = unfold source in (refl, refl)
  repeat_on zero (suc f) h k = absurd (omega arith)
  repeat_on (suc n) (suc f) h k =
      let r = repeat_on n f (omega arith) (omega arith) in
      rw
        (source-again gen_repeat (left (suc n)) (left n) (v ∷ []) f
          (repeat_more (suc n) n refl (omega arith) h))
        (ap (λ t. v ∷ t) r.0, r.1)

-- `repeat(v, n)`, where it is not refused, sends v n times and then closes itself, in n calls of its
-- callback.
pub exec_repeat_lem :
    (v : Value) (n f : ℕ) (d : Repeat)
    → exec_repeat v (some n) ≡ made d
    → n < 2 ^ 32
    → n ≤ f
    → ((source f gen_repeat d).emits ≡ replicate n v) × ((source f gen_repeat d).end ≡ stopped)
unfolding exec_repeat
exec_repeat_lem v n f d e h k =
    let p : 0 < n = ground arith in
    let q : left v n ≡ d = ground arith in rw (← q) (repeat_from v n f h k p)

-- `repeat(v)` sends v with every call, for fewer than 2^31 calls, and stays open.
pub exec_repeat_on :
    (v : Value) (f : ℕ) (d : Repeat)
    → exec_repeat v none ≡ made d
    → f < 2 ^ 31
    → ((source f gen_repeat d).emits ≡ replicate f v) × ((source f gen_repeat d).end ≡ running)
unfolding exec_repeat
exec_repeat_on v f d e h =
    let q : left v (2 ^ 32 - 1) ≡ d = ground arith in
    rw (← q) (repeat_on v (2 ^ 32 - 1) f (omega arith) (omega arith))

last_split :
    (x : Value) (xs : List Value)
    → (v : Value) × (get_elem? (x ∷ xs) (length xs) ≡ some v)
      × (take (length xs) (x ∷ xs) ++ (v ∷ []) ≡ x ∷ xs)
last_split x [] = (x, refl, refl)
last_split x (y ∷ ys) = let (v, p, q) = last_split y ys in (v, p, ap (λ t. x ∷ t) q)

module _ (x : Value) (xs : List Value) where
  abbrev rounds : ℕ → Cycle
  rounds n = record { ary = x ∷ xs; count = n }

  cycle_more :
      (n m : ℕ)
      → n ≡ suc m
      → 0 < m
      → n < 2 ^ 32
      → gen_cycle (rounds n) ≡ repeating (rounds m) (x ∷ xs)
  unfolding gen_cycle
  cycle_more n m e p h =
      let c : i32_dec n ≡ m = omega arith in
      let l : suc (length xs) - 1 ≡ length xs = omega arith in
      let t : (m == 0) ≡ false = ground arith in
      let (v, a, b) = last_split x xs in ground (arith, c, l, t, a, b)

  cycle_from :
      (n f : ℕ)
      → n < 2 ^ 32
      → n ≤ f
      → 0 < n
      → ((source f gen_cycle (rounds n)).emits ≡ flatten (replicate n (x ∷ xs)))
        × ((source f gen_cycle (rounds n)).end ≡ stopped)
  cycle_from zero f h k p = absurd (omega arith)
  cycle_from (suc n) zero h k p = absurd (omega arith)
  cycle_from (suc zero) (suc f) h k p =
      rw (source-close gen_cycle (rounds 1) (rounds 0) (x ∷ xs) f (unfold gen_cycle in refl))
        (sym (append-nil (x ∷ xs)), refl)
  cycle_from (suc (suc n)) (suc f) h k p =
      let r = cycle_from (suc n) f (omega arith) (omega arith) (omega arith) in
      rw
        (source-again gen_cycle (rounds (suc (suc n))) (rounds (suc n)) (x ∷ xs) f
          (cycle_more (suc (suc n)) (suc n) refl (omega arith) h))
        (ap (λ t. (x ∷ xs) ++ t) r.0, r.1)

-- `cycle(ary, n)` over an array with an element, where it is not refused, sends the elements n
-- times over, in order, and then closes itself, in n calls of its callback.
pub exec_cycle_lem :
    (x : Value) (xs : List Value) (n f : ℕ) (d : Cycle)
    → exec_cycle (x ∷ xs) (some n) ≡ made d
    → n < 2 ^ 32
    → n ≤ f
    → ((source f gen_cycle d).emits ≡ flatten (replicate n (x ∷ xs)))
      × ((source f gen_cycle d).end ≡ stopped)
unfolding exec_cycle
exec_cycle_lem x xs n f d e h k =
    let p : 0 < n = ground arith in
    let q : rounds x xs n ≡ d = ground arith in rw (← q) (cycle_from x xs n f h k p)

-- The first round of an empty array that is to be cycled more than once, or without end, reads
-- outside the array.
pub exec_cycle_empty :
    (o : Option ℕ) (d : Cycle)
    → exec_cycle [] o ≡ made d
    → d.count ≢ 1
    → d.count < 2 ^ 32
    → (gen_cycle d).status ≡ abort
unfolding exec_cycle gen_cycle
exec_cycle_empty o d e h k = ground arith

module _ (fo : FloatOps) where
  -- The k-th number of a sequence.
  abbrev pub nth_number : Seq → ℕ → ℕ
  nth_number d zero = d.n
  nth_number d (suc k) = nth_number (record d { n = fo.fadd d.n d.inc }) k

  abbrev pub numbers : Seq → ℕ → List Value
  numbers d zero = []
  numbers d (suc k) = float d.n ∷ numbers (record d { n = fo.fadd d.n d.inc }) k

  -- The end is positive and lies below the number.
  abbrev pub past : Seq → ℕ → Bool
  past d x = fo.flt (fo.of_int 0) d.end && fo.flt d.end x

  -- `seq` sends its numbers, each the sum of the one before and the step, up to the first that
  -- lies past a positive end, and then closes itself.
  pub gen_seq_lem :
      (k f : ℕ) (d : Seq)
      → ((i : ℕ) → i < k → past d (nth_number d i) ≡ false)
      → past d (nth_number d k) ≡ true
      → k < f
      → ((source f (gen_seq fo) d).emits ≡ numbers d k) × ((source f (gen_seq fo) d).end ≡ stopped)
  gen_seq_lem k zero d low high h = absurd (omega arith)
  gen_seq_lem zero (suc f) d low high h =
      rw (source-close (gen_seq fo) d d [] f (unfold gen_seq in rw high)) (refl, refl)
  gen_seq_lem (suc k) (suc f) d low high h =
      let d' : Seq = record d { n = fo.fadd d.n d.inc } in
      let r = gen_seq_lem k f d' (λ i p. low (suc i) (omega arith)) high (omega arith) in
      rw
        (source-again (gen_seq fo) d d' (float d.n ∷ []) f
          (unfold gen_seq in rw (low 0 (omega arith))))
        (ap (λ t. float d.n ∷ t) r.0, r.1)
