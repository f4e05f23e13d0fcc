-- ===== src/Exec/Run.antt =====
-- The stages of a pipe in src/exec.c: `blk_exec`, `arr_exec` and `cfunc_exec`; and `match`.
use streem.Base.{
  ℕ, zero, suc, Bool, true, false, Option, none, some, List, [], ◌∷◌, if◌then◌else◌, ◌==◌, Status,
  ok, ng, abort, length, get_elem?,
}
use streem.Value.{Value, nil, ptr, lambda}
use streem.Node.{Name, Node}
use streem.Exec.{Machine, returned, skipped, wrong_number_of_arguments, not_a_case_function}
use streem.Exec.State.{emitting, enter, raise, var_set}
use streem.Exec.Eval.{Runtime, Res, Outcome, give, lambda_kind, exec_expr, strm_funcall}

module _ {T : Type 0} where
  -- `strm_clear_exc`
  abbrev pub clear_exc : Machine T → Machine T
  clear_exc m = record m { exc = none }

  -- `strm_eprint`: the message is printed and gone; `skip` is not printed.
  abbrev pub strm_eprint : Machine T → Machine T
  strm_eprint m = elim m.exc [ none ↦ m | some skipped ↦ m | some e ↦ clear_exc m ]

  -- The end of `blk_exec`, after the evaluation of the body.
  unfoldable pub block_end : (verbose : Bool) → Res T → Status × Machine T
  block_end verbose r =
      let m = r.machine in
      elim m.exc [
        | some (returned v) ↦ elim r.status [
          | ok ↦ (ok, emitting (clear_exc m) v)
          | _ ↦ (ng, clear_exc m)
        ]
        | some _ ↦ (ng, if verbose then strm_eprint m else m)
        | none ↦ elim r.status [ ok ↦ (ok, emitting m r.val) | _ ↦ (ng, m) ]
      ]

-- What a call of `arr_exec` does: it closes the stream, or emits a value and goes on to a place, or
-- reads past the array.
pub data Produced : Type 0 where
  closed misread : Produced
  produced : Value → ℕ → Produced

-- `arr_exec` at the place `n` of the array.
unfoldable pub arr_exec : List Value → ℕ → Produced
arr_exec vs n =
    if n == length vs
    then closed
    else elim (get_elem? vs n) [ none ↦ misread | some v ↦ produced v (suc n) ]

-- The calls that the scheduler makes, one after the other; the result says whether the stream closed.
unfoldable pub arr_calls : ℕ → List Value → ℕ → List Value × Bool
unfolding arr_exec
arr_calls zero vs n = ([], false)
arr_calls (suc f) vs n = elim (arr_exec vs n) [
  | closed ↦ ([], true)
  | misread ↦ ([], false)
  | produced v k ↦ let r = arr_calls f vs k in (v ∷ r.0, r.1)
]

module _ {T : Type 0} (rt : Runtime T) where
  -- The parameter of a block: the assertion is that there is one at most.
  abbrev pub block_param : Machine T → ℕ → List Name → Value → Option (Machine T)
  block_param m c [] v = some m
  block_param m c (k ∷ []) v = some (var_set rt.hash m c k v).1
  block_param m c _ v = none

  -- `blk_exec` of the lambda at an address. One with cases is read as one with a body.
  unfoldable pub blk_exec :
      ℕ → (verbose : Bool) → Machine T → ℕ → Value → Option (Status × Machine T)
  unfolding block_end
  blk_exec f verbose m p v = elim (m.lambdas p) [
    | none ↦ some (abort, m)
    | some l ↦
        lambda_kind l.body
          (λ ks b. elim (block_param (enter m l.state) m.next ks v) [
            | none ↦ some (abort, enter m l.state)
            | some m1 ↦ elim (exec_expr rt f b m1 m.next nil) [
              | none ↦ none
              | some r ↦ some (block_end verbose r)
            ]
          ])
          (λ cs. some (abort, m)) (some (abort, m))
  ]

  -- `cfunc_exec`
  unfoldable pub cfunc_exec : Machine T → ℕ → Value → Status × Machine T
  cfunc_exec m p v =
      let r = rt.cfunc p m (v ∷ []) rt.junk in
      elim r.status [
        | ok ↦ (ok, emitting r.machine r.val)
        | abort ↦ (abort, r.machine)
        | ng ↦ (ng, r.machine)
      ]

  -- The last of the arguments, and those before it.
  abbrev pub last_of : Value → List Value → List Value × Value
  last_of v [] = ([], v)
  last_of v (w ∷ vs) = let (us, z) = last_of w vs in (v ∷ us, z)

  abbrev pub body_p : Machine T → Value → Option Node
  body_p m (ptr lambda p) = elim (m.lambdas p) [ none ↦ none | some l ↦ some l.body ]
  body_p m _ = none

  -- `exec_match`: the function is the last argument.
  unfoldable pub exec_match : ℕ → Machine T → List Value → Value → Outcome T
  exec_match f m (v ∷ w ∷ vs) val =
      let (args, g) = last_of v (w ∷ vs) in
      let called = strm_funcall rt f m g args val in
      elim (body_p m g) [
        | some (Node.lambda ks b) ↦ give ng val (raise m not_a_case_function)
        | _ ↦ called
      ]
  exec_match f m _ val = give ng val (raise m wrong_number_of_arguments)
