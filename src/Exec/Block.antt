-- ===== src/Exec/Block.antt =====
-- What the stages of a pipe in src/exec.c emit.
use streem.Base.{
  ℕ, suc, Bool, true, false, none, some, List, [], ◌∷◌, ◌++◌, ◌≡◌, refl, Status, ok, ng, length,
  arith, append-nil, append-snoc, length-append, ==_refl, ◌==◌, get_elem?,
}
use streem.Value.{Value, nil}
use streem.Node.{Name, Node, return_node, ncons, nend}
use streem.Exec.{Machine, returned}
use streem.Exec.State.{enter}
use streem.Exec.Eval.{Runtime, Res, exec_expr}
use streem.Exec.Run.{arr_exec, arr_calls, blk_exec, block_end, block_param, clear_exc}

at_place :
    (us : List Value) (v : Value) (vs : List Value) → get_elem? (us ++ v ∷ vs) (length us) ≡ some v
at_place [] v vs = refl
at_place (u ∷ us) v vs = at_place us v vs

arr_calls_from :
    (us vs : List Value) → arr_calls (suc (length vs)) (us ++ vs) (length us) ≡ (vs, true)
unfolding arr_calls arr_exec
arr_calls_from us [] = ground (arith, append-nil us, ==_refl (length us))
arr_calls_from us (v ∷ vs) =
    let ih = arr_calls_from (us ++ (v ∷ [])) vs in
    let i = append-snoc us v vs in
    let n = length-append us (v ∷ []) in
    let o = length-append us (v ∷ vs) in
    let q : length (us ++ (v ∷ [])) ≡ suc (length us) = omega arith in
    let w : arr_calls (suc (length vs)) (us ++ v ∷ vs) (suc (length us)) ≡ (vs, true) =
      rw (← i, ← q) ih in
    let d : (length us == length (us ++ v ∷ vs)) ≡ false = ground (arith, o) in
    ground (arith, w, d, at_place us v vs)

-- An array as a source emits its elements, each once and in order, and then closes.
pub arr_exec_lem : (vs : List Value) → arr_calls (suc (length vs)) vs 0 ≡ (vs, true)
arr_exec_lem vs = arr_calls_from [] vs

module _ {T : Type 0} (rt : Runtime T) where
  -- The step of `blk_exec` for a lambda that has a body.
  -- The value or values of a stage's result.
  end_emits :
      (verbose : Bool) (r : Res T)
      → (block_end verbose r).1.emitted
        ≡ r.machine.emitted ++ (elim r.status [
          | ok ↦ elim r.machine.exc [ none ↦ r.val ∷ [] | some (returned w) ↦ w ∷ [] | some _ ↦ [] ]
          | _ ↦ []
        ])
  unfolding block_end
  end_emits verbose r = ground (arith, append-nil r.machine.emitted)

  block_step :
      (f : ℕ) (verbose : Bool) (m m1 : Machine T) (p s : ℕ) (v : Value) (ks : List Name) (b : Node)
      (r : Res T)
      → m.lambdas p ≡ some (record { body = Node.lambda ks b; state = s })
      → block_param rt (enter m s) m.next ks v ≡ some m1
      → exec_expr rt f b m1 m.next nil ≡ some r
      → blk_exec rt f verbose m p v ≡ some (block_end verbose r)
  unfolding blk_exec
  block_step f verbose m m1 p s v ks b r l q e = ground (arith, l, q, e)

  -- A block with at most one parameter, whose evaluation comes to an end, emits one value after those
  -- of the evaluation, or none. It emits one where the evaluation succeeded and left no exception, the
  -- value of the body, or a `return`, the value of that one instead.
  pub blk_exec_lem :
      (f : ℕ) (verbose : Bool) (m m1 : Machine T) (p s : ℕ) (v : Value) (ks : List Name) (b : Node)
      (r : Res T) (t : Status) (m' : Machine T)
      → m.lambdas p ≡ some (record { body = Node.lambda ks b; state = s })
      → block_param rt (enter m s) m.next ks v ≡ some m1
      → exec_expr rt f b m1 m.next nil ≡ some r
      → blk_exec rt f verbose m p v ≡ some (t, m')
      → m'.emitted
        ≡ r.machine.emitted ++ (elim r.status [
          | ok ↦ elim r.machine.exc [ none ↦ r.val ∷ [] | some (returned w) ↦ w ∷ [] | some _ ↦ [] ]
          | _ ↦ []
        ])
  unfolding block_end
  blk_exec_lem f verbose m m1 p s v ks b r t m' l q e g =
      ground (arith, block_step f verbose m m1 p s v ks b r l q e, end_emits verbose r)

  -- A block with at most one parameter whose body is a `return` of an expression that evaluates does
  -- not emit the value: its call fails, with the memory that the evaluation left, and with the
  -- exception cleared.
  pub blk_exec-return :
      (f : ℕ) (verbose : Bool) (m m1 : Machine T) (p s : ℕ) (v : Value) (ks : List Name) (n : Node)
      (r : Res T)
      → m.lambdas p
        ≡ some (record { body = Node.lambda ks (return_node (ncons n nend)); state = s })
      → block_param rt (enter m s) m.next ks v ≡ some m1
      → exec_expr rt (suc f) n m1 m.next rt.junk ≡ some r
      → r.status ≡ ok
      → blk_exec rt (suc (suc (suc f))) verbose m p v ≡ some (ng, clear_exc r.machine)
  unfolding block_end exec_expr
  blk_exec-return f verbose m m1 p s v ks n r l q e g =
      let x : Res T = record {
        status = ng;
        val = nil;
        machine = record r.machine { exc = some (returned r.val) };
      } in
      let w : exec_expr rt (suc (suc (suc f))) (return_node (ncons n nend)) m1 m.next nil ≡ some x =
        rw (e, g) refl in
      block_step (suc (suc (suc f))) verbose m m1 p s v ks (return_node (ncons n nend)) x l q w
