-- ===== src/Exec/Fuel.antt =====
-- More fuel for the interpreter of src/exec.c.
use streem.Base.{
  ℕ, zero, suc, ◌+◌, Bool, true, false, none, some, List, Option, not, length, ◌==◌, ◌&&◌, ◌≡◌,
  refl, arith,
}
use streem.Value.{Value, array_p, lambda, genfunc, cfunc, ptr, arr}
use streem.Node.{
  Name, Node, Nodes, Cases, null, int_lit, float_lit, time_lit, str_lit, bool_lit, nil_lit, ident,
  let_node, if_node, op_node, plambda, array, splat, call, fcall, return_node, skip, emit_nil, emit,
  nodes, ns_node, import_node, nother, nend, ncons, no_case, case_node,
}
use streem.Exec.{Machine}
use streem.Exec.State.{var_get, enter}
use streem.Exec.Eval.{
  unsplat, bind_args, match_args, holds, operands, plain_values, args_of, is_true, null_p,
  receiver_get, Res, Runtime, exec_expr, exec_items, exec_args, exec_nodes, exec_emits, exec_call,
  strm_funcall, lambda_call, exec_cases, null_p, is_true, operands, plain_values, args_of, unsplat,
  has_splat,
}
use streem.Exec.Extends.{
  Extends, same, extended, by_status, by_bool, by_if, by_option, by_kind, bound_option, after_res,
  after_ok, after_items,
}

module _ {T : Type 0} (rt : Runtime T) where
  mutual
    unfolding exec_expr

    expr_more :
        (f : ℕ) (n : Node) (m : Machine T) (a : ℕ) (v : Value)
        → Extends (exec_expr rt f n m a v) (exec_expr rt (suc f) n m a v)
    expr_more zero n m a v = tt
    expr_more (suc f) null m a v = refl
    expr_more (suc f) (ns_node k b) m a v = by_bool (null_p b) _ _ _ _ refl (expr_more f b _ _ v)
    expr_more (suc f) (import_node k) m a v = same _
    expr_more (suc f) skip m a v = refl
    expr_more (suc f) emit_nil m a v = refl
    expr_more (suc f) (emit ns) m a v = emits_more f ns m a v
    expr_more (suc f) (let_node k n) m a v = after_res _ _ _ _ (expr_more f n m a v) λ r. same _
    expr_more (suc f) (array ns ls k) m a v =
        after_items _ _ _ _ (items_more f true ns m a) λ r. same _
    expr_more (suc f) (ident k) m a v = same _
    expr_more (suc f) (if_node c t e) m a v = after_res _ _ _ _ (expr_more f c m a rt.junk) λ r.
        by_status r.status _ _ _ _ _ _
          (by_bool (is_true r.val) _ _ _ _ (expr_more f t r.machine a v)
            (by_bool (null_p e) _ _ _ _ refl (expr_more f e r.machine a v)))
          refl refl
    expr_more (suc f) (op_node k x y) m a v =
        after_items _ _ _ _ (items_more f false (operands x y) m a) λ r.
          by_status r.status _ _ _ _ _ _ (call_more f r.machine a k (plain_values r.vals) v) refl
            refl
    expr_more (suc f) (Node.lambda ks b) m a v = refl
    expr_more (suc f) (plambda cs) m a v = refl
    expr_more (suc f) (call k ns ls) m a v =
        after_res _ _ _ _ (args_more f ns ls m a) λ r.
          by_status r.status _ _ _ _ _ _ (call_more f r.machine a k (args_of r.val) v) refl refl
    expr_more (suc f) (fcall g ns ls) m a v = after_res _ _ _ _ (expr_more f g m a rt.junk) λ r.
        by_status r.status _ _ _ _ _ _
          (after_res _ _ _ _ (args_more f ns ls r.machine a) λ s.
            by_status s.status _ _ _ _ _ _ (funcall_more f s.machine r.val (args_of s.val) v) refl
              refl)
          refl refl
    expr_more (suc f) (Node.genfunc k) m a v = refl
    expr_more (suc f) (return_node ns) m a v =
        after_items _ _ _ _ (items_more f false ns m a) λ r. same _
    expr_more (suc f) (nodes ns) m a v = nodes_more f ns m a v
    expr_more (suc f) (int_lit n) m a v = refl
    expr_more (suc f) (float_lit n) m a v = refl
    expr_more (suc f) (time_lit s u o) m a v = refl
    expr_more (suc f) (bool_lit b) m a v = refl
    expr_more (suc f) nil_lit m a v = refl
    expr_more (suc f) (str_lit s) m a v = refl
    expr_more (suc f) (splat n) m a v = refl
    expr_more (suc f) nother m a v = refl

    items_more :
        (f : ℕ) (sp : Bool) (ns : Nodes) (m : Machine T) (a : ℕ)
        → Extends (exec_items rt f sp ns m a) (exec_items rt (suc f) sp ns m a)
    items_more zero sp ns m a = tt
    items_more (suc f) sp nend m a = refl
    items_more (suc f) sp (ncons n ns) m a =
        bound_option _ _ _ _ (expr_more f (unsplat sp n).1 m a rt.junk) λ r.
          by_status r.status _ _ _ _ _ _
            (by_if ((unsplat sp n).0 && not (array_p r.val)) _ _ _ _ refl
              (bound_option _ _ _ _ (items_more f sp ns r.machine a) λ is. refl))
            refl refl

    args_more :
        (f : ℕ) (ns : Nodes) (ls : Option (List Name)) (m : Machine T) (a : ℕ)
        → Extends (exec_args rt f ns ls m a) (exec_args rt (suc f) ns ls m a)
    args_more zero ns ls m a = tt
    args_more (suc f) ns ls m a =
        by_if (has_splat ns) _ _ _ _
          (after_res _ _ _ _ (expr_more f (array ns ls none) m a rt.junk) λ r. same _)
          (after_items _ _ _ _ (items_more f false ns m a) λ r. refl)

    nodes_more :
        (f : ℕ) (ns : Nodes) (m : Machine T) (a : ℕ) (v : Value)
        → Extends (exec_nodes rt f ns m a v) (exec_nodes rt (suc f) ns m a v)
    nodes_more zero ns m a v = tt
    nodes_more (suc f) nend m a v = refl
    nodes_more (suc f) (ncons n ns) m a v =
        after_ok _ _ _ _ (expr_more f n m a v) λ w m1. nodes_more f ns m1 a w

    emits_more :
        (f : ℕ) (ns : Nodes) (m : Machine T) (a : ℕ) (v : Value)
        → Extends (exec_emits rt f ns m a v) (exec_emits rt (suc f) ns m a v)
    emits_more zero ns m a v = tt
    emits_more (suc f) nend m a v = refl
    emits_more (suc f) (ncons n ns) m a v =
        after_ok _ _ _ _ (expr_more f n m a v) λ w m1. emits_more f ns _ a w

    call_more :
        (f : ℕ) (m : Machine T) (a : ℕ) (k : Name) (vs : List Value) (v : Value)
        → Extends (exec_call rt f m a k vs v) (exec_call rt (suc f) m a k vs v)
    call_more zero m a k vs v = tt
    call_more (suc f) m a k vs v =
        let w = receiver_get rt m k vs v in
        by_status w.status _ _ _ _ _ _ (by_if w.done _ _ _ _ refl (funcall_more f m w.val vs w.ret))
          (by_option (var_get rt.hash m a k) _ _ _ _ refl λ g. funcall_more f m g vs w.ret) refl

    funcall_more :
        (f : ℕ) (m : Machine T) (g : Value) (vs : List Value) (v : Value)
        → Extends (strm_funcall rt f m g vs v) (strm_funcall rt (suc f) m g vs v)
    funcall_more zero m g vs v = tt
    funcall_more (suc f) m (cfunc p) vs v = refl
    funcall_more (suc f) m (arr h xs) vs v = refl
    funcall_more (suc f) m (ptr lambda p) vs v = lambda_more f m p vs v
    funcall_more (suc f) m (ptr genfunc p) vs v =
        by_option (m.genfuncs p) _ _ _ _ refl λ g. call_more f m g.state g.id vs v
    funcall_more (suc f) m g vs v = refl

    lambda_more :
        (f : ℕ) (m : Machine T) (p : ℕ) (vs : List Value) (v : Value)
        → Extends (lambda_call rt f m p vs v) (lambda_call rt (suc f) m p vs v)
    lambda_more zero m p vs v = tt
    lambda_more (suc f) m p vs v = by_option (m.lambdas p) _ _ _ _ refl λ l.
        by_kind l.body _ _ _ _ _
          (λ ks b.
            by_if (length ks == length vs) _ _ _ _
              (by_status (bind_args rt (enter m l.state) m.next ks vs).0 _ _ _ _ _ _
                (after_res _ _ _ _ (expr_more f b _ m.next v) λ r. same _) refl refl)
              refl)
          (λ cs. cases_more f cs _ m.next vs v)

    cases_more :
        (f : ℕ) (cs : Cases) (m : Machine T) (c : ℕ) (vs : List Value) (v : Value)
        → Extends (exec_cases rt f cs m c vs v) (exec_cases rt (suc f) cs m c vs v)
    cases_more zero cs m c vs v = tt
    cases_more (suc f) no_case m c vs v = refl
    cases_more (suc f) (case_node p cond b cs) m c vs v =
        let w = match_args rt p m c vs in
        by_status w.0 _ _ _ _ _ _
          (by_bool (null_p cond) _ _ _ _ (after_res _ _ _ _ (expr_more f b w.1 c v) λ r. same _) (
            after_res _ _ _ _ (expr_more f cond w.1 c rt.junk) λ s.
              by_option (holds s) _ _ _ _ refl λ t.
                by_bool t _ _ _ _ (after_res _ _ _ _ (expr_more f b s.machine c v) λ r. same _)
                  (cases_more f cs _ c vs v)))
          (cases_more f cs _ c vs v) refl

-- An evaluation that comes to an end with some fuel comes to the same end, with the same value and
-- the same memory, with any fuel that is more.
pub exec_expr_mono :
    {T : Type 0} (rt : Runtime T) (d f : ℕ) (n : Node) (m : Machine T) (a : ℕ) (v : Value)
    (r : Res T)
    → exec_expr rt f n m a v ≡ some r
    → exec_expr rt (d + f) n m a v ≡ some r
exec_expr_mono rt zero f n m a v r e = let q : zero + f ≡ f = omega arith in rw q e
exec_expr_mono rt (suc d) f n m a v r e =
    let p : exec_expr rt (d + f) n m a v ≡ some r = exec_expr_mono rt d f n m a v r e in
    let q : suc d + f ≡ suc (d + f) = omega arith in
    rw q (extended _ _ r p (expr_more rt (d + f) n m a v))

-- Likewise for a call of a function, a lambda or a name.
pub strm_funcall_mono :
    {T : Type 0} (rt : Runtime T) (d f : ℕ) (m : Machine T) (g : Value) (vs : List Value)
    (v : Value) (r : Res T)
    → strm_funcall rt f m g vs v ≡ some r
    → strm_funcall rt (d + f) m g vs v ≡ some r
strm_funcall_mono rt zero f m g vs v r e = let q : zero + f ≡ f = omega arith in rw q e
strm_funcall_mono rt (suc d) f m g vs v r e =
    let q : suc d + f ≡ suc (d + f) = omega arith in
    rw q (extended _ _ r (strm_funcall_mono rt d f m g vs v r e) (funcall_more rt (d + f) m g vs v))
