-- ===== src/Exec/Assign.antt =====
-- Variables through an evaluation of src/exec.c.
use mathlib.Core.Path.{subst}
use streem.Base.{
  ◌≡◌, refl, Bool, true, false, none, some, List, Option, ℕ, zero, suc, if_case, status_case,
  option_case, bool_case, bytes_eq, ◌&&◌, length, not, ◌==◌,
}
use streem.Khash.{Laws}
use streem.Value.{Value, array_p, lambda, genfunc, cfunc, ptr, arr}
use streem.Node.{
  Name, Node, Nodes, Cases, null, int_lit, float_lit, time_lit, str_lit, bool_lit, nil_lit, ident,
  let_node, if_node, op_node, plambda, array, splat, call, fcall, return_node, skip, emit_nil, emit,
  nodes, ns_node, import_node, nother, nend, ncons, no_case, case_node,
}
use streem.Exec.{splat_requires_array, Machine}
use streem.Exec.State.{
  strm_ns_create, env_copy, copy_state, emitting, strm_ns_get, var_get, enter, at, strm_ns_create,
  env_copy, copy_state, emitting,
}
use streem.Exec.Keep.{
  Keeps, keeps_trans, keeps_same, keeps_next, var_set_keeps, env_copy_keeps, ns_create_keeps,
}
use streem.Exec.Eval.{
  ary_get, Res, Runtime, exec_expr, exec_items, exec_args, exec_nodes, exec_emits, exec_call,
  strm_funcall, lambda_call, exec_cases, unsplat, bind_args, match_args, holds, receiver_get,
  is_true, null_p, plain_values, args_of, operands, has_splat, ary_get,
}
use streem.Exec.Within.{
  Within, ItemsWithin, Kept, same, raising, here, stays, further, after_res, after_items, after_ok,
  then_items, with_head, ary_keeps, caught_keeps, bind_keeps, kind_case, args_keep, emptied,
  array_keeps,
}

module _ {T : Type 0} (rt : Runtime T) (laws : Laws bytes_eq rt.hash) where
  module _
      (cfunc_keeps : (p : ℕ) (m : Machine T) (vs : List Value) (v : Value)
        → Keeps rt.hash m (rt.cfunc p m vs v).machine) where
    mutual
      unfolding exec_expr ary_get

      expr-Within :
          (f : ℕ) (n : Node) (m : Machine T) (a : ℕ) (v : Value)
          → Within rt.hash m (exec_expr rt f n m a v)
      expr-Within zero n m a v = record { kept = tt }
      expr-Within (suc f) null m a v = stays rt laws _
      expr-Within (suc f) (ns_node k b) m a v =
          let s = (strm_ns_create m a k).0 in
          let m1 = (strm_ns_create m a k).1 in
          let m2 = record m1 { udef = at m1.udef s true } in
          further rt laws m m2 _
            (keeps_trans rt.hash m m1 m2 (ns_create_keeps rt.hash m a k)
              (keeps_same rt.hash m1 m2 refl refl))
            (bool_case (Within rt.hash m2) (null_p b) _ _ (stays rt laws _)
              (expr-Within f b m2 s v))
      expr-Within (suc f) (import_node k) m a v =
          option_case (Within rt.hash m) (strm_ns_get m k) _ _
            (here rt laws m _ (raising rt laws m _))
            λ s.
              let p = env_copy_keeps rt.hash laws m a s in
              let m1 = (env_copy rt.hash m a s).1 in
              further rt laws m m1 _ p (
                status_case (Within rt.hash m1) (env_copy rt.hash m a s).0 _ _ _ (stays rt laws _)
                  (here rt laws m1 _ (raising rt laws m1 _))
                  (here rt laws m1 _ (raising rt laws m1 _)))
      expr-Within (suc f) skip m a v = here rt laws m _ (keeps_same rt.hash m _ refl refl)
      expr-Within (suc f) emit_nil m a v = here rt laws m _ (keeps_same rt.hash m _ refl refl)
      expr-Within (suc f) (emit ns) m a v = emits-Within f ns m a v
      expr-Within (suc f) (let_node k n) m a v =
          after_res rt laws m _ _ (expr-Within f n m a v) λ r.
            status_case (Within rt.hash r.machine) r.status _ _ _
              (here rt laws r.machine _ (var_set_keeps rt.hash laws r.machine a k r.val))
              (here rt laws r.machine _ (raising rt laws r.machine _)) (stays rt laws r)
      expr-Within (suc f) (array ns ls k) m a v =
          after_items rt laws m _ _ (items-Within f true ns m a)
            λ r. array_keeps rt laws (has_splat ns) ls k r v
      expr-Within (suc f) (ident k) m a v =
          option_case (Within rt.hash m) (var_get rt.hash m a k) _ _
            (here rt laws m _ (raising rt laws m _)) λ w. stays rt laws _
      expr-Within (suc f) (if_node c t e) m a v =
          after_res rt laws m _ _ (expr-Within f c m a rt.junk) λ r.
            status_case (Within rt.hash r.machine) r.status _ _ _
              (bool_case (Within rt.hash r.machine) (is_true r.val) _ _
                (expr-Within f t r.machine a v)
                (bool_case (Within rt.hash r.machine) (null_p e) _ _ (stays rt laws _)
                  (expr-Within f e r.machine a v)))
              (stays rt laws _) (stays rt laws _)
      expr-Within (suc f) (op_node k x y) m a v =
          after_items rt laws m _ _ (items-Within f false (operands x y) m a) λ r.
            status_case (Within rt.hash r.machine) r.status _ _ _
              (call-Within f r.machine a k (plain_values r.vals) v) (stays rt laws _)
              (stays rt laws _)
      expr-Within (suc f) (Node.lambda ks b) m a v = here rt laws m _ (
          keeps_trans rt.hash m _ _ (keeps_next rt.hash m (copy_state m a) refl refl)
            (keeps_next rt.hash (copy_state m a) _ refl refl))
      expr-Within (suc f) (plambda cs) m a v = here rt laws m _ (
          keeps_trans rt.hash m _ _ (keeps_next rt.hash m (copy_state m a) refl refl)
            (keeps_next rt.hash (copy_state m a) _ refl refl))
      expr-Within (suc f) (call k ns ls) m a v =
          after_res rt laws m _ _ (args-Within f ns ls m a) λ r.
            status_case (Within rt.hash r.machine) r.status _ _ _
              (call-Within f r.machine a k (args_of r.val) v) (stays rt laws _) (stays rt laws _)
      expr-Within (suc f) (fcall g ns ls) m a v =
          after_res rt laws m _ _ (expr-Within f g m a rt.junk) λ r.
            status_case (Within rt.hash r.machine) r.status _ _ _
              (after_res rt laws r.machine _ _ (args-Within f ns ls r.machine a) λ s.
                status_case (Within rt.hash s.machine) s.status _ _ _
                  (funcall-Within f s.machine r.val (args_of s.val) v) (stays rt laws _)
                  (stays rt laws _))
              (stays rt laws _) (stays rt laws _)
      expr-Within (suc f) (Node.genfunc k) m a v =
          here rt laws m _ (keeps_next rt.hash m _ refl refl)
      expr-Within (suc f) (return_node ns) m a v =
          after_items rt laws m _ _ (items-Within f false ns m a) λ r.
            status_case (Within rt.hash r.machine) r.status _ _ _
              (here rt laws r.machine _ (keeps_same rt.hash r.machine _ refl refl))
              (stays rt laws _) (stays rt laws _)
      expr-Within (suc f) (nodes ns) m a v = nodes-Within f ns m a v
      expr-Within (suc f) (int_lit n) m a v = stays rt laws _
      expr-Within (suc f) (float_lit n) m a v = stays rt laws _
      expr-Within (suc f) (time_lit s u o) m a v = stays rt laws _
      expr-Within (suc f) (bool_lit b) m a v = stays rt laws _
      expr-Within (suc f) nil_lit m a v = stays rt laws _
      expr-Within (suc f) (str_lit s) m a v = stays rt laws _
      expr-Within (suc f) (splat n) m a v = here rt laws m _ (raising rt laws m _)
      expr-Within (suc f) nother m a v = here rt laws m _ (raising rt laws m _)

      items-Within :
          (f : ℕ) (sp : Bool) (ns : Nodes) (m : Machine T) (a : ℕ)
          → ItemsWithin rt.hash m (exec_items rt f sp ns m a)
      items-Within zero sp ns m a = record { kept = tt }
      items-Within (suc f) sp nend m a = record { kept = same rt laws m }
      items-Within (suc f) sp (ncons n ns) m a =
          then_items rt laws m _ _ (expr-Within f (unsplat sp n).1 m a rt.junk) λ r.
            status_case (ItemsWithin rt.hash r.machine) r.status _ _ _
              (if_case (ItemsWithin rt.hash r.machine) ((unsplat sp n).0 && not (array_p r.val)) _ _
                (record { kept = raising rt laws r.machine splat_requires_array })
                (with_head rt laws r.machine _ _ (items-Within f sp ns r.machine a)))
              (record { kept = same rt laws r.machine }) (record { kept = same rt laws r.machine })

      args-Within :
          (f : ℕ) (ns : Nodes) (ls : Option (List Name)) (m : Machine T) (a : ℕ)
          → Within rt.hash m (exec_args rt f ns ls m a)
      args-Within zero ns ls m a = record { kept = tt }
      args-Within (suc f) ns ls m a =
          if_case (Within rt.hash m) (has_splat ns) _ _
            (after_res rt laws m _ _ (expr-Within f (array ns ls none) m a rt.junk) λ r.
              status_case (Within rt.hash r.machine) r.status _ _ _ (stays rt laws r)
                (stays rt laws _) (stays rt laws _))
            (after_items rt laws m _ _ (items-Within f false ns m a) λ r. stays rt laws _)

      nodes-Within :
          (f : ℕ) (ns : Nodes) (m : Machine T) (a : ℕ) (v : Value)
          → Within rt.hash m (exec_nodes rt f ns m a v)
      nodes-Within zero ns m a v = record { kept = tt }
      nodes-Within (suc f) nend m a v = stays rt laws _
      nodes-Within (suc f) (ncons n ns) m a v =
          after_ok rt laws m _ _ (expr-Within f n m a v) λ w m1. nodes-Within f ns m1 a w

      emits-Within :
          (f : ℕ) (ns : Nodes) (m : Machine T) (a : ℕ) (v : Value)
          → Within rt.hash m (exec_emits rt f ns m a v)
      emits-Within zero ns m a v = record { kept = tt }
      emits-Within (suc f) nend m a v = stays rt laws _
      emits-Within (suc f) (ncons n ns) m a v =
          after_ok rt laws m _ _ (expr-Within f n m a v) λ w m1.
            further rt laws m1 (emitting m1 w) _ (keeps_same rt.hash m1 _ refl refl)
              (emits-Within f ns (emitting m1 w) a w)

      call-Within :
          (f : ℕ) (m : Machine T) (a : ℕ) (k : Name) (vs : List Value) (v : Value)
          → Within rt.hash m (exec_call rt f m a k vs v)
      call-Within zero m a k vs v = record { kept = tt }
      call-Within (suc f) m a k vs v =
          let w = receiver_get rt m k vs v in
          status_case (Within rt.hash m) w.status _ _ _
            (if_case (Within rt.hash m) w.done _ _ (stays rt laws _)
              (funcall-Within f m w.val vs w.ret))
            (option_case (Within rt.hash m) (var_get rt.hash m a k) _ _
              (here rt laws m _ (raising rt laws m _)) λ g. funcall-Within f m g vs w.ret)
            (stays rt laws _)

      funcall-Within :
          (f : ℕ) (m : Machine T) (g : Value) (vs : List Value) (v : Value)
          → Within rt.hash m (strm_funcall rt f m g vs v)
      funcall-Within zero m g vs v = record { kept = tt }
      funcall-Within (suc f) m (cfunc p) vs v = here rt laws m _ (cfunc_keeps p m vs v)
      funcall-Within (suc f) m (arr h xs) vs v =
          here rt laws m _ (ary_keeps rt laws m (arr h xs) vs v)
      funcall-Within (suc f) m (ptr lambda p) vs v = lambda-Within f m p vs v
      funcall-Within (suc f) m (ptr genfunc p) vs v =
          option_case (Within rt.hash m) (m.genfuncs p) _ _ (stays rt laws _)
            λ g. call-Within f m g.state g.id vs v
      funcall-Within (suc f) m g vs v = here rt laws m _ (raising rt laws m _)

      lambda-Within :
          (f : ℕ) (m : Machine T) (p : ℕ) (vs : List Value) (v : Value)
          → Within rt.hash m (lambda_call rt f m p vs v)
      lambda-Within zero m p vs v = record { kept = tt }
      lambda-Within (suc f) m p vs v =
          option_case (Within rt.hash m) (m.lambdas p) _ _ (stays rt laws _) λ l.
            let m1 = enter m l.state in
            let e : Keeps rt.hash m m1 = keeps_next rt.hash m m1 refl refl in
            further rt laws m m1 _ e (
              kind_case rt laws m1 l.body _ _ _
                (λ ks b.
                  let m2 = (bind_args rt m1 m.next ks vs).1 in
                  let q : Keeps rt.hash m1 m2 = bind_keeps rt laws m.next ks m1 vs in
                  if_case (Within rt.hash m1) (length ks == length vs) _ _
                    (status_case (Within rt.hash m1) (bind_args rt m1 m.next ks vs).0 _ _ _
                      (further rt laws m1 m2 _ q (
                        after_res rt laws m2 _ _ (expr-Within f b m2 m.next v)
                          (caught_keeps rt laws)))
                      (here rt laws m1 _ q) (here rt laws m1 _ q))
                    (here rt laws m1 _ (raising rt laws m1 _)))
                (λ cs. cases-Within f cs m1 m.next vs v) (stays rt laws _))

      cases-Within :
          (f : ℕ) (cs : Cases) (m : Machine T) (c : ℕ) (vs : List Value) (v : Value)
          → Within rt.hash m (exec_cases rt f cs m c vs v)
      cases-Within zero cs m c vs v = record { kept = tt }
      cases-Within (suc f) no_case m c vs v = here rt laws m _ (raising rt laws m _)
      cases-Within (suc f) (case_node p cond b cs) m c vs v =
          let w = match_args rt p m c vs in
          further rt laws m w.1 _ (args_keep rt laws p m c vs) (
            status_case (Within rt.hash w.1) w.0 _ _ _
              (bool_case (Within rt.hash w.1) (null_p cond) _ _
                (after_res rt laws w.1 _ _ (expr-Within f b w.1 c v) (caught_keeps rt laws))
                (after_res rt laws w.1 _ _ (expr-Within f cond w.1 c rt.junk) λ s.
                  option_case (Within rt.hash s.machine) (holds s) _ _ (stays rt laws _) λ t.
                    bool_case (Within rt.hash s.machine) t _ _
                      (after_res rt laws s.machine _ _ (expr-Within f b s.machine c v)
                        (caught_keeps rt laws))
                      (emptied rt laws s.machine c _ (cases-Within f cs _ c vs v))))
              (emptied rt laws w.1 c _ (cases-Within f cs _ c vs v)) (stays rt laws _))

-- An evaluation that comes to an end takes nothing out of a table of variables and changes nothing in
-- one, if the functions that it calls outside src/exec.c do not, and the hash tables are as documented:
-- whether it succeeds or fails, a name that has a value in a table that was there before has that
-- value in that table afterwards. Which table a state has may change: an `import` can give it another.
pub exec_expr-Keeps :
    {T : Type 0} (rt : Runtime T) (laws : Laws bytes_eq rt.hash)
    (cfunc_keeps : (p : ℕ) (m : Machine T) (vs : List Value) (v : Value)
      → Keeps rt.hash m (rt.cfunc p m vs v).machine)
    (f : ℕ) (n : Node) (m : Machine T) (a : ℕ) (v : Value) (r : Res T)
    → exec_expr rt f n m a v ≡ some r
    → Keeps rt.hash m r.machine
exec_expr-Keeps rt laws c f n m a v r e =
    let w = expr-Within rt laws c f n m a v in
    let k : Kept rt.hash m (exec_expr rt f n m a v) = w.kept in
    let l : Kept rt.hash m (some r) = subst (λ o. Kept rt.hash m o) e k in l
