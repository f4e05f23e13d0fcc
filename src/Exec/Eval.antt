-- ===== src/Exec/Eval.antt =====
-- `exec_expr` of src/exec.c and the functions that it calls.
mod Parts
unfoldable pub use Parts.*
use streem.Base.{
  ℕ, zero, suc, Bool, true, false, not, Option, none, some, List, [], ◌∷◌, ◌++◌, if◌then◌else◌,
  ◌==◌, ◌&&◌, ◌+◌, Status, ok, ng, abort, bytes_eq, length, ltb, get_elem?, i32_negative,
}
use streem.Khash.{Khash}
use streem.Value.{
  Value, Header, FloatOps, nil, int, float, bool, str, arr, cfunc, ptr, lambda, genfunc, owned,
  bytes, nil_p, array_p, value_bool, to_list, of_list, ary_new,
}
use streem.Node
use streem.Node.{
  Name, Node, Nodes, Cases, null, int_lit, float_lit, time_lit, str_lit, bool_lit, nil_lit, ident,
  let_node, if_node, op_node, plambda, array, splat, call, fcall, return_node, skip, emit_nil, emit,
  nodes, ns_node, import_node, nother, nend, ncons, no_case, case_node,
}
use streem.Exec.{
  Machine, Message, returned, skipped, wrong_number_of_arguments, match_failure, not_a_function,
  function_not_found, no_such_namespace, failed_to_import, failed_to_assign, splat_requires_array,
  labels_and_splats, primitive_class, failed_to_reference, unknown_node,
}
use streem.Exec.State.{
  raise, emitting, enter, copy_state, lambda_new, genfunc_new, strm_ns_get, strm_ns_create, var_get,
  var_set, env_copy, at,
}
use streem.Exec.Match.{Matched, pattern_match}

module _ {T : Type 0} (rt : Runtime T) where
  -- Each call spends one unit of fuel. `a` is the address of the state, and `val` what the result
  -- pointer holds.
  unfoldable mutual
    unfolding ary_get receiver_get bind_args array_new strm_ns_create env_copy var_set

    pub exec_expr : ℕ → Node → Machine T → ℕ → Value → Outcome T
    exec_expr zero n m a val = none
    exec_expr (suc f) null m a val = give ng val m
    exec_expr (suc f) (ns_node k b) m a val =
        let (s, m1) = strm_ns_create m a k in
        let m2 = record m1 { udef = at m1.udef s true } in
        elim (null_p b) [ true ↦ give ok val m2 | false ↦ exec_expr f b m2 s val ]
    exec_expr (suc f) (import_node k) m a val = elim (strm_ns_get m k) [
      | none ↦ failing no_such_namespace val m
      | some s ↦
          let (r, m1) = env_copy rt.hash m a s in
          elim r [ ok ↦ give ok val m1 | e ↦ give e val (raise m1 failed_to_import) ]
    ]
    exec_expr (suc f) skip m a val = give ng val (record m { exc = some skipped })
    exec_expr (suc f) emit_nil m a val = give ok val (emitting m nil)
    exec_expr (suc f) (emit ns) m a val = exec_emits f ns m a val
    exec_expr (suc f) (let_node k n) m a val = with_res (exec_expr f n m a val) λ r. elim r.status [
      | ok ↦ let (s, m1) = var_set rt.hash r.machine a k r.val in give s r.val m1
      | abort ↦ some r
      | ng ↦ give ng r.val (raise r.machine failed_to_assign)
    ]
    exec_expr (suc f) (array ns labels k) m a val =
        with_items (exec_items f true ns m a) λ r. array_new rt (has_splat ns) labels k r val
    exec_expr (suc f) (ident k) m a val = elim (var_get rt.hash m a k) [
      | some v ↦ give ok v m
      | none ↦ failing failed_to_reference val m
    ]
    exec_expr (suc f) (if_node c t e) m a val = with_res (exec_expr f c m a rt.junk) λ r.
        elim r.status [
          | ok ↦ elim (is_true r.val) [
            | true ↦ exec_expr f t r.machine a val
            | false ↦ elim (null_p e) [
              | true ↦ give ok nil r.machine
              | false ↦ exec_expr f e r.machine a val
            ]
          ]
          | _ ↦ give r.status val r.machine
        ]
    exec_expr (suc f) (op_node k x y) m a val =
        with_items (exec_items f false (operands x y) m a) λ r. elim r.status [
          | ok ↦ exec_call f r.machine a k (plain_values r.vals) val
          | _ ↦ give r.status val r.machine
        ]
    exec_expr (suc f) (Node.lambda ks b) m a val =
        let m1 = lambda_new (copy_state m a) (Node.lambda ks b) m.next in
        give ok (ptr lambda (m.next + 1)) m1
    exec_expr (suc f) (plambda cs) m a val =
        let m1 = lambda_new (copy_state m a) (plambda cs) m.next in
        give ok (ptr lambda (m.next + 1)) m1
    exec_expr (suc f) (call k ns ls) m a val = with_res (exec_args f ns ls m a) λ r. elim r.status [
      | ok ↦ exec_call f r.machine a k (args_of r.val) val
      | _ ↦ give r.status val r.machine
    ]
    exec_expr (suc f) (fcall g ns ls) m a val = with_res (exec_expr f g m a rt.junk) λ r.
        elim r.status [
          | ok ↦ with_res (exec_args f ns ls r.machine a) λ s. elim s.status [
            | ok ↦ strm_funcall f s.machine r.val (args_of s.val) val
            | _ ↦ give s.status val s.machine
          ]
          | _ ↦ give r.status val r.machine
        ]
    exec_expr (suc f) (Node.genfunc k) m a val = give ok (ptr genfunc m.next) (genfunc_new m a k)
    exec_expr (suc f) (return_node ns) m a val = with_items (exec_items f false ns m a) λ r.
        elim r.status [
          | ok ↦
              let v = returned_value (plain_values r.vals) in
              give ng val (record r.machine { exc = some (returned v) })
          | _ ↦ give r.status val r.machine
        ]
    exec_expr (suc f) (nodes ns) m a val = exec_nodes f ns m a val
    exec_expr (suc f) (int_lit n) m a val = give ok (int n) m
    exec_expr (suc f) (float_lit n) m a val = give ok (float n) m
    exec_expr (suc f) (time_lit s u o) m a val =
        let v = rt.time_new s u o in give (if nil_p v then ng else ok) v m
    exec_expr (suc f) (bool_lit b) m a val = give ok (bool b) m
    exec_expr (suc f) nil_lit m a val = give ok nil m
    exec_expr (suc f) (str_lit s) m a val = give ok (str (owned s)) m
    exec_expr (suc f) (splat n) m a val = failing unknown_node val m
    exec_expr (suc f) nother m a val = failing unknown_node val m

    -- The elements of NODE_ARRAY, with `splats`, and the lists of nodes without that other cases
    -- evaluate.
    pub exec_items : ℕ → (splats : Bool) → Nodes → Machine T → ℕ → Option (Items T)
    exec_items zero sp ns m a = none
    exec_items (suc f) sp nend m a = some (record { status = ok; vals = []; machine = m })
    exec_items (suc f) sp (ncons n ns) m a =
        let (b, inner) = unsplat sp n in
        elim (exec_expr f inner m a rt.junk) [
          | none ↦ none
          | some r ↦ elim r.status [
            | ok ↦
                if b && not (array_p r.val)
                then some (record {
                  status = ng;
                  vals = [];
                  machine = raise r.machine splat_requires_array;
                })
                else elim (exec_items f sp ns r.machine a) [
                  | none ↦ none
                  | some is ↦ some (record is { vals = (b, r.val) ∷ is.vals })
                ]
            | _ ↦ some (record { status = r.status; vals = []; machine = r.machine })
          ]
        ]

    -- The arguments of a call, as an array. With a splat they are evaluated as one, and what that
    -- leaves is read whether it succeeded or not.
    pub exec_args : ℕ → Nodes → Option (List Name) → Machine T → ℕ → Outcome T
    exec_args zero ns ls m a = none
    exec_args (suc f) ns ls m a =
        if has_splat ns
        then with_res (exec_expr f (array ns ls none) m a rt.junk)
            (λ r. elim r.status [ ok ↦ some r | _ ↦ give abort r.val r.machine ])
        else with_items (exec_items f false ns m a)
            (λ r. give r.status (ary_new (plain_values r.vals)) r.machine)

    -- NODE_NODES
    pub exec_nodes : ℕ → Nodes → Machine T → ℕ → Value → Outcome T
    exec_nodes zero ns m a val = none
    exec_nodes (suc f) nend m a val = give ok val m
    exec_nodes (suc f) (ncons n ns) m a val =
        then_ok (exec_expr f n m a val) λ v m1. exec_nodes f ns m1 a v

    -- The loop of NODE_EMIT.
    pub exec_emits : ℕ → Nodes → Machine T → ℕ → Value → Outcome T
    exec_emits zero ns m a val = none
    exec_emits (suc f) nend m a val = give ok val m
    exec_emits (suc f) (ncons n ns) m a val =
        then_ok (exec_expr f n m a val) λ v m1. exec_emits f ns (emitting m1 v) a v

    -- `exec_call`
    pub exec_call : ℕ → Machine T → ℕ → Name → List Value → Value → Outcome T
    exec_call zero m a k argv val = none
    exec_call (suc f) m a k argv val =
        let method = receiver_get rt m k argv val in
        elim method.status [
          | ok ↦
              if method.done
              then give ok method.val m
              else strm_funcall f m method.val argv method.ret
          | abort ↦ give abort method.ret m
          | ng ↦ elim (var_get rt.hash m a k) [
            | some v ↦ strm_funcall f m v argv method.ret
            | none ↦ failing function_not_found method.ret m
          ]
        ]

    -- `strm_funcall`
    pub strm_funcall : ℕ → Machine T → Value → List Value → Value → Outcome T
    strm_funcall zero m g argv val = none
    strm_funcall (suc f) m (cfunc p) argv val = some (rt.cfunc p m argv val)
    strm_funcall (suc f) m (arr h vs) argv val = some (ary_get rt m (arr h vs) argv val)
    strm_funcall (suc f) m (ptr lambda p) argv val = lambda_call f m p argv val
    strm_funcall (suc f) m (ptr genfunc p) argv val = elim (m.genfuncs p) [
      | none ↦ give abort val m
      | some g ↦ exec_call f m g.state g.id argv val
    ]
    strm_funcall (suc f) m g argv val = failing not_a_function val m

    -- `lambda_call` of the lambda at an address.
    pub lambda_call : ℕ → Machine T → ℕ → List Value → Value → Outcome T
    lambda_call zero m p argv val = none
    lambda_call (suc f) m p argv val = elim (m.lambdas p) [
      | none ↦ give abort val m
      | some l ↦
          let m1 = enter m l.state in
          lambda_kind l.body
            (λ ks b.
              let (r, m2) = bind_args rt m1 m.next ks argv in
              if length ks == length argv
              then elim r [
                | ok ↦ with_res (exec_expr f b m2 m.next val) (caught rt)
                | e ↦ give e val m2
              ]
              else failing wrong_number_of_arguments val m1)
            (λ cs. exec_cases f cs m1 m.next argv val) (give ng val m1)
    ]

    -- The loop of `lambda_call` over the cases; `c` is the new state, which is emptied before the
    -- next case.
    pub exec_cases : ℕ → Cases → Machine T → ℕ → List Value → Value → Outcome T
    exec_cases zero cs m c argv val = none
    exec_cases (suc f) no_case m c argv val = failing match_failure val m
    exec_cases (suc f) (case_node p cond b cs) m c argv val =
        let (r, m1) = match_args rt p m c argv in
        let empty = λ (m : Machine T). record m { env = at m.env c none } in
        elim r [
          | abort ↦ give abort val m1
          | ng ↦ exec_cases f cs (empty m1) c argv val
          | ok ↦ elim (null_p cond) [
            | true ↦ with_res (exec_expr f b m1 c val) (caught rt)
            | false ↦ with_res (exec_expr f cond m1 c rt.junk) λ s. elim (holds s) [
              | none ↦ give abort val s.machine
              | some true ↦ with_res (exec_expr f b s.machine c val) (caught rt)
              | some false ↦ exec_cases f cs (empty s.machine) c argv val
            ]
          ]
        ]
