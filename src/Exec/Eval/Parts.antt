-- ===== src/Exec/Eval/Parts.antt =====
-- What the cases of `exec_expr` of src/exec.c are made of: outcomes, lists of values, the runtime that is
-- called, and the steps that evaluate nothing.
use streem.Base.{
  ℕ, suc, Bool, true, false, Option, none, some, List, [], ◌∷◌, ◌++◌, if◌then◌else◌, ◌&&◌, Status,
  ok, ng, abort, bytes_eq, length, ltb, get_elem?, i32_negative,
}
use streem.Khash.{Khash}
use streem.Value.{
  Value, Header, FloatOps, nil, int, float, bool, str, arr, owned, bytes, value_bool, to_list,
  of_list, ary_new,
}
use streem.Node
use streem.Node.{
  Name, Node, Nodes, Cases, null, int_lit, float_lit, time_lit, str_lit, bool_lit, nil_lit, ident,
  let_node, if_node, op_node, plambda, array, splat, call, fcall, return_node, skip, emit_nil, emit,
  nodes, ns_node, import_node, nother, nend, ncons, no_case, case_node,
}
use streem.Exec.{
  Machine, Message, returned, wrong_number_of_arguments, labels_and_splats, primitive_class,
}
use streem.Exec.State.{raise, strm_ns_get, var_get, var_set}
use streem.Exec.Match.{Matched, pattern_match}

-- What a call left: its status, the value at the pointer that it was given, and the memory.
pub record Res (T : Type 0) : Type 0 where
  pub status : Status
  pub val : Value
  pub machine : Machine T

-- none is fuel that ran out.
abbrev pub Outcome : Type 0 → Type 0
Outcome T = Option (Res T)

-- What evaluating a list of nodes left: the values of those before the first failure, each with
-- whether a splat stood there.
pub record Items (T : Type 0) : Type 0 where
  pub status : Status
  pub vals : List (Bool × Value)
  pub machine : Machine T

module _ {T : Type 0} where
  abbrev pub give : Status → Value → Machine T → Outcome T
  give r v m = some (record { status = r; val = v; machine = m })

  -- `strm_raise` and STRM_NG.
  abbrev pub failing : Message → Value → Machine T → Outcome T
  failing e v m = give ng v (raise m e)

  -- Go on with what a call left.
  abbrev pub with_res : Outcome T → (Res T → Outcome T) → Outcome T
  with_res none k = none
  with_res (some r) k = k r

  -- `if (n) return n;` between a call and what follows.
  abbrev pub if_ok : Res T → (Value → Machine T → Outcome T) → Outcome T
  if_ok r k = elim r.status [ ok ↦ k r.val r.machine | _ ↦ some r ]

  abbrev pub then_ok : Outcome T → (Value → Machine T → Outcome T) → Outcome T
  then_ok o k = with_res o λ r. if_ok r k

  abbrev pub with_items : Option (Items T) → (Items T → Outcome T) → Outcome T
  with_items none k = none
  with_items (some r) k = k r

abbrev pub has_splat : Nodes → Bool
has_splat nend = false
has_splat (ncons (splat n) ns) = true
has_splat (ncons _ ns) = has_splat ns

abbrev pub count : Nodes → ℕ
count nend = 0
count (ncons n ns) = suc (count ns)

abbrev pub plain_values : List (Bool × Value) → List Value
plain_values [] = []
plain_values ((b, v) ∷ is) = v ∷ plain_values is

-- The elements of the arrays that are splats, in the place of the arrays.
abbrev pub spliced : List (Bool × Value) → List Value
spliced [] = []
spliced ((true, arr h vs) ∷ is) = to_list vs ++ spliced is
spliced ((_, v) ∷ is) = v ∷ spliced is

-- The values of an array with splats: they are put in only where there are more values than nodes.
abbrev pub array_values : Bool → List (Bool × Value) → List Value
array_values splats is =
    if splats && ltb (length is) (length (spliced is)) then spliced is else plain_values is

abbrev pub some_labels : List Name → List (Option Name)
some_labels [] = []
some_labels (k ∷ ks) = some k ∷ some_labels ks

abbrev pub null_p : Node → Bool
null_p null = true
null_p _ = false

-- `strm_bool_p(v) && strm_value_bool(v)`
abbrev pub is_true : Value → Bool
is_true (bool b) = b
is_true _ = false

-- The operands that a NODE_OP has.
abbrev pub operands : Node → Node → Nodes
operands null null = nend
operands null y = ncons y nend
operands x null = ncons x nend
operands x y = ncons x (ncons y nend)

-- Whether a node of a list is a splat, where the list may have some, and the node to evaluate.
abbrev pub unsplat : Bool → Node → Bool × Node
unsplat true (splat n) = (true, n)
unsplat _ n = (false, n)

-- The two kinds of node that `strm_lambda` may hold, and any other.
abbrev pub lambda_kind : {A : Type 0} → Node → (List Name → Node → A) → (Cases → A) → A → A
lambda_kind (Node.lambda ks b) f g x = f ks b
lambda_kind (plambda cs) f g x = g cs
lambda_kind _ f g x = x

abbrev pub args_of : Value → List Value
args_of (arr h vs) = to_list vs
args_of _ = []

-- The value of `return`: nil, the value, or an array of several.
abbrev pub returned_value : List Value → Value
returned_value [] = nil
returned_value (v ∷ []) = v
returned_value (v ∷ w ∷ vs) = ary_new (v ∷ w ∷ vs)

-- `n == STRM_OK && strm_value_bool(cond)`; none is a failed assertion, before or here.
abbrev pub holds : {T : Type 0} → Res T → Option Bool
holds r = elim r.status [ ok ↦ value_bool r.val | ng ↦ some false | abort ↦ none ]

-- What the first argument has for a name in `exec_call`: whether the search went well, the function
-- or value, whether the call is over with it, and what the result pointer holds then.
pub record Method : Type 0 where
  pub status : Status
  pub val : Value
  pub done : Bool
  pub ret : Value

abbrev pub no_method : Value → Method
no_method val = record { status = ng; val = val; done = false; ret = val }

-- The code that the interpreter calls: `T` is the type of variable tables; `value_eq` is
-- `strm_value_eq`; `value_ns` is `strm_value_ns`; `to_i32` is the conversion of a double to an
-- `int32_t`; `time_new` is `strm_time_new`; `cfunc` runs the function at an address, with the value
-- that its result pointer holds before the call; and `junk` is what memory that nothing was written
-- to holds.
pub record Runtime (T : Type 0) : Type 0 where
  pub hash : Khash T Name Value
  pub floats : FloatOps
  pub value_eq : Value → Value → Bool
  pub value_ns : Machine T → Value → Option ℕ
  pub to_i32 : ℕ → ℕ
  pub time_new : ℕ → ℕ → ℕ → Value
  pub cfunc : ℕ → Machine T → List Value → Value → Res T
  pub junk : Value

module _ {T : Type 0} (rt : Runtime T) where
  abbrev pub match_args : Option Node.Pattern → Machine T → ℕ → List Value → Matched T
  match_args = pattern_match rt.hash rt.floats rt.value_eq rt.value_ns

  -- The value with a label.
  abbrev pub labelled : Name → List (Option Name) → List Value → Option Value
  labelled k (some l ∷ ls) (v ∷ vs) = if bytes_eq k l then some v else labelled k ls vs
  labelled k (none ∷ ls) (v ∷ vs) = labelled k ls vs
  labelled k _ _ = none

  -- `ary_get` with one argument: out of range is STRM_NG, a negative index is not looked at.
  unfoldable pub ary_get_one : Header → List Value → Value → Value → Status × Value
  ary_get_one h vs idx val = elim idx [
    | int i ↦ elim (get_elem? vs i) [
      | some v ↦ (ok, v)
      | none ↦ (if i32_negative i then abort else ng, val)
    ]
    | float f ↦ elim (get_elem? vs (rt.to_i32 f)) [
      | some v ↦ (ok, v)
      | none ↦ (if i32_negative (rt.to_i32 f) then abort else ng, val)
    ]
    | str s ↦ elim h.labels [
      | none ↦ (ng, val)
      | some ls ↦ elim (labelled (bytes s) ls vs) [ none ↦ (ng, val) | some v ↦ (ok, v) ]
    ]
    | _ ↦ (ng, val)
  ]

  -- `ary_get`
  unfoldable pub ary_get : Machine T → Value → List Value → Value → Res T
  unfolding ary_get_one
  ary_get m a argv val = elim argv [
    | idx ∷ [] ↦ elim a [
      | arr h vs ↦
          let r = ary_get_one h (to_list vs) idx val in
          record { status = r.0; val = r.1; machine = m }
      | _ ↦ record { status = abort; val = val; machine = m }
    ]
    | _ ↦ record { status = ng; val = val; machine = raise m wrong_number_of_arguments }
  ]

  -- The first half of `exec_call`: the name in the first argument's class, or else, in an array,
  -- among its labels.
  unfoldable pub receiver_get : Machine T → Name → List Value → Value → Method
  unfolding ary_get_one
  receiver_get m k [] val = no_method val
  receiver_get m k (v ∷ vs) val = elim (rt.value_ns m v) [
    | none ↦ no_method val
    | some s ↦ elim (var_get rt.hash m s k) [
      | some g ↦ record { status = ok; val = g; done = false; ret = val }
      | none ↦ elim v [
        | arr h xs ↦
            let (r, x) = ary_get_one h (to_list xs) (str (owned k)) val in
            let alone : Bool = elim vs [ [] ↦ true | _ ↦ false ] in
            record { status = r; val = x; done = alone; ret = x }
        | _ ↦ no_method val
      ]
    ]
  ]

  -- The end of `lambda_call`: a `return` is a result.
  abbrev pub caught : Res T → Outcome T
  caught r = elim r.status [
    | ng ↦ elim r.machine.exc [ some (returned v) ↦ give ok v r.machine | _ ↦ some r ]
    | _ ↦ some r
  ]

  -- The parameters of a lambda, in its new state.
  unfoldable pub bind_args : Machine T → ℕ → List Name → List Value → Status × Machine T
  unfolding var_set
  bind_args m c (k ∷ ks) (v ∷ vs) =
      let r = var_set rt.hash m c k v in
      let rest = bind_args r.1 c ks vs in elim r.0 [ ok ↦ rest | _ ↦ r ]
  bind_args m c _ _ = (ok, m)

  -- The end of NODE_ARRAY, with the values of the elements.
  unfoldable pub array_new : Bool → Option (List Name) → Option Name → Items T → Value → Outcome T
  array_new splats labels ns r val =
      let m = r.machine in
      let ls : Option (List (Option Name)) = elim labels [
        | none ↦ none
        | some ks ↦ some (some_labels ks)
      ] in
      let done = λ (s : Option ℕ).
        give ok (arr (record { ns = s; labels = ls }) (of_list (array_values splats r.vals))) m in
      let has_labels : Bool = elim labels [ none ↦ false | some ks ↦ true ] in
      elim r.status [
        | ok ↦ if splats && has_labels then failing labels_and_splats val m else elim ns [
          | none ↦ done none
          | some k ↦ elim (strm_ns_get m k) [
            | none ↦ give abort val m
            | some s ↦ if m.udef s then done (some s) else failing primitive_class val m
          ]
        ]
        | _ ↦ give r.status val m
      ]
