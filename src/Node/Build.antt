-- ===== src/Node/Build.antt =====
-- What src/node.c builds the tree with.
--
-- A list that grows is its elements and the number that its memory has room for. Memory that `malloc`
-- gave and nothing was written to is none.
use streem.Base.{
  ℕ, suc, Bool, true, false, Option, none, some, List, [], ◌∷◌, ◌++◌, if◌then◌else◌, ◌==◌, ◌+◌, ltb,
  length, set, replicate,
}
use streem.Node.{
  Name, Node, Nodes, nend, ncons, str_lit, ident, let_node, if_node, op_node, lambda, splat, call,
  fcall, genfunc, ns_node, import_node,
}
use streem.Node.Escape.{string_escape}

-- `data`, with `len` its length, and `max`, of a `node_nodes`, a `node_array` or a `node_args`.
pub record Growing (A : Type 0) : Type 0 where
  pub elements : List A
  pub max : ℕ

module _ {A : Type 0} where
  -- VALUES_NEW
  abbrev pub values_new : Growing A
  values_new = record { elements = []; max = 0 }

  -- Room for one more element, in VALUES_ADD and VALUES_PREPEND.
  abbrev pub with_room : Growing A → Growing A
  with_room v = if length v.elements == v.max then record v { max = length v.elements + 10 } else v

  -- VALUES_ADD and VALUES_PREPEND
  abbrev pub values_add : Growing A → A → Growing A
  values_add v x = let w = with_room v in record w { elements = w.elements ++ (x ∷ []) }

  abbrev pub values_prepend : Growing A → A → Growing A
  values_prepend v x = let w = with_room v in record w { elements = x ∷ w.elements }

  -- `node_nodes_concat`, where none is NULL.
  abbrev pub node_nodes_concat : Option (Growing A) → Option (Growing A) → Option (Growing A)
  node_nodes_concat none s2 = s2
  node_nodes_concat (some v) none = some v
  node_nodes_concat (some v) (some v2) =
      let n = length v.elements + length v2.elements in
      some (record {
        elements = v.elements ++ v2.elements;
        max = if ltb v.max n then n + 10 else v.max;
      })

-- An element of an array as it is parsed: a node, or a `node_pair`.
pub data Item : Type 0 where
  node : Node → Item
  pair : Name → Node → Item

-- A label written in its place of the headers, which are made for len labels where there are none.
abbrev pub put_header : (len : ℕ) → Option (List (Option Name)) → ℕ → Name → List (Option Name)
put_header len none i key = set (replicate len none) i (some key)
put_header len (some hs) i key = set hs i (some key)

-- The loop of `node_array_headers` from the place i on: the elements and the headers.
unfoldable pub headers_from :
    (len : ℕ)
    → ℕ
    → Option (List (Option Name))
    → List Item
    → List Node × Option (List (Option Name))
headers_from len i hs [] = ([], hs)
headers_from len i hs (node n ∷ xs) = let (ns, r) = headers_from len (suc i) hs xs in (n ∷ ns, r)
headers_from len i hs (pair key n ∷ xs) =
    let (ns, r) = headers_from len (suc i) (some (put_header len hs i key)) xs in (n ∷ ns, r)

-- `node_array_headers`, where none is NULL, for which an empty array is made.
abbrev pub node_array_headers : Option (Growing Item) → List Node × Option (List (Option Name))
node_array_headers none = ([], none)
node_array_headers (some v) = headers_from (length v.elements) 0 none v.elements

-- A `node_lambda`. `block` is none where it was never written.
pub record LambdaNode : Type 0 where
  pub args : List Name
  pub body : Node
  pub block : Option Bool

-- `node_lambda_alloc`, `node_lambda_new` and `node_block_new`
abbrev pub node_lambda_alloc : List Name → Node → Bool → LambdaNode
node_lambda_alloc args body block = record { args = args; body = body; block = some block }

abbrev pub node_lambda_new : List Name → Node → LambdaNode
node_lambda_new args body = node_lambda_alloc args body false

abbrev pub node_block_new : Node → LambdaNode
node_block_new body = node_lambda_alloc [] body true

-- The name `self`.
abbrev pub self : Name
self = b's' ∷ b'e' ∷ b'l' ∷ b'f' ∷ []

-- `node_method_new`, which does not say whether it is a block.
abbrev pub node_method_new : Option (Growing Name) → Node → LambdaNode
node_method_new none body = record {
  args = (values_add values_new self).elements;
  body = body;
  block = none;
}
node_method_new (some args) body = record {
  args = (values_prepend args self).elements;
  body = body;
  block = none;
}

-- A node as the other nodes take it, a lambda with what else it has.
pub data Built : Type 0 where
  lambda_built : LambdaNode → Built
  built : Node → Built

abbrev pub node_of : Built → Node
node_of (lambda_built l) = lambda l.args l.body
node_of (built n) = n

-- `cond_body`: the body of a block, or any other node; none is a test of memory never written.
abbrev pub cond_body : Built → Option Node
cond_body (built n) = some n
cond_body (lambda_built l) = elim l.block [
  | none ↦ none
  | some true ↦ some l.body
  | some false ↦ some (lambda l.args l.body)
]

-- `node_if_new`
abbrev pub node_if_new : Node → Built → Built → Option Node
node_if_new c t e = elim (cond_body t) [
  | none ↦ none
  | some t' ↦ elim (cond_body e) [ none ↦ none | some e' ↦ some (if_node c t' e') ]
]

abbrev pub nodes_of : List Node → Nodes
nodes_of [] = nend
nodes_of (n ∷ ns) = ncons n (nodes_of ns)

-- The arguments of a call, an array of none where there are no arguments, with the receiver before
-- them and the block behind them, if there are.
abbrev pub call_args : Option (Growing Node) → Option Node → Option Node → Growing Node
call_args args recv blk =
    let a : Growing Node = elim args [ none ↦ values_new | some v ↦ v ] in
    let b : Growing Node = elim recv [ none ↦ a | some r ↦ values_prepend a r ] in
    elim blk [ none ↦ b | some k ↦ values_add b k ]

-- `node_call_new` and `node_fcall_new`, with the labels of the arguments, if there are.
abbrev pub node_call_new :
    Name → Option Node → Option (Growing Node) → Option (List Name) → Option Node → Node
node_call_new name recv args labels blk =
    call name (nodes_of (call_args args recv blk).elements) labels

abbrev pub node_fcall_new : Node → Option (Growing Node) → Option (List Name) → Option Node → Node
node_fcall_new func args labels blk =
    fcall func (nodes_of (call_args args none blk).elements) labels

-- `node_string_new`
abbrev pub node_string_new : List ℕ → Node
node_string_new s = str_lit (string_escape s)

-- The nodes that keep what they are given.
abbrev pub node_let_new : Name → Node → Node
node_let_new lhs rhs = let_node lhs rhs

abbrev pub node_op_new : Name → Node → Node → Node
node_op_new op lhs rhs = op_node op lhs rhs

abbrev pub node_splat_new : Node → Node
node_splat_new n = splat n

abbrev pub node_ns_new : Name → Node → Node
node_ns_new name body = ns_node name body

abbrev pub node_import_new : Name → Node
node_import_new name = import_node name

abbrev pub node_genfunc_new : Name → Node
node_genfunc_new id = genfunc id

abbrev pub node_ident_new : Name → Node
node_ident_new name = ident name
