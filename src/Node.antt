-- ===== src/Node.antt =====
-- The syntax tree of src/node.h, as src/exec.c reads it.
--
-- A name is the bytes of its `node_string`. A NULL node is `null`; lists of nodes and of names that
-- are NULL where they may be are empty lists, unless the code tells the two apart.
mod Tests
pub mod Escape
pub mod Quote
pub mod Build
pub mod Headers
use streem.Base.{ℕ, Bool, Option, List}

abbrev pub Name : Type 0
Name = List ℕ

-- The patterns of a `case`. `psplat head mid` has no tail, `psplat_tail` has one, and
-- `psplat_struct` has a struct for its head and no tail. `pother` is a node that no case of `pmatch`
-- takes.
mutual
  pub data Pattern : Type 0 where
    pident : Name → Pattern
    pstr : List ℕ → Pattern
    pint : ℕ → Pattern
    pnil : Pattern
    pbool : Bool → Pattern
    pfloat : ℕ → Pattern
    pns : Name → Pattern → Pattern
    parray : Patterns → Pattern
    psplat : Patterns → Pattern → Pattern
    psplat_tail : Patterns → Pattern → Patterns → Pattern
    psplat_struct : Pairs → Pattern → Pattern
    pstruct : Pairs → Pattern
    pother : Pattern

  pub data Patterns : Type 0 where
    pend : Patterns
    pcons : Pattern → Patterns → Patterns

  -- `node_pair`s: a label and the pattern for its value.
  pub data Pairs : Type 0 where
    no_pair : Pairs
    pair : Name → Pattern → Pairs → Pairs

-- `nother` is a node of a type that `exec_expr` does not know.
mutual
  pub data Node : Type 0 where
    null : Node
    int_lit : ℕ → Node
    float_lit : ℕ → Node
    time_lit : ℕ → ℕ → ℕ → Node
    str_lit : List ℕ → Node
    bool_lit : Bool → Node
    nil_lit : Node
    ident : Name → Node
    let_node : Name → Node → Node
    if_node : Node → Node → Node → Node
    op_node : Name → Node → Node → Node
    lambda : List Name → Node → Node
    plambda : Cases → Node
    array : Nodes → Option (List Name) → Option Name → Node
    splat : Node → Node
    call : Name → Nodes → Option (List Name) → Node
    fcall : Node → Nodes → Option (List Name) → Node
    genfunc : Name → Node
    return_node : Nodes → Node
    skip : Node
    emit_nil : Node
    emit : Nodes → Node
    nodes : Nodes → Node
    ns_node : Name → Node → Node
    import_node : Name → Node
    nother : Node

  pub data Nodes : Type 0 where
    nend : Nodes
    ncons : Node → Nodes → Nodes

  -- The `node_plambda`s that `next` links: a pattern, none for `else`, a condition that may be
  -- `null`, and a body.
  pub data Cases : Type 0 where
    no_case : Cases
    case_node : Option Pattern → Node → Node → Cases → Cases
