-- ===== src/Exec.antt =====
-- src/exec.c: the interpreter of the syntax tree, and the memory it works on.
mod Tests
pub mod State
pub mod Match
pub mod Eval
pub mod Extends
pub mod Fuel
pub mod Keep
pub mod Once
pub mod Within
pub mod Assign
pub mod Run
pub mod Block
use streem.Base.{
  ℕ, zero, suc, Bool, true, false, Option, none, some, List, [], ◌∷◌, ◌++◌, if◌then◌else◌, ◌==◌,
  ◌+◌, Status, ok, ng, abort,
}
use streem.Value.{Value}
use streem.Node.{Name, Node}

-- The messages of `strm_raise`.
pub data Message : Type 0 where
  wrong_number_of_arguments match_failure not_a_function function_not_found : Message
  failed_to_create_namespace no_such_namespace failed_to_import failed_to_assign : Message
  splat_requires_array labels_and_splats primitive_class failed_to_reference : Message
  unknown_node not_a_case_function stream_error : Message
  -- one that a function outside src/exec.c raised
  raised : List ℕ → Message

-- `node_error` without its position: the message of `strm_raise`, the value of a `return`, or `skip`.
pub data Exc : Type 0 where
  runtime : Message → Exc
  returned : Value → Exc
  skipped : Exc

-- `struct strm_lambda`: the node, and the address of its own copy of the state that it was made in.
pub record Lambda : Type 0 where
  pub body : Node
  pub state : ℕ

-- `struct strm_genfunc`
pub record Genfunc : Type 0 where
  pub state : ℕ
  pub id : Name

-- The memory of a stream's run. `strm_state`s, tables of variables, lambdas and generic functions
-- have addresses; `next` is above all that are used. Of a state, `env` is its table or NULL, `outer`
-- the states that `prev` leads to, from the inside out, and `udef` the flag of a user's class.
-- `spaces` is the table of src/ns.c, `exc` the stream's exception, and `emitted` what it gave to
-- `strm_emit`. `globals` is the table of variables without a state.
pub record Machine (T : Type 0) : Type 0 where
  pub env : ℕ → Option ℕ
  pub outer : ℕ → List ℕ
  pub udef : ℕ → Bool
  pub table : ℕ → T
  pub globals : Option T
  pub spaces : Name → Option ℕ
  pub lambdas : ℕ → Option Lambda
  pub genfuncs : ℕ → Option Genfunc
  pub next : ℕ
  pub exc : Option Exc
  pub emitted : List Value
