-- ===== src/Exec/Tests.antt =====
-- The interpreter on a small program: `x = 5` and `{|n| return n}`.
use streem.Base.{
  false, none, some, List, [], ◌∷◌, ◌≡◌, refl, ok, ng, if◌then◌else◌, ◌==◌, if◌then◌else◌,
}
use streem.Khash.{Khash}
use streem.Khash.Assoc.{names, names_laws}
use streem.Value.{Value, FloatOps, nil, int}
use streem.Node.{Name, Node, nodes, ncons, nend, let_node, ident, int_lit, import_node, return_node}
use streem.Exec.{Machine, runtime, failed_to_reference}
use streem.Env.{env_set, frames_get, env_get, strm_var_get}
use streem.Exec.State.{at, enter, own_env, var_set, env_copy}
use streem.Exec.Eval.{Runtime, Res, exec_expr}
use streem.Exec.Keep.{Keeps, keeps_refl}
use streem.Exec.Assign.{exec_expr-Keeps}
use streem.Exec.Run.{block_param, blk_exec, clear_exc}
use streem.Exec.Block.{blk_exec-return}

abbrev Table : Type 0
Table = List (Name × Value)

abbrev floats : FloatOps
floats = record { of_int = λ n. n; feq = λ a b. a == b; flt = λ a b. false; fadd = λ a b. a }

-- A runtime whose functions return their first argument.
abbrev rt : Runtime Table
rt = record {
  hash = names nil;
  floats = floats;
  value_eq = λ v w. false;
  value_ns = λ m v. none;
  to_i32 = λ n. n;
  time_new = λ s u o. nil;
  cfunc = λ p m vs v. record { status = ok; val = v; machine = m };
  junk = nil;
}

abbrev x_name : Name
x_name = 120 ∷ []

abbrev n_name : Name
n_name = 110 ∷ []

abbrev echo : Node
echo = return_node (ncons (ident n_name) nend)

-- A state at 0, and the lambda `{|n| return n}` at 1 with a copy of the state at 2.
abbrev start : Machine Table
start = record {
  env = λ a. none;
  outer = λ a. [];
  udef = λ a. false;
  table = λ a. [];
  globals = none;
  spaces = λ k. none;
  lambdas = λ a.
      if a == 1 then some (record { body = Node.lambda (n_name ∷ []) echo; state = 2 }) else none;
  genfuncs = λ a. none;
  next = 3;
  exc = none;
  emitted = [];
}

abbrev program : Node
program = nodes (ncons (let_node x_name (int_lit 5)) (ncons (ident x_name) nend))

-- The memory after it: a table at 3 for the state.
abbrev ended : Res Table
ended = record {
  status = ok;
  val = int 5;
  machine = record start {
    env = at start.env 0 (some 3);
    table = at (at start.table 3 []) 3 ((x_name, int 5) ∷ []);
    next = 4;
  };
}

runs : exec_expr rt 6 program start 0 nil ≡ some ended
unfolding exec_expr var_set own_env env_set frames_get env_get strm_var_get streem.Khash.Assoc.put
    streem.Khash.Assoc.assign
runs = refl

-- The program again, where `x` is 5 already: the assignment fails.
abbrev again : Res Table
again = elim (exec_expr rt 6 program ended.machine 0 nil) [ none ↦ ended | some r ↦ r ]

runs_again : exec_expr rt 6 program ended.machine 0 nil ≡ some again
unfolding exec_expr var_set own_env env_set frames_get env_get strm_var_get streem.Khash.Assoc.put
    streem.Khash.Assoc.assign
runs_again = refl

exec_expr-Keeps_example : Keeps (names nil) ended.machine again.machine
exec_expr-Keeps_example =
    exec_expr-Keeps rt (names_laws nil) (λ p m vs v. keeps_refl (names nil) m) 6 program
      ended.machine 0 nil again runs_again

assigned : (names nil).get (ended.machine.table 3) x_name ≡ some (int 5)
assigned = refl

-- `import` of a name space with no variables gives the state another table: `x` is not found.
abbrev importing : Node
importing = nodes (ncons (import_node n_name) (ncons (ident x_name) nend))

abbrev spaced : Machine Table
spaced = record ended.machine { env = at ended.machine.env 9 none; spaces = λ k. some 9; next = 10 }

import_hides :
    elim (exec_expr rt 6 importing spaced 0 nil) [ none ↦ none | some r ↦ r.machine.exc ]
    ≡ some (runtime failed_to_reference)
unfolding exec_expr env_copy own_env frames_get env_get strm_var_get streem.Khash.Assoc.put
    streem.Khash.Assoc.assign streem.Khash.Assoc.entries
import_hides = refl

-- The state of the block, with 7 for its parameter, in a table at 4.
abbrev inner : Machine Table
inner = record (enter start 2) {
  env = at (enter start 2).env 3 (some 4);
  table = at (at start.table 4 []) 4 ((n_name, int 7) ∷ []);
  next = 5;
}

bound : block_param rt (enter start 2) 3 (n_name ∷ []) (int 7) ≡ some inner
unfolding var_set own_env env_set streem.Khash.Assoc.put streem.Khash.Assoc.assign
bound = refl

reads :
    exec_expr rt 1 (ident n_name) inner 3 nil
    ≡ some (record { status = ok; val = int 7; machine = inner })
unfolding exec_expr frames_get env_get strm_var_get
reads = refl

-- The block returns its value, and the value is not emitted.
abbrev left : Machine Table
left = clear_exc inner

blk_exec-return_example : blk_exec rt 3 false start 1 (int 7) ≡ some (ng, left)
blk_exec-return_example =
    blk_exec-return rt 0 false start inner 1 2 (int 7) (n_name ∷ []) (ident n_name)
      (record { status = ok; val = int 7; machine = inner }) refl bound reads refl
