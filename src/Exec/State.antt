-- ===== src/Exec/State.antt =====
-- The states and their variables, as src/exec.c uses src/env.c and src/ns.c.
use streem.Base.{
  ℕ, Bool, true, false, Option, none, some, List, [], ◌∷◌, ◌++◌, if◌then◌else◌, ◌==◌, ◌+◌, Status,
  ok, ng, bytes_eq, map,
}
use streem.Khash.{Khash}
use streem.Value.{Value}
use streem.Env.{Scope, env_set, strm_var_get, innermost_get, copy_entries}
use streem.Node.{Name, Node}
use streem.Exec.{Message, runtime, Machine}

module _ {A : Type 0} where
  -- A store of a field at an address.
  abbrev pub at : (ℕ → A) → ℕ → A → ℕ → A
  at f a x b = if a == b then x else f b

module _ {T : Type 0} where
  -- `strm_raise`
  abbrev pub raise : Machine T → Message → Machine T
  raise m e = record m { exc = some (runtime e) }

  -- `strm_emit(strm, v, NULL)`
  abbrev pub emitting : Machine T → Value → Machine T
  emitting m v = record m { emitted = m.emitted ++ (v ∷ []) }

  -- A new `strm_state` without variables, inside the states given, at `next`.
  abbrev pub new_state : Machine T → List ℕ → Machine T
  new_state m o = record m {
    env = at m.env m.next none;
    outer = at m.outer m.next o;
    udef = at m.udef m.next false;
    next = m.next + 1;
  }

  -- A state whose `prev` is the one at the address.
  abbrev pub enter : Machine T → ℕ → Machine T
  enter m a = new_state m (a ∷ m.outer a)

  -- `*lambda->state = *state`: a copy that shares the table.
  abbrev pub copy_state : Machine T → ℕ → Machine T
  copy_state m a = record m {
    env = at m.env m.next (m.env a);
    outer = at m.outer m.next (m.outer a);
    udef = at m.udef m.next (m.udef a);
    next = m.next + 1;
  }

  abbrev pub lambda_new : Machine T → Node → ℕ → Machine T
  lambda_new m n s = record m {
    lambdas = at m.lambdas m.next (some (record { body = n; state = s }));
    next = m.next + 1;
  }

  -- `genfunc_new`
  abbrev pub genfunc_new : Machine T → ℕ → Name → Machine T
  genfunc_new m s k = record m {
    genfuncs = at m.genfuncs m.next (some (record { state = s; id = k }));
    next = m.next + 1;
  }

  -- `strm_ns_get`, and `strm_ns_create`, which gives the state of a name that is taken.
  abbrev pub strm_ns_get : Machine T → Name → Option ℕ
  strm_ns_get m k = m.spaces k

  unfoldable pub strm_ns_create : Machine T → ℕ → Name → ℕ × Machine T
  strm_ns_create m a k = elim (m.spaces k) [
    | some s ↦ (s, m)
    | none ↦ (
      m.next,
      record (enter m a) { spaces = λ j. if bytes_eq k j then some m.next else m.spaces j },
    )
  ]

module _ {T : Type 0} (h : Khash T Name Value) where
  -- The scope of the state at an address, for the functions of src/env.c.
  abbrev pub scope : Machine T → ℕ → Scope T
  scope m a = record {
    frames = map (λ s. elim (m.env s) [ none ↦ none | some t ↦ some (m.table t) ]) (a ∷ m.outer a);
    globals = m.globals;
    started = true;
  }

  abbrev pub var_get : Machine T → ℕ → Name → Option Value
  var_get m a k = strm_var_get h (scope m a) k

  -- The table of a state, made where it has none.
  unfoldable pub own_env : Machine T → ℕ → ℕ × Machine T
  own_env m a = elim (m.env a) [
    | some t ↦ (t, m)
    | none ↦ (
      m.next,
      record m {
        env = at m.env a (some m.next);
        table = at m.table m.next h.init;
        next = m.next + 1;
      },
    )
  ]

  -- `strm_var_set` of a state that is not NULL.
  unfoldable pub var_set : Machine T → ℕ → Name → Value → Status × Machine T
  unfolding own_env env_set
  var_set m a k v =
      let (t, m1) = own_env m a in
      let (r, x) = env_set h false (m1.table t) k v in (r, record m1 { table = at m1.table t x })

  -- `strm_var_match`
  unfoldable pub var_match :
      (Value → Value → Bool) → Machine T → ℕ → Name → Value → Status × Machine T
  unfolding var_set innermost_get
  var_match eq m a k v = elim (innermost_get h (scope m a).frames k) [
    | none ↦ var_set m a k v
    | some w ↦ (if eq w v then ok else ng, m)
  ]

  -- `strm_env_copy`
  unfoldable pub env_copy : Machine T → ℕ → ℕ → Status × Machine T
  unfolding own_env copy_entries
  env_copy m a b =
      let (t, m1) = own_env m a in
      elim (m.env b) [
        | some u ↦
            let (r, x) = copy_entries h (h.entries (m1.table u)) (m1.table t) in
            (r, record m1 { table = at m1.table t x })
        | none ↦
            let (r, x) = copy_entries h (h.entries h.init) (m1.table t) in
            (
              r,
              record m1 {
                env = at m1.env a (some m1.next);
                table = at (at m1.table t x) m1.next h.init;
                next = m1.next + 1;
              },
            )
      ]
