-- ===== src/Exec/Keep.antt =====
-- What no step of src/exec.c does to a table of variables.
use streem.Base.{
  ◌≡◌, Bool, false, Option, some, List, Status, arith, inl, inr, ◌≤◌, ◌<◌, ℕ, ◌==◌, Bool-cases,
  ==_iff, ◌+◌, bytes_eq, option_case,
}
use streem.Khash.{Khash, Laws}
use streem.Value.{Value}
use streem.Node.{Name}
use streem.Env.{env_set, copy_entries, innermost_get}
use streem.Env.Keep.{env_set_keeps, copy_keeps}
use streem.Exec.{Machine}
use streem.Exec.State.{own_env, var_set, var_match, env_copy, strm_ns_create, at, scope}

-- A table that is there goes on to have every variable that it has, with the same value.
pub record Keeps {T : Type 0} (h : Khash T Name Value) (m m' : Machine T) : Type 0 where
  pub grows : m.next ≤ m'.next
  pub kept :
      (a : ℕ) (k : Name) (v : Value)
      → a < m.next
      → h.get (m.table a) k ≡ some v
      → h.get (m'.table a) k ≡ some v

module _ {T : Type 0} (h : Khash T Name Value) where
  pub keeps_refl : (m : Machine T) → Keeps h m m
  keeps_refl m = record { grows = omega arith; kept = λ a k v p e. e }

  pub keeps_trans : (m1 m2 m3 : Machine T) → Keeps h m1 m2 → Keeps h m2 m3 → Keeps h m1 m3
  keeps_trans m1 m2 m3 p q =
      let g = p.grows in
      let g' = q.grows in
      record {
        grows = omega arith;
        kept = λ a k v l e. q.kept a k v (omega arith) (p.kept a k v l e);
      }

  -- A step that leaves the tables, and the addresses that are used.
  pub keeps_same : (m m' : Machine T) → m'.next ≡ m.next → m'.table ≡ m.table → Keeps h m m'
  keeps_same m m' p q = record { grows = omega arith; kept = λ a k v l e. rw q e }

  -- A step that gives out the next address and leaves the tables.
  pub keeps_next : (m m' : Machine T) → m'.next ≡ m.next + 1 → m'.table ≡ m.table → Keeps h m m'
  keeps_next m m' p q = record { grows = omega arith; kept = λ a k v l e. rw q e }

  own_keeps : (m : Machine T) (a : ℕ) → Keeps h m (own_env h m a).1
  unfolding own_env
  own_keeps m a = record { grows = ground arith; kept = λ b k v p g. ground (arith, g) }

  -- A table that is changed to one that keeps its variables.
  store_keeps :
      (m : Machine T) (t : ℕ) (x : T)
      → ((k : Name) (v : Value) → h.get (m.table t) k ≡ some v → h.get x k ≡ some v)
      → Keeps h m (record m { table = at m.table t x })
  store_keeps m t x f = record {
    grows = omega arith;
    kept = λ b k v p g. elim (Bool-cases (t == b)) [
      | inl e ↦ ground (arith, f k v, ==_iff t b)
      | inr e ↦ rw e g
    ];
  }

  -- A step that makes an empty table at the next address.
  fresh_keeps :
      (m : Machine T) (e : ℕ → Option ℕ) (x : T)
      → Keeps h m (record m { env = e; table = at m.table m.next x; next = m.next + 1 })
  fresh_keeps m e x = record { grows = omega arith; kept = λ b k v p g. ground (arith, g) }

  module _ (laws : Laws bytes_eq h) where
    pub var_set_keeps :
        (m : Machine T) (a : ℕ) (k : Name) (v : Value) → Keeps h m (var_set h m a k v).1
    unfolding var_set
    var_set_keeps m a k v =
        let (t, m1) = own_env h m a in
        keeps_trans m m1 _ (own_keeps m a) (
          store_keeps m1 t (env_set h false (m1.table t) k v).1
            λ j w g. env_set_keeps h bytes_eq laws (m1.table t) k j v w g)

    pub var_match_keeps :
        (eq : Value → Value → Bool) (m : Machine T) (a : ℕ) (k : Name) (v : Value)
        → Keeps h m (var_match h eq m a k v).1
    unfolding var_match
    var_match_keeps eq m a k v =
        option_case (λ (r : Status × Machine T). Keeps h m r.1)
          (innermost_get h (scope h m a).frames k) _ _ (var_set_keeps m a k v) λ w. keeps_refl m

    copy_from :
        (m : Machine T) (a : ℕ) (es : List (Name × Value))
        → Keeps h m (record (own_env h m a).1 {
          table =
              at
                (own_env h m a).1.table
                (own_env h m a).0
                (copy_entries h es ((own_env h m a).1.table (own_env h m a).0)).1;
        })
    copy_from m a es =
        let (t, m1) = own_env h m a in
        keeps_trans m m1 _ (own_keeps m a) (
          store_keeps m1 t (copy_entries h es (m1.table t)).1
            λ j w g. copy_keeps h bytes_eq laws es (m1.table t) j w g)

    pub env_copy_keeps : (m : Machine T) (a b : ℕ) → Keeps h m (env_copy h m a b).1
    unfolding env_copy
    env_copy_keeps m a b =
        option_case (λ (r : Status × Machine T). Keeps h m r.1) (m.env b) _ _
          (keeps_trans m _ _ (copy_from m a (h.entries h.init)) (fresh_keeps _ _ _))
          λ u. copy_from m a (h.entries ((own_env h m a).1.table u))

  pub ns_create_keeps : (m : Machine T) (a : ℕ) (k : Name) → Keeps h m (strm_ns_create m a k).1
  unfolding strm_ns_create
  ns_create_keeps m a k = record { grows = ground arith; kept = λ b j v p g. ground (arith, g) }
