-- ===== src/Env.antt =====
-- src/env.c: the variables of a scope, of its enclosing scopes, and of the program.
mod Tests
pub mod Lookup
pub mod Copy
pub mod Keep
use streem.Base.{
  ◌≡◌, Bool, true, false, Option, none, some, List, [], ◌∷◌, if◌then◌else◌, Status, ok, ng, abort,
}
use streem.Khash.{Khash, Put, failed, present, added}
use streem.Value.{Value}

-- A `strm_state` and the ones that its `prev` leads to, from the inside out: the table of each, or
-- none where `env` is NULL. The empty list is a NULL state. `globals` is a table or NULL, and
-- `started` is `strm_event_loop_started`.
pub record Scope (T : Type 0) : Type 0 where
  pub frames : List (Option T)
  pub globals : Option T
  pub started : Bool

-- K is the type of interned names. Every name that the callers pass is interned, as
-- `strm_str_intern_str` leaves it.
module _ {T K : Type 0} (h : Khash T K Value) where
  -- `env_set`: a name that has a value keeps it, and the call fails. `locked` says that the
  -- assertion on the globals, `env != globals || !strm_event_loop_started`, fails.
  unfoldable pub env_set : (locked : Bool) → T → K → Value → Status × T
  env_set locked t k v =
      let (r, t') = h.put t k in
      if locked then (abort, t) else elim r [ added ↦ (ok, h.assign t' k v) | _ ↦ (ng, t') ]

  abbrev pub or_init : Option T → T
  or_init none = h.init
  or_init (some t) = t

  -- `env_get`: `none` is STRM_NG.
  unfoldable pub env_get : T → K → Option Value
  env_get t k = h.get t k

  unfoldable pub strm_var_set : Scope T → K → Value → Status × Scope T
  unfolding env_set
  strm_var_set s k v = elim s.frames [
    | [] ↦
        let r = env_set s.started (or_init s.globals) k v in (r.0, record s { globals = some r.1 })
    | e ∷ outer ↦
        let r = env_set false (or_init e) k v in (r.0, record s { frames = some r.1 ∷ outer })
  ]

  -- The loop of `strm_var_get` over the frames.
  unfoldable pub frames_get : List (Option T) → K → Option Value
  unfolding env_get
  frames_get [] k = none
  frames_get (none ∷ outer) k = frames_get outer k
  frames_get (some t ∷ outer) k =
      let rest = frames_get outer k in elim (env_get t k) [ none ↦ rest | some v ↦ some v ]

  unfoldable pub strm_var_get : Scope T → K → Option Value
  unfolding frames_get env_get
  strm_var_get s k = elim (frames_get s.frames k) [
    | some v ↦ some v
    | none ↦ elim s.globals [ none ↦ none | some t ↦ env_get t k ]
  ]

  -- The value of a name in the innermost frame alone.
  unfoldable pub innermost_get : List (Option T) → K → Option Value
  unfolding env_get
  innermost_get (some t ∷ outer) k = env_get t k
  innermost_get _ k = none

  -- `strm_var_match`: a name bound in the innermost frame must have an equal value.
  unfoldable pub strm_var_match : (Value → Value → Bool) → Scope T → K → Value → Status × Scope T
  unfolding innermost_get strm_var_set
  strm_var_match eq s k v = elim (innermost_get s.frames k) [
    | none ↦ strm_var_set s k v
    | some v0 ↦ (if eq v0 v then ok else ng, s)
  ]

  -- The loop of `strm_env_copy` over the entries of the source: it stops at the first name that
  -- the target has.
  unfoldable pub copy_entries : List (K × Value) → T → Status × T
  copy_entries [] t = (ok, t)
  copy_entries ((k, v) ∷ es) t =
      let (r, t') = h.put t k in
      let rest = copy_entries es (h.assign t' k v) in elim r [ added ↦ rest | _ ↦ (ng, t') ]

  -- `strm_env_copy(s1, s2)`, on the two `env` fields; the result is the new field of s1. Where s2
  -- has no table, a new one is stored in s1, while the loop still writes to the table that s1 had.
  unfoldable pub strm_env_copy : Option T → Option T → Status × T
  unfolding copy_entries
  strm_env_copy e1 none = let (r, t) = copy_entries (h.entries h.init) (or_init e1) in (r, h.init)
  strm_env_copy e1 (some t2) = copy_entries (h.entries t2) (or_init e1)
