-- ===== src/Env/Lookup.antt =====
-- What a name means after an assignment or a match: `strm_var_set` and `strm_var_match` of src/env.c.
use streem.Base.{
  ◌≡◌, refl, Bool, true, false, Option, none, some, List, [], ◌∷◌, if◌then◌else◌, ok, ng, arith,
  Option-cases, inl, inr, ap,
}
use streem.Khash.{Khash, Laws}
use streem.Value.{Value}
use streem.Env.{
  Scope, env_set, or_init, env_get, strm_var_set, frames_get, strm_var_get, innermost_get,
  strm_var_match,
}

module _ {T K : Type 0} (h : Khash T K Value) (eq : K → K → Bool) (laws : Laws eq h) where
  pub env_set_ok :
      (b : Bool) (t t' : T) (k : K) (v : Value)
      → env_set h b t k v ≡ (ok, t')
      → (h.get t k ≡ none) × ((j : K) → h.get t' j ≡ (if eq k j then some v else h.get t j))
  unfolding env_set
  env_set_ok b t t' k v e = elim (Option-cases (h.get t k)) [
    | inr (w, g) ↦ ground (arith, laws.put-present t k w g)
    | inl g ↦ (
      g,
      λ j. ground (
        arith,
        laws.put-absent t k g,
        laws.put-same t k,
        laws.put-other t k j,
        laws.get-assign (h.put t k).1 k j v,
      ),
    )
  ]

  pub env_set_ng : (b : Bool) (t t' : T) (k : K) (v : Value) → env_set h b t k v ≡ (ng, t') → t' ≡ t
  unfolding env_set
  env_set_ng b t t' k v e = elim (Option-cases (h.get t k)) [
    | inr (w, g) ↦ ground (arith, laws.put-present t k w g)
    | inl g ↦ ground (arith, laws.put-absent t k g)
  ]

  pub or_init_get :
      (e : Option T) (j : K) → h.get (or_init h e) j ≡ elim e [ none ↦ none | some t ↦ h.get t j ]
  or_init_get none j = laws.get-init j
  or_init_get (some t) j = refl

  abbrev scope : List (Option T) → Option T → Bool → Scope T
  scope fr g b = record { frames = fr; globals = g; started = b }

  set_ok :
      (fr : List (Option T)) (g : Option T) (b : Bool) (k : K) (v : Value)
      → (strm_var_set h (scope fr g b) k v).0 ≡ ok
      → (j : K)
      → strm_var_get h (strm_var_set h (scope fr g b) k v).1 j
        ≡ (if eq k j then some v else strm_var_get h (scope fr g b) j)
  unfolding strm_var_set strm_var_get frames_get env_get
  set_ok [] g b k v e j = ground (
    arith,
    or_init_get g j,
    (env_set_ok b (or_init h g) (env_set h b (or_init h g) k v).1 k v (ground arith)).1 j,
  )
  set_ok (f ∷ fr) g b k v e j = ground (
    arith,
    or_init_get f j,
    (env_set_ok false (or_init h f) (env_set h false (or_init h f) k v).1 k v (ground arith)).1 j,
  )

  set_ng :
      (fr : List (Option T)) (g : Option T) (b : Bool) (k : K) (v : Value)
      → (strm_var_set h (scope fr g b) k v).0 ≡ ng
      → (j : K)
      → strm_var_get h (strm_var_set h (scope fr g b) k v).1 j ≡ strm_var_get h (scope fr g b) j
  unfolding strm_var_set strm_var_get frames_get env_get
  set_ng [] g b k v e j = ground (
    arith,
    or_init_get g j,
    env_set_ng b (or_init h g) (env_set h b (or_init h g) k v).1 k v (ground arith),
  )
  set_ng (f ∷ fr) g b k v e j = ground (
    arith,
    or_init_get f j,
    env_set_ng false (or_init h f) (env_set h false (or_init h f) k v).1 k v (ground arith),
  )

  -- After a successful `strm_var_set` the name has the value and every other name means what it did,
  -- in the scope's own frame, in the enclosing ones and in the globals.
  pub strm_var_get-set :
      (s s' : Scope T) (k j : K) (v : Value)
      → strm_var_set h s k v ≡ (ok, s')
      → strm_var_get h s' j ≡ (if eq k j then some v else strm_var_get h s j)
  strm_var_get-set s s' k j v e =
      let r = set_ok s.frames s.globals s.started k v (ap (λ p. p.0) e) j in
      rw (ap (λ p. p.1) e) at r

  -- A `strm_var_set` that fails changes the meaning of no name.
  pub strm_var_get-set_ng :
      (s s' : Scope T) (k j : K) (v : Value)
      → strm_var_set h s k v ≡ (ng, s')
      → strm_var_get h s' j ≡ strm_var_get h s j
  strm_var_get-set_ng s s' k j v e =
      let r = set_ng s.frames s.globals s.started k v (ap (λ p. p.0) e) j in
      rw (ap (λ p. p.1) e) at r

  once :
      (fr : List (Option T)) (g : Option T) (b : Bool) (k : K) (v w : Value)
      → innermost_get h fr k ≡ some w
      → (strm_var_set h (scope fr g b) k v).0 ≡ ng
  unfolding strm_var_set innermost_get env_get env_set
  once [] g b k v w e = cc
  once (none ∷ fr) g b k v w e = cc
  once (some t ∷ fr) g b k v w e = ground (arith, laws.put-present t k w e)

  -- A name is assigned once: where the innermost frame has a value for it, `strm_var_set` fails, and
  -- every name, that one included, means what it did.
  pub strm_var_set_once :
      (s : Scope T) (k j : K) (v w : Value)
      → innermost_get h s.frames k ≡ some w
      → ((strm_var_set h s k v).0 ≡ ng)
        × (strm_var_get h (strm_var_set h s k v).1 j ≡ strm_var_get h s j)
  strm_var_set_once s k j v w e =
      let r = once s.frames s.globals s.started k v w e in
      (r, set_ng s.frames s.globals s.started k v r j)

  innermost-var_get :
      (fr : List (Option T)) (g : Option T) (b : Bool) (k : K) (w : Value)
      → innermost_get h fr k ≡ some w
      → strm_var_get h (scope fr g b) k ≡ some w
  unfolding innermost_get strm_var_get frames_get env_get
  innermost-var_get [] g b k w e = cc
  innermost-var_get (none ∷ fr) g b k w e = cc
  innermost-var_get (some t ∷ fr) g b k w e = ground arith

  -- After a successful `strm_var_match` the name has a value that is equal to the one matched, and
  -- every other name means what it did.
  pub strm_var_match_ok :
      (same : Value → Value → Bool) (s s' : Scope T) (k j : K) (v : Value)
      → strm_var_match h same s k v ≡ (ok, s')
      → same v v ≡ true
      → eq k k ≡ true
      → eq k j ≡ false
      → ((w : Value) × (strm_var_get h s' k ≡ some w) × (same w v ≡ true))
        × (strm_var_get h s' j ≡ strm_var_get h s j)
  unfolding strm_var_match
  strm_var_match_ok same s s' k j v e r kk kj = elim (Option-cases (innermost_get h s.frames k)) [
    | inl n ↦
        let set : strm_var_set h s k v ≡ (ok, s') = ground arith in
        (
          (v, ground (arith, strm_var_get-set s s' k k v set), r),
          ground (arith, strm_var_get-set s s' k j v set),
        )
    | inr (w, n) ↦ (
      (w, ground (arith, innermost-var_get s.frames s.globals s.started k w n), ground arith),
      ground arith,
    )
  ]
