-- ===== src/Env/Keep.antt =====
-- What `env_set` and `strm_env_copy` of src/env.c never do: change or remove a variable.
use streem.Base.{
  ◌≡◌, Bool, false, some, List, [], ◌∷◌, ◌⊎◌, Option-cases, arith, inl, inr, Bool-cases,
}
use streem.Khash.{Khash, Laws, added}
use streem.Value.{Value}
use streem.Env.{env_set, copy_entries}

module _ {T K : Type 0} (h : Khash T K Value) (eq : K → K → Bool) (laws : Laws eq h) where
  -- The table of `kh_put` has what was there, and so has the one that the value is then written to.
  put_keeps :
      (t : T) (k j : K) (w : Value)
      → h.get t j ≡ some w
      → ((h.put t k).0 ≡ added) ⊎ (h.get (h.put t k).1 j ≡ some w)
  put_keeps t k j w g = elim (Option-cases (h.get t k)) [
    | inr (x, e) ↦ inr (rw (laws.put-present t k x e) g)
    | inl e ↦ elim (laws.put-absent t k e) [ inl p ↦ inl p | inr p ↦ inr (rw p g) ]
  ]

  added_keeps :
      (t : T) (k j : K) (v w : Value)
      → h.get t j ≡ some w
      → (h.put t k).0 ≡ added
      → h.get (h.assign (h.put t k).1 k v) j ≡ some w
  added_keeps t k j v w g p = elim (Option-cases (h.get t k)) [
    | inr (x, e) ↦ ground (arith, laws.put-present t k x e)
    | inl e ↦ elim (Bool-cases (eq k j)) [
      | inl y ↦ ground (arith, laws.eq-≡ k j y)
      | inr n ↦
          ground (
            arith,
            laws.get-assign (h.put t k).1 k j v (laws.put-same t k p),
            laws.put-other t k j n,
          )
    ]
  ]

  pub env_set_keeps :
      (t : T) (k j : K) (v w : Value)
      → h.get t j ≡ some w
      → h.get (env_set h false t k v).1 j ≡ some w
  unfolding env_set
  env_set_keeps t k j v w g = ground (arith, put_keeps t k j w g, added_keeps t k j v w g)

  pub copy_keeps :
      (es : List (K × Value)) (t : T) (j : K) (w : Value)
      → h.get t j ≡ some w
      → h.get (copy_entries h es t).1 j ≡ some w
  unfolding copy_entries
  copy_keeps [] t j w g = g
  copy_keeps ((k, v) ∷ es) t j w g =
      let next : (h.put t k).0 ≡ added
          → h.get (copy_entries h es (h.assign (h.put t k).1 k v)).1 j ≡ some w =
        λ p. copy_keeps es (h.assign (h.put t k).1 k v) j w (added_keeps t k j v w g p) in
      ground (arith, put_keeps t k j w g, next)
