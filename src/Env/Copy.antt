-- ===== src/Env/Copy.antt =====
-- `strm_env_copy` of src/env.c, which `import` uses.
use streem.Base.{
  ◌≡◌, refl, Bool, false, Option, none, some, List, [], ◌∷◌, ok, ng, arith, inl, inr, Bool-cases,
}
use streem.Khash.{Khash, Laws, lookup, Distinct}
use streem.Value.{Value}
use streem.Env.{or_init, copy_entries, strm_env_copy, env_set}
use streem.Env.Lookup.{env_set_ok, or_init_get}

module _ {T K : Type 0} (h : Khash T K Value) (eq : K → K → Bool) (laws : Laws eq h) where
  -- A step of the loop is `env_set` of a name that is interned already.
  copy_step :
      (k : K) (v : Value) (es : List (K × Value)) (t : T)
      → copy_entries h ((k, v) ∷ es) t ≡ elim (env_set h false t k v).0 [
        | ok ↦ copy_entries h es (env_set h false t k v).1
        | _ ↦ (ng, (h.put t k).1)
      ]
  unfolding copy_entries env_set
  copy_step k v es t = ground arith

  copy_nil : (t : T) → copy_entries h [] t ≡ (ok, t)
  unfolding copy_entries
  copy_nil t = refl

  copy_ok :
      (es : List (K × Value)) (t t' : T)
      → copy_entries h es t ≡ (ok, t')
      → Distinct eq es
      → (j : K) → h.get t' j ≡ elim (lookup eq es j) [ some v ↦ some v | none ↦ h.get t j ]
  copy_ok [] t t' e d j = ground (arith, copy_nil t)
  copy_ok ((k, v) ∷ es) t t' e d j =
      let st : copy_entries h es (env_set h false t k v).1 ≡ (ok, t') =
        ground (arith, copy_step k v es t) in
      let o : (env_set h false t k v).0 ≡ ok = ground (arith, copy_step k v es t) in
      let s = (env_set_ok h eq laws false t (env_set h false t k v).1 k v (ground arith)).1 j in
      elim (Bool-cases (eq k j)) [
        | inr n ↦ ground (arith, copy_ok es (env_set h false t k v).1 t' st d.1 j)
        | inl y ↦ ground (arith, copy_ok es (env_set h false t k v).1 t' st d.1 j, laws.eq-≡ k j y)
      ]

  -- A `strm_env_copy` from a scope that has a table and that succeeds: a name of the source has the
  -- source's value in the target, and every other name has what it had there.
  pub strm_env_copy_ok :
      (e1 : Option T) (t2 t' : T) (j : K)
      → strm_env_copy h e1 (some t2) ≡ (ok, t')
      → h.get t' j ≡ elim (h.get t2 j) [
        | some v ↦ some v
        | none ↦ elim e1 [ none ↦ none | some t ↦ h.get t j ]
      ]
  unfolding strm_env_copy
  strm_env_copy_ok e1 t2 t' j e = ground (
    arith,
    copy_ok (h.entries t2) (or_init h e1) t' e (laws.entries-Distinct t2) j,
    laws.lookup-entries t2 j,
    or_init_get h eq laws e1 j,
  )

  -- A `strm_env_copy` from a scope that has no table leaves the target without any name, the ones it
  -- had included.
  pub strm_env_copy_empty : (e1 : Option T) (j : K) → h.get (strm_env_copy h e1 none).1 j ≡ none
  unfolding strm_env_copy
  strm_env_copy_empty e1 j = laws.get-init j
