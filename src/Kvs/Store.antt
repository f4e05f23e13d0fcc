-- ===== src/Kvs/Store.antt =====
-- What the operations of src/kvs.c do to the store.
use streem.Base.{
  ◌≡◌, ◌≢◌, Bool, true, false, Option, none, some, if◌then◌else◌, ok, ng, arith, Option-cases, inl,
  inr, ◌⊎◌,
}
use streem.Khash.{Khash, failed, Laws}
use streem.Value.{Value}
use streem.Kvs.{Kvs, u64_inc, kvs_put, update_store, kvs_update}

module _ {T K : Type 0} (h : Khash T K Value) (same : Value → Value → Bool) (eq : K → K → Bool)
    (laws : Laws eq h) where
  -- The value of a slot that `kh_put` found or made, and the ones of the others.
  pub put-assign :
      (t : T) (k j : K) (v : Value)
      → (h.put t k).0 ≢ failed
      → h.get (h.assign (h.put t k).1 k v) j ≡ (if eq k j then some v else h.get t j)
  put-assign t k j v n = elim (Option-cases (h.get t k)) [
    | inr (w, e) ↦ ground (arith, laws.put-present t k w e, laws.get-assign (h.put t k).1 k j v)
    | inl e ↦ ground (
      arith,
      n,
      laws.put-absent t k e,
      laws.put-same t k,
      laws.put-other t k j,
      laws.get-assign (h.put t k).1 k j v,
    )
  ]

  -- A `kh_put` that fails leaves the table.
  pub put-failed : (t : T) (k : K) → (h.put t k).0 ≡ failed → (h.put t k).1 ≡ t
  put-failed t k e = elim (Option-cases (h.get t k)) [
    | inr (w, g) ↦ ground (arith, laws.put-present t k w g)
    | inl g ↦ ground (arith, laws.put-absent t k g)
  ]

  -- A `kvs_put` either succeeds, when the key has the value, every other key has what it had, and the
  -- serial is the next one, or fails and leaves the store as it was.
  pub kvs_put_lem :
      (d : Kvs T) (k j : K) (v : Value)
      → (((kvs_put h d k v).0 ≡ ok)
          × (h.get (kvs_put h d k v).1.kv j ≡ (if eq k j then some v else h.get d.kv j))
          × ((kvs_put h d k v).1.serial ≡ u64_inc d.serial))
        ⊎ (kvs_put h d k v ≡ (ng, d))
  unfolding kvs_put
  kvs_put_lem d k j v = ground (arith, put-assign d.kv k j v, put-failed d.kv k)

  -- The second half of `kvs_update`, where the key still has the value that the function was given:
  -- it succeeds, the key has the new value, every other key has what it had, and the serial is the
  -- next one.
  pub update_store_ok :
      (d : Kvs T) (k j : K) (old v w : Value)
      → h.get d.kv k ≡ some w
      → same w old ≡ true
      → ((update_store h same d k old v).0 ≡ ok)
        × (h.get (update_store h same d k old v).1.kv j ≡ (if eq k j then some v else h.get d.kv j))
        × ((update_store h same d k old v).1.serial ≡ u64_inc d.serial)
  unfolding update_store
  update_store_ok d k j old v w e s =
      ground (arith, put-assign d.kv k j v, laws.put-present d.kv k w e)

  -- Where the key has another value by then, it fails and leaves the store as it was.
  pub update_store_ng :
      (d : Kvs T) (k : K) (old v w : Value)
      → h.get d.kv k ≡ some w
      → same w old ≡ false
      → update_store h same d k old v ≡ (ng, d)
  unfolding update_store
  update_store_ng d k old v w e s = ground (arith, laws.put-present d.kv k w e)

  -- A `kvs_update` alone: it fails on a key without a value, and leaves the store; otherwise the key
  -- has what the function makes of its value, and the function's failure leaves the store.
  pub kvs_update_alone :
      (f : Value → Option Value) (d : Kvs T) (k j : K)
      → ((v : Value) → same v v ≡ true)
      → let r = kvs_update h same (λ v d. (f v, d)) d k in
        let new : Option Value = elim (h.get d.kv k) [ none ↦ none | some v ↦ f v ] in
        (r.0 ≡ elim new [ none ↦ ng | some v ↦ ok ])
        × (h.get r.1.kv j
            ≡ elim new [ none ↦ h.get d.kv j | some v ↦ if eq k j then some v else h.get d.kv j ])
  unfolding kvs_update
  kvs_update_alone f d k j r = elim (Option-cases (h.get d.kv k)) [
    | inl e ↦ ground arith
    | inr (w, e) ↦ elim (Option-cases (f w)) [
      | inl n ↦ ground arith
      | inr (v, n) ↦ ground (arith, update_store_ok d k j w v w e (r w))
    ]
  ]
