-- ===== src/Kvs/Commit.antt =====
-- The end of a transaction of src/kvs.c, and the serial that guards it.
use streem.Base.{
  ◌≡◌, ◌≢◌, refl, Bool, true, none, some, List, [], ◌∷◌, ℕ, zero, suc, ◌+◌, ◌%◌, ◌^◌, ◌<◌, Status,
  ok, ng, arith, Option-cases, Bool-cases, inl, inr, ◌⊎◌,
}
use streem.Khash.{Khash, Laws, lookup, Distinct}
use streem.Value.{Value}
use streem.Kvs.{Kvs, committed, u64_inc, kvs_put, update_store, store_all, commit}
use streem.Kvs.Store.{put-assign, kvs_put_lem, update_store_ok, update_store_ng}

module _ {T K : Type 0} (h : Khash T K Value) (eq : K → K → Bool) (laws : Laws eq h) where
  store_all_ok :
      (es : List (K × Value)) (t : T)
      → (store_all h es t).0 ≡ true
      → Distinct eq es
      → (j : K)
      → h.get (store_all h es t).1 j ≡ elim (lookup eq es j) [ some v ↦ some v | none ↦ h.get t j ]
  unfolding store_all
  store_all_ok [] t e d j = refl
  store_all_ok ((k, v) ∷ es) t e d j = elim (Bool-cases (eq k j)) [
    | inr n ↦ ground (
      arith,
      store_all_ok es (h.assign (h.put t k).1 k v) (ground arith) d.1 j,
      put-assign h (λ a b. true) eq laws t k j v,
    )
    | inl y ↦ ground (
      arith,
      store_all_ok es (h.assign (h.put t k).1 k v) (ground arith) d.1 j,
      put-assign h (λ a b. true) eq laws t k j v,
      laws.eq-≡ k j y,
    )
  ]

module _ {T U K : Type 0} (h : Khash T K Value) (g : Khash U K Value) (eq : K → K → Bool)
    (laws : Laws eq h) (laws_g : Laws eq g) where
  -- A commit that succeeds: a key that the transaction has a value for has that value in the store,
  -- every other key has what it had there, and the serial is the next one.
  pub commit_ok :
      (d d' : Kvs T) (u : U) (j : K)
      → commit h g d u ≡ (committed, d')
      → (h.get d'.kv j ≡ elim (g.get u j) [ some v ↦ some v | none ↦ h.get d.kv j ])
        × (d'.serial ≡ u64_inc d.serial)
  unfolding commit
  commit_ok d d' u j e =
      let o : (store_all h (g.entries u) d.kv).0 ≡ true = ground arith in
      ground (
        arith,
        store_all_ok h eq laws (g.entries u) d.kv o (laws_g.entries-Distinct u) j,
        laws_g.lookup-entries u j,
      )

-- A write to the store that another thread makes: a `kvs_put`, the second half of a `kvs_update` with
-- the value that it read before, or the end of a `kvs_txn` whose transaction has these values.
pub data Write (U K : Type 0) : Type 0 where
  putting : K → Value → Write U K
  updating : K → Value → Value → Write U K
  committing : U → Write U K

module _ {T U K : Type 0} (h : Khash T K Value) (g : Khash U K Value)
    (same : Value → Value → Bool) where
  abbrev pub write : Kvs T → Write U K → Status × Kvs T
  write d (putting k v) = kvs_put h d k v
  write d (updating k old v) = update_store h same d k old v
  write d (committing u) = (elim (commit h g d u).0 [ committed ↦ ok | _ ↦ ng ], (commit h g d u).1)

  abbrev pub writes : Kvs T → List (Write U K) → Kvs T
  writes d [] = d
  writes d (w ∷ ws) = writes (write d w).1 ws

  -- The number of writes that succeed.
  abbrev pub successes : Kvs T → List (Write U K) → ℕ
  successes d [] = zero
  successes d (w ∷ ws) =
      let rest = successes (write d w).1 ws in elim (write d w).0 [ ok ↦ suc rest | _ ↦ rest ]

  -- Each update is of a key that the store has, as `kvs_update` has checked, and no commit runs out of
  -- memory: one that does leaves values in the store, and the serial as it was.
  abbrev pub Known : Kvs T → List (Write U K) → Type 0
  Known d [] = Unit
  Known d (w ∷ ws) =
      elim w [
        | putting k v ↦ Unit
        | updating k old v ↦ h.get d.kv k ≢ none
        | committing u ↦ (store_all h (g.entries u) d.kv).0 ≡ true
      ]
      × Known (write d w).1 ws

module _ {T U K : Type 0} (h : Khash T K Value) (g : Khash U K Value) (same : Value → Value → Bool)
    (eq : K → K → Bool) (laws : Laws eq h) where
  write-serial :
      (d : Kvs T) (w : Write U K) (ws : List (Write U K))
      → Known h g same d (w ∷ ws)
      → (((write h g same d w).0 ≡ ok) × ((write h g same d w).1.serial ≡ u64_inc d.serial))
        ⊎ (write h g same d w ≡ (ng, d))
  unfolding commit
  write-serial d (committing u) ws i = inl (ground (arith, i.0), ground (arith, i.0))
  write-serial d (putting k v) ws i = elim (kvs_put_lem h same eq laws d k k v) [
    | inl (a, b, c) ↦ inl (a, c)
    | inr e ↦ inr e
  ]
  write-serial d (updating k old v) ws i = elim (Option-cases (h.get d.kv k)) [
    | inl n ↦ absurd (i.0 n)
    | inr (w, n) ↦ elim (Bool-cases (same w old)) [
      | inl s ↦ let (a, b, c) = update_store_ok h same eq laws d k k old v w n s in inl (a, c)
      | inr s ↦ inr (update_store_ng h same eq laws d k old v w n s)
    ]
  ]

  -- The serial counts the writes that succeed, modulo 2 ^ 64, and where none does, the store is as
  -- it was.
  writes-serial :
      (d : Kvs T) (ws : List (Write U K))
      → d.serial < 2 ^ 64
      → Known h g same d ws
      → ((writes h g same d ws).serial ≡ (d.serial + successes h g same d ws) % 2 ^ 64)
        × (successes h g same d ws ≡ 0 → writes h g same d ws ≡ d)
  writes-serial d [] b i = (ground arith, λ _. refl)
  writes-serial d (w ∷ ws) b i = elim (write-serial d w ws i) [
    | inl (o, n) ↦
        let d1 = (write h g same d w).1 in
        let (r, z) = writes-serial d1 ws (ground arith) i.1 in (ground arith, λ e. ground arith)
    | inr e ↦
        let r = writes-serial (write h g same d w).1 ws (ground arith) i.1 in
        (ground arith, λ z. ground (arith, r.1 (ground arith)))
  ]

  -- Between a moment when the store's serial is the transaction's and a later one when it is again,
  -- other threads may put, update and commit transactions of their own. If fewer than 2 ^ 64 of these
  -- succeed, updates are of keys that the store has, and no commit runs out of memory, then none has
  -- succeeded, and the store is as it was: the transaction commits to the store that it has read.
  pub serial_guards :
      (d : Kvs T) (ws : List (Write U K))
      → d.serial < 2 ^ 64
      → Known h g same d ws
      → successes h g same d ws < 2 ^ 64
      → (writes h g same d ws).serial ≡ d.serial
      → writes h g same d ws ≡ d
  serial_guards d ws b i n e = let r = writes-serial d ws b i in r.1 (ground arith)
