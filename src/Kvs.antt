-- ===== src/Kvs.antt =====
-- src/kvs.c: the key-value store, and transactions on it. The calls are ones with a store and a key:
-- the messages on calls without arguments are left out.
--
-- The code between `pthread_mutex_lock` and `pthread_mutex_unlock` is one step. A function that
-- the program gives runs with no lock held, so that the store after it is any other one.
mod Tests
pub mod Store
pub mod Commit
pub mod Retry
use streem.Base.{
  ◌≡◌, Bool, true, false, not, Option, none, some, List, [], ◌∷◌, if◌then◌else◌, ◌==◌, ltb, ℕ, zero,
  suc, ◌+◌, ◌%◌, ◌^◌, Status, ok, ng,
}
use streem.Khash.{Khash, Put, failed, present, added}
use streem.Value.{Value, nil}

-- `strm_kvs`; `serial` is a `uint64_t`.
pub record Kvs (T : Type 0) : Type 0 where
  pub kv : T
  pub serial : ℕ

-- `strm_txn`: `tv` is none after `txn_free`.
pub record Txn (T : Type 0) : Type 0 where
  pub tv : Option T
  pub serial : ℕ

abbrev pub u64_inc : ℕ → ℕ
u64_inc n = (n + 1) % 2 ^ 64

-- What a call on a transaction gave: a value; STRM_OK and no value; STRM_NG alone; STRM_NG with the message of
-- `void_txn`, for a transaction that is over.
pub data Given : Type 0 where
  given : Value → Given
  done : Given
  refused : Given
  void : Given

-- How `kvs_txn` ended: STRM_OK, STRM_NG alone, and STRM_NG with the message on too many retries.
pub data Txned : Type 0 where
  committed : Txned
  gave_up : Txned
  too_many : Txned

-- `h` is the table of the store.
module _ {T K : Type 0} (h : Khash T K Value) where
  -- `kvs_new`
  unfoldable pub kvs_new : Kvs T
  kvs_new = record { kv = h.init; serial = 1 }

  -- `kvs_get`: nil where the key has no value.
  unfoldable pub kvs_get : Kvs T → K → Value
  kvs_get d k = elim (h.get d.kv k) [ none ↦ nil | some v ↦ v ]

  -- `kvs_put`
  unfoldable pub kvs_put : Kvs T → K → Value → Status × Kvs T
  kvs_put d k v =
      let (r, t) = h.put d.kv k in
      elim r [
        | failed ↦ (ng, record d { kv = t })
        | _ ↦ (ok, record { kv = h.assign t k v; serial = u64_inc d.serial })
      ]

  -- The loop of `kvs_txn` over the transaction's values, with the lock held.
  unfoldable pub store_all : List (K × Value) → T → Bool × T
  store_all [] t = (true, t)
  store_all ((k, v) ∷ es) t =
      let (r, t') = h.put t k in
      let rest = store_all es (h.assign t' k v) in elim r [ failed ↦ (false, t') | _ ↦ rest ]

-- `same` tells whether two values are one word.
module _ {T K : Type 0} (h : Khash T K Value) (same : Value → Value → Bool) where
  -- The second half of `kvs_update`, with the value that the function was given, and the one that
  -- it made of it.
  unfoldable pub update_store : Kvs T → K → Value → Value → Status × Kvs T
  update_store d k old v =
      let (r, t) = h.put d.kv k in
      elim r [
        | present ↦ elim (h.get t k) [
          | none ↦ (ng, record d { kv = t })
          | some w ↦
              if same w old
              then (ok, record { kv = h.assign t k v; serial = u64_inc d.serial })
              else (ng, record d { kv = t })
        ]
        | _ ↦ (ng, record d { kv = t })
      ]

  -- `kvs_update`: `func` calls the function on the store's value, and gives the store as it is when
  -- the call returns, with the function's value, or none for STRM_NG.
  unfoldable pub kvs_update : (Value → Kvs T → Option Value × Kvs T) → Kvs T → K → Status × Kvs T
  unfolding update_store
  kvs_update func d k = elim (h.get d.kv k) [
    | none ↦ (ng, d)
    | some old ↦
        let (r, d') = func old d in elim r [ none ↦ (ng, d') | some v ↦ update_store d' k old v ]
  ]

-- `g` is the table of a transaction.
module _ {T U K : Type 0} (h : Khash T K Value) (g : Khash U K Value) where
  -- `txn_new`, with the store's serial.
  unfoldable pub txn_new : Kvs T → Txn U
  txn_new d = record { tv = some g.init; serial = d.serial }

  -- `txn_retry`: the mark that `kvs_txn` looks for.
  unfoldable pub txn_retry : Txn U → Given × Txn U
  txn_retry t = (refused, record t { serial = 0 })

  -- `txn_get`
  unfoldable pub txn_get : Kvs T → Txn U → K → Given × Txn U
  unfolding txn_retry kvs_get
  txn_get d t k = elim t.tv [
    | none ↦ (void, t)
    | some u ↦
        if t.serial == d.serial
        then (given (elim (g.get u k) [ some v ↦ v | none ↦ kvs_get h d k ]), t)
        else txn_retry t
  ]

  -- `txn_put`
  unfoldable pub txn_put : Txn U → K → Value → Given × Txn U
  txn_put t k v = elim t.tv [
    | none ↦ (void, t)
    | some u ↦
        let (r, u') = g.put u k in
        elim r [
          | failed ↦ (refused, record t { tv = some u' })
          | _ ↦ (done, record t { tv = some (g.assign u' k v) })
        ]
  ]

  -- The value that `txn_update` starts from: the transaction's, or else the store's.
  unfoldable pub update_from : Kvs T → Put → U → K → Option Value
  update_from d failed u k = none
  update_from d present u k = g.get u k
  update_from d added u k = h.get d.kv k

  -- `txn_update`; `func` is the function, none for STRM_NG. A key that was added to the
  -- transaction stays there, whatever follows.
  unfoldable pub txn_update : (Value → Option Value) → Kvs T → Txn U → K → Given × Txn U
  unfolding txn_retry update_from
  txn_update func d t k = elim t.tv [
    | none ↦ (void, t)
    | some u ↦
        let (r, u') = g.put u k in
        let t' = record t { tv = some u' } in
        if t.serial == d.serial
        then elim (update_from d r u' k) [
          | none ↦ (refused, t')
          | some old ↦ elim (func old) [
            | none ↦ (refused, t')
            | some v ↦ (given v, record t { tv = some (g.assign u' k v) })
          ]
        ]
        else txn_retry t
  ]

  -- What `kvs_txn` does with the lock held, where the serials agree.
  unfoldable pub commit : Kvs T → U → Txned × Kvs T
  unfolding store_all
  commit d u =
      let (r, t) = store_all h (g.entries u) d.kv in
      if r
      then (committed, record { kv = t; serial = u64_inc d.serial })
      else (gave_up, record d { kv = t })

  -- `kvs_txn` from its label `retry` on. `body` calls the program's function on the transaction,
  -- and gives the store, which other threads may have changed, and the transaction as they are when
  -- it returns. None: the loop is still going after the fuel.
  unfoldable pub kvs_retry :
      (Kvs T → Txn U → Status × Kvs T × Txn U) → ℕ → ℕ → Kvs T → Txn U → Option (Txned × Kvs T)
  unfolding commit
  kvs_retry body zero tries d t = none
  kvs_retry body (suc fuel) tries d t =
      let (r, d1, t1) = body d t in
      let again = kvs_retry body fuel (tries + 1) d1 (record t1 { serial = d1.serial }) in
      let conflict = kvs_retry body fuel tries d1 t1 in
      elim r [
        | ng ↦
            if t1.serial == 0
            then (if ltb 10 (tries + 1) then some (too_many, d1) else again)
            else some (gave_up, d1)
        | _ ↦
            if t1.serial == d1.serial
            then some (commit d1 (elim t1.tv [ none ↦ g.init | some u ↦ u ]))
            else conflict
      ]

  -- `kvs_txn`
  unfoldable pub kvs_txn :
      (Kvs T → Txn U → Status × Kvs T × Txn U) → ℕ → Kvs T → Option (Txned × Kvs T)
  unfolding kvs_retry txn_new
  kvs_txn body fuel d = kvs_retry body fuel 0 d (txn_new d)
