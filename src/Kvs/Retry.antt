-- ===== src/Kvs/Retry.antt =====
-- The retries of `kvs_txn` of src/kvs.c.
use streem.Base.{
  ◌≡◌, ◌≢◌, refl, none, some, ◌==◌, ltb, ℕ, zero, suc, ◌+◌, ◌<◌, Status, ok, ng, abort, ◌⊎◌, ◌≤◌,
  arith, Bool-cases, inl, inr, ==_iff, ◌≤◌,
}
use streem.Khash.{Khash}
use streem.Value.{Value}
use streem.Kvs.{Kvs, Txn, Txned, committed, gave_up, too_many, commit, kvs_retry, kvs_txn, txn_new}

Status-cases : (s : Status) → (s ≡ ng) ⊎ (s ≢ ng)
Status-cases ng = inl refl
Status-cases ok = inr (λ e. ground arith)
Status-cases abort = inr (λ e. ground arith)

module _ {T U K : Type 0} (h : Khash T K Value) (g : Khash U K Value)
    (body : Kvs T → Txn U → Status × Kvs T × Txn U) where
  abbrev store_of : Kvs T → Txn U → Kvs T
  store_of d t = (body d t).1

  -- The transaction that the next attempt after a conflict starts with.
  abbrev renewed : Kvs T → Txn U → Txn U
  renewed d t = record (body d t).2 { serial = (body d t).1.serial }

  retry_ends :
      (fuel tries : ℕ) (d : Kvs T) (t : Txn U)
      → ((d : Kvs T) (t : Txn U) → (body d t).0 ≡ ng)
      → 10 < fuel + tries
      → tries ≤ 10
      → (r : Txned) × (d' : Kvs T) × (kvs_retry h g body fuel tries d t ≡ some (r, d'))
        × (r ≢ committed)
  unfolding kvs_retry
  retry_ends zero tries d t b n m = ground arith
  retry_ends (suc fuel) tries d t b n m = elim (Bool-cases ((body d t).2.serial == 0)) [
    | inr z ↦ (gave_up, store_of d t, ground (arith, b d t), ground arith)
    | inl z ↦ elim (Bool-cases (ltb 10 (tries + 1))) [
      | inl o ↦ (too_many, store_of d t, ground (arith, b d t), ground arith)
      | inr o ↦
          let (r, d', e, c) =
            retry_ends fuel (tries + 1) (store_of d t) (renewed d t) b (ground arith)
              (ground arith) in
          (r, d', ground (arith, b d t), c)
    ]
  ]

  -- `kvs_txn` comes to an end where the function always fails, whether at conflicts or for a reason
  -- of its own: after 11 calls of it at most, without a commit.
  pub kvs_txn_ends :
      (d : Kvs T)
      → ((d : Kvs T) (t : Txn U) → (body d t).0 ≡ ng)
      → (r : Txned) × (d' : Kvs T) × (kvs_txn h g body 11 d ≡ some (r, d')) × (r ≢ committed)
  unfolding kvs_txn
  kvs_txn_ends d b = retry_ends 11 0 d (txn_new h g d) b (ground arith) (ground arith)

  abbrev pub Commits : Kvs T → Type 0
  Commits d' =
      (d0 : Kvs T) × (t0 : Txn U) × ((body d0 t0).0 ≢ ng)
      × ((body d0 t0).2.serial ≡ (body d0 t0).1.serial)
      × (commit h g (body d0 t0).1 (elim (body d0 t0).2.tv [ none ↦ g.init | some u ↦ u ])
          ≡ (committed, d'))

  retry-Commits :
      (fuel tries : ℕ) (d d' : Kvs T) (t : Txn U)
      → kvs_retry h g body fuel tries d t ≡ some (committed, d')
      → Commits d'
  unfolding kvs_retry
  retry-Commits zero tries d d' t e = ground arith
  retry-Commits (suc fuel) tries d d' t e = elim (Status-cases (body d t).0) [
    | inl n ↦ retry-Commits fuel (tries + 1) (store_of d t) d' (renewed d t) (ground arith)
    | inr n ↦ elim (Bool-cases ((body d t).2.serial == (body d t).1.serial)) [
      | inl q ↦ (d, t, n, (==_iff _ _).0 q, ground arith)
      | inr q ↦ retry-Commits fuel tries (store_of d t) d' (body d t).2 (ground arith)
    ]
  ]

  -- A transaction that commits does so after a call of its function that did not fail, when the
  -- serial of the store was the one that the transaction had, and with the values it then had.
  pub kvs_txn-Commits :
      (fuel : ℕ) (d d' : Kvs T) → kvs_txn h g body fuel d ≡ some (committed, d') → Commits d'
  unfolding kvs_txn
  kvs_txn-Commits fuel d d' e = retry-Commits fuel 0 d d' (txn_new h g d) e

  stuck :
      (n fuel tries : ℕ) (d : Kvs T) (t : Txn U)
      → ((d : Kvs T) (t : Txn U)
          → ((body d t).0 ≡ ok) × ((body d t).1.serial ≢ n) × ((body d t).2.serial ≡ t.serial))
      → t.serial ≡ n
      → kvs_retry h g body fuel tries d t ≡ none
  unfolding kvs_retry
  stuck n zero tries d t b s = refl
  stuck n (suc fuel) tries d t b s = ground (
    arith,
    b d t,
    ==_iff (body d t).2.serial (body d t).1.serial,
    stuck n fuel tries (store_of d t) (body d t).2 b (ground (arith, b d t)),
  )

  -- A conflict that the function does not notice is retried for ever with the old serial: where the
  -- function succeeds without a read of the store, and the store's serial has moved on from the
  -- transaction's, `kvs_txn` does not come to an end, however long it runs.
  pub kvs_txn_stuck :
      (fuel : ℕ) (d : Kvs T)
      → ((e : Kvs T) (t : Txn U)
          → ((body e t).0 ≡ ok)
            × ((body e t).1.serial ≢ d.serial)
            × ((body e t).2.serial ≡ t.serial))
      → kvs_txn h g body fuel d ≡ none
  unfolding kvs_txn txn_new
  kvs_txn_stuck fuel d b = stuck d.serial fuel 0 d (txn_new h g d) b refl
