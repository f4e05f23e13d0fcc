-- ===== src/Kvs/Tests.antt =====
-- Transactions of src/kvs.c on a small store.
use streem.Base.{
  ◌≡◌, ◌≢◌, refl, Bool, true, false, Option, none, some, List, [], ◌∷◌, ℕ, ◌==◌, if◌then◌else◌,
  Status, ok, ng, arith, ◌+◌, ◌<◌, ◌^◌,
}
use streem.Value.{Value, nil, int}
use streem.Khash.Assoc.{table, same, laws}
use streem.Kvs.{Kvs, Txn, Txned, committed, update_store, commit, kvs_txn}
use streem.Kvs.Commit.{Write, updating, writes, serial_guards, Known, successes}
use streem.Kvs.Retry.{Commits, kvs_txn_ends, kvs_txn-Commits, kvs_txn_stuck}

abbrev Table : Type 0
Table = List (ℕ × Value)

abbrev words : Value → Value → Bool
words v w = true

abbrev store : Kvs Table
store = record { kv = (1, int 10) ∷ (2, int 20) ∷ []; serial = 5 }

abbrev double : Value → Option Value
double v = elim v [ int n ↦ some (int (n + n)) | _ ↦ none ]

abbrev changes : Table
changes = (2, int 22) ∷ (3, int 30) ∷ []

abbrev after_commit : Kvs Table
after_commit = (commit (table nil) (table nil) store changes).1

commits : commit (table nil) (table nil) store changes ≡ (committed, after_commit)
unfolding commit streem.Khash.Assoc.entries streem.Khash.Assoc.put streem.Khash.Assoc.remove
    streem.Khash.Assoc.assign
commits = refl

-- Updates by another thread that come too late.
abbrev late : Value → Value → Bool
late v w = false

abbrev others : List (Write Table ℕ)
others = updating 1 (int 11) (int 12) ∷ updating 2 (int 21) (int 22) ∷ []

others-Known : Known (table nil) (table nil) late store others
unfolding update_store streem.Khash.Assoc.put
others-Known = (λ e. ground arith, (λ e. ground arith, tt))

others-successes : successes (table nil) (table nil) late store others < 2 ^ 64
unfolding update_store streem.Khash.Assoc.put
others-successes = omega arith

others_serial : (writes (table nil) (table nil) late store others).serial ≡ store.serial
unfolding update_store streem.Khash.Assoc.put
others_serial = refl

serial_guards_example : writes (table nil) (table nil) late store others ≡ store
serial_guards_example =
    serial_guards (table nil) (table nil) late same (laws nil) store others (omega arith)
      others-Known others-successes others_serial

-- A function that notices a conflict each time.
abbrev refusing : Kvs Table → Txn Table → Status × Kvs Table × Txn Table
refusing d t = (ng, d, record t { serial = 0 })

kvs_txn_ends_example :
    (r : Txned) × (d' : Kvs Table) × (kvs_txn (table nil) (table nil) refusing 11 store
      ≡ some (r, d'))
    × (r ≢ committed)
kvs_txn_ends_example = kvs_txn_ends (table nil) (table nil) refusing store (λ d t. refl)

-- A function that changes two values.
abbrev changing : Kvs Table → Txn Table → Status × Kvs Table × Txn Table
changing d t = (ok, d, record t { tv = some changes })

changing_commits : kvs_txn (table nil) (table nil) changing 1 store ≡ some (committed, after_commit)
unfolding kvs_txn streem.Khash.Assoc.entries streem.Khash.Assoc.put streem.Khash.Assoc.remove
    streem.Khash.Assoc.assign
changing_commits = refl

kvs_txn-Commits_example : Commits (table nil) (table nil) changing after_commit
kvs_txn-Commits_example =
    kvs_txn-Commits (table nil) (table nil) changing 1 store after_commit changing_commits

-- A function that writes only, while another thread makes one change to the store.
abbrev overtaken : Kvs Table → Txn Table → Status × Kvs Table × Txn Table
overtaken d t = (ok, (if d.serial == 5 then record d { serial = 6 } else d), t)

kvs_txn_stuck_example : kvs_txn (table nil) (table nil) overtaken 1000 store ≡ none
kvs_txn_stuck_example =
    kvs_txn_stuck (table nil) (table nil) overtaken 1000 store (λ e t. (refl, ground arith, refl))
