-- ===== src/Blob/Atomic.antt =====
-- store/blob/sqlblob/store.go: what a transaction that fails leaves.
use card_client.Prelude.{ℕ, Bool, false, ◌≡◌, arith, ap, sym, Bool-cases, inl, inr}
use card_client.Prelude.Outcome.{Result, ok, err}
use card_client.Blob.Codec.{BlobError}
use card_client.Blob.Tables.{Tables}
use card_client.Blob.Sql.{Store, Db, Action, with_tx, finish}

finish_atomic :
    {A : Type 0} (faults : ℕ → Bool) (before : Tables) (r : Result BlobError A × Db) {e : BlobError}
    {db' : Db}
    → finish faults before r ≡ (err e, db')
    → db'.tables ≡ before
finish_atomic faults before (err e, d) h = ap (λ x. x.1.tables) (sym h)
finish_atomic faults before (ok a, d) h = elim (Bool-cases (faults d.statements)) [
  | inl refused ↦ ground arith
  | inr done ↦ ground arith
]

-- A transaction is all or nothing: whatever the database refuses, a body outside a transaction
-- that ends in an error, or whose commit is refused, leaves both tables as they were.
pub with_tx_atomic :
    {A : Type 0} (faults : ℕ → Bool) (st : Store) (fn : Store → Action A) (db : Db) {e : BlobError}
    {db' : Db}
    → st.is_transaction ≡ false
    → with_tx faults st fn db ≡ (err e, db')
    → db'.tables ≡ db.tables
unfolding with_tx
with_tx_atomic faults st fn db top h = elim (Bool-cases (faults db.statements)) [
  | inl refused ↦ ground arith
  | inr begun ↦ finish_atomic faults db.tables _ (simp (top, begun) at h)
]
