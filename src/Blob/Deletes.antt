-- ===== src/Blob/Deletes.antt =====
-- store/blob/sqlblob/store.go: what `Delete` leaves.
use card_client.Prelude.{ℕ, suc, [], Bool, false, none, ◌==◌, ◌≡◌, refl, ==_refl}
use card_client.Prelude.Assoc.{lookup, erase, lookup-erase}
use card_client.Prelude.Outcome.{ok}
use card_client.Blob.Tables.{versions_of, delete_card}
use card_client.Blob.Sql.{Store, Db, delete, with_tx}
use card_client.Blob.Versions.{versions_of-delete_card, versions_of-delete_card_ne}

-- A `Delete` outside a transaction, on a database that refuses no statement, succeeds, leaves no
-- version and no thumbnail of the card, and those of another card as they were.
pub delete_lem :
    (faults : ℕ → Bool) (st : Store) (rid r : ℕ) (db : Db)
    → ((n : ℕ) → faults n ≡ false)
    → st.is_transaction ≡ false
    → (rid == r) ≡ false
    → (db' : Db) × (delete faults st rid db ≡ (ok tt, db'))
      × (versions_of rid db'.tables.cards ≡ [])
      × (lookup rid db'.tables.thumbnails ≡ none)
      × (versions_of r db'.tables.cards ≡ versions_of r db.tables.cards)
      × (lookup r db'.tables.thumbnails ≡ lookup r db.tables.thumbnails)
unfolding delete with_tx
delete_lem faults st rid r db sound top ne =
    let s0 = sound db.statements in
    let s1 = sound (suc db.statements) in
    let s2 = sound (suc (suc db.statements)) in
    let s3 = sound (suc (suc (suc db.statements))) in
    (
      record {
        tables = record {
          cards = delete_card rid db.tables.cards;
          thumbnails = erase rid db.tables.thumbnails;
        };
        statements = suc (suc (suc (suc db.statements)));
      },
      simp (top, s0, s1, s2, s3) refl,
      versions_of-delete_card rid db.tables.cards,
      rw (lookup-erase rid rid db.tables.thumbnails, ==_refl rid) refl,
      versions_of-delete_card_ne rid r db.tables.cards ne,
      rw (lookup-erase rid r db.tables.thumbnails, ne) refl,
    )
