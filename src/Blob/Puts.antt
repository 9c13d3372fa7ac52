-- ===== src/Blob/Puts.antt =====
-- store/blob/sqlblob/store.go: what a `Put` that succeeds leaves.
use card_client.Prelude.{
  ℕ, suc, ◌-◌, ◌<◌, ◌≤◌, List, Bool, true, false, some, ◌==◌, ◌≡◌, refl, arith, keep_if, length,
  get_elem?, All, All-get_elem?, ap, ◌∙◌, Bool-cases, Option-cases, inl, inr, ==_refl, leb,
}
use card_client.Prelude.Int.{ℤ, ltb_ℤ, eqb_ℤ_iff}
use card_client.Prelude.Assoc.{lookup, insert, lookup-insert}
use card_client.Prelude.Outcome.{ok}
use card_client.Blob.Codec.{Encodes, Codec, Bytes}
use card_client.Blob.Tables.{CardRow, insert_asc, versions_of, select_png, upsert_row}
use card_client.Blob.Sql.{
  Store, Db, get_tx_store, delete_old_versions, internal_put, put, get_raw_card_bytes,
  version_exists,
}
use card_client.Blob.Versions.{
  other_than, IsAscending, newest, select-delete_below, length-newest-le, All-insert_asc, All-keep,
}
use card_client.Blob.Prunes.{
  pruned, versions_of-pruned, versions_of-pruned_ne, versions_of-upsert, versions_of-upsert_ne,
  upsert-IsAscending, after_put, select-stale,
}

module _ (faults : ℕ → Bool) (sound : (n : ℕ) → faults n ≡ false) where
  delete_old_versions-pruned :
      (st : Store) (rid : ℕ) (db : Db)
      → (n : ℕ) × (delete_old_versions faults st rid db ≡ (
        ok tt,
        record {
          tables = record db.tables { cards = pruned st.max_versions rid db.tables.cards };
          statements = n;
        },
      ))
  unfolding delete_old_versions
  delete_old_versions-pruned st rid db =
      let cs = db.tables.cards in
      let vs = versions_of rid cs in
      let here = sound db.statements in
      elim (Bool-cases (leb (length vs) st.max_versions)) [
        | inl few ↦ (suc db.statements, simp (here, few) refl)
        | inr many ↦ elim (Option-cases (get_elem? vs (length vs - st.max_versions))) [
          | inl e ↦ (suc db.statements, simp (here, many, e) refl)
          | inr (hi, e) ↦
              (suc (suc db.statements), simp (here, many, e, sound (suc db.statements)) refl)
        ]
      ]

  module _ (c : Codec) where
    internal_put-tables :
        (st : Store) (rid : ℕ) (v : ℤ) (card : c.Card) (db : Db) {thumb png : Bytes}
        → Encodes c card st.thumbnail_size thumb png
        → (n : ℕ) × (internal_put faults c st rid v card db
            ≡ (ok tt, after_put st rid v png thumb db n))
    unfolding internal_put
    internal_put-tables st rid v card db {thumb} {png} e =
        let (n, h) = delete_old_versions-pruned st rid (record {
          tables = record {
            cards = upsert_row rid v png db.tables.cards;
            thumbnails = insert rid thumb db.tables.thumbnails;
          };
          statements = suc (suc db.statements);
        }) in
        (
          n,
          simp
              (
                e.parsed,
                e.drawn,
                e.packed,
                sound db.statements,
                e.written,
                sound (suc db.statements),
              )
              h,
        )

    put-tables :
        (st : Store) (rid : ℕ) (v : ℤ) (card : c.Card) (db : Db) {thumb png : Bytes}
        → st.is_transaction ≡ false
        → Encodes c card st.thumbnail_size thumb png
        → (n : ℕ) × (put faults c st rid v card db ≡ (ok tt, after_put st rid v png thumb db n))
    unfolding put
    put-tables st rid v card db top e =
        let (n, h) =
          internal_put-tables (get_tx_store st) rid v card
            (record db { statements = suc db.statements }) e in
        (suc n, simp (top, sound db.statements, h, sound n) refl)

    -- A `Put` outside a transaction, on a database that refuses no statement, of a card that
    -- encodes, into a store with room for a version and where the card's versions stand strictly
    -- ascending, succeeds. The card's versions are then the newest `max_versions` of the old ones and
    -- the new one, in ascending order, so at most that many, and its thumbnail is the new one.
    pub put_versions :
        (st : Store) (rid : ℕ) (v : ℤ) (card : c.Card) (db : Db) {thumb png : Bytes}
        → st.is_transaction ≡ false
        → 0 < st.max_versions
        → IsAscending (versions_of rid db.tables.cards)
        → Encodes c card st.thumbnail_size thumb png
        → (db' : Db) × (put faults c st rid v card db ≡ (ok tt, db'))
          × (versions_of rid db'.tables.cards
              ≡ newest st.max_versions
                  (insert_asc v (keep_if (other_than v) (versions_of rid db.tables.cards))))
          × (length (versions_of rid db'.tables.cards) ≤ st.max_versions)
          × (lookup rid db'.tables.thumbnails ≡ some thumb)
    put_versions st rid v card db {thumb} {png} top pos a e =
        let (n, h) = put-tables st rid v card db top e in
        let cs = db.tables.cards in
        let rows = upsert_row rid v png cs in
        let vs =
          versions_of-pruned st.max_versions rid rows pos (upsert-IsAscending rid v png cs a) in
        (
          _,
          h,
          vs ∙ ap (newest st.max_versions) (versions_of-upsert rid v png cs),
          rw vs (length-newest-le st.max_versions (versions_of rid rows)),
          rw (lookup-insert, ==_refl rid) refl,
        )

    -- A `Put` outside a transaction, on a database that refuses no statement, of a card that
    -- encodes, succeeds and changes no other card's versions or thumbnail.
    pub put_others :
        (st : Store) (rid r : ℕ) (v : ℤ) (card : c.Card) (db : Db) {thumb png : Bytes}
        → st.is_transaction ≡ false
        → Encodes c card st.thumbnail_size thumb png
        → (rid == r) ≡ false
        → (db' : Db) × (put faults c st rid v card db ≡ (ok tt, db'))
          × (versions_of r db'.tables.cards ≡ versions_of r db.tables.cards)
          × (lookup r db'.tables.thumbnails ≡ lookup r db.tables.thumbnails)
    put_others st rid r v card db {thumb} {png} top e ne =
        let (n, h) = put-tables st rid v card db top e in
        let cs = db.tables.cards in
        (
          _,
          h,
          versions_of-pruned_ne st.max_versions rid r (upsert_row rid v png cs) ne
              ∙ versions_of-upsert_ne rid v png cs r ne,
          rw (lookup-insert, ne) refl,
        )

    select-pruned :
        (max rid : ℕ) (v : ℤ) (cs : List CardRow)
        → All (λ x. ltb_ℤ v x ≡ false) (versions_of rid cs)
        → select_png rid v (pruned max rid cs) ≡ select_png rid v cs
    select-pruned max rid v cs a =
        let vs = versions_of rid cs in
        elim (Bool-cases (leb (length vs) max)) [
          | inl few ↦ simp few refl
          | inr many ↦ elim (Option-cases (get_elem? vs (length vs - max))) [
            | inl e ↦ simp (many, e) refl
            | inr (hi, e) ↦
                let low = All-get_elem? (λ x. ltb_ℤ v x ≡ false) vs (length vs - max) hi a e in
                simp (many, e) (select-delete_below rid v hi cs ∙ simp low refl)
          ]
        ]

    select-upsert :
        (rid : ℕ) (v : ℤ) (png : Bytes) (cs : List CardRow)
        → select_png rid v (upsert_row rid v png cs) ≡ some png
    unfolding select_png upsert_row
    select-upsert rid v png cs = rw (==_refl rid, (eqb_ℤ_iff v v).1 refl) refl

    -- A `Put` outside a transaction, on a database that refuses no statement, of a card that encodes
    -- and at a version that is below none of the card's, succeeds, and `GetRawCardBytes` right after
    -- it returns the bytes that were written.
    pub put_then_get :
        (st : Store) (rid : ℕ) (v : ℤ) (card : c.Card) (db : Db) {thumb png : Bytes}
        → st.is_transaction ≡ false
        → Encodes c card st.thumbnail_size thumb png
        → All (λ x. ltb_ℤ v x ≡ false) (versions_of rid db.tables.cards)
        → (db' db'' : Db) × (put faults c st rid v card db ≡ (ok tt, db'))
          × (get_raw_card_bytes faults rid v db' ≡ (ok png, db''))
    unfolding get_raw_card_bytes
    put_then_get st rid v card db {thumb} {png} top e low =
        let (n, h) = put-tables st rid v card db top e in
        let cs = db.tables.cards in
        let rows = upsert_row rid v png cs in
        let below : All (λ x. ltb_ℤ v x ≡ false) (versions_of rid rows) =
          rw (versions_of-upsert rid v png cs) (
            All-insert_asc (λ x. ltb_ℤ v x ≡ false) v _ (ground arith)
              (All-keep (λ x. ltb_ℤ v x ≡ false) (other_than v) _ low)) in
        let there : select_png rid v (pruned st.max_versions rid rows) ≡ some png =
          select-pruned st.max_versions rid v rows below ∙ select-upsert rid v png cs in
        (
          after_put st rid v png thumb db n,
          after_put st rid v png thumb db (suc n),
          h,
          simp (sound n, there) refl,
        )

    -- A `Put` outside a transaction, on a database that refuses no statement, of a card that encodes
    -- and at a version below all of a card that has `max_versions` already (at least one), reports
    -- success, and `VersionExists` right after it says false.
    pub put_stale :
        (st : Store) (rid : ℕ) (v : ℤ) (card : c.Card) (db : Db) {thumb png : Bytes}
        → st.is_transaction ≡ false
        → 0 < st.max_versions
        → Encodes c card st.thumbnail_size thumb png
        → All (λ x. ltb_ℤ v x ≡ true) (versions_of rid db.tables.cards)
        → st.max_versions ≤ length (versions_of rid db.tables.cards)
        → (db' db'' : Db) × (put faults c st rid v card db ≡ (ok tt, db'))
          × (version_exists faults rid v db' ≡ (ok false, db''))
    unfolding version_exists
    put_stale st rid v card db {thumb} {png} top pos e above full =
        let (n, h) = put-tables st rid v card db top e in
        let cs = db.tables.cards in
        let gone = select-stale st.max_versions rid v png cs pos above full in
        (
          after_put st rid v png thumb db n,
          after_put st rid v png thumb db (suc n),
          h,
          simp (sound n, gone) refl,
        )
