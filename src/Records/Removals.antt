-- ===== src/Records/Removals.antt =====
-- store/record/erecord/store.go: what `Delete` and `CleanupCreators` leave.
use card_client.Prelude.{
  ℕ, suc, ◌+◌, String, List, [], ◌∷◌, Bool, true, false, not, none, if◌then◌else◌, ◌==◌, str_eq,
  eq_iff, keep_if, length, contains, ◌≡◌, refl, arith, ap, Bool-cases, inl, inr, ◌∙◌, sym,
}
use card_client.Prelude.Outcome.{ok}
use card_client.Resource.Types.{Creator}
use card_client.Records.Tables.{RecordRow, find_row, has_records, delete_records, delete_creators}
use card_client.Records.Rows.{find_creator}
use card_client.Records.Store.{Db, delete, cleanup_creators}

find_row-delete :
    (rid : ℕ) (rids : List ℕ) (rs : List RecordRow)
    → find_row rid (keep_if (λ r. not (contains r.id rids)) rs)
      ≡ (if contains rid rids then none else find_row rid rs)
unfolding find_row
find_row-delete rid rids [] = ground arith
find_row-delete rid rids (r ∷ rs) =
    let ih = find_row-delete rid rids rs in
    elim (Bool-cases (r.id == rid)) [
      | inl same ↦
          let ids : r.id ≡ rid = ground (arith, same) in
          let moved = ap (λ i. contains i rids) ids in
          elim (Bool-cases (contains r.id rids)) [
            | inl gone ↦
                let out : contains rid rids ≡ true = sym moved ∙ gone in
                rw (gone, out) (rw out at ih)
            | inr kept ↦
                let stays : contains rid rids ≡ false = sym moved ∙ kept in
                rw (kept, stays, same) refl
          ]
      | inr differs ↦ elim (Bool-cases (contains r.id rids)) [
        | inl gone ↦ rw (gone, differs) ih
        | inr kept ↦ rw (kept, differs) ih
      ]
    ]

length-split :
    {A : Type 0} (p : A → Bool) (xs : List A)
    → length (keep_if p xs) + length (keep_if (λ x. not (p x)) xs) ≡ length xs
length-split p [] = omega arith
length-split p (x ∷ xs) = ground (arith, length-split p xs)

find_creator-cleanup :
    (cid : String) (rs : List RecordRow) (cs : List Creator)
    → find_creator cid (keep_if (λ c. has_records c.cid rs) cs)
      ≡ (if has_records cid rs then find_creator cid cs else none)
unfolding find_creator
find_creator-cleanup cid rs [] = ground arith
find_creator-cleanup cid rs (c ∷ cs) =
    let ih = find_creator-cleanup cid rs cs in
    elim (Bool-cases (str_eq c.cid cid)) [
      | inl same ↦
          let moved = ap (λ i. has_records i rs) ((eq_iff c.cid cid).0 same) in
          elim (Bool-cases (has_records c.cid rs)) [
            | inl used ↦
                let stays : has_records cid rs ≡ true = sym moved ∙ used in
                rw (used, stays, same) refl
            | inr unused ↦
                let out : has_records cid rs ≡ false = sym moved ∙ unused in
                rw (unused, out) (rw out at ih)
          ]
      | inr differs ↦ elim (Bool-cases (has_records c.cid rs)) [
        | inl used ↦ rw (used, differs) ih
        | inr unused ↦ rw (unused, differs) ih
      ]
    ]

module _ (faults : ℕ → Bool) (sound : (n : ℕ) → faults n ≡ false) (db : Db) where
  -- `Delete`, on a database that refuses no statement, removes the records of the RIDs and no
  -- other, and answers how many there were: that many fewer are left.
  pub delete_records_lem :
      (rids : List ℕ) (rid : ℕ)
      → (n : ℕ) × (db' : Db) × (delete faults rids db ≡ (ok n, db'))
        × (find_row rid db'.tables.records
            ≡ (if contains rid rids then none else find_row rid db.tables.records))
        × (n + length db'.tables.records ≡ length db.tables.records)
  unfolding delete delete_records
  delete_records_lem rids rid = (
    (delete_records rids db.tables).0,
    record { tables = (delete_records rids db.tables).1; statements = suc db.statements },
    simp (sound db.statements) refl,
    find_row-delete rid rids db.tables.records,
    length-split (λ r. contains r.id rids) db.tables.records,
  )

  -- `CleanupCreators`, on a database that refuses no statement, removes the creators without a
  -- record and no other, and answers how many there were: that many fewer are left.
  pub cleanup_creators_lem :
      (cid : String)
      → (n : ℕ) × (db' : Db) × (cleanup_creators faults db ≡ (ok n, db'))
        × (find_creator cid db'.tables.creators ≡ (
            if has_records cid db.tables.records
            then find_creator cid db.tables.creators
            else none))
        × (n + length db'.tables.creators ≡ length db.tables.creators)
  unfolding cleanup_creators delete_creators
  cleanup_creators_lem cid = (
    (delete_creators db.tables).0,
    record { tables = (delete_creators db.tables).1; statements = suc db.statements },
    simp (sound db.statements) refl,
    find_creator-cleanup cid db.tables.records db.tables.creators,
    omega (arith, length-split (λ c. has_records c.cid db.tables.records) db.tables.creators),
  )
