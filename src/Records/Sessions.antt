-- ===== src/Records/Sessions.antt =====
-- store/record/erecord/store.go: any sequence of calls that write, in transactions or not.
use card_client.Prelude.{
  ℕ, suc, String, List, [], ◌∷◌, Bool, false, Option, refl, Bool-cases, inl, inr, not,
}
use card_client.Prelude.Int.{ℤ}
use card_client.Prelude.Outcome.{Result, ok, err, ◌>>◌, pure}
use card_client.Resource.Types.{Record, SyncData, ExportData}
use card_client.Catalog.Metadata.{Metadata}
use card_client.Records.Tables.{
  RecordError, Content, Tables, set_favorites, delete_records, delete_creators, update_one,
}
use card_client.Records.Rows.{valid_status}
use card_client.Records.Rules.{Inv}
use card_client.Records.Kept.{update_one-Inv}
use card_client.Records.Columns.{cleanup-Inv, delete-Inv, favorites-Inv}
use card_client.Records.Store.{
  Db, Action, statement, finish, with_tx, save_record, restore_record, update_sync_data,
  update_export_data, update_favorite_data, toggle_favorite, delete, cleanup_creators,
}
use card_client.Records.Methods.{
  Keeps, Keeps-bind, Keeps-statement, Keeps-validated, save_record-Keeps, restore_record-Keeps,
}

-- The methods that write.
pub data Call : Type 0 where
  save : Metadata → Content → ℤ → Option ℤ → Call
  restore : Record → Content → Call
  set_sync : ℕ → SyncData → Call
  set_export : ℕ → ExportData → Call
  set_favorite : Bool → List ℕ → Call
  toggle : ℕ → Call
  remove : List ℕ → Call
  cleanup : Call

-- A call, or calls in one transaction, up to the first that fails.
pub data Use : Type 0 where
  alone : Call → Use
  together : List Call → Use

module _ (faults : ℕ → Bool) (join_non_blank : String → List String → String) where
  abbrev pub run_call : Call → Action (Unit {0})
  run_call (save m c time index) = save_record faults join_non_blank m c time index >> pure tt
  run_call (restore r c) = restore_record faults join_non_blank r c >> pure tt
  run_call (set_sync rid d) = update_sync_data faults rid d
  run_call (set_export rid d) = update_export_data faults rid d
  run_call (set_favorite b rids) = update_favorite_data faults b rids
  run_call (toggle rid) = toggle_favorite faults rid
  run_call (remove rids) = delete faults rids >> pure tt
  run_call cleanup = cleanup_creators faults >> pure tt

  abbrev pub run_calls : List Call → Action (Unit {0})
  run_calls [] = pure tt
  run_calls (c ∷ cs) = run_call c >> run_calls cs

  abbrev pub run_use : Use → Action (Unit {0})
  run_use (alone c) = run_call c
  run_use (together cs) = with_tx faults false (run_calls cs)

  -- Errors go back to the caller, and the next use follows.
  abbrev pub run_uses : List Use → Db → Db
  run_uses [] db = db
  run_uses (u ∷ us) db = run_uses us (run_use u db).1

  run_call-Keeps : (c : Call) → Keeps faults join_non_blank (run_call c)
  unfolding update_sync_data update_export_data update_favorite_data toggle_favorite delete
      cleanup_creators
  run_call-Keeps (save m c time index) =
      Keeps-bind faults join_non_blank (save_record faults join_non_blank m c time index)
        (λ rid. pure tt) (save_record-Keeps faults join_non_blank m c time index) λ rid db inv. inv
  run_call-Keeps (restore r c) =
      Keeps-bind faults join_non_blank (restore_record faults join_non_blank r c) (λ rid. pure tt)
        (restore_record-Keeps faults join_non_blank r c) λ rid db inv. inv
  run_call-Keeps (set_sync rid d) =
      let write = update_one rid λ r. record r { sync = d } in
      Keeps-validated faults join_non_blank (valid_status d.sync_status) (statement faults write)
        (Keeps-statement faults join_non_blank write λ t. update_one-Inv rid _ t λ r. refl)
  run_call-Keeps (set_export rid d) =
      Keeps-statement faults join_non_blank (update_one rid λ r. record r { exported = d })
        λ t. update_one-Inv rid _ t λ r. refl
  run_call-Keeps (set_favorite b rids) =
      Keeps-statement faults join_non_blank
        (λ t. (ok tt, record t { records = set_favorites b rids t.records })) (favorites-Inv b rids)
  run_call-Keeps (toggle rid) =
      Keeps-statement faults join_non_blank
        (update_one rid λ r. record r { favorite = not r.favorite })
        λ t. update_one-Inv rid _ t λ r. refl
  run_call-Keeps (remove rids) =
      Keeps-bind faults join_non_blank (delete faults rids) (λ n. pure tt)
        (Keeps-statement faults join_non_blank
          (λ t. (let (n, u) = delete_records rids t in (ok n, u))) (delete-Inv rids))
        λ n db inv. inv
  run_call-Keeps cleanup =
      Keeps-bind faults join_non_blank (cleanup_creators faults) (λ n. pure tt)
        (Keeps-statement faults join_non_blank (λ t. (let (n, u) = delete_creators t in (ok n, u)))
          cleanup-Inv)
        λ n db inv. inv

  run_calls-Keeps : (cs : List Call) → Keeps faults join_non_blank (run_calls cs)
  run_calls-Keeps [] db inv = inv
  run_calls-Keeps (c ∷ cs) db inv =
      Keeps-bind faults join_non_blank (run_call c) (λ u. run_calls cs) (run_call-Keeps c)
        (λ u. run_calls-Keeps cs) db inv

  -- A transaction ends with the tables of its calls or with those it began with.
  finish-Inv :
      (before : Tables) (r : Result RecordError (Unit {0})) (db : Db)
      → Inv before
      → Inv db.tables
      → Inv (finish faults before (r, db)).1.tables
  finish-Inv before (err e) db old new = old
  finish-Inv before (ok a) db old new = elim (Bool-cases (faults db.statements)) [
    | inl refused ↦ rw refused old
    | inr runs ↦ rw runs new
  ]

  with_tx-Keeps :
      (op : Action (Unit {0}))
      → Keeps faults join_non_blank op
      → Keeps faults join_non_blank (with_tx faults false op)
  unfolding with_tx
  with_tx-Keeps op keeps db inv =
      let db' : Db = record db { statements = suc db.statements } in
      elim (Bool-cases (faults db.statements)) [
        | inl refused ↦ rw refused inv
        | inr begun ↦ rw begun (finish-Inv db.tables (op db').0 (op db').1 inv (keeps db' inv))
      ]

  run_use-Keeps : (u : Use) → Keeps faults join_non_blank (run_use u)
  run_use-Keeps (alone c) db inv = run_call-Keeps c db inv
  run_use-Keeps (together cs) db inv = with_tx-Keeps (run_calls cs) (run_calls-Keeps cs) db inv

  -- Whatever is called, alone or in transactions, and whichever statements the database refuses,
  -- tables that keep what the schema promises go on keeping it: no two records have an ID, a
  -- normalized URL, or a source with a character ID or a platform ID in common, no ID is beyond the
  -- sequence that the next ID is taken from, and every record's creator is there.
  pub run_uses-Inv : (us : List Use) (db : Db) → Inv db.tables → Inv (run_uses us db).tables
  run_uses-Inv [] db inv = inv
  run_uses-Inv (u ∷ us) db inv = run_uses-Inv us (run_use u db).1 (run_use-Keeps u db inv)
