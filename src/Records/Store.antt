-- ===== src/Records/Store.antt =====
-- store/record/erecord/store.go: the methods. `faults` says which statements the
-- database refuses, counted from the opening of the store. Each method runs as one step, as its lock
-- has it.
use card_client.Prelude.{
  ℕ, suc, String, List, [], ◌∷◌, Bool, not, ◌&&◌, Option, none, some, if◌then◌else◌, keep_if, map,
  contains,
}
use card_client.Prelude.Int.{ℤ}
use card_client.Prelude.Outcome.{Result, ok, err, Exec, pure, fail, ◌>>=◌, ◌>>◌}
use card_client.Resource.Types.{Box, Record, Tag, Creator, SyncData, ExportData}
use card_client.Catalog.Metadata.{Metadata, CreatorInfo}
use card_client.Records.Tables.{
  RecordError, not_found, sql_failed, validation_failed, RecordRow, Content, Tables, insert_tags,
  upsert_creator_row, find_row, upsert_record, merge_saved, merge_restored, insert_fts, set_tags,
  update_one, set_favorites, delete_records, delete_creators,
}
use card_client.Records.Rows.{
  one_of, valid_source, valid_status, cid_of, to_tag, find_creator, find_nickname, read_record,
  saved_row, index_or_0, restored_row, fts_row,
}

pub record Db : Type 0 where
  pub tables : Tables
  pub statements : ℕ

abbrev pub Action : Type 0 → Type 0
Action A = Exec Db RecordError A

abbrev pub validated : {A : Type 0} → Bool → Action A → Action A
validated valid m = if valid then m else fail validation_failed

abbrev pub some_row : {A : Type 0} → Option A → Action A
some_row none = fail not_found
some_row (some a) = pure a

module _ (faults : ℕ → Bool) where
  -- One statement, or one transaction of ent's, which the database runs or refuses.
  abbrev pub statement : {A : Type 0} → (Tables → Result RecordError A × Tables) → Action A
  statement f db =
      if faults db.statements
      then (err sql_failed, record db { statements = suc db.statements })
      else (let (r, t) = f db.tables in (r, record { tables = t; statements = suc db.statements }))

  abbrev pub query : {A : Type 0} → (Tables → A) → Action A
  query f = statement λ t. (ok (f t), t)

  -- The end of `WithTx`: a commit that is refused, like an error before it, rolls back.
  abbrev pub finish : {A : Type 0} → Tables → Result RecordError A × Db → Result RecordError A × Db
  finish before (err e, db) = (err e, record db { tables = before })
  finish before (ok a, db) =
      if faults db.statements
      then (err sql_failed, record { tables = before; statements = suc db.statements })
      else (ok a, record db { statements = suc db.statements })

  unfoldable pub with_tx : {A : Type 0} → Bool → Action A → Action A
  with_tx is_transaction op db =
      if is_transaction
      then op db
      else if faults db.statements
      then (err sql_failed, record db { statements = suc db.statements })
      else finish db.tables (op (record db { statements = suc db.statements }))

  -- No tags, no statement.
  unfoldable pub upsert_tags : List Tag → Action (Unit {0})
  upsert_tags [] = pure tt
  upsert_tags (t ∷ ts) = statement λ u. (ok tt, record u { tags = insert_tags (t ∷ ts) u.tags })

  unfoldable pub upsert_creator : String → CreatorInfo → Action String
  upsert_creator source info =
      let cid = cid_of source info.platform_id in
      let row : Creator = record {
        cid = cid;
        nickname = info.nickname;
        username = info.username;
        platform_id = info.platform_id;
        source = source;
      } in
      validated (valid_source source)
        (statement λ t. (ok cid, record t { creators = upsert_creator_row row t.creators }))

  -- What the two ways of storing a record share, after the row is made.
  module _ (join_non_blank : String → List String → String) where
    unfoldable pub upsert_fts : ℕ → Content → Action (Unit {0})
    upsert_fts rid c =
        statement λ t. (ok tt, record t { fts = insert_fts (fts_row join_non_blank rid c) t.fts })

    abbrev pub store_row :
        (RecordRow → RecordRow → RecordRow) → RecordRow → List String → Content → Action ℕ
    store_row merge row tids content = do
      rid ←
          validated (valid_source row.fields.source && valid_status row.sync.sync_status)
            (statement (upsert_record merge row))
      upsert_fts rid content
      statement (set_tags rid tids)
      pure rid

    unfoldable pub save_record : Metadata → Content → ℤ → Option ℤ → Action ℕ
    unfolding saved_row
    save_record m content time index = do
      upsert_tags (map to_tag m.card_info.tags)
      cid ← upsert_creator m.source m.creator_info
      store_row merge_saved (saved_row m time (index_or_0 index) cid)
          (map (λ t. t.slug) m.card_info.tags) content

    unfoldable pub restore_record : Record → Content → Action ℕ
    unfolding restored_row
    restore_record r content = do
      upsert_tags r.info.tags
      cid ← upsert_creator r.creator.source (record {
        nickname = r.creator.nickname;
        username = r.creator.username;
        platform_id = r.creator.platform_id;
      })
      store_row merge_restored (restored_row r cid) (map (λ t. t.tid) r.info.tags) content

  abbrev pub read_found : (String → String → Bool) → Tables → Option RecordRow → Option Record
  read_found before t none = none
  read_found before t (some r) = some (read_record before t r)

  unfoldable pub find_record : (String → String → Bool) → ℕ → Action Record
  find_record before rid = do
    row ← query (λ t. read_found before t (find_row rid t.records))
    some_row row

  -- The box stands beside the error, and has the time at least.
  abbrev pub boxed :
      ℤ → Result RecordError (List Record) × Db → (Box Record × Option RecordError) × Db
  boxed now (ok rs, db) = ((record { items = rs; timestamp = now }, none), db)
  boxed now (err e, db) = ((record { items = []; timestamp = now }, some e), db)

  unfoldable pub find_records :
      (String → String → Bool) → ℤ → List ℕ → Db → (Box Record × Option RecordError) × Db
  unfolding read_record
  find_records before now rids db =
      boxed now
        (query (λ t. map (read_record before t) (keep_if (λ r. contains r.id rids) t.records)) db)

  unfoldable pub find_creator_by_cid : String → Action Creator
  unfolding find_creator
  find_creator_by_cid cid = do c ← query (λ t. find_creator cid t.creators); some_row c

  unfoldable pub find_creator_by_nickname : String → String → Action Creator
  find_creator_by_nickname source nickname = do
    c ← query (λ t. find_nickname source nickname t.creators)
    some_row c

  unfoldable pub find_urls : List String → Action (List String)
  find_urls urls = query λ t.
      map (λ r. r.fields.normalized_url)
        (keep_if (λ r. one_of r.fields.normalized_url urls) t.records)

  unfoldable pub find_tag_names : List String → Action (List String)
  find_tag_names tids = query λ t. map (λ g. g.name) (keep_if (λ g. one_of g.tid tids) t.tags)

  unfoldable pub all_tag_names : Action (List String)
  all_tag_names = query λ t. map (λ g. g.name) t.tags

  unfoldable pub update_sync_data : ℕ → SyncData → Action (Unit {0})
  update_sync_data rid d =
      validated (valid_status d.sync_status) (statement (update_one rid λ r. record r { sync = d }))

  unfoldable pub update_export_data : ℕ → ExportData → Action (Unit {0})
  update_export_data rid d = statement (update_one rid λ r. record r { exported = d })

  unfoldable pub update_favorite_data : Bool → List ℕ → Action (Unit {0})
  update_favorite_data favorite rids =
      statement λ t. (ok tt, record t { records = set_favorites favorite rids t.records })

  unfoldable pub toggle_favorite : ℕ → Action (Unit {0})
  toggle_favorite rid = statement (update_one rid λ r. record r { favorite = not r.favorite })

  unfoldable pub delete : List ℕ → Action ℕ
  delete rids = statement λ t. let (n, u) = delete_records rids t in (ok n, u)

  unfoldable pub cleanup_creators : Action ℕ
  cleanup_creators = statement λ t. let (n, u) = delete_creators t in (ok n, u)
