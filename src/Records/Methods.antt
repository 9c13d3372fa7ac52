-- ===== src/Records/Methods.antt =====
-- store/record/erecord/store.go: whatever is called and refused, the tables keep what the schema
-- promises.
use card_client.Prelude.{
  ℕ, String, List, [], ◌∷◌, Bool, true, false, ◌&&◌, Option, map, Bool-cases, inl, inr,
}
use card_client.Prelude.Int.{ℤ}
use card_client.Prelude.Outcome.{Result, ok, err, ◌>>=◌, ◌>>◌, continue, pure}
use card_client.Resource.Types.{Record, Tag}
use card_client.Catalog.Metadata.{Metadata, CreatorInfo}
use card_client.Records.Tables.{RecordError, RecordRow, Content, Tables, upsert_record, set_tags}
use card_client.Records.Rules.{Inv}
use card_client.Records.Kept.{upsert_record-Inv}
use card_client.Records.Store.{
  Db, Action, validated, statement, upsert_tags, upsert_creator, upsert_fts, store_row, save_record,
  restore_record,
}
use card_client.Records.Tables.{insert_tags, merge_saved, merge_restored}
use card_client.Records.Rows.{
  valid_source, valid_status, to_tag, saved_row, restored_row, index_or_0,
}
use card_client.Records.Columns.{creators-Inv, set_tags-Inv}

module _ (faults : ℕ → Bool) (join_non_blank : String → List String → String) where
  -- Whatever the statements answer, the tables keep what the schema promises.
  abbrev pub Keeps : {A : Type 0} → Action A → Type 0
  Keeps m = (db : Db) → Inv db.tables → Inv (m db).1.tables

  pub Keeps-pure : {A : Type 0} (a : A) → Keeps (pure {S = Db} {E = RecordError} a)
  Keeps-pure a db inv = inv

  pub Keeps-bind :
      {A B : Type 0} (m : Action A) (k : A → Action B)
      → Keeps m
      → ((a : A) → Keeps (k a))
      → Keeps (m >>= k)
  Keeps-bind {A = A} {B = B} m k first next db inv = go (m db).0 (m db).1 (first db inv)
    where
      go : (r : Result RecordError A) (db' : Db) → Inv db'.tables → Inv (continue r k db').1.tables
      go (ok a) db' i = next a db' i
      go (err e) db' i = i

  pub Keeps-statement :
      {A : Type 0} (f : Tables → Result RecordError A × Tables)
      → ((t : Tables) → Inv t → Inv (f t).1)
      → Keeps (statement faults f)
  Keeps-statement f keeps db inv = elim (Bool-cases (faults db.statements)) [
    | inl refused ↦ rw refused inv
    | inr runs ↦ rw runs (keeps db.tables inv)
  ]

  pub Keeps-validated :
      {A : Type 0} (valid : Bool) (m : Action A) → Keeps m → Keeps (validated valid m)
  Keeps-validated true m keeps db inv = keeps db inv
  Keeps-validated false m keeps db inv = inv

  upsert_tags-Keeps : (ts : List Tag) → Keeps (upsert_tags faults ts)
  unfolding upsert_tags
  upsert_tags-Keeps [] db inv = inv
  upsert_tags-Keeps (t ∷ ts) db inv =
      Keeps-statement (λ u. (ok tt, record u { tags = insert_tags (t ∷ ts) u.tags }))
        (λ u inv. record { apart = inv.apart; below = inv.below; owned = inv.owned }) db inv

  upsert_creator-Keeps :
      (source : String) (i : CreatorInfo) → Keeps (upsert_creator faults source i)
  unfolding upsert_creator
  upsert_creator-Keeps source i =
      Keeps-validated _ _ (Keeps-statement _ λ t inv. creators-Inv _ t inv)

  upsert_fts-Keeps : (rid : ℕ) (c : Content) → Keeps (upsert_fts faults join_non_blank rid c)
  unfolding upsert_fts
  upsert_fts-Keeps rid c =
      Keeps-statement _ λ t inv. record { apart = inv.apart; below = inv.below; owned = inv.owned }

  store_row-Keeps :
      (merge : RecordRow → RecordRow → RecordRow) (row : RecordRow) (tids : List String)
      (c : Content)
      → Keeps (store_row faults join_non_blank merge row tids c)
  store_row-Keeps merge row tids c =
      let valid = valid_source row.fields.source && valid_status row.sync.sync_status in
      let insert : Action ℕ = validated valid (statement faults (upsert_record merge row)) in
      let index : ℕ → Action (Unit {0}) = λ rid. upsert_fts faults join_non_blank rid c in
      let tag : ℕ → Action (Unit {0}) = λ rid. statement faults (set_tags rid tids) in
      Keeps-bind insert (λ rid. index rid >> (tag rid >> pure rid))
        (Keeps-validated valid (statement faults (upsert_record merge row))
          (Keeps-statement (upsert_record merge row) (upsert_record-Inv merge row)))
        λ rid.
          Keeps-bind (index rid) (λ u. tag rid >> pure rid) (upsert_fts-Keeps rid c)
            λ u.
              Keeps-bind (tag rid) (λ w. pure rid)
                (Keeps-statement (set_tags rid tids) (set_tags-Inv rid tids)) λ w. Keeps-pure rid

  pub save_record-Keeps :
      (m : Metadata) (c : Content) (time : ℤ) (index : Option ℤ)
      → Keeps (save_record faults join_non_blank m c time index)
  unfolding save_record
  save_record-Keeps m c time index =
      let tags = map to_tag m.card_info.tags in
      let stored : String → Action ℕ = λ cid.
        store_row faults join_non_blank merge_saved (saved_row m time (index_or_0 index) cid)
          (map (λ t. t.slug) m.card_info.tags) c in
      Keeps-bind (upsert_tags faults tags)
        (λ u. upsert_creator faults m.source m.creator_info >>= stored) (upsert_tags-Keeps tags)
        λ u.
          Keeps-bind (upsert_creator faults m.source m.creator_info) stored
            (upsert_creator-Keeps m.source m.creator_info)
            λ cid.
              store_row-Keeps merge_saved (saved_row m time (index_or_0 index) cid)
                (map (λ t. t.slug) m.card_info.tags) c

  pub restore_record-Keeps :
      (r : Record) (c : Content) → Keeps (restore_record faults join_non_blank r c)
  unfolding restore_record
  restore_record-Keeps r c =
      let info : CreatorInfo = record {
        nickname = r.creator.nickname;
        username = r.creator.username;
        platform_id = r.creator.platform_id;
      } in
      let stored : String → Action ℕ = λ cid.
        store_row faults join_non_blank merge_restored (restored_row r cid)
          (map (λ t. t.tid) r.info.tags) c in
      Keeps-bind (upsert_tags faults r.info.tags)
        (λ u. upsert_creator faults r.creator.source info >>= stored)
        (upsert_tags-Keeps r.info.tags)
        λ u.
          Keeps-bind (upsert_creator faults r.creator.source info) stored
            (upsert_creator-Keeps r.creator.source info)
            λ cid.
              store_row-Keeps merge_restored (restored_row r cid) (map (λ t. t.tid) r.info.tags) c
