-- ===== src/Records/Tables.antt =====
-- store/record/erecord: the tables of schema/ and the statements that the store makes of ent's
-- builders. The unique indexes and the foreign keys are those of schema/record.go.
use card_client.Prelude.{
  ℕ, suc, String, List, [], ◌∷◌, ◌++◌, Bool, true, false, not, ◌&&◌, ◌||◌, Option, none, some,
  if◌then◌else◌, ◌==◌, str_eq, keep_if, map, length, contains,
}
use card_client.Prelude.Int.{ℤ}
use card_client.Prelude.Outcome.{Result, ok, err}
use card_client.Resource.Types.{Tag, Creator, ImportData, SyncData, ExportData}

pub data RecordError : Type 0 where
  constraint_failed not_found sql_failed validation_failed nil_predicate : RecordError

-- The fields of schema/record.go that come from the fetched card.
pub record CardFields : Type 0 where
  pub source : String
  pub normalized_url : String
  pub direct_url : String
  pub platform_id : String
  pub character_id : String
  pub name : String
  pub title : String
  pub tagline : String
  pub create_time : ℤ
  pub update_time : ℤ
  pub book_update_time : ℤ
  pub greetings_count : ℕ
  pub is_fork : Bool
  pub creator_id : String

-- `RecordEntity`
pub record RecordRow : Type 0 where
  pub id : ℕ
  pub imported : ImportData
  pub fields : CardFields
  pub sync : SyncData
  pub exported : ExportData
  pub favorite : Bool

-- What `upsertFTS` reads of a character card.
pub record Content : Type 0 where
  pub description : String
  pub personality : String
  pub scenario : String
  pub first_message : String
  pub message_examples : String
  pub creator_notes : String
  pub system_prompt : String
  pub post_history_instructions : String
  pub alternate_greetings : List String
  pub depth_prompt : String

-- A row of `fts`, one text for each of `ContentFields`.
pub record FtsRow : Type 0 where
  pub rid : ℕ
  pub texts : List String

-- `sequence` is SQLite's, the largest ID that was given out.
pub record Tables : Type 0 where
  pub records : List RecordRow
  pub creators : List Creator
  pub tags : List Tag
  pub record_tags : List (ℕ × String)
  pub fts : List FtsRow
  pub sequence : ℕ

abbrev pub has_tag : String → List Tag → Bool
has_tag tid [] = false
has_tag tid (t ∷ ts) = if str_eq t.tid tid then true else has_tag tid ts

abbrev pub has_creator : String → List Creator → Bool
has_creator cid [] = false
has_creator cid (c ∷ cs) = if str_eq c.cid cid then true else has_creator cid cs

-- `INSERT INTO tags … ON CONFLICT DO NOTHING`, row by row.
unfoldable pub insert_tags : List Tag → List Tag → List Tag
insert_tags [] ts = ts
insert_tags (t ∷ new) ts = insert_tags new (if has_tag t.tid ts then ts else ts ++ (t ∷ []))

-- `INSERT INTO creators … ON CONFLICT DO UPDATE`.
unfoldable pub upsert_creator_row : Creator → List Creator → List Creator
upsert_creator_row c [] = c ∷ []
upsert_creator_row c (d ∷ ds) = if str_eq d.cid c.cid then c ∷ ds else d ∷ upsert_creator_row c ds

unfoldable pub find_row : ℕ → List RecordRow → Option RecordRow
find_row rid [] = none
find_row rid (r ∷ rs) = if r.id == rid then some r else find_row rid rs

unfoldable pub find_url : String → List RecordRow → Option RecordRow
find_url url [] = none
find_url url (r ∷ rs) = if str_eq r.fields.normalized_url url then some r else find_url url rs

-- `idx_record_character_id`, `idx_record_platform_id` and `idx_record_normalized_url`.
abbrev pub collides : CardFields → CardFields → Bool
collides a b =
    (str_eq a.source b.source && str_eq a.character_id b.character_id)
    || ((str_eq a.source b.source && str_eq a.platform_id b.platform_id)
        || str_eq a.normalized_url b.normalized_url)

-- A row that is not the one of that ID has what an index wants unique.
unfoldable pub is_taken : ℕ → CardFields → List RecordRow → Bool
is_taken rid f [] = false
is_taken rid f (r ∷ rs) =
    let others = is_taken rid f rs in
    if r.id == rid then others else if collides r.fields f then true else others

unfoldable pub replace_row : RecordRow → List RecordRow → List RecordRow
replace_row new [] = []
replace_row new (r ∷ rs) =
    let rest = replace_row new rs in if r.id == new.id then new ∷ rest else r ∷ rest

-- `INSERT INTO records … ON CONFLICT (normalized_url) DO UPDATE … RETURNING id`. The conflict
-- target is looked at first; `merge` says which columns of the old row take the new values.
unfoldable pub upsert_record :
    (RecordRow → RecordRow → RecordRow) → RecordRow → Tables → Result RecordError ℕ × Tables
upsert_record merge new t = elim (find_url new.fields.normalized_url t.records) [
  | some old ↦
      let row = merge old new in
      if is_taken old.id row.fields t.records || not (has_creator row.fields.creator_id t.creators)
      then (err constraint_failed, t)
      else (ok old.id, record t { records = replace_row (record row { id = old.id }) t.records })
  | none ↦
      let rid = suc t.sequence in
      if is_taken rid new.fields t.records || not (has_creator new.fields.creator_id t.creators)
      then (err constraint_failed, t)
      else (
        ok rid,
        record t { records = t.records ++ (record new { id = rid } ∷ []); sequence = rid },
      )
]

-- The merge of `SaveRecord`: all but what importing, exporting and the user set.
abbrev pub merge_saved : RecordRow → RecordRow → RecordRow
merge_saved old new = record old { fields = new.fields; sync = new.sync }

-- `UpdateNewValues`: all but the immutable columns.
abbrev pub merge_restored : RecordRow → RecordRow → RecordRow
merge_restored old new = record new { id = old.id; imported = old.imported }

-- `INSERT OR REPLACE INTO fts`: a row of FTS5 is replaced by its rowid alone, which is not given.
unfoldable pub insert_fts : FtsRow → List FtsRow → List FtsRow
insert_fts row rows = rows ++ (row ∷ [])

abbrev pub distinct_ids : List String → List String
distinct_ids [] = []
distinct_ids (s ∷ ss) = s ∷ keep_if (λ x. not (str_eq s x)) (distinct_ids ss)

abbrev pub all_tags_exist : List String → List Tag → Bool
all_tags_exist [] ts = true
all_tags_exist (s ∷ ss) ts = has_tag s ts && all_tags_exist ss ts

-- `UpdateOneID(rid).ClearTags().AddTagIDs(tids...)`
unfoldable pub set_tags : ℕ → List String → Tables → Result RecordError (Unit {0}) × Tables
set_tags rid tids t = elim (find_row rid t.records) [
  | none ↦ (err not_found, t)
  | some row ↦
      if all_tags_exist tids t.tags
      then (
        ok tt,
        record t {
          record_tags =
              keep_if (λ e. not (e.0 == rid)) t.record_tags
              ++ map (λ s. (rid, s)) (distinct_ids tids);
        },
      )
      else (err constraint_failed, t)
]

-- `UpdateOneID(rid).Set….Exec`
unfoldable pub update_one :
    ℕ → (RecordRow → RecordRow) → Tables → Result RecordError (Unit {0}) × Tables
update_one rid change t = elim (find_row rid t.records) [
  | none ↦ (err not_found, t)
  | some row ↦
      (ok tt, record t { records = replace_row (record (change row) { id = rid }) t.records })
]

-- `Update().Where(IDIn(rids...)).SetFavorite(b)`
unfoldable pub set_favorites : Bool → List ℕ → List RecordRow → List RecordRow
set_favorites b rids = map λ r. if contains r.id rids then record r { favorite = b } else r

-- `DELETE FROM records`, with the cascade to `record_tags` and the trigger on `fts`.
unfoldable pub delete_records : List ℕ → Tables → ℕ × Tables
delete_records rids t = (
  length (keep_if (λ r. contains r.id rids) t.records),
  record t {
    records = keep_if (λ r. not (contains r.id rids)) t.records;
    record_tags = keep_if (λ e. not (contains e.0 rids && is_row e.0 t.records)) t.record_tags;
    fts = keep_if (λ f. not (contains f.rid rids && is_row f.rid t.records)) t.fts;
  },
)
  where
    is_row : ℕ → List RecordRow → Bool
    is_row rid [] = false
    is_row rid (r ∷ rs) = if r.id == rid then true else is_row rid rs

abbrev pub has_records : String → List RecordRow → Bool
has_records cid [] = false
has_records cid (r ∷ rs) = if str_eq r.fields.creator_id cid then true else has_records cid rs

-- `DELETE FROM creators WHERE NOT EXISTS …`
unfoldable pub delete_creators : Tables → ℕ × Tables
delete_creators t = (
  length (keep_if (λ c. not (has_records c.cid t.records)) t.creators),
  record t { creators = keep_if (λ c. has_records c.cid t.records) t.creators },
)
