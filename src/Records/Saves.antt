-- ===== src/Records/Saves.antt =====
-- store/record/erecord/store.go: what a `SaveRecord` that meets no refusal leaves.
use card_client.Prelude.{
  ℕ, suc, String, List, [], ◌∷◌, ◌++◌, Bool, true, false, not, ◌&&◌, none, some, if◌then◌else◌,
  ◌==◌, str_eq, eq_iff, keep_if, map, ◌≡◌, refl, arith, Bool-cases, inl, inr, ==_refl,
}
use card_client.Prelude.Outcome.{ok}
use card_client.Resource.Types.{Creator, Tag}
use card_client.Catalog.Metadata.{FetchedTag}
use card_client.Records.Tables.{
  RecordRow, Content, Tables, has_tag, has_creator, insert_tags, upsert_creator_row, find_row,
  replace_row, upsert_record, insert_fts, all_tags_exist, distinct_ids,
}
use card_client.Records.Rows.{valid_source, valid_status, to_tag, fts_row}
use card_client.Records.Columns.{set_tags-done}
use card_client.Records.Store.{Db, upsert_tags, upsert_fts, store_row}

has_tag-append :
    (s : String) (ts : List Tag) (t : Tag) → has_tag s ts ≡ true → has_tag s (ts ++ (t ∷ [])) ≡ true
has_tag-append s [] t h = absurd (ground arith)
has_tag-append s (u ∷ us) t h = elim (Bool-cases (str_eq u.tid s)) [
  | inl here ↦ rw here refl
  | inr other ↦ rw other (has_tag-append s us t (rw other at h))
]

has_tag-last : (ts : List Tag) (t : Tag) → has_tag t.tid (ts ++ (t ∷ [])) ≡ true
has_tag-last [] t = ground (arith, eq_iff t.tid t.tid)
has_tag-last (u ∷ us) t = elim (Bool-cases (str_eq u.tid t.tid)) [
  | inl here ↦ rw here refl
  | inr other ↦ rw other (has_tag-last us t)
]

has_tag-insert :
    (s : String) (new ts : List Tag) → has_tag s ts ≡ true → has_tag s (insert_tags new ts) ≡ true
unfolding insert_tags
has_tag-insert s [] ts h = h
has_tag-insert s (t ∷ new) ts h = elim (Bool-cases (has_tag t.tid ts)) [
  | inl there ↦ rw there (has_tag-insert s new ts h)
  | inr fresh ↦ rw fresh (has_tag-insert s new (ts ++ (t ∷ [])) (has_tag-append s ts t h))
]

abbrev with_tag : Tag → List Tag → List Tag
with_tag t ts = if has_tag t.tid ts then ts else ts ++ (t ∷ [])

has_tag-with : (t : Tag) (ts : List Tag) → has_tag t.tid (with_tag t ts) ≡ true
has_tag-with t ts = elim (Bool-cases (has_tag t.tid ts)) [
  | inl there ↦ rw there there
  | inr fresh ↦ rw fresh (has_tag-last ts t)
]

both : (a b : Bool) → a ≡ true → b ≡ true → (a && b) ≡ true
both a b h k = ground arith

-- Tags that were upserted are there.
pub all_tags_exist-insert :
    (new : List FetchedTag) (ts : List Tag)
    → all_tags_exist (map (λ t. t.slug) new) (insert_tags (map to_tag new) ts) ≡ true
unfolding insert_tags
all_tags_exist-insert [] ts = refl
all_tags_exist-insert (t ∷ new) ts =
    let more = with_tag (to_tag t) ts in
    both (has_tag t.slug (insert_tags (map to_tag new) more))
      (all_tags_exist (map (λ t. t.slug) new) (insert_tags (map to_tag new) more))
      (has_tag-insert t.slug (map to_tag new) more (has_tag-with (to_tag t) ts))
      (all_tags_exist-insert new more)

pub has_creator-new :
    (c : Creator) (cs : List Creator) → has_creator c.cid (upsert_creator_row c cs) ≡ true
unfolding upsert_creator_row
has_creator-new c [] = ground (arith, eq_iff c.cid c.cid)
has_creator-new c (d ∷ ds) = elim (Bool-cases (str_eq d.cid c.cid)) [
  | inl same ↦ rw same (ground (arith, eq_iff c.cid c.cid))
  | inr differs ↦ rw differs (rw differs (has_creator-new c ds))
]

pub find-replace :
    (new : RecordRow) (rs : List RecordRow) (old : RecordRow)
    → find_row new.id rs ≡ some old
    → find_row new.id (replace_row new rs) ≡ some new
unfolding find_row replace_row
find-replace new [] old e = absurd (ground arith)
find-replace new (r ∷ rs) old e = elim (Bool-cases (r.id == new.id)) [
  | inl same ↦ rw same (rw (==_refl new.id) refl)
  | inr differs ↦ rw differs (rw differs (find-replace new rs old (rw differs at e)))
]

pub find-append :
    (new : RecordRow) (rs : List RecordRow)
    → find_row new.id rs ≡ none
    → find_row new.id (rs ++ (new ∷ [])) ≡ some new
unfolding find_row
find-append new [] e = rw (==_refl new.id) refl
find-append new (r ∷ rs) e = elim (Bool-cases (r.id == new.id)) [
  | inl same ↦ absurd (ground (arith, (rw same at e)))
  | inr differs ↦ rw differs (find-append new rs (rw differs at e))
]

-- A database that refuses no statement.
module _ (faults : ℕ → Bool) (sound : (n : ℕ) → faults n ≡ false)
    (join_non_blank : String → List String → String) where
  pub upsert_tags_sound :
      (ts : List Tag) (db : Db)
      → (n : ℕ) × (upsert_tags faults ts db ≡ (
        ok tt,
        record {
          tables = record db.tables { tags = insert_tags ts db.tables.tags };
          statements = n;
        },
      ))
  unfolding upsert_tags insert_tags
  upsert_tags_sound [] db = (db.statements, refl)
  upsert_tags_sound (t ∷ ts) db = (suc db.statements, simp (sound db.statements) refl)

  -- What follows the row.
  abbrev pub stored_db : ℕ → List String → Content → Tables → ℕ → Db
  stored_db rid tids c t n = record {
    tables = record t {
      fts = insert_fts (fts_row join_non_blank rid c) t.fts;
      record_tags =
          keep_if (λ e. not (e.0 == rid)) t.record_tags ++ map (λ s. (rid, s)) (distinct_ids tids);
    };
    statements = suc (suc (suc n));
  }

  pub store_row_sound :
      (merge : RecordRow → RecordRow → RecordRow) (row : RecordRow) (tids : List String)
      (c : Content) (db : Db) (t : Tables) (rid : ℕ) (r : RecordRow)
      → valid_source row.fields.source ≡ true
      → valid_status row.sync.sync_status ≡ true
      → upsert_record merge row db.tables ≡ (ok rid, t)
      → find_row rid t.records ≡ some r
      → all_tags_exist tids t.tags ≡ true
      → store_row faults join_non_blank merge row tids c db
        ≡ (ok rid, stored_db rid tids c t db.statements)
  unfolding upsert_fts
  store_row_sound merge row tids c db t rid r source status made found there =
      let n = db.statements in
      let u : Tables = record t { fts = insert_fts (fts_row join_non_blank rid c) t.fts } in
      simp
        (
          source,
          status,
          sound n,
          made,
          sound (suc n),
          sound (suc (suc n)),
          set_tags-done rid tids u r found there,
        )
        refl
