-- ===== src/Records/Saved.antt =====
-- store/record/erecord/store.go: a card that was saved reads back.
use card_client.Prelude.{
  ℕ, suc, ◌≤◌, String, List, [], ◌∷◌, ◌++◌, Bool, true, false, not, ◌&&◌, ◌||◌, Option, none, some,
  ◌==◌, str_eq, eq_iff, map, All, ◌≡◌, refl, arith, Bool-cases, inl, inr, sym, subst, ap,
  some-injective,
}
use card_client.Prelude.Int.{ℤ, negsuc}
use card_client.Prelude.Outcome.{ok}
use card_client.Resource.Types.{Record, Creator, sync_success}
use card_client.Catalog.Metadata.{to_metadata, fetched_tag, Metadata}
use card_client.Records.Tables.{
  RecordRow, FtsRow, Content, Tables, has_creator, has_tag, insert_tags, upsert_creator_row,
  find_row, find_url, is_taken, replace_row, upsert_record, merge_saved, insert_fts,
}
use card_client.Records.Rows.{
  valid_source, to_tag, one_of, find_creator, map_record, read_record, by_tid, tags_of, saved_row,
  index_or_0, cid_of, fts_row,
}
use card_client.Records.Rules.{Inv}
use card_client.Resource.Filters.{ContentFilter}
use card_client.Records.Filters.{
  Predicate, fts_match, match_expr, unless_empty, apply_content_filter,
}
use card_client.Records.Selection.{Matching, satisfies, text_matches}
use card_client.Records.Kept.{merged, inserted}
use card_client.Records.Store.{Db, upsert_creator, save_record, find_record}
use card_client.Records.Linked.{has_tag-linked}
use card_client.Records.Saves.{
  has_creator-new, find-replace, find-append, all_tags_exist-insert, upsert_tags_sound, stored_db,
  store_row_sound,
}

find_creator-new :
    (c : Creator) (cs : List Creator) → find_creator c.cid (upsert_creator_row c cs) ≡ some c
unfolding find_creator upsert_creator_row
find_creator-new c [] = let here = (eq_iff c.cid c.cid).1 refl in rw here refl
find_creator-new c (d ∷ ds) = elim (Bool-cases (str_eq d.cid c.cid)) [
  | inl same ↦ let here = (eq_iff c.cid c.cid).1 refl in rw same (rw here refl)
  | inr differs ↦ rw differs (rw differs (find_creator-new c ds))
]

find_row-of_url :
    (url : String) (rs : List RecordRow) (old : RecordRow)
    → find_url url rs ≡ some old
    → (r : RecordRow) × (find_row old.id rs ≡ some r)
unfolding find_url find_row
find_row-of_url url [] old e = absurd (ground arith)
find_row-of_url url (r ∷ rs) old e = elim (Bool-cases (r.id == old.id)) [
  | inl same ↦ (r, rw same refl)
  | inr differs ↦ elim (Bool-cases (str_eq r.fields.normalized_url url)) [
    | inl here ↦ absurd (apart (some-injective (rw here at e)) differs)
    | inr other ↦
        let (q, found) = find_row-of_url url rs old (rw other at e) in (q, rw differs found)
  ]
]
  where
    apart : {r old : RecordRow} → r ≡ old → (r.id == old.id) ≡ false → ⊥
    apart {r = r} {old = old} same differs =
        let ids : r.id ≡ old.id = ap (λ x. x.id) same in ground arith

no_row_beyond : (n : ℕ) (rs : List RecordRow) → All (λ r. r.id ≤ n) rs → find_row (suc n) rs ≡ none
unfolding find_row
no_row_beyond n [] a = refl
no_row_beyond n (r ∷ rs) a =
    let differs : (r.id == suc n) ≡ false = ground (arith, a.0) in
    rw differs (no_row_beyond n rs a.1)

content_predicate :
    (cf : ContentFilter) (p : Predicate)
    → apply_content_filter cf ≡ some p
    → p ≡ fts_match (match_expr cf)
unfolding apply_content_filter
content_predicate cf p asks = only cf.values cf.fields asks
  where
    only :
        (vs fs : List String)
        → unless_empty vs fs (match_expr cf) ≡ some p
        → p ≡ fts_match (match_expr cf)
    only [] fs h = cc
    only (v ∷ vs) [] h = cc
    only (v ∷ vs) (f ∷ fs) h = cc

text_matches-append :
    (how : Matching) (quote_meta : String → String) (t : Tables) (r : RecordRow) (t' : Tables)
    (r' : RecordRow)
    → r'.id ≡ r.id
    → (e : String) (new : FtsRow) (rows : List FtsRow)
    → text_matches how quote_meta t r e rows ≡ true
    → text_matches how quote_meta t' r' e (rows ++ (new ∷ [])) ≡ true
text_matches-append how quote_meta t r t' r' same e new [] h = absurd (ground arith)
text_matches-append how quote_meta t r t' r' same e new (f ∷ fs) h =
    elim (Bool-cases ((f.rid == r.id) && how.matches e f.texts)) [
      | inl here ↦ rw same (rw here refl)
      | inr other ↦
          let later = text_matches-append how quote_meta t r t' r' same e new fs (rw other at h) in
          rw later (ground arith)
    ]

-- The tags that were fetched, by their slugs.
abbrev pub slugs_of : Metadata → List String
slugs_of m = map (λ g. g.slug) m.card_info.tags

module _ (faults : ℕ → Bool) (sound : (n : ℕ) → faults n ≡ false)
    (join_non_blank : String → List String → String) (before : String → String → Bool)
    (m : Metadata) (c : Content) (time : ℤ) (index : Option ℤ) (db : Db) where
  cid : String
  cid = cid_of m.source m.creator_info.platform_id

  owner : Creator
  owner = record {
    cid = cid;
    nickname = m.creator_info.nickname;
    username = m.creator_info.username;
    platform_id = m.creator_info.platform_id;
    source = m.source;
  }

  -- The tables when the row is stored.
  ready : Tables
  ready = record db.tables {
    tags = insert_tags (map to_tag m.card_info.tags) db.tables.tags;
    creators = upsert_creator_row owner db.tables.creators;
  }

  new : RecordRow
  new = saved_row m time (index_or_0 index) cid

  upsert_creator_sound :
      (u : Tables) (n : ℕ)
      → valid_source m.source ≡ true
      → upsert_creator faults m.source m.creator_info (record { tables = u; statements = n }) ≡ (
        ok cid,
        record {
          tables = record u { creators = upsert_creator_row owner u.creators };
          statements = suc n;
        },
      )
  unfolding upsert_creator owner cid
  upsert_creator_sound u n source = simp (source, sound n) refl

  save_record-row :
      (t : Tables) (rid : ℕ) (r : RecordRow)
      → valid_source m.source ≡ true
      → upsert_record merge_saved new ready ≡ (ok rid, t)
      → t.tags ≡ ready.tags
      → find_row rid t.records ≡ some r
      → (n : ℕ) × (save_record faults join_non_blank m c time index db ≡ (
        ok rid,
        stored_db faults sound join_non_blank rid (map (λ g. g.slug) m.card_info.tags) c t n,
      ))
  unfolding save_record new ready saved_row
  save_record-row t rid r source made tags found =
      let (n, h) = upsert_tags_sound faults sound join_non_blank (map to_tag m.card_info.tags) db in
      let there = rw (sym tags) at (all_tags_exist-insert m.card_info.tags db.tables.tags) in
      let slugs = map (λ g. g.slug) m.card_info.tags in
      let rest =
        store_row_sound faults sound join_non_blank merge_saved new slugs c
          (record { tables = ready; statements = suc n }) t rid r source refl made found there in
      let owned =
        upsert_creator_sound
          (record db.tables { tags = insert_tags (map to_tag m.card_info.tags) db.tables.tags }) n
          source in
      (suc n, simp (h, owned) rest)

  -- Reading the row back.
  module _ (t : Tables) (rid n : ℕ) (r : RecordRow) (found : find_row rid t.records ≡ some r)
      (fields : r.fields ≡ new.fields) (creators : t.creators ≡ ready.creators)
      (tags : t.tags ≡ ready.tags) (same_id : r.id ≡ rid) where
    abbrev after : Db
    after = stored_db faults sound join_non_blank rid (map (λ g. g.slug) m.card_info.tags) c t n

    reads :
        (rec : Record) × (db' : Db) × (find_record faults before rid after ≡ (ok rec, db'))
        × (rec.id ≡ r.id)
        × (rec.imported ≡ r.imported)
        × (rec.exported ≡ r.exported)
        × (rec.aux.favorite ≡ r.favorite)
        × (rec.sync ≡ r.sync)
        × (to_metadata rec
            ≡ record m { card_info = record m.card_info { tags = map fetched_tag rec.info.tags } })
        × ((s : String) → has_tag s rec.info.tags ≡ one_of s (slugs_of m))
    unfolding find_record to_metadata new saved_row cid owner ready read_record map_record
    reads =
        let own = find_creator-new owner db.tables.creators in
        let rec = map_record r (by_tid before (tags_of r.id after.tables)) (some owner) in
        (
          rec,
          record after { statements = suc after.statements },
          simp (sound after.statements, found, read_record, fields, creators, own) refl,
          refl,
          refl,
          refl,
          refl,
          refl,
          subst
              (λ f.
                to_metadata (
                  map_record (record r { fields = f }) (by_tid before (tags_of r.id after.tables))
                    (some owner))
                ≡ record m {
                  card_info = record m.card_info {
                    tags = map fetched_tag (by_tid before (tags_of r.id after.tables));
                  };
                })
              (sym fields) refl,
          λ s.
              subst
                (λ id. has_tag s (by_tid before (tags_of id after.tables)) ≡ one_of s (slugs_of m))
                (sym same_id)
                (has_tag-linked s before rid (slugs_of m) after.tables t.record_tags refl
                  (rw (sym tags) at (all_tags_exist-insert m.card_info.tags db.tables.tags))),
        )

  owner_free :
      (rid : ℕ)
      → is_taken rid new.fields db.tables.records ≡ false
      → (is_taken rid new.fields ready.records
          || not (has_creator new.fields.creator_id ready.creators))
        ≡ false
  unfolding new ready saved_row owner
  owner_free rid free = let own = has_creator-new owner db.tables.creators in rw (free, own) refl

  -- A card that is saved under a URL that a record has, on a database that refuses no statement, from
  -- a known source, and whose IDs at the source no other record has, takes the place of the record:
  -- read back, it has the metadata that was saved, with the tags of the slugs that were saved and no
  -- others, whose names may be older, a successful synchronization now, and the record's import,
  -- export and favourite as they were.
  pub save_then_find_known :
      (old : RecordRow)
      → valid_source m.source ≡ true
      → find_url m.card_info.normalized_url db.tables.records ≡ some old
      → is_taken old.id
          (saved_row m time (index_or_0 index) (cid_of m.source m.creator_info.platform_id)).fields
          db.tables.records
        ≡ false
      → (rec : Record) × (db' db'' : Db) × (save_record faults join_non_blank m c time index db
          ≡ (ok old.id, db'))
        × (find_record faults before old.id db' ≡ (ok rec, db''))
        × (rec.imported ≡ old.imported)
        × (rec.exported ≡ old.exported)
        × (rec.aux.favorite ≡ old.favorite)
        × (rec.sync ≡ record { sync_time = time; sync_status = sync_success })
        × (to_metadata rec
            ≡ record m { card_info = record m.card_info { tags = map fetched_tag rec.info.tags } })
        × ((s : String) → has_tag s rec.info.tags ≡ one_of s (slugs_of m))
  unfolding new ready saved_row cid
  save_then_find_known old source known free =
      let row : RecordRow = record (merge_saved old new) { id = old.id } in
      let t : Tables = record ready { records = replace_row row db.tables.records } in
      let made = merged merge_saved new ready old known (owner_free old.id free) in
      let (r, there) = find_row-of_url m.card_info.normalized_url db.tables.records old known in
      let found = find-replace row db.tables.records r there in
      let (n, h) = save_record-row t old.id row source made refl found in
      let (rec, db'', back, id, imported, exported, favorite, sync, same, linked) =
        reads t old.id n row found refl refl refl refl in
      (rec, _, db'', h, back, imported, exported, favorite, sync, same, linked)

  -- A card that is saved under a new URL, on a database that refuses no statement and keeps the rules
  -- of the schema, from a known source, and whose IDs at the source no record has, is stored under
  -- the next ID: read back, it has the metadata that was saved, with the tags of the slugs that
  -- were saved and no others, whose names may be older, the time and index of this import, a successful synchronization now, and no export or favourite.
  pub save_then_find_new :
      valid_source m.source ≡ true
      → Inv db.tables
      → find_url m.card_info.normalized_url db.tables.records ≡ none
      → is_taken
          (suc db.tables.sequence)
          (saved_row m time (index_or_0 index) (cid_of m.source m.creator_info.platform_id)).fields
          db.tables.records
        ≡ false
      → (rec : Record) × (db' db'' : Db) × (save_record faults join_non_blank m c time index db
          ≡ (ok (suc db.tables.sequence), db'))
        × (find_record faults before (suc db.tables.sequence) db' ≡ (ok rec, db''))
        × (rec.imported ≡ record { import_time = time; import_index = index_or_0 index })
        × (rec.exported ≡ record { export_time = negsuc 0; exported_version = negsuc 0 })
        × (rec.aux.favorite ≡ false)
        × (rec.sync ≡ record { sync_time = time; sync_status = sync_success })
        × (to_metadata rec
            ≡ record m { card_info = record m.card_info { tags = map fetched_tag rec.info.tags } })
        × ((s : String) → has_tag s rec.info.tags ≡ one_of s (slugs_of m))
  unfolding new ready saved_row cid
  save_then_find_new source inv unknown free =
      let rid = suc db.tables.sequence in
      let row : RecordRow = record new { id = rid } in
      let t : Tables = record ready { records = db.tables.records ++ (row ∷ []); sequence = rid } in
      let made = inserted merge_saved new ready unknown (owner_free rid free) in
      let found =
        find-append row db.tables.records
          (no_row_beyond db.tables.sequence db.tables.records inv.below) in
      let (n, h) = save_record-row t rid row source made refl found in
      let (rec, db'', back, id, imported, exported, favorite, sync, same, linked) =
        reads t rid n row found refl refl refl refl in
      (rec, _, db'', h, back, imported, exported, favorite, sync, same, linked)

  -- A card that is saved under a URL that a record has, on a database that refuses no statement, from
  -- a known source, and whose IDs at the source no other record has, is indexed for full-text search
  -- beside what was indexed for the record before, which stays: every content filter that selected
  -- the record by its old text selects the record that has taken its place, whatever the new text.
  pub save_keeps_old_text :
      (how : Matching) (quote_meta : String → String) (old : RecordRow) (cf : ContentFilter)
      (p : Predicate)
      → valid_source m.source ≡ true
      → find_url m.card_info.normalized_url db.tables.records ≡ some old
      → is_taken old.id
          (saved_row m time (index_or_0 index) (cid_of m.source m.creator_info.platform_id)).fields
          db.tables.records
        ≡ false
      → apply_content_filter cf ≡ some p
      → satisfies how quote_meta db.tables old p ≡ true
      → (db' : Db) × (row : RecordRow) × (save_record faults join_non_blank m c time index db
          ≡ (ok old.id, db'))
        × (db'.tables.fts ≡ db.tables.fts ++ (fts_row join_non_blank old.id c ∷ []))
        × (find_row old.id db'.tables.records ≡ some row)
        × (satisfies how quote_meta db'.tables row p ≡ true)
  unfolding new ready saved_row cid insert_fts
  save_keeps_old_text how quote_meta old cf p source known free asks selected =
      let row : RecordRow = record (merge_saved old new) { id = old.id } in
      let t : Tables = record ready { records = replace_row row db.tables.records } in
      let made = merged merge_saved new ready old known (owner_free old.id free) in
      let (r, there) = find_row-of_url m.card_info.normalized_url db.tables.records old known in
      let found = find-replace row db.tables.records r there in
      let (n, h) = save_record-row t old.id row source made refl found in
      let after =
        stored_db faults sound join_non_blank old.id (map (λ g. g.slug) m.card_info.tags) c t n in
      let by_text = content_predicate cf p asks in
      (
        after,
        row,
        h,
        refl,
        found,
        subst (λ q. satisfies how quote_meta after.tables row q ≡ true) (sym by_text)
            (text_matches-append how quote_meta db.tables old after.tables row refl (match_expr cf)
              (fts_row join_non_blank old.id c) db.tables.fts
              (subst (λ q. satisfies how quote_meta db.tables old q ≡ true) by_text selected)),
      )
