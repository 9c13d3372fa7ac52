-- ===== src/Tests/RecordRuns.antt =====
-- A record store with two records of one creator.
use card_client.Prelude.{
  ℕ, suc, String, List, [], ◌∷◌, ◌++◌, Bool, true, false, not, none, some, map, ◌≡◌, refl, arith,
  str_eq, sym,
}
use card_client.Prelude.Int.{pos, negsuc}
use card_client.Prelude.Outcome.{ok}
use card_client.Resource.Types.{Record, sync_success, sync_failed}
use card_client.Resource.Filters.{
  ContentFilter, Filter, all, any, descending, field_title, field_favorite, field_import_time,
}
use card_client.Catalog.Metadata.{Metadata, to_metadata, fetched_tag}
use card_client.Records.Tables.{
  CardFields, RecordRow, Content, Tables, has_tag, find_row, find_url, is_taken,
}
use card_client.Records.Rows.{one_of, saved_row, fts_row}
use card_client.Records.Store.{Db, save_record, find_record}
use card_client.Records.Rules.{Inv}
use card_client.Records.Sessions.{
  Use, alone, together, save, toggle, remove, cleanup, run_uses, run_uses-Inv,
}
use card_client.Records.Saved.{save_then_find_known, save_then_find_new, save_keeps_old_text}
use card_client.Records.Filters.{fts_match, match_expr, apply_content_filter, escaped_value}
use card_client.Records.Phrases.{read_string, read_string-escaped_value}
use card_client.Records.Selection.{Matching, satisfies}
use card_client.Records.Wording.{
  Phrase, phrase, one, more, Ands, Ors, Group, single, all_in, any_in, Wording,
}
use Prim.Native.String.{◌++◌ as append}

abbrev never : ℕ → Bool
never n = false

never-is : (n : ℕ) → never n ≡ false
never-is n = refl

-- The third statement is refused.
abbrev third : ℕ → Bool
third (suc (suc (suc n))) = false
third (suc (suc n)) = true
third n = false

-- For tests, the first text.
abbrev first_text : String → List String → String
first_text sep [] = ""
first_text sep (s ∷ ss) = s

abbrev before : String → String → Bool
before a b = not (str_eq a b)

abbrev pub fields : String → String → CardFields
fields url id = record {
  source = "ChubAI";
  normalized_url = url;
  direct_url = url;
  platform_id = id;
  character_id = id;
  name = "Ann";
  title = "A card";
  tagline = "";
  create_time = pos 1;
  update_time = pos 2;
  book_update_time = pos 0;
  greetings_count = 1;
  is_fork = false;
  creator_id = "ChubAI:9";
}

abbrev pub row : ℕ → String → String → RecordRow
row rid url id = record {
  id = rid;
  imported = record { import_time = pos 5; import_index = pos 0 };
  fields = fields url id;
  sync = record { sync_time = pos 5; sync_status = sync_failed };
  exported = record { export_time = negsuc 0; exported_version = negsuc 0 };
  favorite = true;
}

abbrev pub tables : Tables
tables = record {
  records = row 3 "u/3" "3" ∷ row 4 "u/4" "4" ∷ [];
  creators =
      record {
        cid = "ChubAI:9";
        nickname = "z";
        username = "z";
        platform_id = "9";
        source = "ChubAI";
      }
      ∷ [];
  tags = record { tid = "old"; name = "Old" } ∷ [];
  record_tags = (3, "old") ∷ [];
  fts = record { rid = 3; texts = "red" ∷ [] } ∷ [];
  sequence = 4;
}

abbrev db : Db
db = record { tables = tables; statements = 0 }

abbrev metadata : String → String → Metadata
metadata url id = record {
  source = "ChubAI";
  card_info = record {
    normalized_url = url;
    direct_url = url;
    platform_id = id;
    character_id = id;
    name = "Bea";
    title = "New title";
    tagline = "";
    create_time = pos 1;
    update_time = pos 7;
    is_forked = false;
    tags = record { slug = "old"; name = "Older" } ∷ record { slug = "new"; name = "New" } ∷ [];
  };
  creator_info = record { nickname = "zed"; username = "zed"; platform_id = "9" };
  book_update_time = pos 0;
  greetings_count = 2;
}

abbrev content : Content
content = record {
  description = "blue";
  personality = "";
  scenario = "";
  first_message = "";
  message_examples = "";
  creator_notes = "";
  system_prompt = "";
  post_history_instructions = "";
  alternate_greetings = [];
  depth_prompt = "";
}

tables-Inv : Inv tables
tables-Inv = record {
  apart = (((refl, refl), tt), (tt, tt));
  below = (omega arith, (omega arith, tt));
  owned = (refl, (refl, tt));
}

abbrev uses : List Use
uses =
    alone (save (metadata "u/3" "3") content (pos 9) none)
    ∷ together (toggle 3 ∷ save (metadata "u/7" "7") content (pos 9) none ∷ [])
    ∷ alone (remove (3 ∷ []))
    ∷ alone cleanup
    ∷ []

run_uses-Inv_example : Inv (run_uses third first_text uses db).tables
run_uses-Inv_example = run_uses-Inv third first_text uses db tables-Inv

save_then_find_known_example :
    (rec : Record) × (db' db'' : Db) × (save_record never first_text
        (metadata "u/3" "3")
        content
        (pos 9)
        none
        db
      ≡ (ok 3, db'))
    × (find_record never before 3 db' ≡ (ok rec, db''))
    × (rec.imported ≡ record { import_time = pos 5; import_index = pos 0 })
    × (rec.exported ≡ record { export_time = negsuc 0; exported_version = negsuc 0 })
    × (rec.aux.favorite ≡ true)
    × (rec.sync ≡ record { sync_time = pos 9; sync_status = sync_success })
    × (to_metadata rec ≡ record (metadata "u/3" "3") {
      card_info = record (metadata "u/3" "3").card_info { tags = map fetched_tag rec.info.tags };
    })
    × ((s : String) → has_tag s rec.info.tags ≡ one_of s ("old" ∷ "new" ∷ []))
unfolding find_url is_taken saved_row
save_then_find_known_example =
    save_then_find_known never never-is first_text before (metadata "u/3" "3") content (pos 9) none
      db (row 3 "u/3" "3") refl refl refl

save_then_find_new_example :
    (rec : Record) × (db' db'' : Db) × (save_record never first_text
        (metadata "u/7" "7")
        content
        (pos 9)
        (some (pos 2))
        db
      ≡ (ok 5, db'))
    × (find_record never before 5 db' ≡ (ok rec, db''))
    × (rec.imported ≡ record { import_time = pos 9; import_index = pos 2 })
    × (rec.exported ≡ record { export_time = negsuc 0; exported_version = negsuc 0 })
    × (rec.aux.favorite ≡ false)
    × (rec.sync ≡ record { sync_time = pos 9; sync_status = sync_success })
    × (to_metadata rec ≡ record (metadata "u/7" "7") {
      card_info = record (metadata "u/7" "7").card_info { tags = map fetched_tag rec.info.tags };
    })
    × ((s : String) → has_tag s rec.info.tags ≡ one_of s ("old" ∷ "new" ∷ []))
unfolding find_url is_taken saved_row
save_then_find_new_example =
    save_then_find_new never never-is first_text before (metadata "u/7" "7") content (pos 9)
      (some (pos 2)) db refl tables-Inv refl refl

abbrev starts_red : List String → Bool
starts_red [] = false
starts_red (x ∷ xs) = str_eq x "red"

abbrev red : Matching
red = record { contains = str_eq; regexp = str_eq; matches = λ e ts. starts_red ts }

abbrev on_description : ContentFilter
on_description = record {
  field_mode = any;
  fields = "description" ∷ [];
  value_mode = all;
  values = "red" ∷ [];
}

save_keeps_old_text_example :
    (db' : Db) × (r : RecordRow) × (save_record never first_text
        (metadata "u/3" "3")
        content
        (pos 9)
        none
        db
      ≡ (ok 3, db'))
    × (db'.tables.fts ≡ db.tables.fts ++ (fts_row first_text 3 content ∷ []))
    × (find_row 3 db'.tables.records ≡ some r)
    × (satisfies red (λ s. s) db'.tables r (fts_match (match_expr on_description)) ≡ true)
unfolding find_url is_taken saved_row apply_content_filter
save_keeps_old_text_example =
    save_keeps_old_text never never-is first_text before (metadata "u/3" "3") content (pos 9) none
      db red (λ s. s) (row 3 "u/3" "3") on_description (fts_match (match_expr on_description)) refl
      refl refl refl refl

read_string-escaped_value_example :
    read_string (append (escaped_value "say \"hi\"") ")") ≡ some ("say \"hi\"", ")")
read_string-escaped_value_example = read_string-escaped_value "say \"hi\"" ")" refl

abbrev pub texts : Matching
texts = record { contains = str_eq; regexp = str_eq; matches = λ e ts. true }

abbrev pub filter : Filter
filter = record {
  text_filter =
      record {
        field = field_title;
        value = "A card";
        match_mode = record { regex = false; whole_word = true; case_sensitive = false };
      }
      ∷ [];
  boolean_filters = record { field = field_favorite; value = true } ∷ [];
  sort_filters = record { field = field_import_time; direction = descending } ∷ [];
  sources = "ChubAI" ∷ [];
  statuses = sync_failed ∷ [];
  content_filters =
      record {
        field_mode = any;
        fields = "description" ∷ [];
        value_mode = all;
        values = "red" ∷ [];
      }
      ∷ [];
  tag_filter = record { names = "Old" ∷ []; mode = all };
}

-- In `texts` a pattern is matched by itself alone, and every match expression by every row.
abbrev always : String → String → List String → Bool
always field value ts = true

phrases_lem :
    (text : String) (p : List String → Bool) (ts : List String) → Phrase always text p → p ts ≡ true
phrases_lem text p ts (phrase field value literal known reads) = refl

ands_lem :
    (Atom : String → (List String → Bool) → Type 0) (text : String) (p : List String → Bool)
    (ts : List String)
    → ((u : String) (q : List String → Bool) → Atom u q → q ts ≡ true)
    → Ands Atom text p
    → p ts ≡ true
ands_lem Atom text p ts at (one u q a) = at u q a
ands_lem Atom text p ts at (more u v q q' a ch) = rw (at u q a) (ands_lem Atom v q' ts at ch)

ors_lem :
    (Atom : String → (List String → Bool) → Type 0) (text : String) (p : List String → Bool)
    (ts : List String)
    → ((u : String) (q : List String → Bool) → Atom u q → q ts ≡ true)
    → Ors Atom text p
    → p ts ≡ true
ors_lem Atom text p ts at (one u q a) = at u q a
ors_lem Atom text p ts at (more u v q q' a ch) = rw (at u q a) refl

groups_lem :
    (ts : List String) (text : String) (p : List String → Bool) → Group always text p → p ts ≡ true
groups_lem ts text p (single u q a) = phrases_lem u q ts a
groups_lem ts text p (all_in u q ch) =
    ands_lem (Phrase always) u q ts (λ x y a. phrases_lem x y ts a) ch
groups_lem ts text p (any_in u q ch) =
    ors_lem (Phrase always) u q ts (λ x y a. phrases_lem x y ts a) ch

abbrev reads : Bool → String → String → Bool
reads true p s = str_eq p s
reads false p s = str_eq (append "(?i)" p) s

abbrev folding : Matching
folding = record { contains = reads false; regexp = str_eq; matches = λ e ts. true }

abbrev wording : Wording folding (λ s. s)
wording = record {
  occurs = reads;
  occurs_as_word = λ c v s. reads c (append "\\b" (append v "\\b")) s;
  fits = reads;
  holds_phrase = always;
  contains_folds = λ v s. refl;
  regexp_fits = λ p s. refl;
  regexp_folds = λ p s. refl;
  quoted_fits = λ c v s. refl;
  quoted_word_fits = λ c v s. refl;
  matches_all = λ text p ts ch. sym (ands_lem (Group always) text p ts (groups_lem ts) ch);
  matches_any = λ text p ts ch. sym (ors_lem (Group always) text p ts (groups_lem ts) ch);
}
