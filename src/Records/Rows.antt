-- ===== src/Records/Rows.antt =====
-- store/record/erecord/store.go and transforms.go: rows from what the callers give, and back.
use card_client.Prelude.{
  ℕ, String, List, [], ◌∷◌, Bool, true, false, ◌&&◌, Option, none, some, if◌then◌else◌, ◌==◌,
  str_eq, keep_if,
}
use card_client.Prelude.Int.{ℤ, pos, negsuc}
use card_client.Resource.Types.{Record, Tag, Creator, SyncStatus, sync_success, sync_unset}
use card_client.Catalog.Metadata.{Metadata, FetchedTag}
use card_client.Records.Tables.{Content, FtsRow, RecordRow, Tables}
use Prim.Native.String.{◌++◌ as append}

abbrev pub one_of : String → List String → Bool
one_of s [] = false
one_of s (x ∷ xs) = if str_eq x s then true else one_of s xs

-- ent's `SourceValidator` and `SyncStatusValidator`.
abbrev pub valid_source : String → Bool
valid_source s = one_of s (
    "Local" ∷ "CharacterTavern" ∷ "ChubAI" ∷ "NyaiMe" ∷ "PepHop" ∷ "Pygmalion" ∷ "WyvernChat"
    ∷ "JannyAI" ∷ "AICC" ∷ [])

abbrev pub valid_status : SyncStatus → Bool
valid_status sync_unset = false
valid_status _ = true

-- `CID`
abbrev pub cid_of : String → String → String
cid_of source platform_id = append source (append ":" platform_id)

abbrev pub to_tag : FetchedTag → Tag
to_tag t = record { tid = t.slug; name = t.name }

-- transforms.go, `mapRecord`: a creator that is missing leaves the empty one.
abbrev pub no_creator : Creator
no_creator = record { cid = ""; nickname = ""; username = ""; platform_id = ""; source = "" }

abbrev pub or_no_creator : Option Creator → Creator
or_no_creator none = no_creator
or_no_creator (some c) = c

unfoldable pub map_record : RecordRow → List Tag → Option Creator → Record
map_record r tags creator = record {
  id = r.id;
  imported = r.imported;
  info = record {
    source = r.fields.source;
    normalized_url = r.fields.normalized_url;
    direct_url = r.fields.direct_url;
    platform_id = r.fields.platform_id;
    character_id = r.fields.character_id;
    name = r.fields.name;
    title = r.fields.title;
    tagline = r.fields.tagline;
    create_time = r.fields.create_time;
    update_time = r.fields.update_time;
    book_update_time = r.fields.book_update_time;
    greetings_count = r.fields.greetings_count;
    is_fork = r.fields.is_fork;
    tags = tags;
  };
  creator = or_no_creator creator;
  sync = r.sync;
  exported = r.exported;
  aux = record { favorite = r.favorite };
}

unfoldable pub find_creator : String → List Creator → Option Creator
find_creator cid [] = none
find_creator cid (c ∷ cs) = if str_eq c.cid cid then some c else find_creator cid cs

abbrev pub find_nickname : String → String → List Creator → Option Creator
find_nickname source nickname [] = none
find_nickname source nickname (c ∷ cs) =
    if str_eq c.source source && str_eq c.nickname nickname
    then some c
    else find_nickname source nickname cs

-- The tags that `record_tags` gives a record.
abbrev pub tagged : ℕ → String → List (ℕ × String) → Bool
tagged rid tid [] = false
tagged rid tid ((r, s) ∷ es) = if (r == rid) && str_eq s tid then true else tagged rid tid es

unfoldable pub tags_of : ℕ → Tables → List Tag
tags_of rid t = keep_if (λ g. tagged rid g.tid t.record_tags) t.tags

-- `before` orders tag IDs as SQLite does.
module _ (before : String → String → Bool) where
  abbrev pub insert_tag : Tag → List Tag → List Tag
  insert_tag t [] = t ∷ []
  insert_tag t (u ∷ us) = if before u.tid t.tid then u ∷ insert_tag t us else t ∷ u ∷ us

  abbrev pub by_tid : List Tag → List Tag
  by_tid [] = []
  by_tid (t ∷ ts) = insert_tag t (by_tid ts)

  unfoldable pub read_record : Tables → RecordRow → Record
  unfolding map_record
  read_record t r =
      map_record r (by_tid (tags_of r.id t)) (find_creator r.fields.creator_id t.creators)

unfoldable pub saved_row : Metadata → ℤ → ℤ → String → RecordRow
saved_row m time idx cid = record {
  id = 0;
  imported = record { import_time = time; import_index = idx };
  fields = record {
    source = m.source;
    normalized_url = m.card_info.normalized_url;
    direct_url = m.card_info.direct_url;
    platform_id = m.card_info.platform_id;
    character_id = m.card_info.character_id;
    name = m.card_info.name;
    title = m.card_info.title;
    tagline = m.card_info.tagline;
    create_time = m.card_info.create_time;
    update_time = m.card_info.update_time;
    book_update_time = m.book_update_time;
    greetings_count = m.greetings_count;
    is_fork = m.card_info.is_forked;
    creator_id = cid;
  };
  sync = record { sync_time = time; sync_status = sync_success };
  exported = record { export_time = negsuc 0; exported_version = negsuc 0 };
  favorite = false;
}

abbrev pub index_or_0 : Option ℤ → ℤ
index_or_0 none = pos 0
index_or_0 (some i) = i

abbrev pub or_success : SyncStatus → SyncStatus
or_success sync_unset = sync_success
or_success s = s

unfoldable pub restored_row : Record → String → RecordRow
restored_row r cid = record {
  id = 0;
  imported = r.imported;
  fields = record {
    source = r.info.source;
    normalized_url = r.info.normalized_url;
    direct_url = r.info.direct_url;
    platform_id = r.info.platform_id;
    character_id = r.info.character_id;
    name = r.info.name;
    title = r.info.title;
    tagline = r.info.tagline;
    create_time = r.info.create_time;
    update_time = r.info.update_time;
    book_update_time = r.info.book_update_time;
    greetings_count = r.info.greetings_count;
    is_fork = r.info.is_fork;
    creator_id = cid;
  };
  sync = record { sync_time = r.sync.sync_time; sync_status = or_success r.sync.sync_status };
  exported = r.exported;
  favorite = r.aux.favorite;
}

-- The values that `upsertFTS` inserts.
abbrev pub fts_row : (String → List String → String) → ℕ → Content → FtsRow
fts_row join_non_blank rid c = record {
  rid = rid;
  texts =
      c.description
      ∷ c.personality
      ∷ c.scenario
      ∷ c.first_message
      ∷ c.message_examples
      ∷ c.creator_notes
      ∷ c.system_prompt
      ∷ c.post_history_instructions
      ∷ join_non_blank "\n" c.alternate_greetings
      ∷ c.depth_prompt
      ∷ [];
}
