-- ===== src/Resource/Types.antt =====
-- store/resource/types.go and resource.go: the data. An embedded struct is a field of its own;
-- times are Go's int64 nanoseconds, as integers.
use card_client.Prelude.{ℕ, String, List, Bool, map}
use card_client.Prelude.Int.{ℤ, max_ℤ}

-- `sync_unset` is the empty string, which a record holds until a status is given.
pub data SyncStatus : Type 0 where
  sync_failed sync_success sync_unchanged sync_missing sync_unset : SyncStatus

pub data ImportStatus : Type 0 where
  import_failed import_success import_duplicate : ImportStatus

pub data RecordIntegrity : Type 0 where
  intact fixed broken : RecordIntegrity

-- A slice of items with the time at which they were read.
pub record Box (A : Type 0) : Type 0 where
  pub items : List A
  pub timestamp : ℤ

pub record Tag : Type 0 where
  pub tid : String
  pub name : String

pub record ImportData : Type 0 where
  pub import_time : ℤ
  pub import_index : ℤ

pub record InfoData : Type 0 where
  pub source : String
  pub normalized_url : String
  pub direct_url : String
  pub platform_id : String
  pub character_id : String
  pub name : String
  pub title : String
  pub tagline : String
  pub create_time : ℤ
  pub update_time : ℤ
  pub book_update_time : ℤ
  pub greetings_count : ℕ
  pub is_fork : Bool
  pub tags : List Tag

pub record Creator : Type 0 where
  pub cid : String
  pub nickname : String
  pub username : String
  pub platform_id : String
  pub source : String

pub record SyncData : Type 0 where
  pub sync_time : ℤ
  pub sync_status : SyncStatus

pub record ExportData : Type 0 where
  pub export_time : ℤ
  pub exported_version : ℤ

pub record AuxData : Type 0 where
  pub favorite : Bool

pub record Record : Type 0 where
  pub id : ℕ
  pub imported : ImportData
  pub info : InfoData
  pub creator : Creator
  pub sync : SyncData
  pub exported : ExportData
  pub aux : AuxData

unfoldable pub latest_update_time : InfoData → ℤ
latest_update_time d = max_ℤ d.update_time d.book_update_time

unfoldable pub tag_names : List Tag → List String
tag_names = map λ t. t.name

unfoldable pub tag_ids : List Tag → List String
tag_ids = map λ t. t.tid

-- The fields of card-parser's `character.Sheet` that this program reads or writes. The content of
-- the book and all other fields are `rest`.
pub record Sheet (Rest : Type 0) : Type 0 where
  pub source_id : String
  pub character_id : String
  pub platform_id : String
  pub direct_link : String
  pub title : String
  pub name : String
  pub creator : String
  pub creation_date : ℤ
  pub modification_date : ℤ
  pub tags : List String
  pub alternate_greetings : List String
  pub has_book : Bool
  pub creator_notes : String
  pub rest : Rest

-- What the integrity code takes from other packages: `stringsx.IsNotBlank`, `strings.ToLower`,
-- `character.AnonymousCreator`, `timestamp.ConvertToSeconds` and `Sheet.Integrity`.
pub record Toolkit (Rest : Type 0) : Type 0 where
  pub is_not_blank : String → Bool
  pub to_lower : String → String
  pub anonymous_creator : String
  pub to_seconds : ℤ → ℤ
  pub sheet_integrity : Sheet Rest → Bool
