-- ===== src/Resource/Filters.antt =====
-- store/resource/filter.go and fields.go: what a query asks for.
use card_client.Prelude.{String, List, [], ◌∷◌, Bool}
use card_client.Resource.Types.{SyncStatus}

pub data Mode : Type 0 where
  all any : Mode

pub data SortOrder : Type 0 where
  ascending descending : SortOrder

pub record TextMatchMode : Type 0 where
  pub regex : Bool
  pub whole_word : Bool
  pub case_sensitive : Bool

-- A `Field` is the name of a column.
pub record TextFilter : Type 0 where
  pub field : String
  pub value : String
  pub match_mode : TextMatchMode

pub record BooleanFilter : Type 0 where
  pub field : String
  pub value : Bool

pub record SortFilter : Type 0 where
  pub field : String
  pub direction : SortOrder

pub record ContentFilter : Type 0 where
  pub field_mode : Mode
  pub fields : List String
  pub value_mode : Mode
  pub values : List String

pub record TagFilter : Type 0 where
  pub names : List String
  pub mode : Mode

pub record Filter : Type 0 where
  pub text_filter : List TextFilter
  pub boolean_filters : List BooleanFilter
  pub sort_filters : List SortFilter
  pub sources : List String
  pub statuses : List SyncStatus
  pub content_filters : List ContentFilter
  pub tag_filter : TagFilter

abbrev pub field_import_time : String
field_import_time = "import_time"

abbrev pub field_import_index : String
field_import_index = "import_index"

abbrev pub field_name : String
field_name = "name"

abbrev pub field_title : String
field_title = "title"

abbrev pub field_create_time : String
field_create_time = "create_time"

abbrev pub field_update_time : String
field_update_time = "update_time"

abbrev pub field_has_book : String
field_has_book = "has_book"

abbrev pub field_is_fork : String
field_is_fork = "is_fork"

abbrev pub field_sync_time : String
field_sync_time = "sync_time"

abbrev pub field_favorite : String
field_favorite = "favorite"

abbrev pub field_nickname : String
field_nickname = "nickname"

-- The columns of `fts` after the record's ID.
abbrev pub content_fields : List String
content_fields =
    "description" ∷ "personality" ∷ "scenario" ∷ "first_mes" ∷ "mes_example" ∷ "creator_notes"
    ∷ "system_prompt" ∷ "post_history_instructions" ∷ "alternate_greetings" ∷ "depth_prompt" ∷ []

pub record FieldControl : Type 0 where
  pub field : String
  pub display_name : String

-- What the user interface offers.
pub record FieldControls : Type 0 where
  pub text_fields : List FieldControl
  pub sortable_fields : List FieldControl
  pub boolean_fields : List FieldControl
  pub sources : List String
  pub statuses : List SyncStatus
  pub content_fields : List FieldControl
