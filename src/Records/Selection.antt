-- ===== src/Records/Selection.antt =====
-- store/record/erecord/filter.go: which records a filter selects.
use card_client.Prelude.{
  String, List, [], ◌∷◌, Bool, true, false, not, ◌&&◌, ◌||◌, Option, none, some, if◌then◌else◌,
  ◌==◌, str_eq,
}
use card_client.Prelude.Int.{pos, eqb_ℤ}
use card_client.Resource.Types.{
  SyncStatus, sync_failed, sync_success, sync_unchanged, sync_missing, sync_unset, Tag, Creator,
}
use card_client.Resource.Filters.{
  Mode, all, any, TextFilter, BooleanFilter, ContentFilter, TagFilter, Filter, field_favorite,
  field_is_fork, field_has_book,
}
use card_client.Records.Tables.{RecordRow, FtsRow, Tables}
use card_client.Records.Rows.{one_of, tags_of, find_creator}
use card_client.Records.Filters.{
  TextColumn, title_column, name_column, nickname_column, Predicate, contains_fold, matches_regexp,
  favorite_eq, is_fork_eq, book_update_time_neq_0, book_update_time_eq_0, source_in, sync_status_in,
  fts_match, has_tag_in, has_tags, text_column, match_expr, pattern_of,
}

-- How SQLite compares texts: `ContainsFold`, `REGEXP` and `MATCH`.
pub record Matching : Type 0 where
  pub contains : String → String → Bool
  pub regexp : String → String → Bool
  pub matches : String → List String → Bool

abbrev pub same_status : SyncStatus → SyncStatus → Bool
same_status sync_failed sync_failed = true
same_status sync_success sync_success = true
same_status sync_unchanged sync_unchanged = true
same_status sync_missing sync_missing = true
same_status sync_unset sync_unset = true
same_status _ _ = false

abbrev pub status_in : SyncStatus → List SyncStatus → Bool
status_in s [] = false
status_in s (x ∷ xs) = same_status x s || status_in s xs

abbrev pub has_name : String → List Tag → Bool
has_name n [] = false
has_name n (t ∷ ts) = str_eq t.name n || has_name n ts

abbrev pub some_name : List String → List Tag → Bool
some_name [] ts = false
some_name (n ∷ ns) ts = has_name n ts || some_name ns ts

abbrev pub every_name : List String → List Tag → Bool
every_name [] ts = true
every_name (n ∷ ns) ts = has_name n ts && every_name ns ts

module _ (how : Matching) (quote_meta : String → String) (t : Tables) (r : RecordRow) where
  abbrev pub on_nickname : (String → Bool) → Option Creator → Bool
  on_nickname p none = false
  on_nickname p (some c) = p c.nickname

  abbrev pub on_text : (String → Bool) → TextColumn → Bool
  on_text p title_column = p r.fields.title
  on_text p name_column = p r.fields.name
  on_text p nickname_column = on_nickname p (find_creator r.fields.creator_id t.creators)

  abbrev pub text_matches : String → List FtsRow → Bool
  text_matches e [] = false
  text_matches e (f ∷ fs) = ((f.rid == r.id) && how.matches e f.texts) || text_matches e fs

  abbrev pub same_bool : Bool → Bool → Bool
  same_bool true b = b
  same_bool false b = not b

  -- What a predicate selects.
  abbrev pub satisfies : Predicate → Bool
  satisfies (contains_fold c v) = on_text (how.contains v) c
  satisfies (matches_regexp c p) = on_text (how.regexp p) c
  satisfies (favorite_eq b) = same_bool b r.favorite
  satisfies (is_fork_eq b) = same_bool b r.fields.is_fork
  satisfies book_update_time_neq_0 = not (eqb_ℤ r.fields.book_update_time (pos 0))
  satisfies book_update_time_eq_0 = eqb_ℤ r.fields.book_update_time (pos 0)
  satisfies (source_in ss) = one_of r.fields.source ss
  satisfies (sync_status_in ss) = status_in r.sync.sync_status ss
  satisfies (fts_match e) = text_matches e t.fts
  satisfies (has_tag_in ns) = some_name ns (tags_of r.id t)
  satisfies (has_tags ns) = every_name ns (tags_of r.id t)

  abbrev pub satisfies_all : List Predicate → Bool
  satisfies_all [] = true
  satisfies_all (p ∷ ps) = satisfies p && satisfies_all ps

  -- What a filter asks of a record, part by part; a part that is empty asks nothing.
  abbrev pub meets_text : TextFilter → TextColumn → Bool
  meets_text tf c =
      if tf.match_mode.case_sensitive || (tf.match_mode.regex || tf.match_mode.whole_word)
      then on_text (how.regexp (pattern_of quote_meta tf)) c
      else on_text (how.contains tf.value) c

  abbrev pub on_known : {A : Type 0} → (A → Bool) → Option A → Bool
  on_known p none = false
  on_known p (some a) = p a

  abbrev pub meets_texts : List TextFilter → Bool
  meets_texts [] = true
  meets_texts (f ∷ fs) = on_known (meets_text f) (text_column f.field) && meets_texts fs

  abbrev pub meets_boolean : BooleanFilter → Bool
  meets_boolean b =
      if str_eq b.field field_favorite
      then same_bool b.value r.favorite
      else if str_eq b.field field_is_fork
      then same_bool b.value r.fields.is_fork
      else same_bool b.value (not (eqb_ℤ r.fields.book_update_time (pos 0)))

  abbrev pub meets_booleans : List BooleanFilter → Bool
  meets_booleans [] = true
  meets_booleans (b ∷ bs) = meets_boolean b && meets_booleans bs

  abbrev pub asks_text : List String → List String → String → Bool
  asks_text [] fields e = true
  asks_text (v ∷ vs) [] e = true
  asks_text (v ∷ vs) (f ∷ fs) e = text_matches e t.fts

  abbrev pub meets_content : ContentFilter → Bool
  meets_content cf = asks_text cf.values cf.fields (match_expr cf)

  abbrev pub meets_contents : List ContentFilter → Bool
  meets_contents [] = true
  meets_contents (c ∷ cs) = meets_content c && meets_contents cs

  abbrev pub asks_tags : List String → Mode → Bool
  asks_tags [] mode = true
  asks_tags (n ∷ ns) any = some_name (n ∷ ns) (tags_of r.id t)
  asks_tags (n ∷ ns) all = every_name (n ∷ ns) (tags_of r.id t)

  abbrev pub meets_tags : TagFilter → Bool
  meets_tags tf = asks_tags tf.names tf.mode

  abbrev pub one_if_any : {A : Type 0} → (List A → Bool) → List A → Bool
  one_if_any p [] = true
  one_if_any p (x ∷ xs) = p (x ∷ xs)

  abbrev pub accepts : Filter → Bool
  accepts f =
      meets_texts f.text_filter
      && (meets_booleans f.boolean_filters
          && (one_if_any (one_of r.fields.source) f.sources
              && (one_if_any (status_in r.sync.sync_status) f.statuses
                  && (meets_contents f.content_filters && meets_tags f.tag_filter))))

-- The fields for which the builder has predicates.
abbrev pub is_known : Option TextColumn → Bool
is_known none = false
is_known (some c) = true

abbrev pub texts_known : List TextFilter → Bool
texts_known [] = true
texts_known (f ∷ fs) = is_known (text_column f.field) && texts_known fs

abbrev pub booleans_known : List BooleanFilter → Bool
booleans_known [] = true
booleans_known (b ∷ bs) =
    (str_eq b.field field_favorite
      || (str_eq b.field field_is_fork || str_eq b.field field_has_book))
    && booleans_known bs
