-- ===== src/Records/Filters.antt =====
-- store/record/erecord/filter.go: the predicates and the order that a filter becomes. A predicate of
-- ent is a constructor with what the builder gives it.
use card_client.Prelude.{
  String, List, [], ◌∷◌, ◌++◌, Bool, not, ◌||◌, Option, none, some, if◌then◌else◌, ◌==◌, str_eq,
  map,
}
use card_client.Resource.Types.{SyncStatus}
use card_client.Resource.Filters.{
  Mode, all, any, SortOrder, TextFilter, BooleanFilter, SortFilter, ContentFilter, TagFilter,
  Filter, field_title, field_name, field_nickname, field_favorite, field_is_fork, field_has_book,
  field_import_time, field_import_index, field_update_time, field_create_time, field_sync_time,
}
use Prim.Native.Char.{code}
use Prim.Native.String.{◌++◌ as append}

-- The columns that a text filter may name; the last is the creator's.
pub data TextColumn : Type 0 where
  title_column name_column nickname_column : TextColumn

pub data Predicate : Type 0 where
  contains_fold matches_regexp : TextColumn → String → Predicate
  favorite_eq is_fork_eq : Bool → Predicate
  book_update_time_neq_0 book_update_time_eq_0 : Predicate
  source_in : List String → Predicate
  sync_status_in : List SyncStatus → Predicate
  fts_match : String → Predicate
  has_tag_in has_tags : List String → Predicate

pub record OrderOption : Type 0 where
  pub column : String
  pub direction : SortOrder

-- The maps of `newFilterBuilder`.
abbrev pub text_column : String → Option TextColumn
text_column f =
    if str_eq f field_title
    then some title_column
    else if str_eq f field_name
    then some name_column
    else if str_eq f field_nickname
    then some nickname_column
    else none

abbrev pub boolean_predicate : String → Bool → Option Predicate
boolean_predicate f v =
    if str_eq f field_favorite
    then some (favorite_eq v)
    else if str_eq f field_is_fork
    then some (is_fork_eq v)
    else if str_eq f field_has_book
    then some (if v then book_update_time_neq_0 else book_update_time_eq_0)
    else none

abbrev pub is_sortable : String → Bool
is_sortable f =
    str_eq f field_import_time
    || (str_eq f field_update_time || (str_eq f field_create_time || str_eq f field_sync_time))

abbrev pub on_column : (TextColumn → Predicate) → Option TextColumn → Option Predicate
on_column p none = none
on_column p (some c) = some (p c)

-- `strings.Join`
unfoldable pub join : String → List String → String
join sep [] = ""
join sep (s ∷ ss) = joined s ss
  where
    joined : String → List String → String
    joined s [] = s
    joined s (u ∷ us) = append s (append sep (joined u us))

-- A quote stands twice: `strings.ReplaceAll(value, `"`, `""`)`.
unfoldable pub double_quotes : String → String
double_quotes String.[] = String.[]
double_quotes (String.◌∷◌ c s) =
    let rest = double_quotes s in
    if code c == 34 then String.◌∷◌ c (String.◌∷◌ c rest) else String.◌∷◌ c rest

unfoldable pub escaped_value : String → String
unfolding double_quotes
escaped_value v = append "\"" (append (double_quotes v) "\"")

abbrev pub value_operator : Mode → String
value_operator all = " AND "
value_operator any = " OR "

abbrev pub value_queries : String → List String → List String
value_queries field values = map (λ v. append field (append ": " (escaped_value v))) values

abbrev pub in_parentheses : List String → String → String
in_parentheses (a ∷ (b ∷ qs)) q = append "(" (append q ")")
in_parentheses (a ∷ []) q = q
in_parentheses [] q = q

abbrev pub field_query : Mode → List String → String → String
field_query mode values field =
    let qs = value_queries field values in in_parentheses qs (join (value_operator mode) qs)

unfoldable pub match_expr : ContentFilter → String
unfolding join escaped_value
match_expr cf =
    join (value_operator cf.field_mode) (map (field_query cf.value_mode cf.values) cf.fields)

-- No values or no fields, no predicate.
abbrev pub unless_empty : List String → List String → String → Option Predicate
unless_empty [] fields e = none
unless_empty (v ∷ vs) [] e = none
unless_empty (v ∷ vs) (f ∷ fs) e = some (fts_match e)

unfoldable pub apply_content_filter : ContentFilter → Option Predicate
apply_content_filter cf = unless_empty cf.values cf.fields (match_expr cf)

-- `recordentity.And` of one predicate for each name is `has_tags`.
abbrev pub tag_predicate : List String → Mode → Option Predicate
tag_predicate [] mode = none
tag_predicate (n ∷ ns) any = some (has_tag_in (n ∷ ns))
tag_predicate (n ∷ ns) all = some (has_tags (n ∷ ns))

unfoldable pub apply_tag_filter : TagFilter → Option Predicate
apply_tag_filter tf = tag_predicate tf.names tf.mode

abbrev pub ordered : SortFilter → String → OrderOption
ordered sf column = record { column = column; direction = sf.direction }

unfoldable pub build_sort_order : SortFilter → List OrderOption
build_sort_order sf =
    if not (is_sortable sf.field)
    then []
    else if str_eq sf.field field_import_time
    then ordered sf sf.field ∷ ordered sf field_import_index ∷ []
    else ordered sf sf.field ∷ []

-- `regexp.QuoteMeta` is an argument.
module _ (quote_meta : String → String) where
  unfoldable pub pattern_of : TextFilter → String
  pattern_of tf =
      let literal = if tf.match_mode.regex then tf.value else quote_meta tf.value in
      let word =
        if tf.match_mode.whole_word then append "\\b" (append literal "\\b") else literal in
      if tf.match_mode.case_sensitive then word else append "(?i)" word

  -- A field without a predicate is a nil function, which panics: `none`.
  unfoldable pub apply_text_predicate : TextFilter → Option Predicate
  apply_text_predicate tf =
      if tf.match_mode.case_sensitive || (tf.match_mode.regex || tf.match_mode.whole_word)
      then on_column (λ c. matches_regexp c (pattern_of tf)) (text_column tf.field)
      else on_column (λ c. contains_fold c tf.value) (text_column tf.field)

  abbrev pub and_then : Option Predicate → Option (List Predicate) → Option (List Predicate)
  and_then none rest = none
  and_then (some p) none = none
  and_then (some p) (some ps) = some (p ∷ ps)

  abbrev pub apply_texts : List TextFilter → Option (List Predicate) → Option (List Predicate)
  apply_texts [] rest = rest
  apply_texts (t ∷ ts) rest = and_then (apply_text_predicate t) (apply_texts ts rest)

  abbrev pub apply_booleans : List BooleanFilter → Option (List Predicate) → Option (List Predicate)
  apply_booleans [] rest = rest
  apply_booleans (b ∷ bs) rest =
      and_then (boolean_predicate b.field b.value) (apply_booleans bs rest)

  abbrev pub when_some : Option Predicate → List Predicate → List Predicate
  when_some none ps = ps
  when_some (some p) ps = p ∷ ps

  abbrev pub apply_contents : List ContentFilter → List Predicate → List Predicate
  apply_contents [] ps = ps
  apply_contents (c ∷ cs) ps = when_some (apply_content_filter c) (apply_contents cs ps)

  abbrev pub when_any :
      {A : Type 0} → (List A → Predicate) → List A → List Predicate → List Predicate
  when_any p [] ps = ps
  when_any p (x ∷ xs) ps = p (x ∷ xs) ∷ ps

  abbrev pub sort_orders : List SortFilter → List OrderOption
  sort_orders [] = []
  sort_orders (s ∷ ss) = build_sort_order s ++ sort_orders ss

  -- The predicates that no field is looked up for.
  abbrev pub other_predicates : Filter → List Predicate
  other_predicates f = when_any source_in f.sources (
      when_any sync_status_in f.statuses
        (apply_contents f.content_filters (when_some (apply_tag_filter f.tag_filter) [])))

  abbrev pub with_orders :
      List SortFilter → Option (List Predicate) → Option (List Predicate × List OrderOption)
  with_orders ss none = none
  with_orders ss (some ps) = some (ps, sort_orders ss)

  -- The predicates in the order in which they are appended; no predicates, no `Where`.
  unfoldable pub apply_filter : Filter → Option (List Predicate × List OrderOption)
  unfolding build_sort_order
  apply_filter f =
      with_orders f.sort_filters
        (apply_texts f.text_filter (apply_booleans f.boolean_filters (some (other_predicates f))))
