-- ===== src/Records/Wording.antt =====
-- store/record/erecord/filter.go: what the texts that the builder writes mean to SQLite, as its and
-- Go's documentation has it, and what a filter asks of a record, said without the builder.
use card_client.Prelude.{
  String, List, [], ◌∷◌, Bool, true, false, ◌&&◌, ◌||◌, some, if◌then◌else◌, ◌==◌, str_eq, ◌≡◌,
}
use card_client.Resource.Filters.{
  Mode, all, any, TextFilter, ContentFilter, Filter, content_fields, field_title, field_name,
  field_nickname,
}
use card_client.Records.Tables.{RecordRow, FtsRow, Tables}
use card_client.Records.Rows.{one_of, find_creator}
use card_client.Records.Phrases.{NoQuote, read_string}
use card_client.Records.Selection.{
  Matching, on_nickname, meets_booleans, one_if_any, status_in, meets_tags,
}
use Prim.Native.String.{◌++◌ as append}

-- FTS5's query syntax, as far as it is used, over the columns of `New`, each text with what it asks of a row's texts: a phrase
-- in a column; phrases that stand between brackets; and chains of these with one operator.
pub data Phrase (holds : String → String → List String → Bool)
    : String → (List String → Bool) → Type 0 where
  phrase :
      (field value literal : String)
      → one_of field content_fields ≡ true
      → ((rest : String) → NoQuote rest → read_string (append literal rest) ≡ some (value, rest))
      → Phrase holds (append field (append ": " literal)) (holds field value)

pub data Chain (op : String) (combine : Bool → Bool → Bool)
    (Atom : String → (List String → Bool) → Type 0) : String → (List String → Bool) → Type 0 where
  one : (text : String) (p : List String → Bool) → Atom text p → Chain op combine Atom text p
  more :
      (text rest : String) (p q : List String → Bool)
      → Atom text p
      → Chain op combine Atom rest q
      → Chain op combine Atom (append text (append op rest)) (λ ts. combine (p ts) (q ts))

abbrev pub Ands : (String → (List String → Bool) → Type 0) → String → (List String → Bool) → Type 0
Ands Atom = Chain " AND " (λ a b. a && b) Atom

abbrev pub Ors : (String → (List String → Bool) → Type 0) → String → (List String → Bool) → Type 0
Ors Atom = Chain " OR " (λ a b. a || b) Atom

pub data Group (holds : String → String → List String → Bool)
    : String → (List String → Bool) → Type 0 where
  single : (text : String) (p : List String → Bool) → Phrase holds text p → Group holds text p
  all_in :
      (text : String) (p : List String → Bool)
      → Ands (Phrase holds) text p
      → Group holds (append "(" (append text ")")) p
  any_in :
      (text : String) (p : List String → Bool)
      → Ors (Phrase holds) text p
      → Group holds (append "(" (append text ")")) p

-- What a text is searched for: `occurs` as it stands, `occurs_as_word` between word boundaries, and
-- `fits` for a regular expression; the Boolean says whether case counts. `ContainsFold` disregards
-- it, `(?i)` turns it off, `\b` is a word boundary, and `QuoteMeta` makes a text match itself.
pub record Wording (how : Matching) (quote_meta : String → String) : Type 0 where
  pub occurs : Bool → String → String → Bool
  pub occurs_as_word : Bool → String → String → Bool
  pub fits : Bool → String → String → Bool
  pub holds_phrase : String → String → List String → Bool
  pub contains_folds : (v s : String) → how.contains v s ≡ occurs false v s
  pub regexp_fits : (p s : String) → how.regexp p s ≡ fits true p s
  pub regexp_folds : (p s : String) → how.regexp (append "(?i)" p) s ≡ fits false p s
  pub quoted_fits : (c : Bool) (v s : String) → fits c (quote_meta v) s ≡ occurs c v s
  pub quoted_word_fits :
      (c : Bool) (v s : String)
      → fits c (append "\\b" (append (quote_meta v) "\\b")) s ≡ occurs_as_word c v s
  pub matches_all :
      (text : String) (p : List String → Bool) (ts : List String)
      → Ands (Group holds_phrase) text p
      → how.matches text ts ≡ p ts
  pub matches_any :
      (text : String) (p : List String → Bool) (ts : List String)
      → Ors (Group holds_phrase) text p
      → how.matches text ts ≡ p ts

abbrev pub holds_for : {A : Type 0} → Mode → (A → Bool) → List A → Bool
holds_for all p [] = true
holds_for all p (x ∷ xs) = p x && holds_for all p xs
holds_for any p [] = false
holds_for any p (x ∷ xs) = p x || holds_for any p xs

module _ {how : Matching} {quote_meta : String → String} (w : Wording how quote_meta) where
  -- By whether the value is a regular expression, a whole word, and of this case.
  abbrev pub asked : Bool → Bool → Bool → String → String → Bool
  asked true true c v s = w.fits c (append "\\b" (append v "\\b")) s
  asked true false c v s = w.fits c v s
  asked false true c v s = w.occurs_as_word c v s
  asked false false c v s = w.occurs c v s

module _ {how : Matching} {quote_meta : String → String} (w : Wording how quote_meta) (t : Tables)
    (r : RecordRow) where
  -- The title, the name, or the nickname of the creator.
  abbrev pub on_field : (String → Bool) → String → Bool
  on_field p f =
      if str_eq f field_title
      then p r.fields.title
      else if str_eq f field_name
      then p r.fields.name
      else on_nickname how quote_meta t r p (find_creator r.fields.creator_id t.creators)

  abbrev pub asks_field : TextFilter → Bool
  asks_field f =
      on_field
        (asked w f.match_mode.regex f.match_mode.whole_word f.match_mode.case_sensitive f.value)
        f.field

  abbrev pub asks_fields : List TextFilter → Bool
  asks_fields [] = true
  asks_fields (f ∷ fs) = asks_field f && asks_fields fs

  -- One of the record's rows in the index.
  abbrev pub some_row : (List String → Bool) → List FtsRow → Bool
  some_row p [] = false
  some_row p (f ∷ fs) = ((f.rid == r.id) && p f.texts) || some_row p fs

  -- All or one of the columns hold all or one of the values.
  abbrev pub wanted : ContentFilter → List String → Bool
  wanted cf ts =
      holds_for cf.field_mode
        (λ field. holds_for cf.value_mode (λ value. w.holds_phrase field value ts) cf.values)
        cf.fields

  abbrev pub when_given : List String → List String → Bool → Bool
  when_given [] fields b = true
  when_given (v ∷ vs) [] b = true
  when_given (v ∷ vs) (f ∷ fs) b = b

  abbrev pub asks_content : ContentFilter → Bool
  asks_content cf = when_given cf.values cf.fields (some_row (wanted cf) t.fts)

  abbrev pub asks_contents : List ContentFilter → Bool
  asks_contents [] = true
  asks_contents (c ∷ cs) = asks_content c && asks_contents cs

  abbrev pub asks : Filter → Bool
  asks f =
      asks_fields f.text_filter
      && (meets_booleans how quote_meta t r f.boolean_filters
          && (one_if_any how quote_meta t r (one_of r.fields.source) f.sources
              && (one_if_any how quote_meta t r (status_in r.sync.sync_status) f.statuses
                  && (asks_contents f.content_filters
                      && meets_tags how quote_meta t r f.tag_filter))))

-- The fields that a text filter and a content filter can have.
abbrev pub is_text_field : String → Bool
is_text_field f = str_eq f field_title || (str_eq f field_name || str_eq f field_nickname)

abbrev pub text_fields_known : List TextFilter → Bool
text_fields_known [] = true
text_fields_known (f ∷ fs) = is_text_field f.field && text_fields_known fs

abbrev pub all_columns : List String → Bool
all_columns [] = true
all_columns (f ∷ fs) = one_of f content_fields && all_columns fs

abbrev pub columns_known : List ContentFilter → Bool
columns_known [] = true
columns_known (c ∷ cs) = all_columns c.fields && columns_known cs
