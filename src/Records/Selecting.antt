-- ===== src/Records/Selecting.antt =====
-- store/record/erecord/filter.go: the predicates of a filter select what it asks for.
use card_client.Prelude.{
  String, List, [], ◌∷◌, Bool, true, ◌&&◌, ◌||◌, Option, some, str_eq, ◌≡◌, refl, arith, ◌∙◌,
  Bool-cases, Option-cases, inl, inr,
}
use card_client.Resource.Filters.{
  Mode, all, any, TextFilter, BooleanFilter, ContentFilter, Filter, field_favorite, field_is_fork,
  field_has_book,
}
use card_client.Records.Tables.{RecordRow, Tables}
use card_client.Records.Rows.{one_of, tags_of}
use card_client.Records.Filters.{
  Predicate, contains_fold, matches_regexp, favorite_eq, is_fork_eq, book_update_time_neq_0,
  book_update_time_eq_0, source_in, sync_status_in, text_column, boolean_predicate, match_expr,
  apply_content_filter, apply_tag_filter, sort_orders, pattern_of, apply_text_predicate,
  apply_texts, apply_booleans, when_some, apply_contents, when_any, apply_filter, tag_predicate,
  unless_empty, other_predicates,
}
use card_client.Records.Selection.{
  Matching, satisfies, satisfies_all, meets_text, on_known, meets_texts, meets_boolean,
  meets_booleans, meets_contents, meets_tags, asks_tags, asks_text, one_if_any, status_in,
  some_name, every_name, accepts, is_known, texts_known, booleans_known,
}

and_true : (a : Bool) → (a && true) ≡ a
and_true a = ground arith

split : (a b : Bool) → (a && b) ≡ true → (a ≡ true) × (b ≡ true)
split a b e = (ground arith, ground arith)

module _ (how : Matching) (quote_meta : String → String) (t : Tables) (r : RecordRow) where
  abbrev holds : Predicate → Bool
  holds = satisfies how quote_meta t r

  abbrev all_hold : List Predicate → Bool
  all_hold = satisfies_all how quote_meta t r

  when_any-holds :
      {A : Type 0} (p : List A → Predicate) (q : List A → Bool) (xs : List A) (ps : List Predicate)
      → ((ys : List A) → holds (p ys) ≡ q ys)
      → all_hold (when_any quote_meta p xs ps) ≡ (one_if_any how quote_meta t r q xs && all_hold ps)
  when_any-holds p q [] ps agree = refl
  when_any-holds p q (x ∷ xs) ps agree = rw (agree (x ∷ xs)) refl

  tags-hold :
      (names : List String) (mode : Mode)
      → all_hold (when_some quote_meta (tag_predicate names mode) [])
        ≡ asks_tags how quote_meta t r names mode
  tags-hold [] mode = refl
  tags-hold (n ∷ ns) any = and_true (some_name (n ∷ ns) (tags_of r.id t))
  tags-hold (n ∷ ns) all = and_true (every_name (n ∷ ns) (tags_of r.id t))

  content-holds :
      (values fields : List String) (e : String) (ps : List Predicate)
      → all_hold (when_some quote_meta (unless_empty values fields e) ps)
        ≡ (asks_text how quote_meta t r values fields e && all_hold ps)
  content-holds [] fields e ps = refl
  content-holds (v ∷ vs) [] e ps = refl
  content-holds (v ∷ vs) (f ∷ fs) e ps = refl

  contents-hold :
      (cs : List ContentFilter) (ps : List Predicate)
      → all_hold (apply_contents quote_meta cs ps)
        ≡ (meets_contents how quote_meta t r cs && all_hold ps)
  unfolding apply_content_filter
  contents-hold [] ps = refl
  contents-hold (c ∷ cs) ps =
      content-holds c.values c.fields (match_expr c) (apply_contents quote_meta cs ps)
      ∙ rw (contents-hold cs ps) (ground arith)

  others-hold :
      (f : Filter)
      → all_hold (other_predicates quote_meta f) ≡ (
          one_if_any how quote_meta t r (one_of r.fields.source) f.sources
          && (one_if_any how quote_meta t r (status_in r.sync.sync_status) f.statuses
              && (meets_contents how quote_meta t r f.content_filters
                  && meets_tags how quote_meta t r f.tag_filter)))
  unfolding apply_tag_filter
  others-hold f =
      when_any-holds source_in (one_of r.fields.source) f.sources _ (λ ys. refl)
      ∙ rw (when_any-holds sync_status_in (status_in r.sync.sync_status) f.statuses _ (λ ys. refl))
          (rw
            (contents-hold f.content_filters
              (when_some quote_meta (apply_tag_filter f.tag_filter) []))
            (rw (tags-hold f.tag_filter.names f.tag_filter.mode) refl))

  text_predicate-holds :
      (f : TextFilter)
      → is_known (text_column f.field) ≡ true
      → (p : Predicate) × (apply_text_predicate quote_meta f ≡ some p)
        × (holds p
            ≡ on_known how quote_meta t r (meets_text how quote_meta t r f) (text_column f.field))
  unfolding apply_text_predicate
  text_predicate-holds f known = elim (Option-cases (text_column f.field)) [
    | inl e ↦ absurd (ground (arith, (rw e at known)))
    | inr (c, e) ↦
        let toggles =
          f.match_mode.case_sensitive || (f.match_mode.regex || f.match_mode.whole_word) in
        elim (Bool-cases toggles) [
          | inl on ↦ (matches_regexp c (pattern_of quote_meta f), rw (e, on) refl, rw (e, on) refl)
          | inr off ↦ (contains_fold c f.value, rw (e, off) refl, rw (e, off) refl)
        ]
  ]

  texts-hold :
      (fs : List TextFilter) (ps : List Predicate) (rest : Option (List Predicate))
      → texts_known fs ≡ true
      → rest ≡ some ps
      → (qs : List Predicate) × (apply_texts quote_meta fs rest ≡ some qs)
        × (all_hold qs ≡ (meets_texts how quote_meta t r fs && all_hold ps))
  texts-hold [] ps rest known e = (ps, e, refl)
  texts-hold (f ∷ fs) ps rest known e =
      let (here, later) = split (is_known (text_column f.field)) (texts_known fs) known in
      let (p, made, h) = text_predicate-holds f here in
      let (qs, more, hs) = texts-hold fs ps rest later e in
      (p ∷ qs, rw (made, more) refl, rw (h, hs) (ground arith))

  boolean-holds :
      (b : BooleanFilter)
      → (str_eq b.field field_favorite
          || (str_eq b.field field_is_fork || str_eq b.field field_has_book))
        ≡ true
      → (p : Predicate) × (boolean_predicate b.field b.value ≡ some p)
        × (holds p ≡ meets_boolean how quote_meta t r b)
  boolean-holds b known = elim (Bool-cases (str_eq b.field field_favorite)) [
    | inl e ↦ (favorite_eq b.value, rw e refl, rw e refl)
    | inr unlike ↦ elim (Bool-cases (str_eq b.field field_is_fork)) [
      | inl e ↦ (is_fork_eq b.value, rw (unlike, e) refl, rw (unlike, e) refl)
      | inr other ↦
          let last : str_eq b.field field_has_book ≡ true = simp (unlike, other) at known in
          elim (Bool-cases b.value) [
            | inl on ↦ (
              book_update_time_neq_0,
              rw (unlike, other, last, on) refl,
              rw (unlike, other, on) refl,
            )
            | inr off ↦ (
              book_update_time_eq_0,
              rw (unlike, other, last, off) refl,
              rw (unlike, other, off) (ground arith),
            )
          ]
    ]
  ]

  booleans-hold :
      (bs : List BooleanFilter) (ps : List Predicate)
      → booleans_known bs ≡ true
      → (qs : List Predicate) × (apply_booleans quote_meta bs (some ps) ≡ some qs)
        × (all_hold qs ≡ (meets_booleans how quote_meta t r bs && all_hold ps))
  booleans-hold [] ps known = (ps, refl, refl)
  booleans-hold (b ∷ bs) ps known =
      let (here, later) =
        split
          (str_eq b.field field_favorite
            || (str_eq b.field field_is_fork || str_eq b.field field_has_book))
          (booleans_known bs) known in
      let (p, made, h) = boolean-holds b here in
      let (qs, more, hs) = booleans-hold bs ps later in
      (p ∷ qs, rw (made, more) refl, rw (h, hs) (ground arith))

  -- A filter whose text and Boolean fields have predicates becomes predicates, which a record
  -- satisfies exactly if it meets every part of the filter: a text filter on its column, as a
  -- regular expression if any toggle is on; the Boolean filters; the sources and the statuses, if
  -- any; the content filters that have values and fields; and of the tags all or at least one, as
  -- the mode says, if any.
  pub apply_filter-accepts :
      (f : Filter)
      → texts_known f.text_filter ≡ true
      → booleans_known f.boolean_filters ≡ true
      → (ps : List Predicate) × (apply_filter quote_meta f
          ≡ some (ps, sort_orders quote_meta f.sort_filters))
        × (satisfies_all how quote_meta t r ps ≡ accepts how quote_meta t r f)
  unfolding apply_filter
  apply_filter-accepts f texts booleans =
      let (qs, made, hq) =
        booleans-hold f.boolean_filters (other_predicates quote_meta f) booleans in
      let (ps, more, hp) =
        texts-hold f.text_filter qs
          (apply_booleans quote_meta f.boolean_filters (some (other_predicates quote_meta f))) texts
          made in
      (ps, rw more refl, hp ∙ rw (hq, others-hold f) refl)
