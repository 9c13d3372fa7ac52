-- ===== src/Facade/Controls.antt =====
-- facade/query.go, `GetFilterControls`, against store/record/erecord/filter.go: what is offered to the
-- user is what the builder of filters knows.
use card_client.Prelude.{
  String, List, [], ◌∷◌, Bool, true, false, ◌||◌, All, if◌then◌else◌, str_eq, eq_iff, ◌≡◌, refl,
  subst, Bool-cases, inl, inr,
}
use card_client.Resource.Filters.{FieldControl, field_favorite, field_is_fork, field_has_book}
use card_client.Records.Filters.{is_sortable}
use card_client.Records.Tables.{Tables}
use card_client.Facade.Queries.{get_filter_controls}

abbrev pub offers : String → List FieldControl → Bool
offers f [] = false
offers f (c ∷ cs) = if str_eq c.field f then true else offers f cs

-- What holds of every field that is offered holds of the field.
offered :
    (p : String → Bool) (f : String) (cs : List FieldControl)
    → All (λ c. p c.field ≡ true) cs
    → offers f cs ≡ true
    → p f ≡ true
offered p f [] a h = absurd (unsure h)
  where
    unsure : false ≡ true → ⊥
    unsure e = cc
offered p f (c ∷ cs) a h = elim (Bool-cases (str_eq c.field f)) [
  | inl same ↦ subst (λ x. p x ≡ true) ((eq_iff c.field f).0 same) a.0
  | inr differs ↦ offered p f cs a.1 (rw differs at h)
]

abbrev is_boolean : String → Bool
is_boolean f = str_eq f field_favorite || (str_eq f field_is_fork || str_eq f field_has_book)

module _ (sources : List String) where
  -- Every field that is offered for sorting is sorted by.
  pub offered_is_sortable :
      (f : String)
      → offers f (get_filter_controls sources).sortable_fields ≡ true
      → is_sortable f ≡ true
  unfolding get_filter_controls
  offered_is_sortable f h =
      offered is_sortable f (get_filter_controls sources).sortable_fields
        (refl, (refl, (refl, (refl, tt)))) h
