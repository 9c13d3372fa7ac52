-- ===== src/Resource/Repair.antt =====
-- store/resource/resource.go: what the two synchronisations compute, field by field.
use card_client.Prelude.{
  String, List, [], ◌∷◌, Bool, true, false, not, ◌&&◌, ◌||◌, ◌==◌, str_eq, eq_iff, if◌then◌else◌,
  length, ◌≡◌, refl, ◌↔◌, arith, ap,
}
use card_client.Prelude.Int.{ℤ, pos, eqb_ℤ, eqb_ℤ_iff}
use card_client.Resource.Types.{Record, Sheet, Toolkit, latest_update_time, tag_names}
use card_client.Resource.Integrity.{
  slices_equal, sync_source, sync_character, sync_platform, sync_link, sync_title, sync_name,
  sync_creator, sync_creation, sync_modification, sync_tags, sync_sheet_fields, sync_greetings,
  sync_no_book, sync_book, sync_record_fields,
}

pub slices_equal_iff : (xs ys : List String) → (slices_equal xs ys ≡ true) ↔ (xs ≡ ys)
unfolding slices_equal
slices_equal_iff [] [] = ground arith
slices_equal_iff [] (y ∷ ys) = ground arith
slices_equal_iff (x ∷ xs) [] = ground arith
slices_equal_iff (x ∷ xs) (y ∷ ys) = ground (arith, eq_iff x y, slices_equal_iff xs ys)

str_eq_refl : (x : String) → str_eq x x ≡ true
str_eq_refl x = (eq_iff x x).1 refl

slices_equal_refl : (xs : List String) → slices_equal xs xs ≡ true
slices_equal_refl xs = (slices_equal_iff xs xs).1 refl

eqb_ℤ_refl : (a : ℤ) → eqb_ℤ a a ≡ true
eqb_ℤ_refl a = (eqb_ℤ_iff a a).1 refl

not-and : (a b : Bool) → not (a && b) ≡ (not a || not b)
not-and a b = ground arith

or_assoc : (a b c : Bool) → ((a || b) || c) ≡ (a || (b || c))
or_assoc a b c = ground arith

module _ {Rest : Type 0} (k : Toolkit Rest) (r : Record) where
  -- The sheet with every field that the record knows written over.
  abbrev pub stamped : Sheet Rest → Sheet Rest
  stamped s = record s {
    source_id = r.info.source;
    character_id = r.info.character_id;
    platform_id = r.info.platform_id;
    direct_link = r.info.direct_url;
    title = r.info.title;
    name = r.info.name;
    creator = r.creator.nickname;
    creation_date = k.to_seconds r.info.create_time;
    modification_date = k.to_seconds (latest_update_time r.info);
    tags = tag_names r.info.tags;
  }

  -- Every one of those fields is as the record has it.
  abbrev pub agrees : Sheet Rest → Bool
  agrees s =
      str_eq r.info.source s.source_id
      && (str_eq r.info.character_id s.character_id
          && (str_eq r.info.platform_id s.platform_id
              && (str_eq r.info.direct_url s.direct_link
                  && (str_eq r.info.title s.title
                      && (str_eq r.info.name s.name
                          && (str_eq r.creator.nickname s.creator
                              && (eqb_ℤ (k.to_seconds r.info.create_time) s.creation_date
                                  && (eqb_ℤ (k.to_seconds (latest_update_time r.info))
                                        s.modification_date
                                      && slices_equal (tag_names r.info.tags) s.tags))))))))

  source_lem :
      (s : Sheet Rest) (u : Bool)
      → sync_source k r (s, u)
        ≡ (record s { source_id = r.info.source }, u || not (str_eq r.info.source s.source_id))
  unfolding sync_source
  source_lem s u = ground (arith, eq_iff r.info.source s.source_id)

  character_lem :
      (s : Sheet Rest) (u : Bool)
      → sync_character k r (s, u) ≡ (
        record s { character_id = r.info.character_id },
        u || not (str_eq r.info.character_id s.character_id),
      )
  unfolding sync_character
  character_lem s u = ground (arith, eq_iff r.info.character_id s.character_id)

  platform_lem :
      (s : Sheet Rest) (u : Bool)
      → sync_platform k r (s, u) ≡ (
        record s { platform_id = r.info.platform_id },
        u || not (str_eq r.info.platform_id s.platform_id),
      )
  unfolding sync_platform
  platform_lem s u = ground (arith, eq_iff r.info.platform_id s.platform_id)

  link_lem :
      (s : Sheet Rest) (u : Bool)
      → sync_link k r (s, u) ≡ (
        record s { direct_link = r.info.direct_url },
        u || not (str_eq r.info.direct_url s.direct_link),
      )
  unfolding sync_link
  link_lem s u = ground (arith, eq_iff r.info.direct_url s.direct_link)

  title_lem :
      (s : Sheet Rest) (u : Bool)
      → sync_title k r (s, u)
        ≡ (record s { title = r.info.title }, u || not (str_eq r.info.title s.title))
  unfolding sync_title
  title_lem s u = ground (arith, eq_iff r.info.title s.title)

  name_lem :
      (s : Sheet Rest) (u : Bool)
      → sync_name k r (s, u)
        ≡ (record s { name = r.info.name }, u || not (str_eq r.info.name s.name))
  unfolding sync_name
  name_lem s u = ground (arith, eq_iff r.info.name s.name)

  creator_lem :
      (s : Sheet Rest) (u : Bool)
      → sync_creator k r (s, u) ≡ (
        record s { creator = r.creator.nickname },
        u || not (str_eq r.creator.nickname s.creator),
      )
  unfolding sync_creator
  creator_lem s u = ground (arith, eq_iff r.creator.nickname s.creator)

  creation_lem :
      (s : Sheet Rest) (u : Bool)
      → sync_creation k r (s, u) ≡ (
        record s { creation_date = k.to_seconds r.info.create_time },
        u || not (eqb_ℤ (k.to_seconds r.info.create_time) s.creation_date),
      )
  unfolding sync_creation
  creation_lem s u = ground (arith, eqb_ℤ_iff (k.to_seconds r.info.create_time) s.creation_date)

  modification_lem :
      (s : Sheet Rest) (u : Bool)
      → sync_modification k r (s, u) ≡ (
        record s { modification_date = k.to_seconds (latest_update_time r.info) },
        u || not (eqb_ℤ (k.to_seconds (latest_update_time r.info)) s.modification_date),
      )
  unfolding sync_modification
  modification_lem s u =
      ground (arith, eqb_ℤ_iff (k.to_seconds (latest_update_time r.info)) s.modification_date)

  tags_lem :
      (s : Sheet Rest) (u : Bool)
      → sync_tags k r (s, u) ≡ (
        record s { tags = tag_names r.info.tags },
        u || not (slices_equal (tag_names r.info.tags) s.tags),
      )
  unfolding sync_tags
  tags_lem s u = ground (arith, slices_equal_iff (tag_names r.info.tags) s.tags)

  -- The sheet is stamped, and the flag says whether it did not agree before.
  pub sync_sheet_fields_lem :
      (s : Sheet Rest) → sync_sheet_fields k r s ≡ (stamped s, not (agrees s))
  unfolding sync_sheet_fields
  sync_sheet_fields_lem s = rw (source_lem s false) (
      rw
        (
          character_lem, platform_lem, link_lem, title_lem, name_lem, creator_lem, creation_lem,
          modification_lem, tags_lem,
        )
        (ap (λ u. (stamped s, u)) (simp (not-and, or_assoc))))

  -- The sheet agrees exactly where stamping it changes nothing.
  pub agrees-stamped : (s : Sheet Rest) → agrees s ≡ true → stamped s ≡ s
  agrees-stamped s h = ground (
    arith,
    eq_iff r.info.source s.source_id,
    eq_iff r.info.character_id s.character_id,
    eq_iff r.info.platform_id s.platform_id,
    eq_iff r.info.direct_url s.direct_link,
    eq_iff r.info.title s.title,
    eq_iff r.info.name s.name,
    eq_iff r.creator.nickname s.creator,
    eqb_ℤ_iff (k.to_seconds r.info.create_time) s.creation_date,
    eqb_ℤ_iff (k.to_seconds (latest_update_time r.info)) s.modification_date,
    slices_equal_iff (tag_names r.info.tags) s.tags,
  )

  pub stamped-agrees : (s : Sheet Rest) → agrees (stamped s) ≡ true
  stamped-agrees s = simp (
    str_eq_refl,
    eqb_ℤ_refl (k.to_seconds r.info.create_time),
    eqb_ℤ_refl (k.to_seconds (latest_update_time r.info)),
    slices_equal_refl,
  )

-- What the record owes to the sheet: the count of greetings, and a book time exactly where the
-- sheet has a book.
abbrev pub record_agrees : {Rest : Type 0} → Record → Sheet Rest → Bool
record_agrees r s =
    (length s.alternate_greetings == r.info.greetings_count)
    && (if s.has_book
        then not (eqb_ℤ r.info.book_update_time (pos 0))
        else eqb_ℤ r.info.book_update_time (pos 0))

-- Book time and greetings as the sheet wants them; all else as before.
abbrev pub settled : {Rest : Type 0} → Record → Sheet Rest → Record
settled r s = record r {
  info = record r.info {
    greetings_count = length s.alternate_greetings;
    book_update_time =
        if s.has_book
        then (if eqb_ℤ r.info.book_update_time (pos 0)
            then latest_update_time r.info
            else r.info.book_update_time)
        else pos 0;
  };
}

pub sync_record_fields_lem :
    {Rest : Type 0} (r : Record) (s : Sheet Rest)
    → sync_record_fields r s ≡ (settled r s, not (record_agrees r s))
unfolding sync_record_fields sync_greetings sync_no_book sync_book latest_update_time
sync_record_fields_lem r s = ground arith
