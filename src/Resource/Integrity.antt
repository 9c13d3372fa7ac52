-- ===== src/Resource/Integrity.antt =====
-- store/resource/resource.go: `Integrity`, `isBroken`, the two synchronisations and `FixIntegrity`.
use text.Mathlib.Text.{starts_with}
use card_client.Prelude.{
  String, List, [], ◌∷◌, Bool, true, false, not, ◌&&◌, ◌||◌, Option, none, some, ◌==◌, str_eq,
  if◌then◌else◌, length,
}
use card_client.Prelude.Int.{pos, ltb_ℤ, leb_ℤ, eqb_ℤ}
use card_client.Resource.Types.{
  Record, Sheet, Toolkit, RecordIntegrity, intact, fixed, broken, latest_update_time, tag_names,
}

-- slices.Equal on strings.
unfoldable pub slices_equal : List String → List String → Bool
slices_equal [] [] = true
slices_equal [] (y ∷ ys) = false
slices_equal (x ∷ xs) [] = false
slices_equal (x ∷ xs) (y ∷ ys) = str_eq x y && slices_equal xs ys

-- What a call of `FixIntegrity` comes to: it returns, with the record and the sheet behind the two
-- pointers as it leaves them, or it panics on a nil pointer.
pub data Repair (Rest : Type 0) : Type 0 where
  panics : Repair Rest
  returns : RecordIntegrity → Option Record → Option (Sheet Rest) → Repair Rest

module _ {Rest : Type 0} (k : Toolkit Rest) where
  unfoldable pub integrity : Record → Bool
  integrity r =
      k.is_not_blank r.info.source
      && (k.is_not_blank r.info.normalized_url
          && (k.is_not_blank r.info.direct_url
              && (k.is_not_blank r.info.platform_id
                  && (k.is_not_blank r.info.character_id
                      && (k.is_not_blank r.info.name
                          && (k.is_not_blank r.info.title
                              && (ltb_ℤ (pos 0) r.info.create_time
                                  && (ltb_ℤ (pos 0) r.info.update_time
                                      && (leb_ℤ r.info.create_time r.info.update_time
                                          && (k.is_not_blank r.creator.nickname
                                              && (k.is_not_blank r.creator.username
                                                  && (str_eq (k.to_lower r.creator.nickname)
                                                        (k.to_lower k.anonymous_creator)
                                                      || k.is_not_blank
                                                          r.creator.platform_id))))))))))))

  -- A nil pointer is `none`.
  unfoldable pub is_broken : Option Record → Option (Sheet Rest) → Bool
  is_broken none none = false
  is_broken none (some s) = true
  is_broken (some r) none = true
  is_broken (some r) (some s) =
      if not (integrity r) then true else not (starts_with s.creator_notes r.info.tagline)

  -- Each assignment of `syncSheetFields`: the sheet, and whether it has been updated so far.
  abbrev pub Tracked : Type 0
  Tracked = Sheet Rest × Bool

  -- `if changed { sheet.F = v; updated = true }`, with the sheet that the assignment leaves.
  abbrev pub assign : Bool → Sheet Rest → Tracked → Tracked
  assign changed s' (s, updated) = if changed then (s', true) else (s, updated)

  unfoldable pub sync_source : Record → Tracked → Tracked
  sync_source r (s, u) =
      assign (not (str_eq r.info.source s.source_id)) (record s { source_id = r.info.source })
        (s, u)

  unfoldable pub sync_character : Record → Tracked → Tracked
  sync_character r (s, u) =
      assign (not (str_eq r.info.character_id s.character_id))
        (record s { character_id = r.info.character_id }) (s, u)

  unfoldable pub sync_platform : Record → Tracked → Tracked
  sync_platform r (s, u) =
      assign (not (str_eq r.info.platform_id s.platform_id))
        (record s { platform_id = r.info.platform_id }) (s, u)

  unfoldable pub sync_link : Record → Tracked → Tracked
  sync_link r (s, u) =
      assign (not (str_eq r.info.direct_url s.direct_link))
        (record s { direct_link = r.info.direct_url }) (s, u)

  unfoldable pub sync_title : Record → Tracked → Tracked
  sync_title r (s, u) =
      assign (not (str_eq r.info.title s.title)) (record s { title = r.info.title }) (s, u)

  unfoldable pub sync_name : Record → Tracked → Tracked
  sync_name r (s, u) =
      assign (not (str_eq r.info.name s.name)) (record s { name = r.info.name }) (s, u)

  unfoldable pub sync_creator : Record → Tracked → Tracked
  sync_creator r (s, u) =
      assign (not (str_eq r.creator.nickname s.creator)) (record s { creator = r.creator.nickname })
        (s, u)

  unfoldable pub sync_creation : Record → Tracked → Tracked
  sync_creation r (s, u) =
      let seconds = k.to_seconds r.info.create_time in
      assign (not (eqb_ℤ seconds s.creation_date)) (record s { creation_date = seconds }) (s, u)

  unfoldable pub sync_modification : Record → Tracked → Tracked
  sync_modification r (s, u) =
      let seconds = k.to_seconds (latest_update_time r.info) in
      assign (not (eqb_ℤ seconds s.modification_date)) (record s { modification_date = seconds })
        (s, u)

  unfoldable pub sync_tags : Record → Tracked → Tracked
  sync_tags r (s, u) =
      let names = tag_names r.info.tags in
      assign (not (slices_equal names s.tags)) (record s { tags = names }) (s, u)

  unfoldable pub sync_sheet_fields : Record → Sheet Rest → Tracked
  sync_sheet_fields r s = sync_tags r (
      sync_modification r (
        sync_creation r (
          sync_creator r (
            sync_name r (
              sync_title r
                (sync_link r (sync_platform r (sync_character r (sync_source r (s, false))))))))))

unfoldable pub sync_greetings : {Rest : Type 0} → Sheet Rest → Record × Bool → Record × Bool
sync_greetings s (r, u) =
    let count = length s.alternate_greetings in
    if not (count == r.info.greetings_count)
    then (record r { info = record r.info { greetings_count = count } }, true)
    else (r, u)

-- The book's time goes to 0 where the sheet has no book.
unfoldable pub sync_no_book : {Rest : Type 0} → Sheet Rest → Record × Bool → Record × Bool
sync_no_book s (r, u) =
    if not s.has_book && not (eqb_ℤ r.info.book_update_time (pos 0))
    then (record r { info = record r.info { book_update_time = pos 0 } }, true)
    else (r, u)

-- It goes from 0 to the latest update time where the sheet has one.
unfoldable pub sync_book : {Rest : Type 0} → Sheet Rest → Record × Bool → Record × Bool
sync_book s (r, u) =
    if s.has_book && eqb_ℤ r.info.book_update_time (pos 0)
    then (record r { info = record r.info { book_update_time = latest_update_time r.info } }, true)
    else (r, u)

unfoldable pub sync_record_fields : {Rest : Type 0} → Record → Sheet Rest → Record × Bool
sync_record_fields r s = sync_book s (sync_no_book s (sync_greetings s (r, false)))

module _ {Rest : Type 0} (k : Toolkit Rest) where
  unfoldable pub verdict : Sheet Rest → Bool → RecordIntegrity
  verdict s updated =
      if not (k.sheet_integrity s) then broken else if updated then fixed else intact

  -- `||` does not make the second call where the first returns true.
  unfoldable pub sync_fields : Record → Sheet Rest → Record × Sheet Rest × Bool
  sync_fields r s =
      let (s', sheet_updated) = sync_sheet_fields k r s in
      let (r', record_updated) = sync_record_fields r s' in
      if sheet_updated then (r, s', true) else (r', s', record_updated)

  unfoldable pub repair_both : Record → Sheet Rest → Repair Rest
  unfolding verdict sync_fields
  repair_both r s =
      let (r', s', updated) = sync_fields r s in returns (verdict s' updated) (some r') (some s')

  -- Past `isBroken`, a nil record is dereferenced.
  unfoldable pub fix_integrity : Option Record → Option (Sheet Rest) → Repair Rest
  unfolding repair_both is_broken
  fix_integrity (some r) (some s) =
      if is_broken k (some r) (some s) then returns broken (some r) (some s) else repair_both r s
  fix_integrity none none = if is_broken k none none then returns broken none none else panics
  fix_integrity none (some s) =
      if is_broken k none (some s) then returns broken none (some s) else panics
  fix_integrity (some r) none =
      if is_broken k (some r) none then returns broken (some r) none else panics
