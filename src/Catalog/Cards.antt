-- ===== src/Catalog/Cards.antt =====
-- store/catalog/catalog.go: the methods that touch both stores.
use card_client.Prelude.{
  ℕ, List, [], ◌∷◌, Bool, true, false, not, ◌&&◌, ◌||◌, Option, none, some, if◌then◌else◌, ◌==◌,
  ltb, length, contains,
}
use card_client.Prelude.Int.{ℤ}
use card_client.Prelude.Outcome.{Exec, Result, ok, err, pure, ◌>>=◌, ◌>>◌}
use card_client.Resource.Types.{Record, Toolkit, RecordIntegrity, intact, fixed, broken, tag_names}
use card_client.Resource.Integrity.{Repair, returns, panics, fix_integrity}
use card_client.Catalog.Metadata.{Metadata, to_metadata}
use card_client.Catalog.Stores.{Cards, RecordStore, BlobStore}

-- The keys of the map that `BasicIntegrity` fills.
unfoldable pub distinct : List ℕ → List ℕ
distinct [] = []
distinct (rid ∷ rids) = let rest = distinct rids in if contains rid rest then rest else rid ∷ rest

-- Its answer, once both lists are read.
unfoldable pub compare_rids : List ℕ → List ℕ → List ℕ × Bool
unfolding distinct
compare_rids records blobs =
    if not (length records == length blobs)
    then ([], false)
    else if not (length (distinct records) == length blobs)
        || not (length (distinct records) == length records)
    then ([], false)
    else (records, true)

module _ {Rest Error : Type 0} (k : Toolkit Rest) (cards : Cards Rest)
    (rs : RecordStore cards.Card Error) (bs : BlobStore cards.Card Error) where
  pub record Catalog : Type 0 where
    pub records : rs.State
    pub blobs : bs.State

  abbrev pub Action : Type 0 → Type 0
  Action A = Exec Catalog Error A

  abbrev pub on_records : {A : Type 0} → Exec rs.State Error A → Action A
  on_records m s = let (r, records) = m s.records in (r, record s { records = records })

  abbrev pub on_blobs : {A : Type 0} → Exec bs.State Error A → Action A
  on_blobs m s = let (r, blobs) = m s.blobs in (r, record s { blobs = blobs })

  -- The end of the record store's `WithTx`, which the catalog calls outside any transaction: an error, or a commit that is refused, takes the
  -- records back to what they were. The blobs are not in this transaction.
  abbrev pub end_records :
      {A : Type 0} → rs.State → Result Error A × Catalog → Result Error A × Catalog
  end_records before (err e, s) = (err e, record s { records = before })
  end_records before (ok a, s) = elim (rs.refuses_commit s.records) [
    | none ↦ (ok a, s)
    | some e ↦ (err e, record s { records = before })
  ]

  unfoldable pub record_tx : {A : Type 0} → Action A → Action A
  record_tx m s = elim (rs.refuses_begin s.records) [
    | some e ↦ (err e, s)
    | none ↦ end_records s.records (m s)
  ]

  abbrev pub end_blobs :
      {A : Type 0} → bs.State → Result Error A × Catalog → Result Error A × Catalog
  end_blobs before (err e, s) = (err e, record s { blobs = before })
  end_blobs before (ok a, s) = elim (bs.refuses_commit s.blobs) [
    | none ↦ (ok a, s)
    | some e ↦ (err e, record s { blobs = before })
  ]

  unfoldable pub blob_tx : {A : Type 0} → Action A → Action A
  blob_tx m s = elim (bs.refuses_begin s.blobs) [
    | some e ↦ (err e, s)
    | none ↦ end_blobs s.blobs (m s)
  ]

  abbrev pub save_body : Metadata → cards.Card → ℤ → Option ℤ → Action ℕ
  save_body metadata card time index = do
    rid ← on_records (rs.save_record metadata card time index)
    rec ← on_records (rs.find_record rid)
    on_blobs (bs.put rec.id rec.info.update_time (cards.set_tags card (tag_names rec.info.tags)))
    pure rid

  unfoldable pub save_card : Metadata → cards.Card → ℤ → Option ℤ → Action ℕ
  unfolding record_tx
  save_card metadata card time index = record_tx (save_body metadata card time index)

  abbrev pub restore_body : Record → cards.Card → Action ℕ
  restore_body rec card = do
    rid ← on_records (rs.restore_record rec card)
    on_blobs (bs.put rid rec.info.update_time (cards.set_tags card (tag_names rec.info.tags)))
    pure rid

  unfoldable pub restore_card : Record → cards.Card → Action ℕ
  unfolding record_tx
  restore_card rec card = record_tx (restore_body rec card)

  unfoldable pub delete_each : List ℕ → Exec bs.State Error (Unit {0})
  delete_each [] = pure tt
  delete_each (rid ∷ rids) = bs.delete_one rid >> delete_each rids

  abbrev pub delete_body : List ℕ → Action ℕ
  delete_body rids = do
    deleted ← on_records (rs.delete rids)
    blob_tx (on_blobs (delete_each rids))
    pure deleted

  unfoldable pub delete : List ℕ → Action ℕ
  unfolding record_tx blob_tx delete_each
  delete rids = record_tx (delete_body rids)

  abbrev pub or_failed : Result Error (List ℕ × Bool) × Catalog → (List ℕ × Bool) × Catalog
  or_failed (ok r, s) = (r, s)
  or_failed (err e, s) = (([], false), s)

  unfoldable pub basic_integrity : Catalog → (List ℕ × Bool) × Catalog
  unfolding compare_rids
  basic_integrity s = or_failed (
      (do
        records ← on_records rs.find_all_rids
        blobs ← on_blobs bs.rids
        pure (compare_rids records blobs))
        s)

  -- An error means that the thumbnail is not there, or cannot be decoded.
  abbrev pub size_ok : Result Error (ℕ × ℕ) → Bool
  size_ok (err e) = false
  size_ok (ok (x, y)) = ltb 0 x && ltb 0 y

  unfoldable pub is_thumbnail_ok : ℕ → Catalog → Bool × Catalog
  is_thumbnail_ok rid s = let (r, s') = on_blobs (bs.thumbnail_size rid) s in (size_ok r, s')

  -- The last check of `FixRecordIntegrity`, after the card has been saved.
  abbrev pub verified : ℕ → Result Error cards.Card × Catalog → RecordIntegrity × Catalog
  verified rid (err e, s) = (broken, s)
  verified rid (ok card, s) =
      let (fine, s') = is_thumbnail_ok rid s in
      (if fine && k.sheet_integrity (cards.sheet card) then fixed else broken, s')

  abbrev pub after_save : Record → Result Error ℕ × Catalog → RecordIntegrity × Catalog
  after_save r (err e, s) = (broken, s)
  after_save r (ok rid, s) =
      verified r.id (on_blobs (bs.get_character_card r.id r.info.update_time) s)

  abbrev pub save_again : Record → cards.Card → Catalog → RecordIntegrity × Catalog
  save_again r card s = after_save r (save_card (to_metadata r) card r.info.update_time none s)

  -- What follows `FixIntegrity`, by its verdict.
  abbrev pub after_repair :
      RecordIntegrity → Record → cards.Card → Catalog → RecordIntegrity × Catalog
  after_repair broken r card s = (broken, s)
  after_repair intact r card s =
      let (fine, s') = is_thumbnail_ok r.id s in if fine then (intact, s') else save_again r card s'
  after_repair fixed r card s = let (fine, s') = is_thumbnail_ok r.id s in save_again r card s'

  abbrev pub repaired : cards.Card → Repair Rest → Catalog → RecordIntegrity × Catalog
  repaired card (returns v (some r) (some sheet)) s =
      after_repair v r (cards.set_sheet card sheet) s
  repaired card (returns v _ _) s = (v, s)
  repaired card panics s = (broken, s)

  abbrev pub on_card : Record → Result Error cards.Card × Catalog → RecordIntegrity × Catalog
  on_card r (err e, s) = (broken, s)
  on_card r (ok card, s) = repaired card (fix_integrity k (some r) (some (cards.sheet card))) s

  unfoldable pub fix_record_integrity : Record → Catalog → RecordIntegrity × Catalog
  unfolding save_card is_thumbnail_ok
  fix_record_integrity r s = on_card r (on_blobs (bs.get_character_card r.id r.info.update_time) s)
