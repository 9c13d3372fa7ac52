-- ===== src/Catalog/Repairs.antt =====
-- store/catalog/catalog.go: what the verdicts of `FixRecordIntegrity` mean for the stores.
use card_client.Prelude.{
  ℕ, Bool, true, false, ◌&&◌, none, some, ◌≡◌, refl, arith, ap, sym, ◌∙◌, if◌then◌else◌,
}
use card_client.Prelude.Outcome.{Result, ok, err}
use card_client.Resource.Types.{Record, Toolkit, RecordIntegrity, intact, fixed, broken}
use card_client.Resource.Integrity.{Repair, returns, panics, fix_integrity}
use card_client.Catalog.Metadata.{to_metadata}
use card_client.Catalog.Stores.{Cards, RecordStore, BlobStore}
use card_client.Catalog.Cards.{
  Catalog, fix_record_integrity, on_card, repaired, after_repair, save_again, after_save, verified,
  is_thumbnail_ok, on_blobs, save_card,
}

module _ {Rest Error : Type 0} (k : Toolkit Rest) (cards : Cards Rest)
    (rs : RecordStore cards.Card Error) (bs : BlobStore cards.Card Error) where
  abbrev State : Type 0
  State = Catalog k cards rs bs

  -- The stores are as before where the verdict is `intact`.
  abbrev Untouched : State → RecordIntegrity × State → Type 0
  Untouched s (v, s') = v ≡ intact → (s'.records ≡ s.records) × (s'.blobs ≡ s.blobs)

  chosen_not : (b : Bool) → (if b then fixed else broken) ≡ intact → ⊥
  chosen_not true h = ground arith
  chosen_not false h = ground arith

  after_save_not :
      (r : Record) (x : Result Error ℕ × State) → (after_save k cards rs bs r x).0 ≡ intact → ⊥
  unfolding is_thumbnail_ok
  after_save_not r (err e, s) h = ground arith
  after_save_not r (ok rid, s) h =
      seen (on_blobs k cards rs bs (bs.get_character_card r.id r.info.update_time) s) h
    where
      seen : (x : Result Error cards.Card × State) → (verified k cards rs bs r.id x).0 ≡ intact → ⊥
      seen (err e, t) h = ground arith
      seen (ok card, t) h =
          chosen_not
            ((is_thumbnail_ok k cards rs bs r.id t).0 && k.sheet_integrity (cards.sheet card)) h

  save_again-Untouched :
      (r : Record) (card : cards.Card) (s t : State)
      → Untouched s (save_again k cards rs bs r card t)
  save_again-Untouched r card s t h =
      absurd (
        after_save_not r (save_card k cards rs bs (to_metadata r) card r.info.update_time none t) h)

  is_thumbnail_ok-reads :
      (rid : ℕ) (s : State)
      → ((is_thumbnail_ok k cards rs bs rid s).1.records ≡ s.records)
        × ((is_thumbnail_ok k cards rs bs rid s).1.blobs ≡ s.blobs)
  unfolding is_thumbnail_ok
  is_thumbnail_ok-reads rid s = (refl, bs.thumbnail_size_reads rid s.blobs)

  after_repair-Untouched :
      (v : RecordIntegrity) (r : Record) (card : cards.Card) (s : State)
      → Untouched s (after_repair k cards rs bs v r card s)
  after_repair-Untouched broken r card s h = absurd (ground arith)
  after_repair-Untouched fixed r card s h =
      save_again-Untouched r card s (is_thumbnail_ok k cards rs bs r.id s).1 h
  after_repair-Untouched intact r card s h =
      tested (is_thumbnail_ok k cards rs bs r.id s) (is_thumbnail_ok-reads r.id s) h
    where
      tested :
          (x : Bool × State)
          → (x.1.records ≡ s.records) × (x.1.blobs ≡ s.blobs)
          → Untouched s (if x.0 then (intact, x.1) else save_again k cards rs bs r card x.1)
      tested (true, t) same h = same
      tested (false, t) same h = save_again-Untouched r card s t h

  repaired-Untouched :
      (card : cards.Card) (x : Repair Rest) (s : State)
      → Untouched s (repaired k cards rs bs card x s)
  repaired-Untouched card (returns v (some r) (some sheet)) s h =
      after_repair-Untouched v r (cards.set_sheet card sheet) s h
  repaired-Untouched card (returns v none sheet) s h = (refl, refl)
  repaired-Untouched card (returns v (some r) none) s h = (refl, refl)
  repaired-Untouched card panics s h = (refl, refl)

  on_card-Untouched :
      (r : Record) (x : Result Error cards.Card × State) → Untouched x.1 (on_card k cards rs bs r x)
  on_card-Untouched r (err e, s) h = (refl, refl)
  on_card-Untouched r (ok card, s) h =
      repaired-Untouched card (fix_integrity k (some r) (some (cards.sheet card))) s h

  -- On a blob store whose reads of a card and of a thumbnail change nothing, `FixRecordIntegrity`
  -- that says `intact` leaves the records and the blobs as they were.
  pub fix_record_integrity-intact :
      (r : Record) (s s' : State)
      → fix_record_integrity k cards rs bs r s ≡ (intact, s')
      → (s'.records ≡ s.records) × (s'.blobs ≡ s.blobs)
  unfolding fix_record_integrity
  fix_record_integrity-intact r s s' h =
      let read = on_blobs k cards rs bs (bs.get_character_card r.id r.info.update_time) s in
      let same = on_card-Untouched r read (ap (λ x. x.0) h) in
      (
        ap (λ x. x.1.records) (sym h) ∙ same.0,
        ap (λ x. x.1.blobs) (sym h)
            ∙ same.1
            ∙ bs.get_character_card_reads r.id r.info.update_time s.blobs,
      )
