-- ===== src/Tests/CatalogRuns.antt =====
-- A catalog on two small stores, one of which can refuse.
use card_client.Prelude.{
  map, ℕ, ◌==◌, ◌&&◌, List, [], ◌∷◌, true, Option, none, some, ◌≡◌, refl, sym, arith, length, ap,
}
use card_client.Prelude.Int.{pos}
use card_client.Prelude.Assoc.{lookup, insert}
use card_client.Prelude.Outcome.{Result, ok, err}
use card_client.Resource.Types.{Record, Sheet, tag_names}
use card_client.Catalog.Metadata.{to_metadata}
use card_client.Catalog.Stores.{Cards, RecordStore, BlobStore}
use card_client.Catalog.Cards.{Catalog, basic_integrity, save_card, record_tx}
use card_client.Catalog.Consistency.{save_card_atomic}
use card_client.Catalog.Integrity.{basic_integrity_lem, no_repeat}
use card_client.Tests.Samples.{toolkit, card_record, blank_sheet}

-- A card is its sheet.
abbrev pub cards : Cards ℕ
cards = record {
  Card = Sheet ℕ;
  sheet = λ c. c;
  set_sheet = λ c s. s;
  set_tags = λ c names. record c { tags = names };
}

abbrev pub Records : Type 0
Records = List (ℕ × Record)

abbrev pub or_error : {A : Type 0} → Option A → Result ℕ A
or_error none = err 404
or_error (some a) = ok a

-- Every card is saved as record 7. `refuse` says which states are refused at commit.
abbrev pub record_store : (Records → Option ℕ) → RecordStore (Sheet ℕ) ℕ
record_store refuse = record {
  State = Records;
  save_record = λ metadata card time index s. (ok 7, insert 7 card_record s);
  restore_record = λ r card s. (ok r.id, insert r.id r s);
  find_record = λ rid s. (or_error (lookup rid s), s);
  find_all_rids = λ s. (ok (map (λ e. e.0) s), s);
  update_sync_data = λ rid d s. (ok tt, s);
  update_export_data = λ rid d s. (ok tt, s);
  delete = λ rids s. (ok 0, s);
  refuses_begin = λ s. none;
  refuses_commit = refuse;
}

abbrev pub accepts : Records → Option ℕ
accepts s = none

abbrev refuses : Records → Option ℕ
refuses s = some 5

abbrev pub Blobs : Type 0
Blobs = List (ℕ × Sheet ℕ)

pub ok_is_no_error :
    {s s' : Blobs} {e : ℕ} → ◌≡◌ {A = Result ℕ (Unit {0}) × Blobs} (ok tt, s) (err e, s') → ⊥
ok_is_no_error h = ground arith

-- A blob store that takes every card.
abbrev pub blob_store : BlobStore (Sheet ℕ) ℕ
blob_store = record {
  State = Blobs;
  rids = λ s. (ok (map (λ e. e.0) s), s);
  get_character_card = λ rid v s. (or_error (lookup rid s), s);
  thumbnail_size = λ rid s. (ok (1, 1), s);
  put = λ rid v c s. (ok tt, insert rid c s);
  delete_one = λ rid s. (ok tt, s);
  refuses_begin = λ s. none;
  refuses_commit = λ s. none;
  put_atomic = λ rid v c s s' e h. absurd (ok_is_no_error h);
  get_character_card_reads = λ rid v s. refl;
  thumbnail_size_reads = λ rid s. refl;
}

-- A blob store that takes none.
abbrev pub full_store : BlobStore (Sheet ℕ) ℕ
full_store = record {
  State = Blobs;
  rids = λ s. (ok (map (λ e. e.0) s), s);
  get_character_card = λ rid v s. (or_error (lookup rid s), s);
  thumbnail_size = λ rid s. (ok (1, 1), s);
  put = λ rid v c s. (err 28, s);
  delete_one = λ rid s. (ok tt, s);
  refuses_begin = λ s. none;
  refuses_commit = λ s. none;
  put_atomic = λ rid v c s s' e h. ap (λ r. r.1) (sym h);
  get_character_card_reads = λ rid v s. refl;
  thumbnail_size_reads = λ rid s. refl;
}

abbrev before_full : Catalog toolkit cards (record_store accepts) full_store
before_full = record { records = []; blobs = [] }

save_card_atomic_example : (before_full.records ≡ []) × (before_full.blobs ≡ [])
unfolding save_card record_tx lookup insert tag_names
save_card_atomic_example =
    save_card_atomic toolkit cards (record_store accepts) full_store (to_metadata card_record)
      blank_sheet (pos 9) none before_full before_full 28 (λ t. refl) refl

abbrev listed : Catalog toolkit cards (record_store accepts) blob_store
listed = record { records = (7, card_record) ∷ []; blobs = (7, blank_sheet) ∷ [] }

basic_integrity_lem_example :
    (basic_integrity toolkit cards (record_store accepts) blob_store listed).0.1 ≡ (
      (true && true)
      && ((length {A = ℕ} (7 ∷ []) == length {A = ℕ} (7 ∷ [])) && no_repeat (7 ∷ [])))
basic_integrity_lem_example =
    basic_integrity_lem toolkit cards (record_store accepts) blob_store listed
