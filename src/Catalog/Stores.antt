-- ===== src/Catalog/Stores.antt =====
-- store/record/store.go and store/blob/store.go: the two interfaces, as the catalog uses them.
use card_client.Prelude.{ℕ, String, List, Option, ◌≡◌}
use card_client.Prelude.Int.{ℤ}
use card_client.Prelude.Outcome.{Exec, err}
use card_client.Resource.Types.{Record, Sheet, SyncData, ExportData}
use card_client.Catalog.Metadata.{Metadata}

-- card-parser's `png.CharacterCard`: the sheet, with a setter for it and for its tags.
pub record Cards (Rest : Type 0) : Type 1 where
  pub Card : Type 0
  pub sheet : Card → Sheet Rest
  pub set_sheet : Card → Sheet Rest → Card
  pub set_tags : Card → List String → Card

-- `refuses_begin` and `refuses_commit` say when the database refuses one.
pub record RecordStore (Card Error : Type 0) : Type 1 where
  pub State : Type 0
  pub save_record : Metadata → Card → ℤ → Option ℤ → Exec State Error ℕ
  pub restore_record : Record → Card → Exec State Error ℕ
  pub find_record : ℕ → Exec State Error Record
  pub find_all_rids : Exec State Error (List ℕ)
  pub update_sync_data : ℕ → SyncData → Exec State Error (Unit {0})
  pub update_export_data : ℕ → ExportData → Exec State Error (Unit {0})
  pub delete : List ℕ → Exec State Error ℕ
  pub refuses_begin : State → Option Error
  pub refuses_commit : State → Option Error

-- `put` and `delete` are transactions of their own; `delete_many` is one over the loop of deletes.
pub record BlobStore (Card Error : Type 0) : Type 1 where
  pub State : Type 0
  pub rids : Exec State Error (List ℕ)
  pub get_character_card : ℕ → ℤ → Exec State Error Card
  pub thumbnail_size : ℕ → Exec State Error (ℕ × ℕ)
  pub put : ℕ → ℤ → Card → Exec State Error (Unit {0})
  pub delete_one : ℕ → Exec State Error (Unit {0})
  pub refuses_begin : State → Option Error
  pub refuses_commit : State → Option Error
  pub put_atomic :
      (rid : ℕ) (v : ℤ) (c : Card) (s s' : State) (e : Error) → put rid v c s ≡ (err e, s') → s' ≡ s
  pub get_character_card_reads : (rid : ℕ) (v : ℤ) (s : State) → (get_character_card rid v s).1 ≡ s
  pub thumbnail_size_reads : (rid : ℕ) (s : State) → (thumbnail_size rid s).1 ≡ s
