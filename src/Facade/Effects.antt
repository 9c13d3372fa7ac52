-- ===== src/Facade/Effects.antt =====
-- facade/sync_update.go: what an update that does not succeed leaves of the stores.
use card_client.Prelude.{
  ℕ, String, Bool, true, false, Option, none, ◌≡◌, ◌≢◌, refl, ◌∙◌, if◌then◌else◌, Option-cases, inl,
  inr,
}
use card_client.Prelude.Int.{ℤ}
use card_client.Prelude.Outcome.{Result, ok, err}
use card_client.Resource.Types.{Record, Toolkit, SyncStatus, sync_success, sync_failed}
use card_client.Catalog.Metadata.{Metadata}
use card_client.Catalog.Stores.{Cards, RecordStore, BlobStore}
use card_client.Catalog.Cards.{Catalog, save_card, on_records}
use card_client.Catalog.Consistency.{save_card_atomic}
use card_client.Facade.Update.{
  Router, update_single_card, saved, perform_full_update, mark_unchanged, execute_card_update,
  looked_up, set_sync_status, determine_if_update_needed, UpdateResult, UpdateError,
}

module _ {Rest Error : Type 0} (k : Toolkit Rest) (cards : Cards Rest)
    (rs : RecordStore cards.Card Error) (bs : BlobStore cards.Card Error)
    (router : Router cards.Card Error) (commits : (t : rs.State) → rs.refuses_commit t ≡ none) where
  abbrev State : Type 0
  State = Catalog k cards rs bs

  -- Blobs stay unless the update succeeds.
  abbrev Keeps : State → (UpdateResult × Option UpdateError) × State → Type 0
  Keeps s ((result, e), s') = result.status ≢ sync_success → s'.blobs ≡ s.blobs

  set_sync_status-blobs :
      (rid : ℕ) (time : ℤ) (status : SyncStatus) (s : State)
      → (set_sync_status k cards rs bs router rid time status s).blobs ≡ s.blobs
  unfolding set_sync_status
  set_sync_status-blobs rid time status s = refl

  saved-Keeps :
      (rid : ℕ) (time : ℤ) (title : String) (s : State) (metadata : Metadata) (card : cards.Card)
      (r : Result Error ℕ × State)
      → save_card k cards rs bs metadata card time none s ≡ r
      → Keeps s (saved k cards rs bs router rid time title r)
  saved-Keeps rid time title s metadata card (ok n, t) same h = absurd (h refl)
  saved-Keeps rid time title s metadata card (err e, t) same h =
      set_sync_status-blobs rid time sync_failed t
      ∙ (save_card_atomic k cards rs bs metadata card time none s t e commits same).1

  perform_full_update-Keeps :
      (rid : ℕ) (time : ℤ) (title : String) (r : Result Error (Metadata × cards.Card)) (s : State)
      → Keeps s (perform_full_update k cards rs bs router rid time title r s)
  perform_full_update-Keeps rid time title (err e) s h =
      set_sync_status-blobs rid time sync_failed s
  perform_full_update-Keeps rid time title (ok (metadata, card)) s h =
      saved-Keeps rid time title s metadata card (save_card k cards rs bs metadata card time none s)
        refl h

  execute_card_update-Keeps :
      (force : Bool) (rid : ℕ) (time : ℤ) (r : Record) (fetched : Result Error Metadata)
      (all : Result Error (Metadata × cards.Card)) (s : State)
      → Keeps s (
          execute_card_update k cards rs bs router force rid time r
            (record { fetch_metadata = fetched; fetch_all = all })
            s)
  unfolding set_sync_status
  execute_card_update-Keeps force rid time r (err e) all s h = refl
  execute_card_update-Keeps force rid time r (ok metadata) all s h =
      decided (determine_if_update_needed k cards rs bs router force metadata r) h
    where
      decided :
          (b : Bool)
          → Keeps s (
              if b
              then perform_full_update k cards rs bs router rid time metadata.card_info.title all s
              else mark_unchanged k cards rs bs router rid time metadata.card_info.title s)
      decided true h = perform_full_update-Keeps rid time metadata.card_info.title all s h
      decided false h = refl

  looked_up-Keeps :
      (force : Bool) (rid : ℕ) (time : ℤ) (r : Result Error Record × State)
      → Keeps r.1 (looked_up k cards rs bs router force rid time r)
  looked_up-Keeps force rid time (err e, s) = λ h. refl
  looked_up-Keeps force rid time (ok r, s) =
      elim (Option-cases (router.task_of r.info.normalized_url)) [
        | inl e ↦ rw e (λ h. refl)
        | inr (task, e) ↦
            rw e (execute_card_update-Keeps force rid time r task.fetch_metadata task.fetch_all s)
      ]

  -- On a record store that never refuses a commit, and a blob store whose `Put` changes nothing when
  -- it fails, an update of a card that does not end as successful leaves the blobs as they were.
  pub update_single_card-keeps_blobs :
      (force : Bool) (rid : ℕ) (time : ℤ) (s : State)
      → (update_single_card k cards rs bs router force rid time s).0.0.status ≢ sync_success
      → (update_single_card k cards rs bs router force rid time s).1.blobs ≡ s.blobs
  unfolding update_single_card
  update_single_card-keeps_blobs force rid time s h =
      looked_up-Keeps force rid time (on_records k cards rs bs (rs.find_record rid) s) h
