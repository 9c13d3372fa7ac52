-- ===== src/Facade/Update.antt =====
-- facade/sync_update.go: the worker that brings cards up to date.
use card_client.Prelude.{
  ℕ, ◌+◌, String, List, [], ◌∷◌, ◌++◌, Bool, true, not, ◌||◌, Option, none, some, if◌then◌else◌,
  length, str_eq,
}
use card_client.Prelude.Int.{ℤ, ltb_ℤ}
use card_client.Prelude.Outcome.{Result, ok, err}
use card_client.Resource.Types.{
  Record, Toolkit, SyncStatus, sync_failed, sync_success, sync_unchanged, sync_missing, sync_unset,
  latest_update_time,
}
use card_client.Operation.Types.{OperationEntry, Report}
use card_client.Operation.Ordered.{OrderedMap}
use card_client.Operation.Registry.{Registry, mutate_report, mark_terminated, cancel}
use card_client.Catalog.Metadata.{Metadata}
use card_client.Catalog.Stores.{Cards, RecordStore, BlobStore}
use card_client.Catalog.Cards.{Catalog, on_records, save_card}
use card_client.Facade.Cache.{CacheManager, push}
use card_client.Facade.Schedule.{Turn, handles, cancels, Scheduler, is_cancelled}

pub record UpdateResult : Type 0 where
  pub title : String
  pub status : SyncStatus

-- The errors that the worker logs, by their message.
pub data UpdateError : Type 0 where
  no_record no_fetcher no_metadata no_card not_saved : UpdateError

-- card-fetcher's task: what its two fetches return.
pub record Task (Card Error : Type 0) : Type 0 where
  pub fetch_metadata : Result Error Metadata
  pub fetch_all : Result Error (Metadata × Card)

-- card-fetcher's router, and `LatestUpdateTime` of its metadata.
pub record Router (Card Error : Type 0) : Type 0 where
  pub task_of : String → Option (Task Card Error)
  pub latest_fetched : Metadata → ℤ

abbrev pub failed_result : String → UpdateResult
failed_result title = record { title = title; status = sync_failed }

abbrev pub has_creator_changed : Metadata → Record → Bool
has_creator_changed metadata r =
    not (str_eq metadata.creator_info.username r.creator.username)
    || not (str_eq metadata.creator_info.nickname r.creator.nickname)

-- The report after one more card.
unfoldable pub update_progress : UpdateResult → Report → Report
update_progress result report = elim result.status [
  | sync_success ↦ record report {
    progress = report.progress + 1;
    no_successes = report.no_successes + 1;
  }
  | sync_unchanged ↦ record report {
    progress = report.progress + 1;
    no_unchanges = report.no_unchanges + 1;
  }
  | sync_failed ↦ record report {
    progress = report.progress + 1;
    aux_data = report.aux_data ++ (result.title ∷ []);
    no_failures = report.no_failures + 1;
  }
  | sync_missing ↦ record report { progress = report.progress + 1 }
  | sync_unset ↦ record report { progress = report.progress + 1 }
]

module _ {Rest Error : Type 0} (k : Toolkit Rest) (cards : Cards Rest)
    (rs : RecordStore cards.Card Error) (bs : BlobStore cards.Card Error)
    (router : Router cards.Card Error) where
  abbrev State : Type 0
  State = Catalog k cards rs bs

  abbrev Answer : Type 0
  Answer = (UpdateResult × Option UpdateError) × State

  -- An error of `UpdateSyncData` is dropped.
  unfoldable pub set_sync_status : ℕ → ℤ → SyncStatus → State → State
  set_sync_status rid time status s =
      (on_records k cards rs bs
        (rs.update_sync_data rid (record { sync_time = time; sync_status = status })) s).1

  abbrev pub determine_if_update_needed : Bool → Metadata → Record → Bool
  determine_if_update_needed force metadata r =
      if force
      then true
      else ltb_ℤ (latest_update_time r.info) (router.latest_fetched metadata)
        || has_creator_changed metadata r

  -- The end of `executeFullUpdate`, and what `performFullUpdate` makes of it.
  abbrev pub saved : ℕ → ℤ → String → Result Error ℕ × State → Answer
  saved rid time title (ok n, s) = ((record { title = title; status = sync_success }, none), s)
  saved rid time title (err e, s) =
      ((failed_result title, some not_saved), set_sync_status rid time sync_failed s)

  abbrev pub perform_full_update :
      ℕ → ℤ → String → Result Error (Metadata × cards.Card) → State → Answer
  perform_full_update rid time title (err e) s =
      ((failed_result title, some no_card), set_sync_status rid time sync_failed s)
  perform_full_update rid time title (ok (metadata, card)) s =
      saved rid time title (save_card k cards rs bs metadata card time none s)

  abbrev pub mark_unchanged : ℕ → ℤ → String → State → Answer
  mark_unchanged rid time title s = (
    (record { title = title; status = sync_unchanged }, none),
    set_sync_status rid time sync_unchanged s,
  )

  abbrev pub execute_card_update : Bool → ℕ → ℤ → Record → Task cards.Card Error → State → Answer
  execute_card_update force rid time r task s = elim task.fetch_metadata [
    | err e ↦
        ((failed_result r.info.title, some no_metadata), set_sync_status rid time sync_failed s)
    | ok metadata ↦
        if determine_if_update_needed force metadata r
        then perform_full_update rid time metadata.card_info.title task.fetch_all s
        else mark_unchanged rid time metadata.card_info.title s
  ]

  abbrev pub routed : Bool → ℕ → ℤ → Record → Option (Task cards.Card Error) → State → Answer
  routed force rid time r none s = ((failed_result r.info.title, some no_fetcher), s)
  routed force rid time r (some task) s = execute_card_update force rid time r task s

  abbrev pub looked_up : Bool → ℕ → ℤ → Result Error Record × State → Answer
  looked_up force rid time (err e, s) = ((failed_result "", some no_record), s)
  looked_up force rid time (ok r, s) =
      routed force rid time r (router.task_of r.info.normalized_url) s

  unfoldable pub update_single_card : Bool → ℕ → ℤ → State → Answer
  unfolding save_card set_sync_status
  update_single_card force rid time s =
      looked_up force rid time (on_records k cards rs bs (rs.find_record rid) s)

  module _ (om : OrderedMap OperationEntry) where
    -- What the workers share.
    pub record World : Type 0 where
      pub catalog : State
      pub registry : Registry om
      pub cache : CacheManager

    abbrev pub with_report : ℕ → (Report → Report) → World → World
    with_report op f w = record w { registry = (mutate_report om w.registry op f).1 }

    -- `processSingleCard` and `updateUpdateProgress`.
    unfoldable pub handle_update : Bool → ℕ → ℤ → ℕ → World → World
    unfolding update_single_card
    handle_update force op time rid w =
        let ((result, e), s) = update_single_card force rid time w.catalog in
        with_report op (update_progress result)
          (record w { catalog = s; cache = push rid op w.cache })

    abbrev pub cancel_update : ℕ → World → World
    cancel_update op w = record w { registry = (cancel om w.registry op).1 }

    unfoldable pub update_turns : Bool → ℕ → ℤ → List (Turn ℕ) → World → World
    unfolding handle_update cancel
    update_turns force op time [] w = w
    update_turns force op time (handles rid ∷ ts) w =
        update_turns force op time ts (handle_update force op time rid w)
    update_turns force op time (cancels ∷ ts) w = update_turns force op time ts (cancel_update op w)

    unfoldable pub process_all_cards : Scheduler ℕ → Bool → ℕ → ℤ → List ℕ → World → World
    unfolding update_turns
    process_all_cards sched force op time rids w =
        update_turns force op time (sched.exec (is_cancelled om w.registry op) rids) w

    -- `now` is the time at which it ends.
    unfoldable pub run_update_worker : Scheduler ℕ → Bool → ℕ → ℤ → ℤ → List ℕ → World → World
    unfolding process_all_cards
    run_update_worker sched force op time now rids w =
        let done =
          process_all_cards sched force op time rids
            (with_report op (λ report. record report { total = length rids }) w) in
        record done { registry = (mark_terminated om done.registry op now).1 }
