-- ===== src/Facade/Import.antt =====
-- facade/sync_import.go: `ImportURLs` on the vault in use.
use card_client.Prelude.{
  ℕ, suc, ◌+◌, String, List, [], ◌∷◌, ◌++◌, Bool, true, false, some, if◌then◌else◌, length, str_eq,
}
use card_client.Prelude.Int.{ℤ, pos}
use card_client.Prelude.Outcome.{Exec, Result, ok, err}
use card_client.Resource.Types.{
  Toolkit, ImportStatus, import_failed, import_success, import_duplicate,
}
use card_client.Operation.Types.{OperationEntry, Report, import_action}
use card_client.Operation.Ordered.{OrderedMap}
use card_client.Operation.Registry.{Registry, new_operation, mutate_report, mark_terminated, cancel}
use card_client.Catalog.Metadata.{Metadata}
use card_client.Catalog.Stores.{Cards, RecordStore, BlobStore}
use card_client.Catalog.Cards.{Catalog, on_records, save_card}
use card_client.Facade.Schedule.{Turn, handles, cancels, Scheduler, is_cancelled}

-- card-fetcher's task, and the map of tasks that its router makes of some URLs.
pub record ImportTask (Card Error : Type 0) : Type 0 where
  pub original_url : String
  pub normalized_url : String
  pub fetch_all : Result Error (Metadata × Card)

pub record TaskMap (Card Error : Type 0) : Type 0 where
  pub valid_urls : List String
  pub invalid_urls : List String
  pub tasks : String → ImportTask Card Error

-- What the import takes from other packages: `strings.Split` at newlines, `TaskMapOf`, and
-- `ent.IsConstraintError`.
pub record Importer (Card Error : Type 0) : Type 0 where
  pub split_lines : String → List String
  pub task_map_of : List String → TaskMap Card Error
  pub is_constraint_error : Error → Bool

pub record TaskParams (Card Error : Type 0) : Type 0 where
  pub task : ImportTask Card Error
  pub batch_order : ℕ

abbrev pub set_total : ℕ → Report → Report
set_total n report = record report { total = n }

abbrev pub set_url_counts : ℕ → ℕ → Report → Report
set_url_counts valid invalid report = record report {
  progress = invalid;
  no_valid_urls = valid;
  no_invalid_urls = invalid;
}

unfoldable pub import_progress : ImportStatus → String → Report → Report
import_progress import_success url report = record report {
  progress = report.progress + 1;
  no_successes = report.no_successes + 1;
}
import_progress import_failed url report = record report {
  progress = report.progress + 1;
  aux_data = report.aux_data ++ (url ∷ []);
  no_failures = report.no_failures + 1;
}
import_progress import_duplicate url report = record report {
  progress = report.progress + 1;
  no_duplicates = report.no_duplicates + 1;
}

-- The keys of the existing map are the URLs that were found.
unfoldable pub is_url_already_imported : List String → String → Bool
is_url_already_imported [] url = false
is_url_already_imported (u ∷ us) url = if str_eq u url then true else is_url_already_imported us url

abbrev pub params_list :
    {Card Error : Type 0} → TaskMap Card Error → List String → ℕ → List (TaskParams Card Error)
params_list tasks [] index = []
params_list tasks (url ∷ urls) index =
    record { task = tasks.tasks url; batch_order = index } ∷ params_list tasks urls (suc index)

module _ {Rest Error : Type 0} (k : Toolkit Rest) (cards : Cards Rest)
    (rs : RecordStore cards.Card Error) (bs : BlobStore cards.Card Error)
    (find_urls : List String → Exec rs.State Error (List String))
    (importer : Importer cards.Card Error) (sched : Scheduler (TaskParams cards.Card Error)) where
  abbrev State : Type 0
  State = Catalog k cards rs bs

  abbrev handle_insert_error : Error → ImportStatus
  handle_insert_error e = if importer.is_constraint_error e then import_duplicate else import_failed

  abbrev pub inserted : Result Error ℕ × State → ImportStatus × State
  inserted (ok rid, s) = (import_success, s)
  inserted (err e, s) = (handle_insert_error e, s)

  -- `importTime` and the batch order go to `SaveCard`.
  abbrev pub import_single_card :
      Result Error (Metadata × cards.Card) → ℤ → ℕ → State → ImportStatus × State
  import_single_card (err e) time order s = (import_failed, s)
  import_single_card (ok (metadata, card)) time order s =
      inserted (save_card k cards rs bs metadata card time (some (pos order)) s)

  unfoldable pub determine_import_status :
      List String → ℤ → TaskParams cards.Card Error → State → ImportStatus × State
  unfolding is_url_already_imported save_card
  determine_import_status existing time params s =
      if is_url_already_imported existing params.task.normalized_url
      then (import_duplicate, s)
      else import_single_card params.task.fetch_all time params.batch_order s

  module _ (om : OrderedMap OperationEntry) where
    pub record World : Type 0 where
      pub catalog : State
      pub registry : Registry om

    abbrev pub with_report : ℕ → (Report → Report) → World → World
    with_report op f w = record w { registry = (mutate_report om w.registry op f).1 }

    -- `processImportTask`
    unfoldable pub process_import_task :
        List String → ℕ → ℤ → TaskParams cards.Card Error → World → World
    unfolding determine_import_status
    process_import_task existing op time params w =
        let (status, s) = determine_import_status existing time params w.catalog in
        with_report op (import_progress status params.task.original_url) (record w { catalog = s })

    abbrev pub cancel_import : ℕ → World → World
    cancel_import op w = record w { registry = (cancel om w.registry op).1 }

    unfoldable pub import_turns :
        List String → ℕ → ℤ → List (Turn (TaskParams cards.Card Error)) → World → World
    unfolding process_import_task cancel
    import_turns existing op time [] w = w
    import_turns existing op time (handles p ∷ ts) w =
        import_turns existing op time ts (process_import_task existing op time p w)
    import_turns existing op time (cancels ∷ ts) w =
        import_turns existing op time ts (cancel_import op w)

    unfoldable pub process_all_import_tasks :
        List String → ℕ → ℤ → List (TaskParams cards.Card Error) → World → World
    unfolding import_turns
    process_all_import_tasks existing op time ps w =
        import_turns existing op time (sched.exec (is_cancelled om w.registry op) ps) w

    -- What follows `FindURLs`; an error leaves the operation as it is.
    abbrev pub imported :
        TaskMap cards.Card Error
        → ℕ
        → ℤ
        → ℤ
        → Result Error (List String) × World
        → Result Error ℕ × World
    imported tasks op time now (err e, w) = (err e, w)
    imported tasks op time now (ok existing, w) =
        let done =
          process_all_import_tasks existing op time (params_list tasks tasks.valid_urls 0) (
            with_report op (set_url_counts (length tasks.valid_urls) (length tasks.invalid_urls))
              w) in
        (ok op, record done { registry = (mark_terminated om done.registry op now).1 })

    -- The URLs are looked up once the operation is there and its total set.
    abbrev pub search_urls : List String → World → Result Error (List String) × World
    search_urls urls w =
        let (r, s) = on_records k cards rs bs (find_urls urls) w.catalog in
        (r, record w { catalog = s })

    -- `op` is what the generator returns; `time` and `now` are the times of its start and its end.
    unfoldable pub import_urls : String → String → ℕ → ℤ → ℤ → World → Result Error ℕ × World
    unfolding process_all_import_tasks
    import_urls raw vault op time now w =
        let urls = importer.split_lines raw in
        let tasks = importer.task_map_of urls in
        let begun = record w {
          registry = (new_operation om w.registry op time vault import_action).1;
        } in
        imported tasks op time now
          (search_urls tasks.valid_urls (with_report op (set_total (length urls)) begun))
