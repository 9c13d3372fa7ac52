-- ===== src/Facade/ImportReport.antt =====
-- facade/sync_import.go: what the report of an import adds up to, and when there is none.
use card_client.Prelude.{
  ℕ, suc, ◌+◌, String, List, [], ◌∷◌, true, false, some, length, ◌≡◌, refl, arith, ap, sym, subst,
  ◌∙◌,
}
use card_client.Prelude.Int.{ℤ}
use card_client.Prelude.Outcome.{Exec, Result, ok, err}
use card_client.Resource.Types.{
  Toolkit, ImportStatus, import_failed, import_success, import_duplicate,
}
use card_client.Operation.Types.{OperationEntry, Report, ongoing, import_action}
use card_client.Operation.Ordered.{OrderedMap}
use card_client.Operation.Registry.{
  new_operation, new_entry, empty_report, terminated, mark_terminated,
}
use card_client.Operation.Lifecycle.{get-set, get-mutate_report, get-mark_terminated}
use card_client.Catalog.Stores.{Cards, RecordStore, BlobStore}
use card_client.Facade.Schedule.{
  Turn, handles, cancels, handled, cancelled_by, Scheduler, Covers, exec-Covers, cancelled_in,
  get-cancel, covered,
}
use card_client.Facade.Import.{
  TaskMap, Importer, TaskParams, import_progress, determine_import_status, World, with_report,
  process_import_task, cancel_import, import_turns, process_all_import_tasks, import_urls, imported,
  search_urls, params_list, set_total, set_url_counts,
}

-- Each task counted once, under one of three outcomes; the other counts stay.
abbrev Adds : ℕ → Report → Report → Type 0
Adds n before after =
    (after.progress ≡ before.progress + n)
    × (after.no_successes + after.no_duplicates + after.no_failures
        ≡ before.no_successes + before.no_duplicates + before.no_failures + n)
    × (after.total ≡ before.total)
    × (after.no_valid_urls ≡ before.no_valid_urls)
    × (after.no_invalid_urls ≡ before.no_invalid_urls)

import_progress-Adds :
    (status : ImportStatus) (url : String) (report : Report)
    → Adds 1 report (import_progress status url report)
unfolding import_progress
import_progress-Adds import_failed url r = (refl, omega arith, refl, refl, refl)
import_progress-Adds import_success url r = (refl, omega arith, refl, refl, refl)
import_progress-Adds import_duplicate url r = (refl, omega arith, refl, refl, refl)

Adds-suc : (n : ℕ) (r s t : Report) → Adds 1 r s → Adds n s t → Adds (suc n) r t
Adds-suc n r s t (h0, h1, h2, h3, h4) (g0, g1, g2, g3, g4) =
    (omega arith, omega arith, g2 ∙ h2, g3 ∙ h3, g4 ∙ h4)

length-params_list :
    {Card Error : Type 0} (tasks : TaskMap Card Error) (urls : List String) (i : ℕ)
    → length (params_list tasks urls i) ≡ length urls
length-params_list tasks [] i = refl
length-params_list tasks (url ∷ urls) i = ap suc (length-params_list tasks urls (suc i))

module _ {Rest Error : Type 0} (k : Toolkit Rest) (cards : Cards Rest)
    (rs : RecordStore cards.Card Error) (bs : BlobStore cards.Card Error)
    (find_urls : List String → Exec rs.State Error (List String))
    (importer : Importer cards.Card Error) (sched : Scheduler (TaskParams cards.Card Error))
    (om : OrderedMap OperationEntry) where
  abbrev World' : Type 0
  World' = World k cards rs bs find_urls importer sched om

  abbrev Holds : World' → ℕ → OperationEntry → Report → Type 0
  Holds w op e report = om.get w.registry.operations op ≡ some (record e { report = report })

  import_turns-Adds :
      (existing : List String) (op : ℕ) (time : ℤ) (ts : List (Turn (TaskParams cards.Card Error)))
      (w : World') (e : OperationEntry) (report : Report)
      → Holds w op e report
      → (after : Report) × Holds
          (import_turns k cards rs bs find_urls importer sched om existing op time ts w)
          op
          (record e { is_cancelled = cancelled_by ts e.is_cancelled })
          after
        × Adds (length (handled ts)) report after
  unfolding import_turns process_import_task
  import_turns-Adds existing op time [] w e report h =
      (report, h, (ground arith, ground arith, refl, refl, refl))
  import_turns-Adds existing op time (cancels ∷ ts) w e report h =
      import_turns-Adds existing op time ts
        (cancel_import k cards rs bs find_urls importer sched om op w)
        (record e { is_cancelled = true }) report
        (get-cancel om w.registry op (record e { report = report }) h)
  import_turns-Adds existing op time (handles p ∷ ts) w e report h =
      let status =
        (determine_import_status k cards rs bs find_urls importer sched existing time p
          w.catalog).0 in
      let f = import_progress status p.task.original_url in
      let (after, holds, adds) =
        import_turns-Adds existing op time ts
          (process_import_task k cards rs bs find_urls importer sched om existing op time p w) e
          (f report) (get-mutate_report om w.registry op f (record e { report = report }) h) in
      (
        after,
        holds,
        Adds-suc (length (handled ts)) report (f report) after
            (import_progress-Adds status p.task.original_url report) adds,
      )

  -- The turns that the scheduler makes of the tasks of an import, whose context is new.
  abbrev pub turns_of : TaskMap cards.Card Error → List (Turn (TaskParams cards.Card Error))
  turns_of tasks = sched.exec false (params_list tasks tasks.valid_urls 0)

  abbrev pub tasks_of : String → TaskMap cards.Card Error
  tasks_of raw = importer.task_map_of (importer.split_lines raw)

  abbrev finished : ℕ → ℤ → World' → World'
  finished op now w = record w { registry = (mark_terminated om w.registry op now).1 }

  begun : String → String → ℕ → ℤ → World' → World'
  begun raw vault op time w =
      with_report k cards rs bs find_urls importer sched om op
        (set_total (length (importer.split_lines raw)))
        (record w { registry = (new_operation om w.registry op time vault import_action).1 })

  begun-Holds :
      (raw vault : String) (op : ℕ) (time : ℤ) (w : World')
      → Holds
          (begun raw vault op time w)
          op
          (new_entry om op time vault import_action)
          (set_total (length (importer.split_lines raw)) empty_report)
  unfolding begun new_operation
  begun-Holds raw vault op time w =
      get-mutate_report om (new_operation om w.registry op time vault import_action).1 op
        (set_total (length (importer.split_lines raw))) (new_entry om op time vault import_action)
        (get-set om w.registry.operations op (new_entry om op time vault import_action))

  -- The world once the URLs have been looked up.
  searched : String → String → ℕ → ℤ → World' → World'
  searched raw vault op time w =
      (search_urls k cards rs bs find_urls importer sched om
        (importer.task_map_of (importer.split_lines raw)).valid_urls (begun raw vault op time w)).1

  abbrev Ends : TaskMap cards.Card Error → ℕ → ℕ → ℤ → OperationEntry → World' → Type 0
  Ends tasks total op now e w =
      (report : Report) × (om.get w.registry.operations op
        ≡ some (
            terminated om
              (record e {
                report = report;
                is_cancelled = cancelled_by (turns_of tasks) e.is_cancelled;
              })
              now))
      × (report.total ≡ total)
      × (report.progress ≡ length tasks.invalid_urls + length (handled (turns_of tasks)))
      × Covers (cancelled_by (turns_of tasks) e.is_cancelled) (length (handled (turns_of tasks)))
          (length tasks.valid_urls)
      × (report.no_successes + report.no_duplicates + report.no_failures
          ≡ length (handled (turns_of tasks)))

  abbrev Leaks : Error → ℕ → OperationEntry → Result Error ℕ × World' → Type 0
  Leaks e op entry (r, w) = (r ≡ err e) × (om.get w.registry.operations op ≡ some entry)

  imported-Ends :
      (tasks : TaskMap cards.Card Error) (total op : ℕ) (time now : ℤ) (existing : List String)
      (w : World') (e : OperationEntry)
      → Holds w op e (set_total total empty_report)
      → e.details.status ≡ ongoing
      → e.is_cancelled ≡ false
      → Ends tasks total op now e
          (imported k cards rs bs find_urls importer sched om tasks op time now (ok existing, w)).1
  unfolding process_all_import_tasks
  imported-Ends tasks total op time now existing w e h runs live =
      let counts : Report → Report =
        set_url_counts (length tasks.valid_urls) (length tasks.invalid_urls) in
      let ps = params_list tasks tasks.valid_urls 0 in
      let before = with_report k cards rs bs find_urls importer sched om op counts w in
      let started =
        get-mutate_report om w.registry op counts
          (record e { report = set_total total empty_report }) h in
      let ts = turns_of tasks in
      let (after, holds, adds) =
        import_turns-Adds existing op time ts before e (counts (set_total total empty_report))
          started in
      subst
        (λ c. Ends tasks total op now e (
          finished op now (
            import_turns k cards rs bs find_urls importer sched om existing op time
              (sched.exec c ps) before)))
        (sym (ap (cancelled_in om) started ∙ live))
        (
          after,
          get-mark_terminated om
              (import_turns k cards rs bs find_urls importer sched om existing op time ts
                before).registry
              op now (record e { report = after; is_cancelled = cancelled_by ts e.is_cancelled })
              holds runs,
          adds.2,
          adds.0,
          subst (λ c. Covers (cancelled_by ts c) (length (handled ts)) (length tasks.valid_urls))
              (sym live)
              (covered (cancelled_by ts false) refl
                (sym (length-params_list tasks tasks.valid_urls 0)) (exec-Covers sched false ps)),
          adds.1 ∙ omega arith,
        )

  -- An import that finds out which URLs are there already, under an operation that other goroutines
  -- may cancel while the tasks run, ends its operation, as cancelled if it was. Its report's total is
  -- the number of lines; successes, duplicates and failures add up to the number of the tasks that the
  -- scheduler started, which are no more than the valid URLs, and as many as these if the operation
  -- was never cancelled; and its progress is that number and the number of the invalid URLs.
  pub import_urls-adds_up :
      (raw vault : String) (op : ℕ) (time now : ℤ) (w : World') (existing : List String)
      → (find_urls (importer.task_map_of (importer.split_lines raw)).valid_urls w.catalog.records).0
        ≡ ok existing
      → (report : Report) × (om.get
            (import_urls k cards rs bs find_urls importer sched om raw vault op time now
              w).1.registry.operations
            op
          ≡ some (
              terminated om
                (record (new_entry om op time vault import_action) {
                  report = report;
                  is_cancelled = cancelled_by (turns_of (tasks_of raw)) false;
                })
                now))
        × (report.total ≡ length (importer.split_lines raw))
        × (report.progress
            ≡ length (tasks_of raw).invalid_urls + length (handled (turns_of (tasks_of raw))))
        × Covers
            (cancelled_by (turns_of (tasks_of raw)) false)
            (length (handled (turns_of (tasks_of raw))))
            (length (tasks_of raw).valid_urls)
        × (report.no_successes + report.no_duplicates + report.no_failures
            ≡ length (handled (turns_of (tasks_of raw))))
  unfolding import_urls searched begun
  import_urls-adds_up raw vault op time now w existing found =
      subst
        (λ r.
          Ends (tasks_of raw) (length (importer.split_lines raw)) op now
            (new_entry om op time vault import_action)
            (imported k cards rs bs find_urls importer sched om (tasks_of raw) op time now
              (r, searched raw vault op time w)).1)
        (sym found)
        (imported-Ends (tasks_of raw) (length (importer.split_lines raw)) op time now existing
          (searched raw vault op time w) (new_entry om op time vault import_action)
          (begun-Holds raw vault op time w) refl refl)

  -- An import that cannot find out which URLs are there already returns the error and leaves its
  -- operation in the registry as ongoing.
  pub import_urls_leaks :
      (raw vault : String) (op : ℕ) (time now : ℤ) (w : World') (e : Error)
      → (find_urls (importer.task_map_of (importer.split_lines raw)).valid_urls w.catalog.records).0
        ≡ err e
      → ((import_urls k cards rs bs find_urls importer sched om raw vault op time now w).0 ≡ err e)
        × (om.get
              (import_urls k cards rs bs find_urls importer sched om raw vault op time now
                w).1.registry.operations
              op
            ≡ some (record (new_entry om op time vault import_action) {
              report = set_total (length (importer.split_lines raw)) empty_report;
            }))
  unfolding import_urls searched begun
  import_urls_leaks raw vault op time now w e failed =
      subst
        (λ r.
          Leaks e op
            (record (new_entry om op time vault import_action) {
              report = set_total (length (importer.split_lines raw)) empty_report;
            })
            (imported k cards rs bs find_urls importer sched om
              (importer.task_map_of (importer.split_lines raw)) op time now
              (r, searched raw vault op time w)))
        (sym failed) (refl, begun-Holds raw vault op time w)
