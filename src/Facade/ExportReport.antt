-- ===== src/Facade/ExportReport.antt =====
-- facade/export.go and facade/export_latest.go: the compiled template, and the report of an export.
use card_client.Prelude.{
  ℕ, suc, ◌+◌, String, List, [], ◌∷◌, ◌++◌, Bool, true, false, some, length, str_eq, eq_iff, ◌≡◌,
  refl, arith, ap, sym, subst, ◌∙◌, Bool-cases, inl, inr,
}
use mathlib.Core.List.{append-nil, append_assoc}
use card_client.Prelude.Int.{ℤ}
use card_client.Prelude.Outcome.{Result, ok, err}
use card_client.Resource.Types.{Record, Toolkit}
use card_client.Operation.Types.{OperationEntry, Report, ongoing}
use card_client.Operation.Ordered.{OrderedMap}
use card_client.Operation.Registry.{empty_report, terminated, mark_terminated}
use card_client.Operation.Lifecycle.{get-mutate_report, get-mark_terminated}
use card_client.Catalog.Stores.{Cards, RecordStore, BlobStore}
use card_client.Catalog.Cards.{Catalog, on_records}
use card_client.Facade.Cache.{push}
use card_client.Facade.Schedule.{
  Turn, handles, cancels, handled, cancelled_by, Scheduler, Covers, exec-Covers, cancelled_in,
  get-cancel, covered,
}
use card_client.Facade.Export.{
  Exporter, ExportResult, export_progress, Compiled, get_compiled_template, World, ExportContext,
  with_report, export_card, handle_export, cancel_export, export_turns, process_all_exports,
  run_export_worker, looked_up, read_bytes, written, write_card,
}

module _ {Error : Type 0} (ex : Exporter Error) where
  -- The compiled template is that of the template kept beside it.
  abbrev pub Current : Compiled ex → Type 0
  Current c = c.compiled_template ≡ ex.compile c.template

  -- The template of an export is compiled from what the preferences hold at that time, if the
  -- template that was kept was compiled from its own text, and that stays so.
  pub get_compiled_template-Current :
      (new_template : String) (c : Compiled ex)
      → Current c
      → ((get_compiled_template ex new_template c).0 ≡ ex.compile new_template)
        × Current (get_compiled_template ex new_template c).1
  unfolding get_compiled_template
  get_compiled_template-Current new_template c current =
      elim (Bool-cases (str_eq c.template new_template)) [
        | inl same ↦
            rw same (current ∙ ap ex.compile ((eq_iff c.template new_template).0 same), current)
        | inr differs ↦ rw differs (refl, refl)
      ]

abbrev Adds : ℕ → Report → Report → Type 0
Adds n before after =
    (after.progress ≡ before.progress + n)
    × (after.no_successes + after.no_failures ≡ before.no_successes + before.no_failures + n)
    × (after.total ≡ before.total)

export_progress-Adds :
    (identifier : String) (success : Bool) (report : Report)
    → Adds 1 report (export_progress (record { identifier = identifier; success = success }) report)
unfolding export_progress
export_progress-Adds identifier true r = (refl, omega arith, refl)
export_progress-Adds identifier false r = (refl, omega arith, refl)

Adds-suc : (n : ℕ) (r s t : Report) → Adds 1 r s → Adds n s t → Adds (suc n) r t
Adds-suc n r s t (h0, h1, h2) (g0, g1, g2) = (omega arith, omega arith, g2 ∙ h2)

Adds-fresh :
    (n total : ℕ) (r after : Report)
    → r ≡ empty_report
    → Adds n (record r { total = total }) after
    → (after.total ≡ total)
      × (after.progress ≡ n)
      × (after.no_successes + after.no_failures ≡ after.progress)
Adds-fresh n total r after fresh adds =
    let (h0, h1, h2) = subst (λ x. Adds n (record x { total = total }) after) fresh adds in
    (h2, omega arith, omega arith)

module _ {Error Rest : Type 0} (ex : Exporter Error) (k : Toolkit Rest) (cards : Cards Rest)
    (rs : RecordStore cards.Card Error) (bs : BlobStore cards.Card Error)
    (get_card_bytes : ℕ → ℤ → bs.State → Result Error ex.Bytes)
    (om : OrderedMap OperationEntry) where
  abbrev World' : Type 0
  World' = World ex k cards rs bs get_card_bytes om

  abbrev Context : Type 0
  Context = ExportContext ex k cards rs bs get_card_bytes om

  abbrev Holds : World' → ℕ → OperationEntry → Report → Type 0
  Holds w op e report = om.get w.registry.operations op ≡ some (record e { report = report })

  -- An export touches neither the registry nor the requests.
  abbrev Keeps : World' → ExportResult × World' → Type 0
  Keeps w (result, w') = (w'.registry ≡ w.registry) × (w'.cache ≡ w.cache)

  written-Keeps :
      (c : Context) (rid : ℕ) (r : Record) (x : Result Error (Unit {0}) × ex.Files) (w : World')
      → Keeps w (written ex k cards rs bs get_card_bytes om c rid r x w)
  written-Keeps c rid r (err e, f) w = (refl, refl)
  written-Keeps c rid r (ok t, f) w = (refl, refl)

  read_bytes-Keeps :
      (c : Context) (rid : ℕ) (r : Record) (x : Result Error ex.Bytes) (w : World')
      → Keeps w (read_bytes ex k cards rs bs get_card_bytes om c rid r x w)
  unfolding write_card
  read_bytes-Keeps c rid r (err e) w = (refl, refl)
  read_bytes-Keeps c rid r (ok card) w = written-Keeps c rid r _ w

  looked_up-Keeps :
      (c : Context) (rid : ℕ) (x : Result Error Record × Catalog k cards rs bs) (w : World')
      → Keeps w (looked_up ex k cards rs bs get_card_bytes om c rid x w)
  looked_up-Keeps c rid (err e, s) w = (refl, refl)
  looked_up-Keeps c rid (ok r, s) w =
      read_bytes-Keeps c rid r (get_card_bytes rid r.info.update_time s.blobs)
        (record w { catalog = s })

  export_card-Keeps :
      (c : Context) (rid : ℕ) (w : World')
      → Keeps w (export_card ex k cards rs bs get_card_bytes om c rid w)
  unfolding export_card
  export_card-Keeps c rid w =
      looked_up-Keeps c rid (on_records k cards rs bs (rs.find_record rid) w.catalog) w

  handle_export-Holds :
      (c : Context) (rid : ℕ) (w : World') (e : OperationEntry) (report : Report)
      → Holds w c.operation e report
      → Holds
          (handle_export ex k cards rs bs get_card_bytes om c rid w)
          c.operation
          e
          (export_progress (export_card ex k cards rs bs get_card_bytes om c rid w).0 report)
  unfolding handle_export
  handle_export-Holds c rid w e report h =
      get-mutate_report om (export_card ex k cards rs bs get_card_bytes om c rid w).1.registry
        c.operation (export_progress (export_card ex k cards rs bs get_card_bytes om c rid w).0)
        (record e { report = report })
        (ap (λ r. om.get r.operations c.operation) (export_card-Keeps c rid w).0 ∙ h)

  handle_export-rids :
      (c : Context) (rid : ℕ) (w : World')
      → (handle_export ex k cards rs bs get_card_bytes om c rid w).cache.rids
        ≡ w.cache.rids ++ (rid ∷ [])
  unfolding handle_export push
  handle_export-rids c rid w = ap (λ q. q.rids ++ (rid ∷ [])) (export_card-Keeps c rid w).1

  export_turns-Adds :
      (c : Context) (ts : List (Turn ℕ)) (w : World') (e : OperationEntry) (report : Report)
      → Holds w c.operation e report
      → (after : Report) × Holds
          (export_turns ex k cards rs bs get_card_bytes om c ts w)
          c.operation
          (record e { is_cancelled = cancelled_by ts e.is_cancelled })
          after
        × Adds (length (handled ts)) report after
        × ((export_turns ex k cards rs bs get_card_bytes om c ts w).cache.rids
            ≡ w.cache.rids ++ handled ts)
  unfolding export_turns
  export_turns-Adds c [] w e report h =
      (report, h, (ground arith, ground arith, refl), sym (append-nil w.cache.rids))
  export_turns-Adds c (cancels ∷ ts) w e report h =
      export_turns-Adds c ts (cancel_export ex k cards rs bs get_card_bytes om c.operation w)
        (record e { is_cancelled = true }) report
        (get-cancel om w.registry c.operation (record e { report = report }) h)
  export_turns-Adds c (handles rid ∷ ts) w e report h =
      let result = (export_card ex k cards rs bs get_card_bytes om c rid w).0 in
      let (after, holds, adds, pushed) =
        export_turns-Adds c ts (handle_export ex k cards rs bs get_card_bytes om c rid w) e
          (export_progress result report) (handle_export-Holds c rid w e report h) in
      (
        after,
        holds,
        Adds-suc (length (handled ts)) report (export_progress result report) after
            (export_progress-Adds result.identifier result.success report) adds,
        pushed
            ∙ ap (λ q. q ++ handled ts) (handle_export-rids c rid w)
            ∙ append_assoc w.cache.rids (rid ∷ []) (handled ts),
      )

  -- The turns that the scheduler makes of an export of some cards.
  abbrev pub turns_of : Scheduler ℕ → OperationEntry → List ℕ → List (Turn ℕ)
  turns_of sched e rids = sched.exec e.is_cancelled rids

  abbrev Ends : List (Turn ℕ) → List ℕ → ℕ → ℤ → OperationEntry → World' → World' → Type 0
  Ends ts rids op now e before w =
      (report : Report) × (om.get w.registry.operations op
        ≡ some (
            terminated om
              (record e { report = report; is_cancelled = cancelled_by ts e.is_cancelled }) now))
      × (report.total ≡ length rids)
      × (report.progress ≡ length (handled ts))
      × Covers (cancelled_by ts e.is_cancelled) report.progress report.total
      × (report.no_successes + report.no_failures ≡ report.progress)
      × (w.cache.rids ≡ before.cache.rids ++ handled ts)

  abbrev finished : ℕ → ℤ → World' → World'
  finished op now w = record w { registry = (mark_terminated om w.registry op now).1 }

  abbrev begun : ℕ → List ℕ → World' → World'
  begun op rids w =
      with_report ex k cards rs bs get_card_bytes om op
        (λ report. record report { total = length rids }) w

  turns-Ends :
      (sched : Scheduler ℕ) (c : Context) (now : ℤ) (rids : List ℕ) (w : World')
      (e : OperationEntry)
      → om.get w.registry.operations c.operation ≡ some e
      → e.report ≡ empty_report
      → e.details.status ≡ ongoing
      → Ends (turns_of sched e rids) rids c.operation now e w (
          finished c.operation now (
            export_turns ex k cards rs bs get_card_bytes om c
              (turns_of sched e rids)
              (begun c.operation rids w)))
  turns-Ends sched c now rids w e found fresh runs =
      let total : Report → Report = λ r. record r { total = length rids } in
      let ts = turns_of sched e rids in
      let (after, holds, adds, pushed) =
        export_turns-Adds c ts (begun c.operation rids w) e (total e.report)
          (get-mutate_report om w.registry c.operation total e found) in
      let (h0, h1, h2) = Adds-fresh (length (handled ts)) (length rids) e.report after fresh adds in
      (
        after,
        get-mark_terminated om
            (export_turns ex k cards rs bs get_card_bytes om c ts
              (begun c.operation rids w)).registry
            c.operation now
            (record e { report = after; is_cancelled = cancelled_by ts e.is_cancelled }) holds runs,
        h0,
        h1,
        covered (cancelled_by ts e.is_cancelled) h1 h0 (exec-Covers sched e.is_cancelled rids),
        h2,
        pushed,
      )

  -- An export of some cards, under an operation that is ongoing with an empty report and that other
  -- goroutines may cancel at any time, gives a report whose total is the number of the cards and
  -- whose progress is the number of those that the scheduler started: no more than the total, and
  -- the total if the operation was never cancelled. Successes and failures add up to the progress.
  -- The export ends its operation, as cancelled if it was, and asks for a payload for each card
  -- that was started.
  pub run_export_worker-adds_up :
      (sched : Scheduler ℕ) (c : Context) (now : ℤ) (rids : List ℕ) (w : World')
      (e : OperationEntry)
      → om.get w.registry.operations c.operation ≡ some e
      → e.report ≡ empty_report
      → e.details.status ≡ ongoing
      → (report : Report) × (om.get
            (run_export_worker ex k cards rs bs get_card_bytes om sched c now rids
              w).registry.operations
            c.operation
          ≡ some (
              terminated om
                (record e {
                  report = report;
                  is_cancelled = cancelled_by (turns_of sched e rids) e.is_cancelled;
                })
                now))
        × (report.total ≡ length rids)
        × (report.progress ≡ length (handled (turns_of sched e rids)))
        × Covers (cancelled_by (turns_of sched e rids) e.is_cancelled) report.progress report.total
        × (report.no_successes + report.no_failures ≡ report.progress)
        × ((run_export_worker ex k cards rs bs get_card_bytes om sched c now rids w).cache.rids
            ≡ w.cache.rids ++ handled (turns_of sched e rids))
  unfolding run_export_worker process_all_exports
  run_export_worker-adds_up sched c now rids w e found fresh runs =
      let started =
        get-mutate_report om w.registry c.operation
          (λ report. record report { total = length rids }) e found in
      subst
        (λ b. Ends (turns_of sched e rids) rids c.operation now e w (
          finished c.operation now (
            export_turns ex k cards rs bs get_card_bytes om c (sched.exec b rids)
              (begun c.operation rids w))))
        (sym (ap (cancelled_in om) started)) (turns-Ends sched c now rids w e found fresh runs)
