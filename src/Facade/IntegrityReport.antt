-- ===== src/Facade/IntegrityReport.antt =====
-- facade/sync_integrity.go: what the report of an integrity check adds up to.
use card_client.Prelude.{
  ℕ, suc, ◌+◌, String, List, [], ◌∷◌, true, length, some, ◌≡◌, refl, arith, ap, sym, subst, ◌∙◌,
}
use card_client.Prelude.Int.{ℤ}
use card_client.Prelude.Outcome.{Exec, ok}
use card_client.Resource.Types.{Record, Toolkit, RecordIntegrity, intact, fixed, broken}
use card_client.Operation.Types.{OperationEntry, Report, ongoing}
use card_client.Operation.Ordered.{OrderedMap}
use card_client.Operation.Registry.{mark_terminated, empty_report, terminated}
use card_client.Operation.Lifecycle.{get-mutate_report, get-mark_terminated}
use card_client.Catalog.Stores.{Cards, RecordStore, BlobStore}
use card_client.Catalog.Cards.{basic_integrity, fix_record_integrity}
use card_client.Facade.Schedule.{
  Turn, handles, cancels, handled, cancelled_by, Scheduler, Covers, exec-Covers, cancelled_in,
  get-cancel, covered,
}
use card_client.Facade.Integrity.{
  integrity_progress, World, with_report, check_record, cancel_check, check_turns,
  check_all_record_integrity, process_integrity_records, run_integrity_worker, checked, after_basic,
  read_records, cleaned,
}

-- Each record counted once, under one of three verdicts.
abbrev Adds : ℕ → Report → Report → Type 0
Adds n before after =
    (after.progress ≡ before.progress + n)
    × (after.no_successes + after.no_fixes + after.no_failures
        ≡ before.no_successes + before.no_fixes + before.no_failures + n)
    × (after.total ≡ before.total)

integrity_progress-Adds :
    (title : String) (v : RecordIntegrity) (report : Report)
    → Adds 1 report (integrity_progress title v report)
unfolding integrity_progress
integrity_progress-Adds title intact r = (refl, omega arith, refl)
integrity_progress-Adds title fixed r = (refl, omega arith, refl)
integrity_progress-Adds title broken r = (refl, omega arith, refl)

Adds-suc : (n : ℕ) (r s t : Report) → Adds 1 r s → Adds n s t → Adds (suc n) r t
Adds-suc n r s t (h0, h1, h2) (g0, g1, g2) = (omega arith, omega arith, g2 ∙ h2)

Adds-fresh :
    (n total : ℕ) (r after : Report)
    → r ≡ empty_report
    → Adds n (record r { total = total }) after
    → (after.total ≡ total)
      × (after.progress ≡ n)
      × (after.no_successes + after.no_fixes + after.no_failures ≡ after.progress)
Adds-fresh n total r after fresh adds =
    let (h0, h1, h2) = subst (λ x. Adds n (record x { total = total }) after) fresh adds in
    (h2, omega arith, omega arith)

module _ {Rest Error : Type 0} (k : Toolkit Rest) (cards : Cards Rest)
    (rs : RecordStore cards.Card Error) (bs : BlobStore cards.Card Error)
    (find_records : List ℕ → Exec rs.State Error (List Record))
    (cleanup_creators : Exec rs.State Error ℕ) (sched : Scheduler Record)
    (om : OrderedMap OperationEntry) where
  abbrev World' : Type 0
  World' = World k cards rs bs find_records cleanup_creators sched om

  abbrev Holds : World' → ℕ → OperationEntry → Report → Type 0
  Holds w op e report = om.get w.registry.operations op ≡ some (record e { report = report })

  check_turns-Adds :
      (op : ℕ) (ts : List (Turn Record)) (w : World') (e : OperationEntry) (report : Report)
      → Holds w op e report
      → (after : Report) × Holds
          (check_turns k cards rs bs find_records cleanup_creators sched om op ts w)
          op
          (record e { is_cancelled = cancelled_by ts e.is_cancelled })
          after
        × Adds (length (handled ts)) report after
  unfolding check_turns check_record
  check_turns-Adds op [] w e report h = (report, h, (ground arith, ground arith, refl))
  check_turns-Adds op (cancels ∷ ts) w e report h =
      check_turns-Adds op ts
        (cancel_check k cards rs bs find_records cleanup_creators sched om op w)
        (record e { is_cancelled = true }) report
        (get-cancel om w.registry op (record e { report = report }) h)
  check_turns-Adds op (handles r ∷ ts) w e report h =
      let v = (fix_record_integrity k cards rs bs r w.catalog).0 in
      let f = integrity_progress r.info.title v in
      let (after, holds, adds) =
        check_turns-Adds op ts
          (check_record k cards rs bs find_records cleanup_creators sched om op r w) e (f report)
          (get-mutate_report om w.registry op f (record e { report = report }) h) in
      (
        after,
        holds,
        Adds-suc (length (handled ts)) report (f report) after
            (integrity_progress-Adds r.info.title v report) adds,
      )

  -- The turns that the scheduler makes of a check of some records.
  abbrev pub turns_of : OperationEntry → List Record → List (Turn Record)
  turns_of e found = sched.exec e.is_cancelled found

  -- The world once the basic check is over.
  abbrev basic : World' → World'
  basic w = record w { catalog = (basic_integrity k cards rs bs w.catalog).1 }

  abbrev Ends : List (Turn Record) → ℕ → ℕ → ℕ → ℤ → OperationEntry → World' → Type 0
  Ends ts total n op now e w =
      (report : Report) × (om.get w.registry.operations op
        ≡ some (
            terminated om
              (record e { report = report; is_cancelled = cancelled_by ts e.is_cancelled }) now))
      × (report.total ≡ total)
      × (report.progress ≡ length (handled ts))
      × Covers (cancelled_by ts e.is_cancelled) report.progress n
      × (report.no_successes + report.no_fixes + report.no_failures ≡ report.progress)

  -- `MarkTerminated`, which is deferred.
  abbrev finished : ℕ → ℤ → World' → World'
  finished op now w = record w { registry = (mark_terminated om w.registry op now).1 }

  abbrev total_of : List ℕ → Report → Report
  total_of rids report = record report { total = length rids }

  abbrev begun : ℕ → List ℕ → World' → World'
  begun op rids w =
      with_report k cards rs bs find_records cleanup_creators sched om op (total_of rids) w

  abbrev seen : ℕ → List ℕ → World' → World'
  seen op rids w =
      (read_records k cards rs bs find_records cleanup_creators sched om rids (begun op rids w)).1

  turns-Ends :
      (op : ℕ) (now : ℤ) (w : World') (e : OperationEntry) (rids : List ℕ) (found : List Record)
      → om.get w.registry.operations op ≡ some e
      → e.report ≡ empty_report
      → e.details.status ≡ ongoing
      → Ends (turns_of e found) (length rids) (length found) op now e (
          finished op now (
            cleaned k cards rs bs find_records cleanup_creators sched om (
              check_turns k cards rs bs find_records cleanup_creators sched om op
                (turns_of e found)
                (seen op rids w))))
  turns-Ends op now w e rids found here fresh runs =
      let ts = turns_of e found in
      let (after, holds, adds) =
        check_turns-Adds op ts (seen op rids w) e (total_of rids e.report)
          (get-mutate_report om w.registry op (total_of rids) e here) in
      let (h0, h1, h2) = Adds-fresh (length (handled ts)) (length rids) e.report after fresh adds in
      (
        after,
        get-mark_terminated om
            (check_turns k cards rs bs find_records cleanup_creators sched om op ts
              (seen op rids w)).registry
            op now (record e { report = after; is_cancelled = cancelled_by ts e.is_cancelled })
            holds runs,
        h0,
        h1,
        covered (cancelled_by ts e.is_cancelled) h1 refl (exec-Covers sched e.is_cancelled found),
        h2,
      )

  process-Ends :
      (op : ℕ) (now : ℤ) (w : World') (e : OperationEntry) (rids : List ℕ) (found : List Record)
      → om.get w.registry.operations op ≡ some e
      → e.report ≡ empty_report
      → e.details.status ≡ ongoing
      → (find_records rids w.catalog.records).0 ≡ ok found
      → Ends (turns_of e found) (length rids) (length found) op now e (
          finished op now
            (after_basic k cards rs bs find_records cleanup_creators sched om op (rids, true) w))
  unfolding process_integrity_records check_all_record_integrity
  process-Ends op now w e rids found here fresh runs read =
      let started = get-mutate_report om w.registry op (total_of rids) e here in
      subst
        (λ r. Ends (turns_of e found) (length rids) (length found) op now e (
          finished op now (
            cleaned k cards rs bs find_records cleanup_creators sched om (
              checked k cards rs bs find_records cleanup_creators sched om op
                (r, seen op rids w)))))
        (sym read)
        (subst
          (λ c. Ends (turns_of e found) (length rids) (length found) op now e (
            finished op now (
              cleaned k cards rs bs find_records cleanup_creators sched om (
                check_turns k cards rs bs find_records cleanup_creators sched om op
                  (sched.exec c found) (seen op rids w)))))
          (sym (ap (cancelled_in om) started)) (turns-Ends op now w e rids found here fresh runs))

  -- An integrity check under an operation that is ongoing with an empty report and that other
  -- goroutines may cancel while the records are checked, whose basic check passes with some RIDs and
  -- which then reads some records for them, ends its operation, as cancelled if it was, with a report
  -- whose total is the number of RIDs and whose progress is the number of the records that the
  -- scheduler started: no more than were read, and all of these if the operation was never
  -- cancelled. Successes, fixes and failures add up to the progress.
  pub run_integrity_worker-adds_up :
      (op : ℕ) (now : ℤ) (w : World') (e : OperationEntry) (rids : List ℕ) (found : List Record)
      → om.get w.registry.operations op ≡ some e
      → e.report ≡ empty_report
      → e.details.status ≡ ongoing
      → (basic_integrity k cards rs bs w.catalog).0 ≡ (rids, true)
      → (find_records rids (basic_integrity k cards rs bs w.catalog).1.records).0 ≡ ok found
      → (report : Report) × (om.get
            (run_integrity_worker k cards rs bs find_records cleanup_creators sched om op now
              w).registry.operations
            op
          ≡ some (
              terminated om
                (record e {
                  report = report;
                  is_cancelled = cancelled_by (turns_of e found) e.is_cancelled;
                })
                now))
        × (report.total ≡ length rids)
        × (report.progress ≡ length (handled (turns_of e found)))
        × Covers (cancelled_by (turns_of e found) e.is_cancelled) report.progress (length found)
        × (report.no_successes + report.no_fixes + report.no_failures ≡ report.progress)
  unfolding run_integrity_worker
  run_integrity_worker-adds_up op now w e rids found here fresh runs passed read =
      subst
        (λ answer. Ends (turns_of e found) (length rids) (length found) op now e (
          finished op now
            (after_basic k cards rs bs find_records cleanup_creators sched om op answer (basic w))))
        (sym passed) (process-Ends op now (basic w) e rids found here fresh runs read)
