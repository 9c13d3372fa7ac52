-- ===== src/Facade/Integrity.antt =====
-- facade/sync_integrity.go: the worker of `CheckIntegrity`.
use card_client.Prelude.{ℕ, ◌+◌, String, List, [], ◌∷◌, ◌++◌, Bool, true, false, length}
use card_client.Prelude.Int.{ℤ}
use card_client.Prelude.Outcome.{Exec, Result, ok, err}
use card_client.Resource.Types.{Record, Toolkit, RecordIntegrity, intact, fixed, broken}
use card_client.Operation.Types.{OperationEntry, Report}
use card_client.Operation.Ordered.{OrderedMap}
use card_client.Operation.Registry.{Registry, mutate_report, mark_terminated, cancel}
use card_client.Catalog.Stores.{Cards, RecordStore, BlobStore}
use card_client.Catalog.Cards.{Catalog, on_records, basic_integrity, fix_record_integrity}
use card_client.Facade.Schedule.{Turn, handles, cancels, Scheduler, is_cancelled}

unfoldable pub integrity_progress : String → RecordIntegrity → Report → Report
integrity_progress title intact report = record report {
  progress = report.progress + 1;
  no_successes = report.no_successes + 1;
}
integrity_progress title broken report = record report {
  progress = report.progress + 1;
  aux_data = report.aux_data ++ (title ∷ []);
  no_failures = report.no_failures + 1;
}
integrity_progress title fixed report = record report {
  progress = report.progress + 1;
  no_fixes = report.no_fixes + 1;
}

module _ {Rest Error : Type 0} (k : Toolkit Rest) (cards : Cards Rest)
    (rs : RecordStore cards.Card Error) (bs : BlobStore cards.Card Error)
    (find_records : List ℕ → Exec rs.State Error (List Record))
    (cleanup_creators : Exec rs.State Error ℕ) (sched : Scheduler Record)
    (om : OrderedMap OperationEntry) where
  pub record World : Type 0 where
    pub catalog : Catalog k cards rs bs
    pub registry : Registry om

  abbrev pub with_report : ℕ → (Report → Report) → World → World
  with_report op f w = record w { registry = (mutate_report om w.registry op f).1 }

  -- `processSingleIntegrity` and `updateIntegrityProgress`.
  unfoldable pub check_record : ℕ → Record → World → World
  unfolding fix_record_integrity
  check_record op r w =
      let (status, s) = fix_record_integrity k cards rs bs r w.catalog in
      with_report op (integrity_progress r.info.title status) (record w { catalog = s })

  abbrev pub cancel_check : ℕ → World → World
  cancel_check op w = record w { registry = (cancel om w.registry op).1 }

  unfoldable pub check_turns : ℕ → List (Turn Record) → World → World
  unfolding check_record cancel
  check_turns op [] w = w
  check_turns op (handles r ∷ ts) w = check_turns op ts (check_record op r w)
  check_turns op (cancels ∷ ts) w = check_turns op ts (cancel_check op w)

  unfoldable pub check_all_record_integrity : ℕ → List Record → World → World
  unfolding check_turns
  check_all_record_integrity op found w =
      check_turns op (sched.exec (is_cancelled om w.registry op) found) w

  abbrev pub checked : ℕ → Result Error (List Record) × World → World
  checked op (err e, w) = w
  checked op (ok found, w) = check_all_record_integrity op found w

  abbrev pub read_records : List ℕ → World → Result Error (List Record) × World
  read_records rids w =
      let (r, s) = on_records k cards rs bs (find_records rids) w.catalog in
      (r, record w { catalog = s })

  unfoldable pub process_integrity_records : ℕ → List ℕ → World → World
  unfolding check_all_record_integrity
  process_integrity_records op rids w =
      checked op
        (read_records rids (with_report op (λ report. record report { total = length rids }) w))

  -- `CleanupCreators`, whose error is dropped.
  abbrev pub cleaned : World → World
  cleaned w = record w { catalog = (on_records k cards rs bs cleanup_creators w.catalog).1 }

  abbrev pub after_basic : ℕ → List ℕ × Bool → World → World
  after_basic op (rids, false) w = w
  after_basic op (rids, true) w = cleaned (process_integrity_records op rids w)

  unfoldable pub run_integrity_worker : ℕ → ℤ → World → World
  unfolding basic_integrity process_integrity_records
  run_integrity_worker op now w =
      let (answer, s) = basic_integrity k cards rs bs w.catalog in
      let done = after_basic op answer (record w { catalog = s }) in
      record done { registry = (mark_terminated om done.registry op now).1 }
