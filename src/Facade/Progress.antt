-- ===== src/Facade/Progress.antt =====
-- facade/sync_update.go: what the report of an update adds up to.
use card_client.Prelude.{
  ℕ, suc, subst, ◌+◌, String, List, [], ◌∷◌, ◌++◌, Bool, true, false, none, some, if◌then◌else◌,
  length, ◌≡◌, refl, arith, ap, sym, ◌∙◌, Option-cases, inl, inr,
}
use mathlib.Core.List.{append-nil, append_assoc}
use card_client.Prelude.Int.{ℤ}
use card_client.Prelude.Outcome.{Result, ok, err}
use card_client.Resource.Types.{
  Record, Toolkit, SyncStatus, sync_failed, sync_success, sync_unchanged, sync_missing, sync_unset,
}
use card_client.Operation.Types.{OperationEntry, Report, ongoing}
use card_client.Operation.Ordered.{OrderedMap}
use card_client.Operation.Registry.{empty_report, terminated, mark_terminated}
use card_client.Operation.Lifecycle.{get-mutate_report, get-mark_terminated}
use card_client.Catalog.Metadata.{Metadata}
use card_client.Catalog.Stores.{Cards, RecordStore, BlobStore}
use card_client.Catalog.Cards.{Catalog, on_records, save_card}
use card_client.Facade.Cache.{push}
use card_client.Facade.Schedule.{
  Turn, handles, cancels, handled, cancelled_by, Scheduler, Covers, exec-Covers, cancelled_in,
  get-cancel, covered,
}
use card_client.Facade.Update.{
  Router, update_progress, update_single_card, World, with_report, handle_update, cancel_update,
  update_turns, process_all_cards, run_update_worker, saved, perform_full_update,
  execute_card_update, looked_up, mark_unchanged, determine_if_update_needed,
}

-- The statuses that an update ends with.
abbrev pub Final : SyncStatus → Type 0
Final sync_failed = Unit
Final sync_success = Unit
Final sync_unchanged = Unit
Final sync_missing = ⊥
Final sync_unset = ⊥

-- Each card counted once, under one of three outcomes.
abbrev pub Adds : ℕ → Report → Report → Type 0
Adds n before after =
    (after.progress ≡ before.progress + n)
    × (after.no_successes + after.no_unchanges + after.no_failures
        ≡ before.no_successes + before.no_unchanges + before.no_failures + n)
    × (length after.aux_data + before.no_failures ≡ length before.aux_data + after.no_failures)
    × (after.total ≡ before.total)

length-snoc : (xs : List String) (x : String) → length (xs ++ (x ∷ [])) ≡ length xs + 1
length-snoc [] x = refl
length-snoc (y ∷ xs) x = let h = length-snoc xs x in ground arith

update_progress-Adds :
    (title : String) (status : SyncStatus) (report : Report)
    → Final status
    → Adds 1 report (update_progress (record { title = title; status = status }) report)
unfolding update_progress
update_progress-Adds title sync_failed r f =
    let h = length-snoc r.aux_data title in (refl, omega arith, omega arith, refl)
update_progress-Adds title sync_success r f = (refl, omega arith, omega arith, refl)
update_progress-Adds title sync_unchanged r f = (refl, omega arith, omega arith, refl)
update_progress-Adds title sync_missing r f = elim f [ ]
update_progress-Adds title sync_unset r f = elim f [ ]

Adds-suc : (n : ℕ) (r s t : Report) → Adds 1 r s → Adds n s t → Adds (suc n) r t
Adds-suc n r s t (h0, h1, h2, h3) (g0, g1, g2, g3) =
    (omega arith, omega arith, omega arith, g3 ∙ h3)

Adds-fresh :
    (n total : ℕ) (r after : Report)
    → r ≡ empty_report
    → Adds n (record r { total = total }) after
    → (after.total ≡ total)
      × (after.progress ≡ n)
      × (after.no_successes + after.no_unchanges + after.no_failures ≡ after.progress)
      × (length after.aux_data ≡ after.no_failures)
Adds-fresh n total r after fresh adds =
    let (h0, h1, h2, h3) = subst (λ x. Adds n (record x { total = total }) after) fresh adds in
    (h3, omega arith, omega arith, omega arith)

module _ {Rest Error : Type 0} (k : Toolkit Rest) (cards : Cards Rest)
    (rs : RecordStore cards.Card Error) (bs : BlobStore cards.Card Error)
    (router : Router cards.Card Error) where
  saved-Final :
      (rid : ℕ) (time : ℤ) (title : String) (r : Result Error ℕ × Catalog k cards rs bs)
      → Final (saved k cards rs bs router rid time title r).0.0.status
  saved-Final rid time title (ok n, s) = tt
  saved-Final rid time title (err e, s) = tt

  perform_full_update-Final :
      (rid : ℕ) (time : ℤ) (title : String) (r : Result Error (Metadata × cards.Card))
      (s : Catalog k cards rs bs)
      → Final (perform_full_update k cards rs bs router rid time title r s).0.0.status
  perform_full_update-Final rid time title (err e) s = tt
  perform_full_update-Final rid time title (ok (metadata, card)) s =
      saved-Final rid time title (save_card k cards rs bs metadata card time none s)

  execute_card_update-Final :
      (force : Bool) (rid : ℕ) (time : ℤ) (r : Record) (fetched : Result Error Metadata)
      (all : Result Error (Metadata × cards.Card)) (s : Catalog k cards rs bs)
      → Final
          (execute_card_update k cards rs bs router force rid time r
            (record { fetch_metadata = fetched; fetch_all = all })
            s).0.0.status
  execute_card_update-Final force rid time r (err e) all s = tt
  execute_card_update-Final force rid time r (ok metadata) all s =
      decided (determine_if_update_needed k cards rs bs router force metadata r)
    where
      decided :
          (b : Bool)
          → Final
              (if b
                then perform_full_update k cards rs bs router rid time metadata.card_info.title all
                    s
                else mark_unchanged k cards rs bs router rid time metadata.card_info.title
                    s).0.0.status
      decided true = perform_full_update-Final rid time metadata.card_info.title all s
      decided false = tt

  looked_up-Final :
      (force : Bool) (rid : ℕ) (time : ℤ) (r : Result Error Record × Catalog k cards rs bs)
      → Final (looked_up k cards rs bs router force rid time r).0.0.status
  looked_up-Final force rid time (err e, s) = tt
  looked_up-Final force rid time (ok r, s) =
      elim (Option-cases (router.task_of r.info.normalized_url)) [
        | inl e ↦ rw e tt
        | inr (task, e) ↦
            rw e (execute_card_update-Final force rid time r task.fetch_metadata task.fetch_all s)
      ]

  -- An update of a card ends as failed, as successful or as unchanged.
  pub update_single_card-Final :
      (force : Bool) (rid : ℕ) (time : ℤ) (s : Catalog k cards rs bs)
      → Final (update_single_card k cards rs bs router force rid time s).0.0.status
  unfolding update_single_card
  update_single_card-Final force rid time s =
      looked_up-Final force rid time (on_records k cards rs bs (rs.find_record rid) s)

  module _ (om : OrderedMap OperationEntry) where
    abbrev World' : Type 0
    World' = World k cards rs bs router om

    -- The entry of an operation, with another report.
    abbrev Holds : World' → ℕ → OperationEntry → Report → Type 0
    Holds w op e report = om.get w.registry.operations op ≡ some (record e { report = report })

    handle_update-Holds :
        (force : Bool) (op : ℕ) (time : ℤ) (rid : ℕ) (w : World') (e : OperationEntry)
        (report : Report)
        → Holds w op e report
        → Holds (handle_update k cards rs bs router om force op time rid w) op e (
            update_progress
              (update_single_card k cards rs bs router force rid time w.catalog).0.0
              report)
    unfolding handle_update
    handle_update-Holds force op time rid w e report h =
        get-mutate_report om w.registry op
          (update_progress (update_single_card k cards rs bs router force rid time w.catalog).0.0)
          (record e { report = report }) h

    handle_update-cache :
        (force : Bool) (op : ℕ) (time : ℤ) (rid : ℕ) (w : World')
        → (handle_update k cards rs bs router om force op time rid w).cache ≡ push rid op w.cache
    unfolding handle_update
    handle_update-cache force op time rid w = refl

    update_turns-Adds :
        (force : Bool) (op : ℕ) (time : ℤ) (ts : List (Turn ℕ)) (w : World') (e : OperationEntry)
        (report : Report)
        → Holds w op e report
        → (after : Report) × Holds
            (update_turns k cards rs bs router om force op time ts w)
            op
            (record e { is_cancelled = cancelled_by ts e.is_cancelled })
            after
          × Adds (length (handled ts)) report after
          × ((update_turns k cards rs bs router om force op time ts w).cache.rids
              ≡ w.cache.rids ++ handled ts)
    unfolding update_turns push
    update_turns-Adds force op time [] w e report h =
        (report, h, (ground arith, ground arith, refl, refl), sym (append-nil w.cache.rids))
    update_turns-Adds force op time (cancels ∷ ts) w e report h =
        update_turns-Adds force op time ts (cancel_update k cards rs bs router om op w)
          (record e { is_cancelled = true }) report
          (get-cancel om w.registry op (record e { report = report }) h)
    update_turns-Adds force op time (handles rid ∷ ts) w e report h =
        let result = (update_single_card k cards rs bs router force rid time w.catalog).0.0 in
        let one =
          update_progress-Adds result.title result.status report
            (update_single_card-Final force rid time w.catalog) in
        let (after, holds, adds, pushed) =
          update_turns-Adds force op time ts
            (handle_update k cards rs bs router om force op time rid w) e
            (update_progress result report) (handle_update-Holds force op time rid w e report h) in
        (
          after,
          holds,
          Adds-suc (length (handled ts)) report (update_progress result report) after one adds,
          pushed
              ∙ ap (λ c. c.rids ++ handled ts) (handle_update-cache force op time rid w)
              ∙ append_assoc w.cache.rids (rid ∷ []) (handled ts),
        )

    -- The turns that the scheduler makes of an update of some cards.
    abbrev pub turns_of : Scheduler ℕ → OperationEntry → List ℕ → List (Turn ℕ)
    turns_of sched e rids = sched.exec e.is_cancelled rids

    abbrev Ends : List (Turn ℕ) → List ℕ → ℕ → ℤ → OperationEntry → World' → World' → Type 0
    Ends ts rids op now e before w =
        (report : Report) × (om.get w.registry.operations op
          ≡ some (
              terminated om
                (record e { report = report; is_cancelled = cancelled_by ts e.is_cancelled }) now))
        × (report.total ≡ length rids)
        × (report.progress ≡ length (handled ts))
        × Covers (cancelled_by ts e.is_cancelled) report.progress report.total
        × (report.no_successes + report.no_unchanges + report.no_failures ≡ report.progress)
        × (length report.aux_data ≡ report.no_failures)
        × (w.cache.rids ≡ before.cache.rids ++ handled ts)

    abbrev finished : ℕ → ℤ → World' → World'
    finished op now w = record w { registry = (mark_terminated om w.registry op now).1 }

    abbrev begun : ℕ → List ℕ → World' → World'
    begun op rids w =
        with_report k cards rs bs router om op (λ report. record report { total = length rids }) w

    turns-Ends :
        (sched : Scheduler ℕ) (force : Bool) (op : ℕ) (time now : ℤ) (rids : List ℕ) (w : World')
        (e : OperationEntry)
        → om.get w.registry.operations op ≡ some e
        → e.report ≡ empty_report
        → e.details.status ≡ ongoing
        → Ends (turns_of sched e rids) rids op now e w (
            finished op now (
              update_turns k cards rs bs router om force op time
                (turns_of sched e rids)
                (begun op rids w)))
    turns-Ends sched force op time now rids w e found fresh runs =
        let total : Report → Report = λ r. record r { total = length rids } in
        let ts = turns_of sched e rids in
        let (after, holds, adds, pushed) =
          update_turns-Adds force op time ts (begun op rids w) e (total e.report)
            (get-mutate_report om w.registry op total e found) in
        let (h0, h1, h2, h3) =
          Adds-fresh (length (handled ts)) (length rids) e.report after fresh adds in
        (
          after,
          get-mark_terminated om
              (update_turns k cards rs bs router om force op time ts (begun op rids w)).registry op
              now (record e { report = after; is_cancelled = cancelled_by ts e.is_cancelled }) holds
              runs,
          h0,
          h1,
          covered (cancelled_by ts e.is_cancelled) h1 h0 (exec-Covers sched e.is_cancelled rids),
          h2,
          h3,
          pushed,
        )

    -- An update of some cards, under an operation that is ongoing with an empty report and that other
    -- goroutines may cancel at any time, gives a report whose total is the number of the cards and
    -- whose progress is the number of those that the scheduler started: no more than the total, and
    -- the total if the operation was never cancelled. Successes, unchanged cards and failures add up
    -- to the progress, with one title listed for each failure. The update ends its operation, as
    -- cancelled if it was, and asks for a payload for each card that was started.
    pub run_update_worker-adds_up :
        (sched : Scheduler ℕ) (force : Bool) (op : ℕ) (time now : ℤ) (rids : List ℕ) (w : World')
        (e : OperationEntry)
        → om.get w.registry.operations op ≡ some e
        → e.report ≡ empty_report
        → e.details.status ≡ ongoing
        → (report : Report) × (om.get
              (run_update_worker k cards rs bs router om sched force op time now rids
                w).registry.operations
              op
            ≡ some (
                terminated om
                  (record e {
                    report = report;
                    is_cancelled = cancelled_by (turns_of sched e rids) e.is_cancelled;
                  })
                  now))
          × (report.total ≡ length rids)
          × (report.progress ≡ length (handled (turns_of sched e rids)))
          × Covers
              (cancelled_by (turns_of sched e rids) e.is_cancelled)
              report.progress
              report.total
          × (report.no_successes + report.no_unchanges + report.no_failures ≡ report.progress)
          × (length report.aux_data ≡ report.no_failures)
          × ((run_update_worker k cards rs bs router om sched force op time now rids w).cache.rids
              ≡ w.cache.rids ++ handled (turns_of sched e rids))
    unfolding run_update_worker process_all_cards
    run_update_worker-adds_up sched force op time now rids w e found fresh runs =
        let started =
          get-mutate_report om w.registry op (λ report. record report { total = length rids }) e
            found in
        subst
          (λ c. Ends (turns_of sched e rids) rids op now e w (
            finished op now (
              update_turns k cards rs bs router om force op time (sched.exec c rids)
                (begun op rids w))))
          (sym (ap (cancelled_in om) started))
          (turns-Ends sched force op time now rids w e found fresh runs)
