-- ===== src/Operation/Lifecycle.antt =====
-- operation/opcache/opcache.go: an operation from its start to the report that drops it.
use card_client.Prelude.{
  ℕ, List, [], ◌∷◌, Bool, true, false, not, Option, none, some, if◌then◌else◌, ◌≡◌, refl, arith,
  Bool-cases, Option-cases, inl, inr, All, contains, map, ap, ◌∙◌, sym,
}
use card_client.Prelude.Int.{ℤ}
use card_client.Prelude.Assoc.{lookup, Unique, lookup-insert, All-lookup}
use card_client.Operation.Types.{Report, ongoing, OperationEntry, UnifiedReport}
use card_client.Operation.Ordered.{OrderedMap}
use card_client.Operation.Registry.{
  Registry, mutate_report, already_terminated, mark_terminated, terminated, final_status,
  list_reports, is_ongoing, visit, reports_of,
}
use card_client.Operation.Reports.{Entries, IsWellFormed, survivors, entries-list_reports}
use card_client.Operation.Counting.{Inv, Reach, Reach-Inv, next, lists}

module _ (om : OrderedMap OperationEntry) where
  pub get-set : (m : om.Map) (k : ℕ) (v : OperationEntry) → om.get (om.set m k v) k ≡ some v
  get-set m k v = rw (om.get_lem, om.entries-set, lookup-insert k k v (om.entries m)) (ground arith)

  pub get-mutate_report :
      (r : Registry om) (op : ℕ) (f : Report → Report) (e : OperationEntry)
      → om.get r.operations op ≡ some e
      → om.get (mutate_report om r op f).1.operations op ≡ some (record e { report = f e.report })
  unfolding mutate_report
  get-mutate_report r op f e found =
      rw (found, mutate_report) (get-set r.operations op (record e { report = f e.report }))

  pub get-mark_terminated :
      (r : Registry om) (op : ℕ) (now : ℤ) (e : OperationEntry)
      → om.get r.operations op ≡ some e
      → e.details.status ≡ ongoing
      → om.get (mark_terminated om r op now).1.operations op ≡ some (terminated om e now)
  unfolding mark_terminated
  get-mark_terminated r op now e found runs =
      rw (found, mark_terminated, runs) (get-set r.operations op (terminated om e now))

  -- An operation does not end twice in a row: a call of `MarkTerminated` that succeeds makes the
  -- status `cancelled` if the operation's context was cancelled and `completed` if not, and if the
  -- next call is `MarkTerminated` for the same operation, it fails, names that status and changes
  -- nothing.
  pub mark_terminated_once :
      (r r' : Registry om) (op : ℕ) (now later : ℤ)
      → mark_terminated om r op now ≡ (none, r')
      → (e : OperationEntry) × (om.get r.operations op ≡ some e)
        × (om.get r'.operations op ≡ some (terminated om e now))
        × (mark_terminated om r' op later ≡ (some (already_terminated op (final_status om e)), r'))
  unfolding mark_terminated
  mark_terminated_once r r' op now later h = elim (Option-cases (om.get r.operations op)) [
    | inl e ↦ absurd (ground arith)
    | inr (e, at) ↦
        let there : om.get r'.operations op ≡ some (terminated om e now) =
          ground (arith, get-set r.operations op (terminated om e now)) in
        let over : is_ongoing (final_status om e) ≡ false = ground arith in
        (e, at, there, rw (there, mark_terminated, over) refl)
  ]

  -- Whether an entry is to be reported.
  abbrev shown : Option OperationEntry → Bool
  shown none = false
  shown (some e) = not e.details.disposable

  abbrev pub stays : Option OperationEntry → Option OperationEntry
  stays none = none
  stays (some e) = if e.details.disposable then none else some (visit om e)

  lookup-survivors :
      (k : ℕ) (es : Entries) → Unique es → lookup k (survivors om es) ≡ stays (lookup k es)
  unfolding lookup
  lookup-survivors k [] u = refl
  lookup-survivors k ((j, e) ∷ es) u = ground (arith, lookup-survivors k es u.1)

  abbrev pub ids : List UnifiedReport → List ℕ
  ids = map λ u. u.details.id

  contains-reports :
      (k : ℕ) (es : Entries)
      → All IsWellFormed es
      → Unique es
      → contains k (ids (reports_of om es)) ≡ shown (lookup k es)
  unfolding reports_of lookup
  contains-reports k [] a u = refl
  contains-reports k ((j, e) ∷ es) a u = ground (arith, contains-reports k es a.1 u.1)

  pub get-list_reports :
      (r : Registry om) (op : ℕ)
      → Inv om r
      → om.get (list_reports om r).1.operations op ≡ stays (om.get r.operations op)
  get-list_reports r op v =
      om.get_lem _ op
      ∙ ap (lookup op) (entries-list_reports om r v.formed)
      ∙ lookup-survivors op (om.entries r.operations) (om.entries-Unique r.operations)
      ∙ ap stays (sym (om.get_lem r.operations op))

  reports-list_reports :
      (r : Registry om) (op : ℕ)
      → Inv om r
      → contains op (ids (list_reports om r).0) ≡ shown (om.get r.operations op)
  unfolding list_reports
  reports-list_reports r op v =
      contains-reports op (om.entries r.operations) v.formed (om.entries-Unique r.operations)
      ∙ ap shown (sym (om.get_lem r.operations op))

  abbrev after_list : Registry om → Registry om
  after_list r = (list_reports om r).1

  stays_kept :
      (e : OperationEntry) → e.details.disposable ≡ false → stays (some e) ≡ some (visit om e)
  stays_kept e h = simp h refl

  shown_kept : (e : OperationEntry) → e.details.disposable ≡ false → shown (some e) ≡ true
  shown_kept e h = ground arith

  hidden : (e : OperationEntry) → e.details.disposable ≡ true → shown (some e) ≡ false
  hidden e h = ground arith

  dropped : (e : OperationEntry) → e.details.disposable ≡ true → stays (some e) ≡ none
  dropped e h = simp h refl

  visit_disposable :
      (e : OperationEntry)
      → is_ongoing e.details.status ≡ false
      → (visit om e).details.disposable ≡ true
  unfolding visit
  visit_disposable e h = ground arith

  running_kept :
      (r : Registry om) (op : ℕ) (e : OperationEntry)
      → Inv om r
      → om.get r.operations op ≡ some e
      → is_ongoing e.details.status ≡ true
      → e.details.disposable ≡ false
  running_kept r op e v at runs =
      let wf =
        All-lookup IsWellFormed op e (om.entries r.operations) v.formed
          (sym (om.get_lem r.operations op) ∙ at) in
      elim (Bool-cases e.details.disposable) [
        | inl used ↦ let over = wf.1 used in cc
        | inr kept ↦ kept
      ]

  visit_running :
      (e : OperationEntry)
      → is_ongoing e.details.status ≡ true
      → e.details.disposable ≡ false
      → visit om e ≡ record e { report = record e.report { aux_data = [] } }
  unfolding visit
  visit_running e runs kept = ground arith

  -- After any calls, an operation that has ended and has not been listed since stands in the next result of
  -- `ListReports`, does not stand in the one after, and is then gone from the registry.
  pub reported_once :
      (r : Registry om) (op : ℕ) (e : OperationEntry)
      → Reach om r
      → om.get r.operations op ≡ some e
      → is_ongoing e.details.status ≡ false
      → e.details.disposable ≡ false
      → (contains op (ids (list_reports om r).0) ≡ true)
        × (contains op (ids (list_reports om (list_reports om r).1).0) ≡ false)
        × (om.get (list_reports om (list_reports om r).1).1.operations op ≡ none)
  reported_once r op e reach at over kept =
      let v = Reach-Inv om reach in
      let w = Reach-Inv om (next reach lists) in
      let there : om.get (after_list r).operations op ≡ some (visit om e) =
        get-list_reports r op v ∙ ap stays at ∙ stays_kept e kept in
      let used = visit_disposable e over in
      (
        reports-list_reports r op v ∙ ap shown at ∙ shown_kept e kept,
        reports-list_reports (after_list r) op w ∙ ap shown there ∙ hidden (visit om e) used,
        get-list_reports (after_list r) op w ∙ ap stays there ∙ dropped (visit om e) used,
      )

  -- After any calls, an operation that runs stands in every result of `ListReports` with its report, and stays in
  -- the registry as it was but for its auxiliary data, which each listing hands over and clears.
  pub running_listed :
      (r : Registry om) (op : ℕ) (e : OperationEntry)
      → Reach om r
      → om.get r.operations op ≡ some e
      → is_ongoing e.details.status ≡ true
      → (contains op (ids (list_reports om r).0) ≡ true)
        × (om.get (list_reports om r).1.operations op
            ≡ some (record e { report = record e.report { aux_data = [] } }))
  running_listed r op e reach at runs =
      let v = Reach-Inv om reach in
      let kept = running_kept r op e v at runs in
      (
        reports-list_reports r op v ∙ ap shown at ∙ shown_kept e kept,
        get-list_reports r op v
            ∙ ap stays at
            ∙ stays_kept e kept
            ∙ ap (λ x. some x) (visit_running e runs kept),
      )
