-- ===== src/Operation/Ends.antt =====
-- operation/opcache/opcache.go: an operation that has ended does not run again.
use card_client.Prelude.{
  ℕ, Bool, true, false, not, Option, none, some, if◌then◌else◌, ◌==◌, ◌≡◌, refl, arith, Bool-cases,
  Option-cases, inl, inr, ap, subst, ◌∙◌, sym,
}
use card_client.Prelude.Int.{ℤ}
use card_client.Prelude.Assoc.{lookup-insert}
use card_client.Operation.Types.{OperationEntry}
use card_client.Operation.Ordered.{OrderedMap}
use card_client.Operation.Registry.{
  Registry, OpError, not_found, already_terminated, new_operation, new_entry, mark_terminated,
  terminated, cancel, mutate_report, is_ongoing, visit,
}
use card_client.Operation.Counting.{
  Call, starts, terminates, cancels, mutates, lists, Inv, Reach, next, Reach-Inv,
}
use card_client.Operation.Lifecycle.{mark_terminated_once, get-list_reports, stays}

module _ (om : OrderedMap OperationEntry) (op : ℕ) where
  -- The generator gives no ID twice.
  abbrev pub StartsOther : {r r' : Registry om} → Call om r r' → Type 0
  StartsOther (starts id now vault action fresh) = (id == op) ≡ false
  StartsOther (terminates k now) = Unit {0}
  StartsOther (cancels k) = Unit {0}
  StartsOther (mutates k f) = Unit {0}
  StartsOther lists = Unit {0}

  -- What any further calls leave.
  pub data Later (r : Registry om) : Registry om → Type 0 where
    at_once : Later r r
    after : {s t : Registry om} → Later r s → (c : Call om s t) → StartsOther c → Later r t

  -- The operation has ended, or is gone.
  abbrev is_over : Option OperationEntry → Bool
  is_over none = true
  is_over (some e) = not (is_ongoing e.details.status)

  get-set_if :
      (m : om.Map) (k : ℕ) (v : OperationEntry)
      → om.get (om.set m k v) op ≡ (if k == op then some v else om.get m op)
  get-set_if m k v =
      rw (om.get_lem (om.set m k v) op, om.entries-set m k v, om.get_lem m op)
        (lookup-insert k op v (om.entries m))

  same_key : (k : ℕ) → (k == op) ≡ true → k ≡ op
  same_key k h = ground arith

  -- An entry that is written back with its status, or an ended one.
  set_over :
      (m : om.Map) (k : ℕ) (e v : OperationEntry)
      → om.get m k ≡ some e
      → (is_over (some e) ≡ true → is_over (some v) ≡ true)
      → is_over (om.get m op) ≡ true
      → is_over (om.get (om.set m k v) op) ≡ true
  set_over m k e v at keeps over = elim (Bool-cases (k == op)) [
    | inl same ↦
        let found : om.get m op ≡ some e = ap (om.get m) (sym (same_key k same)) ∙ at in
        rw (get-set_if m k v) (rw same (keeps (rw found at over)))
    | inr differs ↦ rw (get-set_if m k v) (rw differs over)
  ]

  stays_over : (o : Option OperationEntry) → is_over o ≡ true → is_over (stays om o) ≡ true
  unfolding visit
  stays_over none h = refl
  stays_over (some e) h = ground arith

  ended_over : (e : OperationEntry) (now : ℤ) → is_over (some (terminated om e now)) ≡ true
  ended_over e now = ground arith

  Call-over :
      {r r' : Registry om} (c : Call om r r')
      → Inv om r
      → StartsOther c
      → is_over (om.get r.operations op) ≡ true
      → is_over (om.get r'.operations op) ≡ true
  unfolding new_operation mark_terminated cancel mutate_report
  Call-over {r} (starts id now vault action fresh) v other over =
      rw (get-set_if r.operations id (new_entry om id now vault action)) (rw other over)
  Call-over {r} (terminates k now) v other over = elim (Option-cases (om.get r.operations k)) [
    | inl e ↦ rw (e, mark_terminated) over
    | inr (e, at) ↦ elim (Bool-cases (is_ongoing e.details.status)) [
      | inl runs ↦
          rw (at, mark_terminated, runs)
            (set_over r.operations k e (terminated om e now) at (λ x. ended_over e now) over)
      | inr ended ↦ rw (at, mark_terminated, ended) over
    ]
  ]
  Call-over {r} (cancels k) v other over = elim (Option-cases (om.get r.operations k)) [
    | inl e ↦ rw (e, cancel) over
    | inr (e, at) ↦
        rw (at, cancel)
          (set_over r.operations k e (record e { is_cancelled = true }) at (λ x. x) over)
  ]
  Call-over {r} (mutates k f) v other over = elim (Option-cases (om.get r.operations k)) [
    | inl e ↦ rw (e, mutate_report) over
    | inr (e, at) ↦
        rw (at, mutate_report)
          (set_over r.operations k e (record e { report = f e.report }) at (λ x. x) over)
  ]
  Call-over {r} lists v other over =
      rw (get-list_reports om r op v) (stays_over (om.get r.operations op) over)

  Later-Reach : {r s : Registry om} → Later r s → Reach om r → Reach om s
  Later-Reach at_once reach = reach
  Later-Reach (after l c other) reach = next (Later-Reach l reach) c

  Later-over :
      {r s : Registry om}
      → Later r s
      → Reach om r
      → is_over (om.get r.operations op) ≡ true
      → is_over (om.get s.operations op) ≡ true
  Later-over at_once reach over = over
  Later-over (after l c other) reach over =
      Call-over c (Reach-Inv om (Later-Reach l reach)) other (Later-over l reach over)

  -- What `MarkTerminated` says of an operation that does not run.
  abbrev pub refusal : Option OperationEntry → OpError
  refusal none = not_found op
  refusal (some e) = already_terminated op e.details.status

  refused :
      (r : Registry om) (now : ℤ)
      → is_over (om.get r.operations op) ≡ true
      → mark_terminated om r op now ≡ (some (refusal (om.get r.operations op)), r)
  unfolding mark_terminated
  refused r now over = elim (Option-cases (om.get r.operations op)) [
    | inl e ↦ rw (e, mark_terminated) refl
    | inr (e, at) ↦
        let ended : is_ongoing e.details.status ≡ false = not_true (rw at at over) in
        rw (at, mark_terminated, ended) refl
  ]
    where
      not_true : {b : Bool} → not b ≡ true → b ≡ false
      not_true {b} h = ground arith

  -- An operation ends once: a call of `MarkTerminated` that succeeds, in a registry that any calls
  -- have made, makes the status `cancelled` if the operation's context was cancelled and `completed`
  -- if not; and after it and any further calls, none of which starts an operation of the same ID,
  -- `MarkTerminated` for the operation changes nothing and fails, with the status if the operation is
  -- still in the registry, and as not found if it is not.
  pub mark_terminated_for_good :
      (r r' s : Registry om) (now later : ℤ)
      → Reach om r
      → mark_terminated om r op now ≡ (none, r')
      → Later r' s
      → (e : OperationEntry) × (om.get r.operations op ≡ some e)
        × (om.get r'.operations op ≡ some (terminated om e now))
        × (mark_terminated om s op later ≡ (some (refusal (om.get s.operations op)), s))
  mark_terminated_for_good r r' s now later reach done more =
      let (e, at, there, again) = mark_terminated_once om r r' op now later done in
      let over : is_over (om.get r'.operations op) ≡ true = rw there (ended_over e now) in
      let reached : Reach om r' =
        subst (λ q. Reach om q) (ap (λ x. x.1) done) (next reach (terminates op now)) in
      (e, at, there, refused s later (Later-over more reached over))
