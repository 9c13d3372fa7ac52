-- ===== src/Operation/Counting.antt =====
-- operation/opcache/opcache.go: the counter of active operations, and the invariant of the methods.
use card_client.Prelude.{
  ℕ, ◌+◌, ◌-◌, ◌%◌, ◌^◌, ◌<◌, String, [], ◌∷◌, Bool, true, false, Option, none, some, if◌then◌else◌,
  ◌==◌, ◌≡◌, refl, arith, Bool-cases, Option-cases, inl, inr, All, ap, ◌∙◌, sym,
}
use card_client.Prelude.Int.{ℤ, pos}
use card_client.Prelude.Assoc.{lookup, insert, All-insert, All-lookup}
use card_client.Operation.Types.{OperationEntry, Action, Report}
use card_client.Operation.Ordered.{OrderedMap}
use card_client.Operation.Registry.{
  Registry, new_registry, new_operation, new_entry, mark_terminated, terminated, cancel,
  mutate_report, list_reports, is_ongoing, int32_mod, active_operations, visit, final_status,
}
use card_client.Operation.Reports.{Entries, IsWellFormed, survivors, entries-list_reports}

abbrev pub one_if : Bool → ℕ
one_if b = if b then 1 else 0

-- The operations that run.
abbrev pub count_ongoing : Entries → ℕ
count_ongoing [] = 0
count_ongoing ((k, e) ∷ es) = one_if (is_ongoing e.details.status) + count_ongoing es

abbrev weight : Option OperationEntry → ℕ
weight none = 0
weight (some e) = one_if (is_ongoing e.details.status)

count-insert :
    (k : ℕ) (v : OperationEntry) (m : Entries)
    → count_ongoing (insert k v m) + weight (lookup k m)
      ≡ count_ongoing m + one_if (is_ongoing v.details.status)
unfolding insert lookup
count-insert k v [] = omega arith
count-insert k v ((j, e) ∷ m) = elim (Bool-cases (j == k)) [
  | inl same ↦ rw (same) (omega arith)
  | inr differs ↦ rw (differs) (omega (arith, count-insert k v m))
]

module _ (om : OrderedMap OperationEntry) where
  -- Every entry is well formed, and the counter is the number of running operations, as an int32.
  pub record Inv (r : Registry om) : Type 0 where
    pub formed : All IsWellFormed (om.entries r.operations)
    pub counted : r.active_ops ≡ count_ongoing (om.entries r.operations) % int32_mod

  new_registry-Inv : Inv (new_registry om)
  unfolding new_registry
  new_registry-Inv = record { formed = rw om.entries-empty tt; counted = rw om.entries-empty refl }

  -- Writing one entry back.
  set-Inv :
      (r : Registry om) (k : ℕ) (v : OperationEntry) (active : ℕ) (dirty : Bool)
      → Inv r
      → IsWellFormed (k, v)
      → active ≡ count_ongoing (insert k v (om.entries r.operations)) % int32_mod
      → Inv
          (record { operations = om.set r.operations k v; active_ops = active; dirty_flag = dirty })
  set-Inv r k v active dirty inv wf e = record {
    formed =
        rw (om.entries-set r.operations k v)
          (All-insert IsWellFormed k v (om.entries r.operations) wf inv.formed);
    counted = rw (om.entries-set r.operations k v) e;
  }

  new_operation-Inv :
      (r : Registry om) (id : ℕ) (now : ℤ) (vault : String) (action : Action)
      → Inv r
      → om.get r.operations id ≡ none
      → Inv (new_operation om r id now vault action).1
  unfolding new_operation
  new_operation-Inv r id now vault action inv fresh =
      set-Inv r id (new_entry om id now vault action) _ true inv (refl, λ x. cc)
        (let e : lookup id (om.entries r.operations) ≡ none =
            sym (om.get_lem r.operations id) ∙ fresh in
          let c = count-insert id (new_entry om id now vault action) (om.entries r.operations) in
          let c' = rw e at c in omega (arith, inv.counted, c'))

  -- An entry that is found is well formed.
  found_formed :
      (r : Registry om) (op : ℕ) (e : OperationEntry)
      → Inv r
      → om.get r.operations op ≡ some e
      → IsWellFormed (op, e)
  found_formed r op e inv h =
      All-lookup IsWellFormed op e (om.entries r.operations) inv.formed
        (sym (om.get_lem r.operations op) ∙ h)

  -- Writing an entry back that runs as before changes no count.
  same_count :
      (r : Registry om) (op : ℕ) (e v : OperationEntry)
      → om.get r.operations op ≡ some e
      → is_ongoing v.details.status ≡ is_ongoing e.details.status
      → count_ongoing (insert op v (om.entries r.operations))
        ≡ count_ongoing (om.entries r.operations)
  same_count r op e v h same =
      let at : lookup op (om.entries r.operations) ≡ some e =
        sym (om.get_lem r.operations op) ∙ h in
      let c = count-insert op v (om.entries r.operations) in
      let c' = rw (at, same) at c in omega (arith, c')

  cancel-Inv : (r : Registry om) (op : ℕ) → Inv r → Inv (cancel om r op).1
  unfolding cancel
  cancel-Inv r op inv = elim (Option-cases (om.get r.operations op)) [
    | inl e ↦ rw (e, cancel) inv
    | inr (e, h) ↦
        rw (h, cancel)
          (set-Inv r op (record e { is_cancelled = true }) r.active_ops r.dirty_flag inv
            (found_formed r op e inv h)
            (inv.counted ∙ ap (λ n. n % int32_mod) (sym (same_count r op e _ h refl))))
  ]

  mutate_report-Inv :
      (r : Registry om) (op : ℕ) (f : Report → Report) → Inv r → Inv (mutate_report om r op f).1
  unfolding mutate_report
  mutate_report-Inv r op f inv = elim (Option-cases (om.get r.operations op)) [
    | inl e ↦ rw (e, mutate_report) inv
    | inr (e, h) ↦
        rw (h, mutate_report)
          (set-Inv r op (record e { report = f e.report }) r.active_ops true inv
            (found_formed r op e inv h)
            (inv.counted ∙ ap (λ n. n % int32_mod) (sym (same_count r op e _ h refl))))
  ]

  ended : (e : OperationEntry) → is_ongoing (final_status om e) ≡ false
  ended e = ground arith

  mark_terminated-Inv :
      (r : Registry om) (op : ℕ) (now : ℤ) → Inv r → Inv (mark_terminated om r op now).1
  unfolding mark_terminated
  mark_terminated-Inv r op now inv = elim (Option-cases (om.get r.operations op)) [
    | inl e ↦ rw (e, mark_terminated) inv
    | inr (e, h) ↦ elim (Bool-cases (is_ongoing e.details.status)) [
      | inl runs ↦
          rw (h, mark_terminated, runs)
            (set-Inv r op (terminated om e now) _ true inv
              ((found_formed r op e inv h).0, λ _. ended e) (less r op now e inv h runs))
      | inr over ↦ rw (h, mark_terminated, over) inv
    ]
  ]
    where
      less :
          (r : Registry om) (op : ℕ) (now : ℤ) (e : OperationEntry)
          → Inv r
          → om.get r.operations op ≡ some e
          → is_ongoing e.details.status ≡ true
          → (r.active_ops + (int32_mod - 1)) % int32_mod
            ≡ count_ongoing (insert op (terminated om e now) (om.entries r.operations)) % int32_mod
      less r op now e inv h runs =
          let at : lookup op (om.entries r.operations) ≡ some e =
            sym (om.get_lem r.operations op) ∙ h in
          let c = count-insert op (terminated om e now) (om.entries r.operations) in
          let c' = rw (at, runs, ended e) at c in omega (arith, inv.counted, c')

  survivors-formed : (es : Entries) → All IsWellFormed es → All IsWellFormed (survivors om es)
  unfolding visit
  survivors-formed [] a = tt
  survivors-formed ((k, e) ∷ es) a = ground (arith, survivors-formed es a.1)

  count-survivors :
      (es : Entries) → All IsWellFormed es → count_ongoing (survivors om es) ≡ count_ongoing es
  unfolding visit
  count-survivors [] a = refl
  count-survivors ((k, e) ∷ es) a = ground (arith, count-survivors es a.1)

  active-list_reports : (r : Registry om) → (list_reports om r).1.active_ops ≡ r.active_ops
  unfolding list_reports
  active-list_reports r = refl

  list_reports-Inv : (r : Registry om) → Inv r → Inv (list_reports om r).1
  list_reports-Inv r inv =
      let es = om.entries r.operations in
      record {
        formed = rw (entries-list_reports om r inv.formed) (survivors-formed es inv.formed);
        counted =
            rw (entries-list_reports om r inv.formed, count-survivors es inv.formed)
              (active-list_reports r ∙ inv.counted);
      }

  -- A call of the registry. A generator that repeats no ID gives one that the map has not.
  pub data Call (r : Registry om) : Registry om → Type 0 where
    starts :
        (id : ℕ) (now : ℤ) (vault : String) (action : Action)
        → om.get r.operations id ≡ none
        → Call r (new_operation om r id now vault action).1
    terminates : (op : ℕ) (now : ℤ) → Call r (mark_terminated om r op now).1
    cancels : (op : ℕ) → Call r (cancel om r op).1
    mutates : (op : ℕ) (f : Report → Report) → Call r (mutate_report om r op f).1
    lists : Call r (list_reports om r).1

  pub data Reach : Registry om → Type 0 where
    start : Reach (new_registry om)
    next : {r r' : Registry om} → Reach r → Call r r' → Reach r'

  Call-Inv : {r r' : Registry om} → Call r r' → Inv r → Inv r'
  Call-Inv {r} (starts id now vault action fresh) v =
      new_operation-Inv r id now vault action v fresh
  Call-Inv {r} (terminates op now) v = mark_terminated-Inv r op now v
  Call-Inv {r} (cancels op) v = cancel-Inv r op v
  Call-Inv {r} (mutates op f) v = mutate_report-Inv r op f v
  Call-Inv {r} lists v = list_reports-Inv r v

  pub Reach-Inv : {r : Registry om} → Reach r → Inv r
  Reach-Inv start = new_registry-Inv
  Reach-Inv (next reach c) = Call-Inv c (Reach-Inv reach)

  -- After any calls `ActiveOperations` is the number of operations in the registry that are
  -- ongoing, as long as these are fewer than 2 ^ 31.
  pub active_operations-count :
      (r : Registry om)
      → Reach r
      → count_ongoing (om.entries r.operations) < 2 ^ 31
      → active_operations om r ≡ pos (count_ongoing (om.entries r.operations))
  unfolding active_operations
  active_operations-count r reach h = ground (arith, (Reach-Inv reach).counted)
