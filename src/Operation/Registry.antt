-- ===== src/Operation/Registry.antt =====
-- operation/opcache/opcache.go: the registry's methods, each of which runs as one step. An entry
-- that is changed in place is written back under its key, which keeps its place in the order.
use card_client.Prelude.{
  ℕ, ◌+◌, ◌-◌, ◌%◌, ◌^◌, String, List, [], ◌∷◌, Bool, true, false, Option, none, some,
  if◌then◌else◌, ltb,
}
use card_client.Prelude.Int.{ℤ, pos, negsuc}
use card_client.Operation.Types.{
  Action, Status, ongoing, completed, cancelled, Report, UnifiedReport, Handle, OperationEntry,
}
use card_client.Operation.Ordered.{OrderedMap}

-- Why a method fails.
pub data OpError : Type 0 where
  not_found : ℕ → OpError
  already_terminated : ℕ → Status → OpError

-- `error` as Go returns it: nil, or a cause.
abbrev pub Failure : Type 0
Failure = Option OpError

abbrev pub empty_report : Report
empty_report = record {
  progress = 0;
  total = 0;
  no_successes = 0;
  no_failures = 0;
  no_valid_urls = 0;
  no_invalid_urls = 0;
  no_duplicates = 0;
  no_unchanges = 0;
  no_fixes = 0;
  aux_data = [];
}

abbrev pub int32_mod : ℕ
int32_mod = 2 ^ 32

abbrev pub is_ongoing : Status → Bool
is_ongoing ongoing = true
is_ongoing completed = false
is_ongoing cancelled = false

module _ (om : OrderedMap OperationEntry) where
  open om use {Map, entries, empty, get, set, delete}

  -- `active_ops` is the bit pattern of an atomic int32.
  pub record Registry : Type 0 where
    pub operations : Map
    pub active_ops : ℕ
    pub dirty_flag : Bool

  unfoldable pub new_registry : Registry
  new_registry = record { operations = empty; active_ops = 0; dirty_flag = false }

  abbrev pub new_entry : ℕ → ℤ → String → Action → OperationEntry
  new_entry id now vault action = record {
    details = record {
      id = id;
      action = action;
      status = ongoing;
      time_started = now;
      time_ended = pos 0;
      vault_name = vault;
      disposable = false;
    };
    report = empty_report;
    is_cancelled = false;
  }

  -- `id` is what the generator returns, `now` the time.
  unfoldable pub new_operation : Registry → ℕ → ℤ → String → Action → Handle × Registry
  new_operation r id now vault action = (
    record { operation_id = id; time_started = now },
    record {
      operations = set r.operations id (new_entry id now vault action);
      active_ops = (r.active_ops + 1) % int32_mod;
      dirty_flag = true;
    },
  )

  abbrev pub final_status : OperationEntry → Status
  final_status e = if e.is_cancelled then cancelled else completed

  abbrev pub terminated : OperationEntry → ℤ → OperationEntry
  terminated e now = record e {
    details = record e.details { time_ended = now; status = final_status e };
  }

  unfoldable pub mark_terminated : Registry → ℕ → ℤ → Failure × Registry
  mark_terminated r op now = elim (get r.operations op) [
    | none ↦ (some (not_found op), r)
    | some e ↦
        if is_ongoing e.details.status
        then (
          none,
          record {
            operations = set r.operations op (terminated e now);
            active_ops = (r.active_ops + (int32_mod - 1)) % int32_mod;
            dirty_flag = true;
          },
        )
        else (some (already_terminated op e.details.status), r)
  ]

  unfoldable pub cancel : Registry → ℕ → Failure × Registry
  cancel r op = elim (get r.operations op) [
    | none ↦ (some (not_found op), r)
    | some e ↦
        (none, record r { operations = set r.operations op (record e { is_cancelled = true }) })
  ]

  unfoldable pub mutate_report : Registry → ℕ → (Report → Report) → Failure × Registry
  mutate_report r op mutator = elim (get r.operations op) [
    | none ↦ (some (not_found op), r)
    | some e ↦ (
      none,
      record r {
        operations = set r.operations op (record e { report = mutator e.report });
        dirty_flag = true;
      },
    )
  ]

  -- `ListReports`, the body of its loop: the entry as the loop leaves it.
  unfoldable pub visit : OperationEntry → OperationEntry
  visit e = if e.details.disposable then e else record e {
    details = record e.details {
      disposable = if is_ongoing e.details.status then e.details.disposable else true;
    };
    report = record e.report { aux_data = [] };
  }

  -- What the loop appends to `reports`: the details as changed, the report as it was.
  unfoldable pub reported : OperationEntry → UnifiedReport
  unfolding visit
  reported e = record { details = (visit e).details; report = e.report }

  unfoldable pub reports_of : List (ℕ × OperationEntry) → List UnifiedReport
  unfolding reported
  reports_of [] = []
  reports_of ((k, e) ∷ es) =
      if e.details.disposable then reports_of es else reported e ∷ reports_of es

  unfoldable pub to_clean : List (ℕ × OperationEntry) → List ℕ
  to_clean [] = []
  to_clean ((k, e) ∷ es) = if e.details.disposable then e.details.id ∷ to_clean es else to_clean es

  unfoldable pub visit_all : Map → List (ℕ × OperationEntry) → Map
  visit_all m [] = m
  visit_all m ((k, e) ∷ es) = visit_all (set m k (visit e)) es

  unfoldable pub delete_all : Map → List ℕ → Map
  delete_all m [] = m
  delete_all m (k ∷ ks) = delete_all (delete m k) ks

  unfoldable pub list_reports : Registry → List UnifiedReport × Registry
  list_reports r =
      let es = entries r.operations in
      (
        reports_of es,
        record r {
          operations = delete_all (visit_all r.operations es) (to_clean es);
          dirty_flag = false;
        },
      )

  -- The int32 behind the pattern.
  unfoldable pub active_operations : Registry → ℤ
  active_operations r =
      if ltb r.active_ops (2 ^ 31) then pos r.active_ops else negsuc (int32_mod - r.active_ops - 1)

  unfoldable pub has_changes : Registry → Bool
  has_changes r = r.dirty_flag
