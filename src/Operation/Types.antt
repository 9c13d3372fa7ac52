-- ===== src/Operation/Types.antt =====
-- operation/operation.go: the data. An ID is a number: the program only compares them. Times are
-- integers. A context is what the program asks it: whether it has been cancelled.
use card_client.Prelude.{ℕ, String, List, Bool}
use card_client.Prelude.Int.{ℤ}

pub data Action : Type 0 where
  import_action update export export_vault import_vault delete integrity_check : Action

pub data Status : Type 0 where
  ongoing completed cancelled : Status

pub record Details : Type 0 where
  pub id : ℕ
  pub action : Action
  pub status : Status
  pub time_started : ℤ
  pub time_ended : ℤ
  pub vault_name : String
  pub disposable : Bool

pub record Report : Type 0 where
  pub progress : ℕ
  pub total : ℕ
  pub no_successes : ℕ
  pub no_failures : ℕ
  pub no_valid_urls : ℕ
  pub no_invalid_urls : ℕ
  pub no_duplicates : ℕ
  pub no_unchanges : ℕ
  pub no_fixes : ℕ
  pub aux_data : List String

pub record UnifiedReport : Type 0 where
  pub details : Details
  pub report : Report

pub record Handle : Type 0 where
  pub operation_id : ℕ
  pub time_started : ℤ

-- opcache's entry.
pub record OperationEntry : Type 0 where
  pub details : Details
  pub report : Report
  pub is_cancelled : Bool
