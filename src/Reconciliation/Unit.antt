-- ===== src/Reconciliation/Unit.antt =====
-- The unit of reconciliation, its checks and verdict (packages/domain/src/reconciliation/unit.ts,
-- reason-codes.ts).
use settlement_ops.Base.{Bool, List, Option, String, [], false, none, some, true, ℕ, ℤ, ◌==◌}
use settlement_ops.Money.{Money}
use settlement_ops.Money.Breakdown.{AmountBreakdown}
use settlement_ops.Records.{
  AdjustmentRecord, BankCreditRecord, FeeLineRecord, PaymentRecord, RefundRecord,
  SettlementLineRecord, SettlementRecord, TaxLineRecord,
}
use settlement_ops.Reconciliation.Duplicates.{DuplicateGroup}

pub data ResidualReason : Type 0 where
  no_settlement_found multiple_settlement_candidates net_amount_mismatch : ResidualReason
  split_settlement_unresolved missing_bank_credit bank_credit_amount_mismatch : ResidualReason
  settlement_timing_outside_window bank_credit_timing_outside_window : ResidualReason
  missing_fee_record unexpected_fee_amount duplicate_source_record : ResidualReason
  refund_outside_netting_window lifecycle_inconsistent currency_inconsistent : ResidualReason

abbrev pub reason_index : ResidualReason → ℕ
reason_index no_settlement_found = 0
reason_index multiple_settlement_candidates = 1
reason_index net_amount_mismatch = 2
reason_index split_settlement_unresolved = 3
reason_index missing_bank_credit = 4
reason_index bank_credit_amount_mismatch = 5
reason_index settlement_timing_outside_window = 6
reason_index bank_credit_timing_outside_window = 7
reason_index missing_fee_record = 8
reason_index unexpected_fee_amount = 9
reason_index duplicate_source_record = 10
reason_index refund_outside_netting_window = 11
reason_index lifecycle_inconsistent = 12
reason_index currency_inconsistent = 13

abbrev pub reason_eq : ResidualReason → ResidualReason → Bool
reason_eq a b = reason_index a == reason_index b

pub record ReconciliationUnit : Type 0 where
  pub payment : PaymentRecord
  pub fees : List FeeLineRecord
  pub taxes : List TaxLineRecord
  pub refunds : List RefundRecord
  pub adjustments : List AdjustmentRecord
  pub settlements : List SettlementRecord
  pub settlement_lines : List SettlementLineRecord
  pub bank_credits : List BankCreditRecord
  pub duplicates : List DuplicateGroup

pub data CheckStatus : Type 0 where
  check_passed check_failed check_not_run : CheckStatus

abbrev pub is_failed : CheckStatus → Bool
is_failed check_failed = true
is_failed _ = false

-- The texts that a check shows, each by the values that the source prints into it.
pub data Shown : Type 0 where
  plain : String → Shown
  minor_units : ℤ → Shown
  at_most : ℤ → Shown
  instants : List ℤ → Shown
  credit_for_utr : String → Shown

pub data Detail : Type 0 where
  remark : String → Detail
  duplicate_list : List DuplicateGroup → Detail
  schedule_expects_fee : String → Detail
  against_schedule : String → Detail
  on_schedule : String → Detail
  split_across : ℕ → Detail
  late_refunds : ℕ → Detail
  outside_every_window : ℕ → Detail
  conserved_across : ℕ → Detail
  variance_of : ℤ → Detail

pub record ReconciliationCheck : Type 0 where
  pub name : String
  pub status : CheckStatus
  pub expected : Option Shown
  pub observed_value : Option Shown
  pub detail : Option Detail
  pub reason : Option ResidualReason
  pub source_record_ids : List String

pub data Outcome : Type 0 where
  reconciled exception : Outcome

pub record ReconciliationVerdict : Type 0 where
  pub outcome : Outcome
  pub reasons : List ResidualReason
  pub discrepancy : Money
  pub breakdown : Option AmountBreakdown
  pub checks : List ReconciliationCheck
  pub evidence_record_ids : List String
  pub policy_version : String

abbrev pub pass : String → List String → Option Detail → ReconciliationCheck
pass name ids detail = record {
  name = name;
  status = check_passed;
  expected = none;
  observed_value = none;
  detail = detail;
  reason = none;
  source_record_ids = ids;
}

-- `fail(name, reason, { expected, observed, detail, sourceRecordIds })`
abbrev pub fail :
    String
    → ResidualReason
    → Option Shown
    → Option Shown
    → Option Detail
    → List String
    → ReconciliationCheck
fail name reason expected observed_value detail ids = record {
  name = name;
  status = check_failed;
  expected = expected;
  observed_value = observed_value;
  detail = detail;
  reason = some reason;
  source_record_ids = ids;
}

unfoldable pub not_run : String → String → ReconciliationCheck
not_run name detail = record {
  name = name;
  status = check_not_run;
  expected = none;
  observed_value = none;
  detail = some (remark detail);
  reason = none;
  source_record_ids = [];
}
