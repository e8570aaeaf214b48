-- ===== src/Tests/Samples.antt =====
-- Sample records: a card payment of INR 10,000.00, its fee, tax, settlement and bank credit; a case.
use settlement_ops.Base.{String, [], false, negsuc, none, pos, some, ℕ, ℤ, ◌∷◌}
use settlement_ops.Money.{Money, money}
use settlement_ops.Money.Breakdown.{BreakdownInput}
use settlement_ops.Policy.FeeSchedule.{card}
use settlement_ops.Records.{
  BankCreditRecord, FeeLineRecord, PaymentRecord, RecordBase, SettlementLineRecord,
  SettlementRecord, TaxLineRecord, captured, payment_line, settlement_processed,
}
use settlement_ops.Reconciliation.ExpectedNet.{ExpectedNetInput}
use settlement_ops.Reconciliation.Unit.{ReconciliationUnit}
use settlement_ops.Case.State.{CaseState, TransitionActor, approval_pending}
use settlement_ops.Case.Aggregate.{ReconciliationCase, TransitionRequest}
use settlement_ops.Verifier.{Proposal}
use settlement_ops.Cause.{mdr_fee, resolve}

abbrev pub rupees : ℤ → Money
rupees n = money n "INR"

-- 2026-01-05T06:00:00Z, a Monday.
abbrev pub monday : ℤ
monday = pos 1767592800000

-- 2026-01-07T06:00:00Z
abbrev pub wednesday : ℤ
wednesday = pos 1767765600000

abbrev pub base : String → RecordBase
base id = record {
  id = id;
  scope = record { merchant_id = "m1" };
  lineage = record {
    source_system = "gateway";
    source_record_id = id;
    observed_at = monday;
    ingested_at = monday;
    schema_version = "1";
  };
}

abbrev pub sample_payment : PaymentRecord
sample_payment = record {
  base = base "p";
  payment_id = "pay_1";
  order_id = some "order_1";
  amount = rupees (pos 1000000);
  payment_method = card;
  status = captured;
  authorized_at = some monday;
  captured_at = some monday;
}

abbrev pub sample_fee : FeeLineRecord
sample_fee = record {
  base = base "f";
  payment_id = some "pay_1";
  settlement_id = some "setl_1";
  fee_type = "MDR";
  amount = rupees (pos 25000);
  effective_date = monday;
}

abbrev pub sample_tax : TaxLineRecord
sample_tax = record {
  base = base "t";
  fee_line_id = some "f";
  tax_type = "GST";
  amount = rupees (pos 4500);
  period = "2026-01";
}

abbrev pub sample_settlement : SettlementRecord
sample_settlement = record {
  base = base "s";
  settlement_id = "setl_1";
  settlement_batch_id = none;
  gross_amount = rupees (pos 1000000);
  net_amount = rupees (pos 970500);
  settlement_at = wednesday;
  status = settlement_processed;
  utr = some "utr_1";
}

abbrev pub sample_line : SettlementLineRecord
sample_line = record {
  base = base "l";
  settlement_id = "setl_1";
  payment_id = some "pay_1";
  refund_id = none;
  line_type = payment_line;
  amount = rupees (pos 970500);
}

abbrev pub sample_credit : BankCreditRecord
sample_credit = record {
  base = base "b";
  utr = "utr_1";
  amount = rupees (pos 970500);
  credited_at = wednesday;
  bank_reference = "ref_1";
}

abbrev pub sample_unit : ReconciliationUnit
sample_unit = record {
  payment = sample_payment;
  fees = sample_fee ∷ [];
  taxes = sample_tax ∷ [];
  refunds = [];
  adjustments = [];
  settlements = sample_settlement ∷ [];
  settlement_lines = sample_line ∷ [];
  bank_credits = sample_credit ∷ [];
  duplicates = [];
}

-- The same with neither the fee nor the tax on record.
abbrev pub unrecorded_unit : ReconciliationUnit
unrecorded_unit = record sample_unit { fees = []; taxes = [] }

abbrev pub fee_proposal : Proposal
fee_proposal = record {
  cause = mdr_fee;
  disposition = resolve;
  evidence_record_ids = "p" ∷ "l" ∷ [];
  rationale = "fee withheld";
  retrieved_record_ids = some ("p" ∷ "s" ∷ "l" ∷ []);
}

abbrev pub sample_input : ExpectedNetInput
sample_input = record {
  gross = rupees (pos 1000000);
  fees = rupees (pos 25000) ∷ [];
  taxes = rupees (pos 4500) ∷ [];
  refunds = rupees (pos 100000) ∷ rupees (pos 50000) ∷ [];
  adjustments = rupees (negsuc 499) ∷ [];
}

abbrev pub sample_breakdown_input : BreakdownInput
sample_breakdown_input = record {
  gross = rupees (pos 1000000);
  fee = rupees (pos 25000);
  tax = rupees (pos 4500);
  refund = rupees (pos 0);
  adjustment = rupees (negsuc 499);
}

abbrev pub sample_case : ReconciliationCase
sample_case = record {
  id = "case_1";
  merchant_id = "m1";
  case_number = "C-1";
  state = approval_pending;
  priority = 2;
  discrepancy = rupees (pos 29500);
  deterministic_reason = "NET_AMOUNT_MISMATCH";
  case_version = 7;
  opened_at = monday;
  closed_at = none;
}

abbrev pub request_to : CaseState → TransitionActor → ℕ → TransitionRequest
request_to to actor version = record {
  to = to;
  actor = actor;
  expected_version = version;
  outcome_recorded = false;
  at = wednesday;
}
