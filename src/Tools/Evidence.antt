-- ===== src/Tools/Evidence.antt =====
-- What the tools return: `ToolResult` of packages/tools/src/contracts.ts with the data of the
-- handlers of packages/tools/src/handlers.ts, a record for each object. A number that the source
-- prints into a text is itself here, and so is a `Date`.
use settlement_ops.Base.{Bool, List, Option, String, arith, true, ℕ, ℤ, ◌==◌, ◌↔◌, ◌≡◌}
use settlement_ops.Policy.FeeSchedule.{PaymentMethod}
use settlement_ops.Records.{LineType, RefundStatus, SettlementStatus}

-- `TOOL_NAMES`
pub data ToolName : Type 0 where
  get_settlement_breakup get_fee_tax_lines get_ledger_entries get_bank_credit : ToolName
  search_related_adjustments get_refunds get_fee_schedule : ToolName
  calculate_expected_net_amount validate_tax_line_mapping : ToolName

abbrev pub tool_index : ToolName → ℕ
tool_index get_settlement_breakup = 0
tool_index get_fee_tax_lines = 1
tool_index get_ledger_entries = 2
tool_index get_bank_credit = 3
tool_index search_related_adjustments = 4
tool_index get_refunds = 5
tool_index get_fee_schedule = 6
tool_index calculate_expected_net_amount = 7
tool_index validate_tax_line_mapping = 8

abbrev pub tool_eq : ToolName → ToolName → Bool
tool_eq a b = tool_index a == tool_index b

pub tool_eq_iff : (a b : ToolName) → (tool_eq a b ≡ true) ↔ (a ≡ b)
tool_eq_iff a b = ground arith

pub record SettlementView : Type 0 where
  pub settlement_id : String
  pub utr : Option String
  pub gross_minor : ℤ
  pub net_minor : ℤ
  pub settlement_at : ℤ
  pub status : SettlementStatus

pub record LineView : Type 0 where
  pub settlement_id : String
  pub line_type : LineType
  pub amount_minor : ℤ

pub record FeeView : Type 0 where
  pub fee_type : String
  pub amount_minor : ℤ
  pub effective_date : ℤ

pub record TaxView : Type 0 where
  pub tax_type : String
  pub amount_minor : ℤ
  pub period : String

pub record CreditView : Type 0 where
  pub utr : String
  pub amount_minor : ℤ
  pub credited_at : ℤ

pub record RefundView : Type 0 where
  pub amount_minor : ℤ
  pub status : RefundStatus
  pub created_at : ℤ
  pub settled_at : Option ℤ

pub record AdjustmentView : Type 0 where
  pub reference : String
  pub reason_code : String
  pub amount_minor : ℤ
  pub effective_at : ℤ
  pub allocated_to_settlement : Bool

pub record BreakupData : Type 0 where
  pub payment_gross_minor : ℤ
  pub captured_at : Option ℤ
  pub payment_method : PaymentMethod
  pub settlements : List SettlementView
  pub settlement_lines : List LineView
  pub settled_total_minor : ℤ

pub record FeeTaxData : Type 0 where
  pub fee_lines : List FeeView
  pub tax_lines : List TaxView
  pub fee_total_minor : ℤ
  pub tax_total_minor : ℤ

pub record CreditData : Type 0 where
  pub bank_credits : List CreditView
  pub credited_total_minor : ℤ

pub record ScheduleData : Type 0 where
  pub schedule_id : String
  pub effective_from : ℤ
  pub fee_rate_bps : PaymentMethod → ℕ
  pub tax_on_fee_bps : ℕ
  pub all_versions : List (String × ℤ)

pub record ExpectedNetData : Type 0 where
  pub expected_net_minor : ℤ
  pub settled_total_minor : ℤ
  pub variance_minor : ℤ
  pub scheduled_fee_minor : Option ℤ
  pub scheduled_tax_minor : Option ℤ
  pub schedule_id : Option String
  pub scheduled_variance_minor : Option ℤ

pub record TaxCheckData : Type 0 where
  pub fee_total_minor : ℤ
  pub tax_total_minor : ℤ
  pub expected_tax_minor : Option ℤ
  pub consistent : Option Bool

-- The data of the ledger tool is a constant: no entry, and a remark.
pub data ToolData : Type 0 where
  no_data ledger_data : ToolData
  breakup_data : BreakupData → ToolData
  fee_tax_data : FeeTaxData → ToolData
  credit_data : CreditData → ToolData
  refund_data : List RefundView → ToolData
  adjustment_data : List AdjustmentView → ToolData
  schedule_data : ScheduleData → ToolData
  expected_net_data : ExpectedNetData → ToolData
  tax_check_data : TaxCheckData → ToolData

pub data ArgumentFault : Type 0 where
  bad_payment_id bad_settlement_id bad_utr bad_date bad_amount bad_window : ArgumentFault

-- The error of a result, by its cause. The message for an unknown tool shows the first 40
-- characters of the name; `thrown` has the message of what was thrown.
pub data ToolFailure : Type 0 where
  unknown_tool : String → ToolFailure
  bad_argument : ArgumentFault → ToolFailure
  no_such_payment no_schedule_in_force expected_net_unknown : ToolFailure
  thrown : String → ToolFailure

-- The line that an operator reads, by the values that are printed into it.
pub data Summary : Type 0 where
  tool_rejected : ToolFailure → Summary
  tool_failed : ToolName → ToolFailure → Summary
  breakup_of : (settlements lines : ℕ) → ℤ → Summary
  no_fee_record : Summary
  fee_tax_of : (fees : ℕ) → ℤ → (taxes : ℕ) → ℤ → Summary
  no_bank_credit no_refunds no_adjustments no_ledger_evidence : Summary
  credits_of : ℕ → ℤ → Summary
  refunds_of adjustments_of : ℕ → Summary
  schedule_applies : String → ℤ → Summary
  variance_found : ℤ → Summary
  tax_not_checkable tax_is_consistent tax_does_not_match : Summary

pub record ToolResult : Type 0 where
  pub succeeded : Bool
  pub name : Option ToolName
  pub evidence : ToolData
  pub summary : Summary
  pub record_ids : List String
  pub failure : Option ToolFailure
