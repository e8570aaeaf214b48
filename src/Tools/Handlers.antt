-- ===== src/Tools/Handlers.antt =====
-- The table of handlers (`makeHandlers` of packages/tools/src/handlers.ts). The database behind
-- `loadUnit` is a parameter: a unit, none for a payment that the scope does not have, or the message
-- of an error.
use settlement_ops.Base.{Option, Result, String, err, none, ok, some, ℤ}
use settlement_ops.Reconciliation.Unit.{ReconciliationUnit}
use settlement_ops.Tools.Evidence.{
  ToolName, ToolResult, calculate_expected_net_amount, get_bank_credit, get_fee_schedule,
  get_fee_tax_lines, get_ledger_entries, get_refunds, get_settlement_breakup, no_such_payment,
  search_related_adjustments, validate_tax_line_mapping,
}
use settlement_ops.Tools.{ToolArguments, ToolContext, tool_error}
use settlement_ops.Tools.Lookups.{
  bank_credit, fee_tax_lines, ledger_entries, refund_list, related_adjustments, settlement_breakup,
}
use settlement_ops.Tools.Arithmetic.{expected_net_amount, fee_schedule_of, tax_line_mapping}

abbrev pub UnitLoader : Type 0
UnitLoader = ToolContext → Result String (Option ReconciliationUnit)

-- `withUnit`
abbrev pub with_unit :
    ToolName
    → (ReconciliationUnit → ToolResult)
    → Result String (Option ReconciliationUnit)
    → Result String ToolResult
with_unit name fn (err message) = err message
with_unit name fn (ok none) = ok (tool_error (some name) no_such_payment)
with_unit name fn (ok (some unit)) = ok (fn unit)

-- `date_parse` stands for `Date.parse` and `new Date(text)`, `now` for `new Date()`.
module _ (date_parse : String → Option ℤ) (now : ℤ) (load_unit : UnitLoader) where
  abbrev pub schedule_time : Option String → Option ℤ
  schedule_time none = some now
  schedule_time (some text) = date_parse text

  -- `makeHandlers(loadUnit)[name]`
  unfoldable pub handle : ToolName → ToolContext → ToolArguments → Result String ToolResult
  handle get_settlement_breakup ctx args =
      with_unit get_settlement_breakup settlement_breakup (load_unit ctx)
  handle get_fee_tax_lines ctx args = with_unit get_fee_tax_lines fee_tax_lines (load_unit ctx)
  handle get_bank_credit ctx args = with_unit get_bank_credit (bank_credit args) (load_unit ctx)
  handle get_refunds ctx args = with_unit get_refunds refund_list (load_unit ctx)
  handle search_related_adjustments ctx args =
      with_unit search_related_adjustments related_adjustments (load_unit ctx)
  handle get_ledger_entries ctx args = with_unit get_ledger_entries ledger_entries (load_unit ctx)
  handle get_fee_schedule ctx args = ok (fee_schedule_of (schedule_time args.effective_date))
  handle calculate_expected_net_amount ctx args =
      with_unit calculate_expected_net_amount expected_net_amount (load_unit ctx)
  handle validate_tax_line_mapping ctx args =
      with_unit validate_tax_line_mapping (tax_line_mapping now) (load_unit ctx)
