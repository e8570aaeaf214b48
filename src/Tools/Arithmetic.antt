-- ===== src/Tools/Arithmetic.antt =====
-- The handlers that compute: the fee schedule, the expected net and the tax on the fees
-- (packages/tools/src/handlers.ts).
use settlement_ops.Base.{
  Bool, Option, Result, [], eq_ℤ, err, false, if◌then◌else◌, ltb_ℤ, magnitude, map, neg, none, ok,
  pos, some, true, ℕ, ℤ, ◌*ℤ◌, ◌-ℤ◌, ◌/◌, ◌∷◌,
}
use settlement_ops.Money.Breakdown.{AmountBreakdown}
use settlement_ops.Policy.FeeSchedule.{FeeScheduleVersion, fee_schedules, schedule_at}
use settlement_ops.Reconciliation.ExpectedNet.{
  ExpectedNetError, ScheduledFee, expected_net_from_records, scheduled_fee_for,
}
use settlement_ops.Reconciliation.Unit.{ReconciliationUnit}
use settlement_ops.Reconciliation.Checks.{or_else}
use settlement_ops.Tools.Evidence.{
  Summary, ToolResult, calculate_expected_net_amount, expected_net_data, expected_net_unknown,
  get_fee_schedule, no_schedule_in_force, schedule_applies, schedule_data, tax_check_data,
  tax_does_not_match, tax_is_consistent, tax_not_checkable, validate_tax_line_mapping,
  variance_found,
}
use settlement_ops.Tools.{tool_error}
use settlement_ops.Tools.Lookups.{answer, fee_ids, settled_total, total_minor}

-- An invalid date has no schedule: each of its comparisons is false.
unfoldable pub fee_schedule_of : Option ℤ → ToolResult
fee_schedule_of none = tool_error (some get_fee_schedule) no_schedule_in_force
fee_schedule_of (some at) = elim (schedule_at at) [
  | none ↦ tool_error (some get_fee_schedule) no_schedule_in_force
  | some schedule ↦
      answer get_fee_schedule
        (schedule_data (record {
          schedule_id = schedule.id;
          effective_from = schedule.effective_from;
          fee_rate_bps = schedule.fee_rate_bps;
          tax_on_fee_bps = schedule.tax_on_fee_bps;
          all_versions = map (λ s. (s.id, s.effective_from)) fee_schedules;
        }))
        (schedule_applies schedule.id at) []
]

abbrev scheduled_at : ReconciliationUnit → Option ℤ → Option ScheduledFee
scheduled_at unit none = none
scheduled_at unit (some at) = scheduled_fee_for unit.payment.amount unit.payment.payment_method at

abbrev of_scheduled : {A : Type 0} → (ScheduledFee → A) → Option ScheduledFee → Option A
of_scheduled f none = none
of_scheduled f (some scheduled) = some (f scheduled)

unfoldable pub expected_net_answer :
    ReconciliationUnit → Result ExpectedNetError AmountBreakdown → ToolResult
expected_net_answer unit (err e) =
    tool_error (some calculate_expected_net_amount) expected_net_unknown
expected_net_answer unit (ok observed) =
    let settled = settled_total unit in
    let scheduled =
      scheduled_at unit (or_else unit.payment.captured_at unit.payment.authorized_at) in
    let variance = observed.expected_net_minor -ℤ settled in
    answer calculate_expected_net_amount
      (expected_net_data (record {
        expected_net_minor = observed.expected_net_minor;
        settled_total_minor = settled;
        variance_minor = variance;
        scheduled_fee_minor = of_scheduled (λ s. s.fee.amount_minor) scheduled;
        scheduled_tax_minor = of_scheduled (λ s. s.tax.amount_minor) scheduled;
        schedule_id = of_scheduled (λ s. s.schedule_id) scheduled;
        scheduled_variance_minor =
            of_scheduled
              (λ s.
                unit.payment.amount.amount_minor -ℤ s.fee.amount_minor -ℤ s.tax.amount_minor
                -ℤ settled)
              scheduled;
      }))
      (variance_found variance) (unit.payment.base.id ∷ [])

unfoldable pub expected_net_amount : ReconciliationUnit → ToolResult
unfolding expected_net_answer
expected_net_amount unit = expected_net_answer unit (
    expected_net_from_records (record {
      gross = unit.payment.amount;
      fees = map (λ f. f.amount) unit.fees;
      taxes = map (λ t. t.amount) unit.taxes;
      refunds = map (λ r. r.amount) unit.refunds;
      adjustments = map (λ a. a.amount) unit.adjustments;
    }))

-- `/` of two `bigint`s, which drops the fraction.
abbrev pub truncated_div : ℤ → ℕ → ℤ
truncated_div a d = if ltb_ℤ a (pos 0) then neg (pos (magnitude a / d)) else pos (magnitude a / d)

abbrev pub expected_tax : ℤ → Option FeeScheduleVersion → Option ℤ
expected_tax fee_sum none = none
expected_tax fee_sum (some schedule) =
    some (truncated_div (fee_sum *ℤ pos schedule.tax_on_fee_bps) 10000)

abbrev tax_agrees : ℤ → Option ℤ → Option Bool
tax_agrees tax_sum none = none
tax_agrees tax_sum (some tax) = some (eq_ℤ tax_sum tax)

abbrev tax_summary : Option Bool → Summary
tax_summary none = tax_not_checkable
tax_summary (some true) = tax_is_consistent
tax_summary (some false) = tax_does_not_match

abbrev or_now : Option ℤ → ℤ → ℤ
or_now none now = now
or_now (some at) now = at

unfoldable pub tax_line_mapping : ℤ → ReconciliationUnit → ToolResult
tax_line_mapping now unit =
    let fee_sum = total_minor (map (λ f. f.amount) unit.fees) in
    let tax_sum = total_minor (map (λ t. t.amount) unit.taxes) in
    let expected = expected_tax fee_sum (schedule_at (or_now unit.payment.captured_at now)) in
    let consistent = tax_agrees tax_sum expected in
    answer validate_tax_line_mapping
      (tax_check_data (record {
        fee_total_minor = fee_sum;
        tax_total_minor = tax_sum;
        expected_tax_minor = expected;
        consistent = consistent;
      }))
      (tax_summary consistent) (fee_ids unit)
