-- ===== src/Tests/Matching.antt =====
-- The baseline on the sample unit.
use settlement_ops.Base.{
  All, List, Memᴰ, String, [], arith, false, first, is_empty, is_ok, keep, length, magnitude, map,
  negsuc, none, ok, pos, refl, some, true, unique, ℤ, ◌*ℤ◌, ◌+ℤ◌, ◌-ℤ◌, ◌<◌, ◌↔◌, ◌∷◌, ◌≡◌, ◌≢◌,
  ◌≤◌,
}
use settlement_ops.Money.{add, subtract, sum}
use settlement_ops.Money.Laws.{amounts, total}
use settlement_ops.Money.Breakdown.{AmountBreakdown, build_breakdown}
use settlement_ops.Policy.Rounding.{apply_basis_points, mul_div_half_up, round_half_up}
use settlement_ops.Policy.FeeSchedule.{schedule_at}
use settlement_ops.Policy.Tolerances.{within_amount_match_tolerance, within_rounding_tolerance}
use settlement_ops.Policy.Calendar.{hour_of_day, is_business_day, midnight, walk, weekday}
use settlement_ops.Policy.Settlement.{
  bank_credit_within_expected_lag, days_between, expected_settlement_date,
}
use settlement_ops.Records.{FinancialRecord, of_fee, of_payment}
use settlement_ops.Reconciliation.Duplicates.{find_exact_duplicates}
use settlement_ops.Reconciliation.Duplicates.Groups.{
  find_exact_duplicates_iff, group_of, records_of,
}
use settlement_ops.Reconciliation.ExpectedNet.{
  expected_net_from_records, scheduled_fee_for, total_of,
}
use settlement_ops.Reconciliation.ExpectedNet.Laws.{
  InOneCurrency, NonNegativeTotals, expected_net_complete, expected_net_sound, net_spec,
}
use settlement_ops.Reconciliation.Checks.{
  check_adjustment_timing, check_currency_consistency, check_fee_against_schedule,
  check_lifecycle_consistency, check_no_duplicates, check_refund_netting_window,
  check_settlement_presence, check_settlement_timing, distinct_settlements, fee_total,
  outside_window, payment_lines, settled_total_for,
}
use settlement_ops.Reconciliation.BankCredit.{check_bank_credit, credit_for, credits_from}
use settlement_ops.Reconciliation.BankCredit.Laws.{HasCredit, check_bank_credit_sound}
use settlement_ops.Reconciliation.Unit.{ReconciliationUnit, is_failed, reconciled}
use settlement_ops.Reconciliation.Matcher.{
  all_checks, breakdown_for, check_amount_conservation, failures_of, observed_input, reconcile_unit,
}
use settlement_ops.Reconciliation.Matcher.Soundness.{IsSubstantiated, reconciled-IsSubstantiated}
use settlement_ops.Tests.Samples.{
  sample_fee, sample_input, sample_payment, sample_unit, unrecorded_unit,
}
use settlement_ops.Verifier.Support.{settled_minor, variance}
use settlement_ops.Verifier.Variance.{reconciled-variance, variance-eq}

sample_reconciled : (reconcile_unit sample_unit).outcome ≡ reconciled
unfolding subtract sum build_breakdown round_half_up mul_div_half_up apply_basis_points schedule_at
    within_amount_match_tolerance within_rounding_tolerance weekday hour_of_day midnight
    is_business_day walk expected_settlement_date days_between bank_credit_within_expected_lag
    total_of expected_net_from_records scheduled_fee_for check_currency_consistency
    check_lifecycle_consistency check_no_duplicates fee_total check_fee_against_schedule
    payment_lines distinct_settlements check_settlement_presence outside_window
    check_settlement_timing check_refund_netting_window check_adjustment_timing settled_total_for
    credit_for credits_from check_bank_credit breakdown_for check_amount_conservation all_checks
    failures_of reconcile_unit ◌+ℤ◌ ◌-ℤ◌ ◌*ℤ◌ keep first is_empty unique
sample_reconciled = refl

reconciled-IsSubstantiated_example : IsSubstantiated sample_unit
reconciled-IsSubstantiated_example = reconciled-IsSubstantiated sample_unit sample_reconciled

reconciled-variance_example : (d : ℤ) × (variance sample_unit ≡ some d) × (magnitude d ≤ 100)
reconciled-variance_example = reconciled-variance sample_unit sample_reconciled

abbrev net_of_unit : ReconciliationUnit → ℤ
net_of_unit unit =
    net_spec (observed_input unit) -ℤ total (amounts (map (λ l. l.amount) (payment_lines unit)))

unrecorded_variance : variance unrecorded_unit ≡ some (pos 29500)
unfolding variance expected_net_from_records total_of sum build_breakdown settled_minor
    payment_lines ◌+ℤ◌ ◌-ℤ◌ keep
unrecorded_variance = refl

variance-eq_example : pos 29500 ≡ net_of_unit unrecorded_unit
variance-eq_example = variance-eq unrecorded_unit (pos 29500) unrecorded_variance

abbrev sample_net : AmountBreakdown
sample_net = record {
  gross_minor = pos 1000000;
  fee_minor = pos 25000;
  tax_minor = pos 4500;
  refund_minor = pos 150000;
  adjustment_minor = negsuc 499;
  expected_net_minor = pos 820000;
  currency = "INR";
}

sample_net_computed : expected_net_from_records sample_input ≡ ok sample_net
unfolding add expected_net_from_records total_of sum build_breakdown ◌+ℤ◌ ◌-ℤ◌
sample_net_computed = refl

sample_credited : is_failed (check_bank_credit sample_unit).status ≡ false
unfolding check_bank_credit credits_from credit_for bank_credit_within_expected_lag is_empty first
    keep ◌+ℤ◌ ◌-ℤ◌ within_amount_match_tolerance subtract
sample_credited = refl

sample_signs : NonNegativeTotals sample_input
unfolding ◌+ℤ◌
sample_signs = (omega arith, omega arith, omega arith, omega arith)

expected_net_sound_example :
    InOneCurrency sample_input
    × NonNegativeTotals sample_input
    × (sample_net.currency ≡ sample_input.gross.currency)
    × (sample_net.expected_net_minor ≡ net_spec sample_input)
expected_net_sound_example = expected_net_sound sample_input sample_net sample_net_computed

expected_net_complete_example : is_ok (expected_net_from_records sample_input) ≡ true
expected_net_complete_example =
    expected_net_complete sample_input ((refl, tt), (refl, tt), (refl, (refl, tt)), (refl, tt))
      sample_signs

check_bank_credit_sound_example :
    All (λ s. s.utr ≢ none → HasCredit sample_unit.bank_credits s) sample_unit.settlements
check_bank_credit_sound_example = check_bank_credit_sound sample_unit sample_credited

abbrev imports : List FinancialRecord
imports = of_payment sample_payment ∷ of_fee sample_fee ∷ of_payment sample_payment ∷ []

find_exact_duplicates_iff_example :
    Memᴰ (group_of "m1::gateway::p" imports) (find_exact_duplicates imports) ↔ (
      (k : String) × (group_of "m1::gateway::p" imports ≡ group_of k imports)
      × (1 < length (records_of k imports)))
find_exact_duplicates_iff_example =
    find_exact_duplicates_iff imports (group_of "m1::gateway::p" imports)
