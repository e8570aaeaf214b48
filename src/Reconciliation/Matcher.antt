-- ===== src/Reconciliation/Matcher.antt =====
-- The matcher (packages/domain/src/reconciliation/matcher.ts).
pub mod Soundness
use settlement_ops.Base.{
  List, Option, Result, String, [], err, if◌then◌else◌, is_empty, keep, length, ltb, map, none, ok,
  some, str_eq, unique, ◌++◌, ◌∷◌,
}
use settlement_ops.Money.{Money, MoneyError, money, subtract, zero_money}
use settlement_ops.Money.Breakdown.{AmountBreakdown}
use settlement_ops.Policy.Tolerances.{within_rounding_tolerance}
use settlement_ops.Reconciliation.ExpectedNet.{
  ExpectedNetError, ExpectedNetInput, expected_net_from_records,
}
use settlement_ops.Reconciliation.Unit.{
  ReconciliationCheck, ReconciliationUnit, ReconciliationVerdict, ResidualReason, conserved_across,
  currency_inconsistent, exception, fail, is_failed, minor_units, net_amount_mismatch,
  no_settlement_found, pass, reason_eq, reconciled, remark, split_settlement_unresolved,
  variance_of,
}
use settlement_ops.Reconciliation.Checks.{
  check_adjustment_timing, check_currency_consistency, check_fee_against_schedule,
  check_lifecycle_consistency, check_no_duplicates, check_refund_netting_window,
  check_settlement_presence, check_settlement_timing, distinct_settlements, payment_key,
  payment_lines, settled_total_for,
}
use settlement_ops.Reconciliation.BankCredit.{check_bank_credit}

-- POLICY_VERSION of packages/domain/src/policy/policy-version.ts
abbrev pub policy_version_text : String
policy_version_text = "1.0.0"

abbrev pub observed_input : ReconciliationUnit → ExpectedNetInput
observed_input unit = record {
  gross = unit.payment.amount;
  fees = map (λ f. f.amount) unit.fees;
  taxes = map (λ t. t.amount) unit.taxes;
  refunds = map (λ r. r.amount) unit.refunds;
  adjustments = map (λ a. a.amount) unit.adjustments;
}

abbrev ok_value : Result ExpectedNetError AmountBreakdown → Option AmountBreakdown
ok_value (ok b) = some b
ok_value (err e) = none

unfoldable pub breakdown_for : ReconciliationUnit → Option AmountBreakdown
breakdown_for unit = ok_value (expected_net_from_records (observed_input unit))

-- A check with the discrepancy that it found.
pub record Conservation : Type 0 where
  pub check : ReconciliationCheck
  pub discrepancy : Money

conserved : ReconciliationUnit → Money → Money → Result MoneyError Money → Conservation
conserved unit expected settled (err e) = record {
  check = fail "amount_conservation" currency_inconsistent none none none (payment_key unit ∷ []);
  discrepancy = zero_money unit.payment.amount.currency;
}
conserved unit expected settled (ok discrepancy) =
    let lines = payment_lines unit in
    let distinct = distinct_settlements lines in
    let is_split = ltb 1 distinct in
    let ids = map (λ l. l.base.id) lines in
    if within_rounding_tolerance discrepancy.amount_minor (length lines)
    then record {
      check =
          pass "amount_conservation" ids
            (if is_split then some (conserved_across distinct) else none);
      discrepancy = discrepancy;
    }
    else record {
      check =
          fail "amount_conservation"
            (if is_split then split_settlement_unresolved else net_amount_mismatch)
            (some (minor_units expected.amount_minor)) (some (minor_units settled.amount_minor))
            (some (variance_of discrepancy.amount_minor)) ids;
      discrepancy = discrepancy;
    }

unfoldable pub check_amount_conservation :
    ReconciliationUnit → Option AmountBreakdown → Conservation
unfolding conserved
check_amount_conservation unit none = record {
  check =
      fail "amount_conservation" currency_inconsistent none none
        (some (remark "expected net could not be computed")) (payment_key unit ∷ []);
  discrepancy = zero_money unit.payment.amount.currency;
}
check_amount_conservation unit (some breakdown) =
    let expected = money breakdown.expected_net_minor unit.payment.amount.currency in
    if is_empty (payment_lines unit)
    then record {
      check = fail "amount_conservation" no_settlement_found none none none (payment_key unit ∷ []);
      discrepancy = expected;
    }
    else conserved unit expected (settled_total_for unit)
        (subtract expected (settled_total_for unit))

-- The checks in their order.
unfoldable pub all_checks : ReconciliationUnit → ReconciliationCheck → List ReconciliationCheck
all_checks unit conservation =
    check_currency_consistency unit
    ∷ check_lifecycle_consistency unit
    ∷ check_no_duplicates unit
    ∷ check_fee_against_schedule unit
    ∷ check_settlement_presence unit
    ∷ conservation
    ∷ check_settlement_timing unit
    ∷ check_refund_netting_window unit
    ∷ check_adjustment_timing unit
    ∷ check_bank_credit unit
    ∷ []

-- `flatMap((c) => (c.reason === null ? [] : [c.reason]))`
unfoldable pub reasons_of : List ReconciliationCheck → List ResidualReason
reasons_of [] = []
reasons_of (c ∷ cs) = let rest = reasons_of cs in elim c.reason [ none ↦ rest | some r ↦ r ∷ rest ]

unfoldable pub cited_ids : List ReconciliationCheck → List String
cited_ids [] = []
cited_ids (c ∷ cs) = c.source_record_ids ++ cited_ids cs

unfoldable pub failures_of : List ReconciliationCheck → List ReconciliationCheck
failures_of checks = keep (λ c. is_failed c.status) checks

unfoldable pub reconcile_unit : ReconciliationUnit → ReconciliationVerdict
reconcile_unit unit =
    let breakdown = breakdown_for unit in
    let conservation = check_amount_conservation unit breakdown in
    let checks = all_checks unit conservation.check in
    let failures = failures_of checks in
    record {
      outcome = if is_empty failures then reconciled else exception;
      reasons = unique reason_eq (reasons_of failures);
      discrepancy = conservation.discrepancy;
      breakdown = breakdown;
      checks = checks;
      evidence_record_ids = unique str_eq (unit.payment.base.id ∷ cited_ids checks);
      policy_version = policy_version_text;
    }
