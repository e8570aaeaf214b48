-- ===== src/Tools/Exactness.antt =====
-- The arithmetic of the tools beside that of the verifier and of the fee policy.
use settlement_ops.Base.{
  *ℤ_pos, Bool-cases, List, Option, Result, Result-cases, [], ap, arith, err, false, if◌then◌else◌,
  inl, inr, leb, ltb_ℤ, none, ok, pos, refl, some, true-ne-false, ℕ, ℤ, ◌%◌, ◌*◌, ◌+ℤ◌, ◌+◌, ◌-ℤ◌,
  ◌/◌, ◌↔◌, ◌∙◌, ◌∷◌, ◌≡◌,
}
use settlement_ops.Money.{Money}
use settlement_ops.Policy.Rounding.{apply_basis_points, mul_div_half_up, round_half_up}
use settlement_ops.Reconciliation.ExpectedNet.{ExpectedNetError, expected_net_from_records}
use settlement_ops.Reconciliation.Unit.{ReconciliationUnit}
use settlement_ops.Reconciliation.Checks.{payment_lines}
use settlement_ops.Reconciliation.Matcher.{observed_input}
use settlement_ops.Verifier.Support.{settled_minor, sum_minor, variance}
use settlement_ops.Tools.Evidence.{Summary, ToolData, expected_net_data, variance_found}
use settlement_ops.Tools.{tool_error}
use settlement_ops.Tools.Lookups.{added_to, settled_total}
use settlement_ops.Tools.Arithmetic.{
  expected_net_amount, expected_net_answer, expected_tax, truncated_div,
}
use settlement_ops.Money.Breakdown.{AmountBreakdown}
use settlement_ops.Policy.FeeSchedule.{FeeScheduleVersion}

added_to-sum_minor : (acc : ℤ) (ms : List Money) → added_to acc ms ≡ sum_minor acc ms
unfolding added_to sum_minor
added_to-sum_minor acc [] = refl
added_to-sum_minor acc (m ∷ ms) = added_to-sum_minor (acc +ℤ m.amount_minor) ms

settled_total-eq : (unit : ReconciliationUnit) → settled_total unit ≡ settled_minor unit
unfolding settled_total settled_minor payment_lines
settled_total-eq unit = added_to-sum_minor (pos 0) _

-- The variance that a result reports.
abbrev pub reported_variance : ToolData → Option ℤ
reported_variance (expected_net_data d) = some d.variance_minor
reported_variance _ = none

-- The variance that a summary states.
abbrev pub told_variance : Summary → Option ℤ
told_variance (variance_found variance) = some variance
told_variance _ = none

-- What the verifier makes of an expected net.
abbrev variance_from : ReconciliationUnit → Result ExpectedNetError AmountBreakdown → Option ℤ
variance_from unit (err e) = none
variance_from unit (ok observed) = some (observed.expected_net_minor -ℤ settled_minor unit)

variance-from :
    (unit : ReconciliationUnit)
    → variance unit ≡ variance_from unit (expected_net_from_records (observed_input unit))
unfolding variance
variance-from unit = elim (Result-cases (expected_net_from_records (observed_input unit))) [
  | inl (b, found) ↦ rw (found, variance) refl
  | inr (e, failed) ↦ rw (failed, variance) refl
]

answer-variance :
    (unit : ReconciliationUnit) (r : Result ExpectedNetError AmountBreakdown)
    → (reported_variance (expected_net_answer unit r).evidence ≡ variance_from unit r)
      × (told_variance (expected_net_answer unit r).summary ≡ variance_from unit r)
      × (((expected_net_answer unit r).succeeded ≡ false) ↔ (variance_from unit r ≡ none))
unfolding expected_net_answer tool_error
answer-variance unit (err e) = (refl, refl, (λ h. refl, λ h. refl))
answer-variance unit (ok b) = (
  ap (λ x. some (b.expected_net_minor -ℤ x)) (settled_total-eq unit),
  ap (λ x. some (b.expected_net_minor -ℤ x)) (settled_total-eq unit),
  (λ h. absurd (true-ne-false h), λ h. absurd (some-ne-none h)),
)
  where
    some-ne-none : {x : ℤ} → some x ≡ none → ⊥
    some-ne-none h = cc

-- The variance in the summary of the result, which is what the agent is told, and the one in its data
-- are that which the verifier later judges by, and the tool fails exactly where the verifier can
-- compute none.
pub expected_net_amount-variance :
    (unit : ReconciliationUnit)
    → (reported_variance (expected_net_amount unit).evidence ≡ variance unit)
      × (told_variance (expected_net_amount unit).summary ≡ variance unit)
      × (((expected_net_amount unit).succeeded ≡ false) ↔ (variance unit ≡ none))
unfolding expected_net_amount
expected_net_amount-variance unit =
    rw (variance-from unit) (answer-variance unit (expected_net_from_records (observed_input unit)))

not_negative : (m : ℕ) → ltb_ℤ (pos m) (pos 0) ≡ false
not_negative m = ground arith

truncated-natural : (m : ℕ) → truncated_div (pos m) 10000 ≡ pos (m / 10000)
truncated-natural m = rw (not_negative m) (ap (λ n. pos (n / 10000)) (omega arith))

policy-natural :
    (total bps : ℕ) → apply_basis_points (pos total) bps ≡ pos (round_half_up (total * bps) 10000)
unfolding apply_basis_points mul_div_half_up
policy-natural total bps =
    rw (*ℤ_pos total bps, not_negative (total * bps))
      (ap (λ n. pos (round_half_up n 10000)) (omega arith))

one_less : (q : ℕ) → pos q ≡ pos (q + 1) -ℤ pos 1
unfolding ◌-ℤ◌
one_less q = ground arith

truncated-round :
    (m : ℕ)
    → pos (m / 10000) ≡ (
        if leb 10000 (m % 10000 * 2)
        then pos (round_half_up m 10000) -ℤ pos 1
        else pos (round_half_up m 10000))
unfolding round_half_up
truncated-round m = elim (Bool-cases (leb 10000 (m % 10000 * 2))) [
  | inl up ↦ rw up (one_less (m / 10000))
  | inr down ↦ rw down refl
]

-- The tax that the tool expects on a total of fees that is not negative: that of the fee policy,
-- but one minor unit less wherever the policy rounds up.
pub expected_tax-vs_policy :
    (total : ℕ) (schedule : FeeScheduleVersion)
    → expected_tax (pos total) (some schedule) ≡ (
        let policy = apply_basis_points (pos total) schedule.tax_on_fee_bps in
        some (
          if leb 10000 (total * schedule.tax_on_fee_bps % 10000 * 2)
          then policy -ℤ pos 1
          else policy))
expected_tax-vs_policy total schedule =
    let bps = schedule.tax_on_fee_bps in
    rw (*ℤ_pos total bps, policy-natural total bps)
      (ap some (truncated-natural (total * bps) ∙ truncated-round (total * bps)))
