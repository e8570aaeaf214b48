-- ===== src/Tests/Verifying.antt =====
-- The verifier on a fee proposal for the sample unit.
use settlement_ops.Base.{
  any, every, includes, is_empty, keep, pos, refl, some, ℤ, ◌*ℤ◌, ◌+ℤ◌, ◌-ℤ◌, ◌≡◌,
}
use settlement_ops.Money.{sum}
use settlement_ops.Money.Breakdown.{build_breakdown}
use settlement_ops.Policy.Rounding.{apply_basis_points, mul_div_half_up, round_half_up}
use settlement_ops.Policy.FeeSchedule.{schedule_at}
use settlement_ops.Policy.Tolerances.{within_rounding_tolerance}
use settlement_ops.Reconciliation.ExpectedNet.{
  expected_net_from_records, scheduled_fee_for, total_of,
}
use settlement_ops.Reconciliation.Checks.{impossible_adjustments, payment_lines}
use settlement_ops.Cause.{can_ever_resolve, is_disposition_permitted, mdr_fee, resolve}
use settlement_ops.Verifier.{foreign_ids, known_ids, resolve_failures, unretrieved_ids, verify}
use settlement_ops.Verifier.Support.{
  cause_supported, mdr_fee_rule, rule_for, settled_minor, unrecorded, variance,
}
use settlement_ops.Verifier.Laws.{IsCleared, Supports, resolve-IsCleared, resolve-Supports}
use settlement_ops.Tests.Samples.{fee_proposal, sample_unit, unrecorded_unit}

sample_resolves : (verify fee_proposal unrecorded_unit).effective_disposition ≡ resolve
unfolding verify resolve_failures known_ids foreign_ids unretrieved_ids impossible_adjustments
    cause_supported variance expected_net_from_records total_of sum build_breakdown settled_minor
    payment_lines unrecorded mdr_fee_rule rule_for within_rounding_tolerance scheduled_fee_for
    schedule_at apply_basis_points mul_div_half_up round_half_up ◌+ℤ◌ ◌-ℤ◌ ◌*ℤ◌ keep any every
    includes is_empty can_ever_resolve is_disposition_permitted
sample_resolves = refl

resolve-Supports_example :
    (d : ℤ) × (variance unrecorded_unit ≡ some d) × Supports mdr_fee unrecorded_unit d
resolve-Supports_example = resolve-Supports fee_proposal unrecorded_unit sample_resolves

resolve-IsCleared_example : IsCleared fee_proposal unrecorded_unit
resolve-IsCleared_example = resolve-IsCleared fee_proposal unrecorded_unit sample_resolves

variance_short : variance unrecorded_unit ≡ some (pos 29500)
unfolding variance expected_net_from_records total_of sum build_breakdown settled_minor
    payment_lines ◌+ℤ◌ ◌-ℤ◌ keep
variance_short = refl

variance_none : variance sample_unit ≡ some (pos 0)
unfolding variance expected_net_from_records total_of sum build_breakdown settled_minor
    payment_lines ◌+ℤ◌ ◌-ℤ◌ keep
variance_none = refl
