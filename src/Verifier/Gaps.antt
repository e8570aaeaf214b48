-- ===== src/Verifier/Gaps.antt =====
-- What the verifier's rules leave open.
use settlement_ops.Base.{
  ap, if◌then◌else◌, int_laws, magnitude, neg, none, pos, refl, some, ℤ, ◌-ℤ◌, ◌≡◌,
}
use settlement_ops.Verifier.Support.{
  arithmetic_unsupported, cause_not_supported_by_evidence, cause_supported, mdr_fee_rule,
  refund_netting_rule, rule_for, unrecorded, variance,
}
use settlement_ops.Reconciliation.Unit.{ReconciliationUnit}
use settlement_ops.Reconciliation.Checks.{or_else}
use settlement_ops.Reconciliation.ExpectedNet.{scheduled_fee_for}
use settlement_ops.Cause.{refund_netting}
use settlement_ops.Policy.Tolerances.{within_rounding_tolerance}

magnitude-neg : (d : ℤ) → magnitude (neg d) ≡ magnitude d
magnitude-neg d = grind int_laws

-- The MDR_FEE rule does not read the sign of the variance: money that arrived in excess of the
-- expected net is accepted as withheld fees exactly where the same shortfall is.
pub mdr_fee_rule-neg :
    (unit : ReconciliationUnit) (d : ℤ) → mdr_fee_rule unit (neg d) ≡ mdr_fee_rule unit d
unfolding mdr_fee_rule
mdr_fee_rule-neg unit d =
    ap
      (λ m. elim (or_else unit.payment.captured_at unit.payment.authorized_at) [
        | none ↦ some arithmetic_unsupported
        | some at ↦ elim (scheduled_fee_for unit.payment.amount unit.payment.payment_method at) [
          | none ↦ some arithmetic_unsupported
          | some scheduled ↦
              if within_rounding_tolerance (pos m -ℤ pos (magnitude (unrecorded unit scheduled))) 2
              then none
              else some cause_not_supported_by_evidence
        ]
      ])
      (magnitude-neg d)

-- The REFUND_NETTING rule reads no amount: of two units with the same refunds and a computable
-- variance each, whatever it is, it supports both or neither.
pub refund_netting_any_variance :
    (unit other : ReconciliationUnit) (d e : ℤ)
    → unit.refunds ≡ other.refunds
    → variance unit ≡ some d
    → variance other ≡ some e
    → cause_supported refund_netting unit ≡ cause_supported refund_netting other
unfolding cause_supported rule_for refund_netting_rule
refund_netting_any_variance unit other d e same vd ve = rw (vd, ve, same, cause_supported) refl
