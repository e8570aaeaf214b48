-- ===== src/Verifier/Support.antt =====
-- Whether the evidence supports a cause (`causeSupported` of packages/verification/src/verifier.ts).
use settlement_ops.Base.{
  Bool, List, Option, [], any, err, if◌then◌else◌, is_empty, keep, length, ltb, magnitude, map, max,
  none, not, ok, pos, some, str_eq, unique, ℤ, ◌&&◌, ◌+ℤ◌, ◌-ℤ◌, ◌||◌, ◌∷◌,
}
use settlement_ops.Money.{Money}
use settlement_ops.Cause.{
  CauseCode, ambiguous, compound, mdr_fee, refund_netting, rounding_drift, timing_lag, utr_split,
}
use settlement_ops.Policy.Tolerances.{rounding_tolerance_cap, within_rounding_tolerance}
use settlement_ops.Records.{BankCreditRecord, SettlementRecord}
use settlement_ops.Reconciliation.ExpectedNet.{
  ScheduledFee, expected_net_from_records, scheduled_fee_for,
}
use settlement_ops.Reconciliation.Unit.{ReconciliationUnit}
use settlement_ops.Reconciliation.Checks.{is_late_refund, is_none, is_text, or_else, payment_lines}
use settlement_ops.Reconciliation.Matcher.{observed_input}

pub data VerifierFailure : Type 0 where
  cause_not_permitted_to_resolve disposition_not_permitted_for_cause : VerifierFailure
  evidence_missing evidence_not_in_scope evidence_not_retrieved : VerifierFailure
  arithmetic_unsupported cause_not_supported_by_evidence timing_impossible : VerifierFailure
  rounding_exceeds_cap refund_outside_window : VerifierFailure

-- `reduce((total, x) => total + x.amount.amountMinor, 0n)`
unfoldable pub sum_minor : ℤ → List Money → ℤ
sum_minor acc [] = acc
sum_minor acc (m ∷ ms) = sum_minor (acc +ℤ m.amount_minor) ms

unfoldable pub settled_minor : ReconciliationUnit → ℤ
unfolding sum_minor
settled_minor unit = sum_minor (pos 0) (map (λ l. l.amount) (payment_lines unit))

-- The expected net less what was settled; none where the expected net cannot be computed.
unfoldable pub variance : ReconciliationUnit → Option ℤ
variance unit = elim (expected_net_from_records (observed_input unit)) [
  | err e ↦ none
  | ok observed ↦ some (observed.expected_net_minor -ℤ settled_minor unit)
]

-- Fee and tax that the schedule says were withheld, less those on record.
unfoldable pub unrecorded : ReconciliationUnit → ScheduledFee → ℤ
unrecorded unit scheduled =
    scheduled.fee.amount_minor
    +ℤ scheduled.tax.amount_minor
    -ℤ sum_minor (pos 0) (map (λ f. f.amount) unit.fees)
    -ℤ sum_minor (pos 0) (map (λ t. t.amount) unit.taxes)

-- The result of the source's rules is their failure, or none where the cause is supported.
unfoldable pub mdr_fee_rule : ReconciliationUnit → ℤ → Option VerifierFailure
mdr_fee_rule unit delta = elim (or_else unit.payment.captured_at unit.payment.authorized_at) [
  | none ↦ some arithmetic_unsupported
  | some at ↦ elim (scheduled_fee_for unit.payment.amount unit.payment.payment_method at) [
    | none ↦ some arithmetic_unsupported
    | some scheduled ↦
        if within_rounding_tolerance
          (pos (magnitude delta) -ℤ pos (magnitude (unrecorded unit scheduled))) 2
        then none
        else some cause_not_supported_by_evidence
  ]
]

-- A settlement leg with a UTR that no bank credit carries.
abbrev pub is_uncredited : List BankCreditRecord → SettlementRecord → Bool
is_uncredited credits s = not (is_none s.utr) && not (any (λ b. is_text s.utr b.utr) credits)

unfoldable pub utr_split_rule : ReconciliationUnit → ℤ → Option VerifierFailure
utr_split_rule unit delta =
    let legs = length (unique str_eq (map (λ s. s.settlement_id) unit.settlements)) in
    if ltb legs 2
    then some cause_not_supported_by_evidence
    else if not (is_empty (keep (is_uncredited unit.bank_credits) unit.settlements))
    then some evidence_missing
    else if within_rounding_tolerance delta (length unit.settlement_lines)
    then none
    else some arithmetic_unsupported

unfoldable pub timing_lag_rule : ReconciliationUnit → ℤ → Option VerifierFailure
timing_lag_rule unit delta =
    if not (within_rounding_tolerance delta (max 1 (length unit.settlement_lines)))
    then some cause_not_supported_by_evidence
    else if is_none unit.payment.captured_at || is_empty unit.settlements
    then some evidence_missing
    else none

unfoldable pub rounding_drift_rule : ℤ → Option VerifierFailure
rounding_drift_rule delta =
    if ltb rounding_tolerance_cap (magnitude delta) then some rounding_exceeds_cap else none

unfoldable pub refund_netting_rule : ReconciliationUnit → Option VerifierFailure
refund_netting_rule unit =
    if is_empty unit.refunds
    then some evidence_missing
    else if not (is_empty (keep is_late_refund unit.refunds))
    then some refund_outside_window
    else none

unfoldable pub rule_for : CauseCode → ReconciliationUnit → ℤ → Option VerifierFailure
unfolding mdr_fee_rule utr_split_rule timing_lag_rule rounding_drift_rule refund_netting_rule
rule_for mdr_fee unit delta = mdr_fee_rule unit delta
rule_for utr_split unit delta = utr_split_rule unit delta
rule_for timing_lag unit delta = timing_lag_rule unit delta
rule_for rounding_drift unit delta = rounding_drift_rule delta
rule_for refund_netting unit delta = refund_netting_rule unit
rule_for ambiguous unit delta = none
rule_for compound unit delta = some cause_not_supported_by_evidence

unfoldable pub cause_supported : CauseCode → ReconciliationUnit → Option VerifierFailure
unfolding rule_for
cause_supported cause unit = elim (variance unit) [
  | none ↦ some arithmetic_unsupported
  | some delta ↦ rule_for cause unit delta
]
