-- ===== src/Reconciliation/Checks.antt =====
-- The individual checks (packages/domain/src/reconciliation/checks.ts); the bank credit check is in
-- BankCredit.antt.
use settlement_ops.Base.{
  Bool, List, Option, Result, String, [], eq_ℤ, err, every, false, first, if◌then◌else◌, is_empty,
  keep, length, ltb, ltb_ℤ, map, max, none, not, ok, pos, some, str_eq, true, unique, ℕ, ℤ, ◌&&◌,
  ◌*◌, ◌++◌, ◌||◌, ◌∷◌,
}
use settlement_ops.Money.{Money, MoneyError, subtract, sum, zero_money}
use settlement_ops.Policy.Tolerances.{settlement_date_tolerance_days, within_rounding_tolerance}
use settlement_ops.Policy.Settlement.{
  adjustment_can_explain_settlement, days_between, expected_settlement_date,
  refund_netting_max_cycles,
}
use settlement_ops.Records.{
  AdjustmentRecord, PaymentStatus, RefundRecord, SettlementLineRecord, SettlementRecord, captured,
}
use settlement_ops.Reconciliation.Duplicates.{DuplicateGroup}
use settlement_ops.Reconciliation.ExpectedNet.{ScheduledFee, scheduled_fee_for}
use settlement_ops.Reconciliation.Unit.{
  ReconciliationCheck, ReconciliationUnit, against_schedule, at_most, currency_inconsistent,
  duplicate_list, duplicate_source_record, fail, instants, late_refunds, lifecycle_inconsistent,
  minor_units, missing_fee_record, no_settlement_found, on_schedule, outside_every_window, pass,
  plain, refund_outside_netting_window, remark, schedule_expects_fee,
  settlement_timing_outside_window, split_across, unexpected_fee_amount,
}

abbrev pub payment_key : ReconciliationUnit → String
payment_key unit = unit.payment.base.id

-- The amounts that the check compares with the payment's: not those of the settlements.
abbrev pub other_amounts : ReconciliationUnit → List Money
other_amounts unit =
    map (λ f. f.amount) unit.fees
    ++ (map (λ t. t.amount) unit.taxes
        ++ (map (λ r. r.amount) unit.refunds
            ++ (map (λ a. a.amount) unit.adjustments
                ++ (map (λ l. l.amount) unit.settlement_lines
                    ++ map (λ b. b.amount) unit.bank_credits))))

unfoldable pub check_currency_consistency : ReconciliationUnit → ReconciliationCheck
check_currency_consistency unit =
    let currency = unit.payment.amount.currency in
    elim (first (λ m. not (str_eq m.currency currency)) (other_amounts unit)) [
      | none ↦ pass "currency_consistency" (payment_key unit ∷ []) none
      | some mismatch ↦
          fail "currency_consistency" currency_inconsistent (some (plain currency))
            (some (plain mismatch.currency)) none []
    ]

abbrev is_captured : PaymentStatus → Bool
is_captured captured = true
is_captured _ = false

abbrev pub is_none : {A : Type 0} → Option A → Bool
is_none none = true
is_none (some _) = false

-- `p.capturedAt !== null && p.authorizedAt !== null && p.capturedAt < p.authorizedAt`
abbrev precedes : Option ℤ → Option ℤ → Bool
precedes (some captured_at) (some authorized_at) = ltb_ℤ captured_at authorized_at
precedes _ _ = false

-- The refunds' total, if they have one, when it is above the payment.
abbrev excess : Result MoneyError Money → Money → Option ℤ
excess (ok total) paid =
    if ltb_ℤ paid.amount_minor total.amount_minor then some total.amount_minor else none
excess (err e) paid = none

unfoldable pub check_lifecycle_consistency : ReconciliationUnit → ReconciliationCheck
check_lifecycle_consistency unit =
    let p = unit.payment in
    if is_captured p.status && is_none p.captured_at
    then fail "lifecycle_consistency" lifecycle_inconsistent none none
        (some (remark "payment is CAPTURED but has no capture timestamp")) (p.base.id ∷ [])
    else if precedes p.captured_at p.authorized_at
    then fail "lifecycle_consistency" lifecycle_inconsistent none none
        (some (remark "capture precedes authorization")) (p.base.id ∷ [])
    else elim (excess (sum (map (λ r. r.amount) unit.refunds)) p.amount) [
      | some total ↦
          fail "lifecycle_consistency" lifecycle_inconsistent (some (at_most p.amount.amount_minor))
            (some (minor_units total)) (some (remark "refunds exceed the captured payment amount"))
            (map (λ r. r.base.id) unit.refunds)
      | none ↦ pass "lifecycle_consistency" (p.base.id ∷ []) none
    ]

abbrev group_ids : List DuplicateGroup → List String
group_ids [] = []
group_ids (d ∷ ds) = d.ids ++ group_ids ds

unfoldable pub check_no_duplicates : ReconciliationUnit → ReconciliationCheck
check_no_duplicates unit =
    if is_empty unit.duplicates
    then pass "duplicate_detection" (payment_key unit ∷ []) none
    else fail "duplicate_detection" duplicate_source_record none none
        (some (duplicate_list unit.duplicates)) (group_ids unit.duplicates)

-- `a ?? b`
abbrev pub or_else : Option ℤ → Option ℤ → Option ℤ
or_else (some a) b = some a
or_else none b = b

abbrev pub ok_or : Result MoneyError Money → Money → Money
ok_or (ok total) default = total
ok_or (err e) default = default

-- What was recorded as fees, or nothing where the fees have no total.
unfoldable pub fee_total : ReconciliationUnit → Money
fee_total unit =
    ok_or (sum (map (λ f. f.amount) unit.fees)) (zero_money unit.payment.amount.currency)

fee_against : ReconciliationUnit → ScheduledFee → Result MoneyError Money → ReconciliationCheck
fee_against unit scheduled (err e) =
    fail "fee_matches_schedule" currency_inconsistent none none none
      (map (λ f. f.base.id) unit.fees)
fee_against unit scheduled (ok delta) =
    if not (within_rounding_tolerance delta.amount_minor (max 1 (length unit.fees)))
    then fail "fee_matches_schedule" unexpected_fee_amount
        (some (minor_units scheduled.fee.amount_minor))
        (some (minor_units (fee_total unit).amount_minor))
        (some (against_schedule scheduled.schedule_id)) (map (λ f. f.base.id) unit.fees)
    else pass "fee_matches_schedule" (map (λ f. f.base.id) unit.fees)
        (some (on_schedule scheduled.schedule_id))

fee_scheduled : ReconciliationUnit → ScheduledFee → ReconciliationCheck
unfolding fee_against
fee_scheduled unit scheduled =
    if is_empty unit.fees && not (eq_ℤ scheduled.fee.amount_minor (pos 0))
    then fail "fee_matches_schedule" missing_fee_record
        (some (minor_units scheduled.fee.amount_minor)) (some (plain "0"))
        (some (schedule_expects_fee scheduled.schedule_id)) (payment_key unit ∷ [])
    else fee_against unit scheduled (subtract (fee_total unit) scheduled.fee)

unfoldable pub check_fee_against_schedule : ReconciliationUnit → ReconciliationCheck
unfolding fee_scheduled
check_fee_against_schedule unit =
    let p = unit.payment in
    elim (or_else p.captured_at p.authorized_at) [
      | none ↦
          fail "fee_matches_schedule" lifecycle_inconsistent none none
            (some (remark "no capture or authorization time to select a fee schedule"))
            (p.base.id ∷ [])
      | some at ↦ elim (scheduled_fee_for p.amount p.payment_method at) [
        | none ↦
            fail "fee_matches_schedule" missing_fee_record none none
              (some (remark "no fee schedule in force at the payment date")) (p.base.id ∷ [])
        | some scheduled ↦ fee_scheduled unit scheduled
      ]
    ]

-- `l.paymentId === unit.payment.paymentId`
abbrev pub is_text : Option String → String → Bool
is_text none text = false
is_text (some t) text = str_eq t text

-- The settlement lines of the unit's payment.
unfoldable pub payment_lines : ReconciliationUnit → List SettlementLineRecord
payment_lines unit = keep (λ l. is_text l.payment_id unit.payment.payment_id) unit.settlement_lines

unfoldable pub distinct_settlements : List SettlementLineRecord → ℕ
distinct_settlements lines = length (unique str_eq (map (λ l. l.settlement_id) lines))

unfoldable pub check_settlement_presence : ReconciliationUnit → ReconciliationCheck
check_settlement_presence unit =
    let lines = payment_lines unit in
    if is_empty lines
    then fail "settlement_present" no_settlement_found none none
        (some (remark "no settlement line references this payment")) (payment_key unit ∷ [])
    else if ltb 1 (distinct_settlements lines)
    then pass "settlement_present" (map (λ l. l.base.id) lines)
        (some (split_across (distinct_settlements lines)))
    else pass "settlement_present" (map (λ l. l.base.id) lines) none

-- The settlements too far from the expected date.
unfoldable pub outside_window : ℤ → List SettlementRecord → List SettlementRecord
outside_window expected settlements =
    keep (λ s. ltb settlement_date_tolerance_days (days_between s.settlement_at expected))
      settlements

unfoldable pub check_settlement_timing : ReconciliationUnit → ReconciliationCheck
check_settlement_timing unit =
    let p = unit.payment in
    elim p.captured_at [
      | none ↦
          pass "settlement_timing" (p.base.id ∷ [])
            (some (remark "no capture time; not applicable"))
      | some captured_at ↦
          let expected = expected_settlement_date captured_at in
          let outside = outside_window expected unit.settlements in
          if is_empty unit.settlements
          then fail "settlement_timing" no_settlement_found none none none (p.base.id ∷ [])
          else if is_empty outside
          then pass "settlement_timing" (map (λ s. s.base.id) unit.settlements) none
          else fail "settlement_timing" settlement_timing_outside_window
              (some (instants (expected ∷ [])))
              (some (instants (map (λ s. s.settlement_at) outside))) none
              (map (λ s. s.base.id) outside)
    ]

-- `daysBetween(r.settledAt, r.createdAt) / 2 > 2`, multiplied out.
abbrev pub is_late_refund : RefundRecord → Bool
is_late_refund r = elim r.settled_at [
  | none ↦ false
  | some settled_at ↦ ltb (refund_netting_max_cycles * 2) (days_between settled_at r.created_at)
]

unfoldable pub check_refund_netting_window : ReconciliationUnit → ReconciliationCheck
check_refund_netting_window unit =
    let late = keep is_late_refund unit.refunds in
    if is_empty late
    then pass "refund_netting_window" (map (λ r. r.base.id) unit.refunds) none
    else fail "refund_netting_window" refund_outside_netting_window none none
        (some (late_refunds (length late))) (map (λ r. r.base.id) late)

-- The adjustments that could have affected none of the settlements.
unfoldable pub impossible_adjustments : ReconciliationUnit → List AdjustmentRecord
impossible_adjustments unit =
    keep
      (λ a.
        every (λ s. not (adjustment_can_explain_settlement a.effective_at s.settlement_at))
          unit.settlements)
      unit.adjustments

unfoldable pub check_adjustment_timing : ReconciliationUnit → ReconciliationCheck
check_adjustment_timing unit =
    let impossible = impossible_adjustments unit in
    if is_empty unit.adjustments || is_empty unit.settlements
    then pass "adjustment_timing" [] (some (remark "no adjustments to relate"))
    else if is_empty impossible
    then pass "adjustment_timing" (map (λ a. a.base.id) unit.adjustments) none
    else fail "adjustment_timing" lifecycle_inconsistent none
        (some (instants (map (λ a. a.effective_at) impossible)))
        (some (outside_every_window (length impossible))) (map (λ a. a.base.id) impossible)

unfoldable pub settled_total_for : ReconciliationUnit → Money
settled_total_for unit =
    ok_or (sum (map (λ l. l.amount) (payment_lines unit))) (zero_money unit.payment.amount.currency)
