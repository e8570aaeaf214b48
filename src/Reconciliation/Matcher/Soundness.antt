-- ===== src/Reconciliation/Matcher/Soundness.antt =====
-- What a reconciled verdict guarantees.
use settlement_ops.Base.{
  All, All-append_left, All-append_right, All-map-keep, All-map-of, Bool, Bool-cases, List,
  Option-cases, Result, [], any-false-All, ap, arith, err, false, first, first-none_iff, inl, inr,
  is_empty, keep, keep-nil_iff, length, ltb, magnitude, map, max, min, none, not, ok, refl, some,
  str_eq, str_eq_iff, sym, true, true-ne-false, ℕ, ℤ, ◌*◌, ◌-ℤ◌, ◌∙◌, ◌∷◌, ◌≡◌, ◌≢◌, ◌≤◌,
}
use settlement_ops.Money.Laws.{amounts, subtract_same, sum-eq-total, total}
use settlement_ops.Policy.Settlement.{days_between, expected_settlement_date}
use settlement_ops.Reconciliation.ExpectedNet.Laws.{InCurrency, expected_net_sound, net_spec}
use settlement_ops.Reconciliation.Unit.{
  ReconciliationCheck, ReconciliationUnit, is_failed, reconciled,
}
use settlement_ops.Reconciliation.Checks.{
  check_currency_consistency, check_no_duplicates, check_refund_netting_window,
  check_settlement_presence, check_settlement_timing, is_late_refund, is_text, ok_or, other_amounts,
  outside_window, payment_lines, settled_total_for,
}
use settlement_ops.Reconciliation.BankCredit.Laws.{HasCredit, check_bank_credit_sound}
use settlement_ops.Reconciliation.Matcher.{
  Conservation, all_checks, breakdown_for, check_amount_conservation, conserved, failures_of,
  observed_input, reconcile_unit,
}
use settlement_ops.Money.{Currency, Money, MoneyError, money, subtract, sum, zero_money}
use settlement_ops.Policy.Tolerances.{settlement_date_tolerance_days, within_rounding_tolerance}
use settlement_ops.Records.{SettlementRecord}
use settlement_ops.Money.Breakdown.{AmountBreakdown}
use settlement_ops.Reconciliation.ExpectedNet.{expected_net_from_records}

is_empty-nil : {A : Type 0} (xs : List A) → is_empty xs ≡ true → xs ≡ []
unfolding is_empty
is_empty-nil [] h = refl
is_empty-nil (x ∷ xs) h = absurd (true-ne-false (sym h))

-- The ten checks of a reconciled unit.
conservation_of : ReconciliationUnit → Conservation
conservation_of unit = check_amount_conservation unit (breakdown_for unit)

Passes : ReconciliationCheck → Type 0
Passes c = is_failed c.status ≡ false

reconciled-passes :
    (unit : ReconciliationUnit)
    → (reconcile_unit unit).outcome ≡ reconciled
    → All (λ c. is_failed c.status ≡ false) (all_checks unit (conservation_of unit).check)
unfolding reconcile_unit conservation_of failures_of
reconciled-passes unit h =
    let checks = all_checks unit (check_amount_conservation unit (breakdown_for unit)).check in
    let none_failed : is_empty (keep (λ c. is_failed c.status) checks) ≡ true = ground arith in
    any-false-All (λ c. is_failed c.status) checks
      ((keep-nil_iff (λ c. is_failed c.status) checks).0 (is_empty-nil _ none_failed))

-- What the matcher has established when it reconciles a unit.
pub record IsSubstantiated (unit : ReconciliationUnit) : Type 0 where
  pub no_duplicates : unit.duplicates ≡ []
  pub one_currency : All (λ m. m.currency ≡ unit.payment.amount.currency) (other_amounts unit)
  pub has_lines : payment_lines unit ≢ []
  pub conserves :
      magnitude (
        net_spec (observed_input unit)
        -ℤ total (amounts (map (λ l. l.amount) (payment_lines unit))))
      ≤ min 100 (2 * max 1 (length (payment_lines unit)))
  pub credited : All (λ s. s.utr ≢ none → HasCredit unit.bank_credits s) unit.settlements
  pub refunds_in_window : All (λ r. is_late_refund r ≡ false) unit.refunds
  pub on_time :
      (at : ℤ)
      → unit.payment.captured_at ≡ some at
      → All (λ s. days_between s.settlement_at (expected_settlement_date at) ≤ 1) unit.settlements

no_duplicates_sound :
    (unit : ReconciliationUnit)
    → is_failed (check_no_duplicates unit).status ≡ false
    → unit.duplicates ≡ []
unfolding check_no_duplicates is_empty
no_duplicates_sound unit h = is_empty-nil unit.duplicates (ground arith)

currency_sound :
    (unit : ReconciliationUnit)
    → is_failed (check_currency_consistency unit).status ≡ false
    → All (λ m. m.currency ≡ unit.payment.amount.currency) (other_amounts unit)
unfolding check_currency_consistency
currency_sound unit h =
    let foreign : Money → Bool = λ m. not (str_eq m.currency unit.payment.amount.currency) in
    let none_found : first foreign (other_amounts unit) ≡ none = ground arith in
    All-map-of (λ m. foreign m ≡ false) (λ m. m.currency ≡ unit.payment.amount.currency)
      (λ m e. (str_eq_iff m.currency unit.payment.amount.currency).0 (ground arith))
      (other_amounts unit)
      (any-false-All foreign (other_amounts unit)
        ((first-none_iff foreign (other_amounts unit)).0 none_found))

presence_sound :
    (unit : ReconciliationUnit)
    → is_failed (check_settlement_presence unit).status ≡ false
    → payment_lines unit ≢ []
unfolding check_settlement_presence is_empty
presence_sound unit h empty = true-ne-false (rw (empty, is_empty) at h)

refunds_sound :
    (unit : ReconciliationUnit)
    → is_failed (check_refund_netting_window unit).status ≡ false
    → All (λ r. is_late_refund r ≡ false) unit.refunds
unfolding check_refund_netting_window
refunds_sound unit h =
    let none_late : is_empty (keep is_late_refund unit.refunds) ≡ true = ground arith in
    any-false-All is_late_refund unit.refunds
      ((keep-nil_iff is_late_refund unit.refunds).0 (is_empty-nil _ none_late))

timing_sound :
    (unit : ReconciliationUnit) (at : ℤ)
    → is_failed (check_settlement_timing unit).status ≡ false
    → unit.payment.captured_at ≡ some at
    → All (λ s. days_between s.settlement_at (expected_settlement_date at) ≤ 1) unit.settlements
unfolding check_settlement_timing outside_window
timing_sound unit at h e =
    let date = expected_settlement_date at in
    let far : SettlementRecord → Bool =
      λ s. ltb settlement_date_tolerance_days (days_between s.settlement_at date) in
    let none_far : is_empty (keep far unit.settlements) ≡ true = ground arith in
    All-map-of (λ s. far s ≡ false) (λ s. days_between s.settlement_at date ≤ 1)
      (λ s near. ground arith) unit.settlements
      (any-false-All far unit.settlements
        ((keep-nil_iff far unit.settlements).0 (is_empty-nil _ none_far)))

abbrev line_amounts : ReconciliationUnit → List Money
line_amounts unit = map (λ l. l.amount) (payment_lines unit)

-- The amounts of the payment's lines are among the amounts that are compared.
pub lines-InCurrency :
    (unit : ReconciliationUnit) (c : Currency)
    → InCurrency c (other_amounts unit)
    → InCurrency c (line_amounts unit)
unfolding payment_lines
lines-InCurrency unit c h =
    let P = λ (m : Money). m.currency ≡ c in
    let h1 = All-append_right P (map (λ f. f.amount) unit.fees) _ h in
    let h2 = All-append_right P (map (λ t. t.amount) unit.taxes) _ h1 in
    let h3 = All-append_right P (map (λ r. r.amount) unit.refunds) _ h2 in
    let h4 = All-append_right P (map (λ a. a.amount) unit.adjustments) _ h3 in
    All-map-keep P (λ l. l.amount) (λ l. is_text l.payment_id unit.payment.payment_id)
      unit.settlement_lines (All-append_left P (map (λ l. l.amount) unit.settlement_lines) _ h4)

sum_or_zero :
    (xs : List Money) (c : Currency)
    → InCurrency c xs
    → ok_or (sum xs) (zero_money c) ≡ money (total (amounts xs)) c
unfolding sum
sum_or_zero [] c h = refl
sum_or_zero (x ∷ xs) c h =
    rw
      (
        sum-eq-total x xs (
            All-map-of (λ m. m.currency ≡ c) (λ m. m.currency ≡ x.currency) (λ m e. e ∙ sym h.0) xs
              h.1),
        h.0,
      )
      refl

pub settled_total-eq :
    (unit : ReconciliationUnit)
    → InCurrency unit.payment.amount.currency (line_amounts unit)
    → settled_total_for unit
      ≡ money (total (amounts (line_amounts unit))) unit.payment.amount.currency
unfolding settled_total_for
settled_total-eq unit h = sum_or_zero (line_amounts unit) unit.payment.amount.currency h

conserved-within :
    (unit : ReconciliationUnit) (e s d : Money) (r : Result MoneyError Money)
    → r ≡ ok d
    → is_failed (conserved unit e s r).check.status ≡ false
    → within_rounding_tolerance d.amount_minor (length (payment_lines unit)) ≡ true
unfolding conserved
conserved-within unit e s d (ok d') same h = ground arith
conserved-within unit e s d (err f) same h = absurd (true-ne-false h)

within-le :
    (v : ℤ) (n : ℕ) → within_rounding_tolerance v n ≡ true → magnitude v ≤ min 100 (2 * max 1 n)
unfolding within_rounding_tolerance
within-le v n h = ground arith

conserves-some :
    (unit : ReconciliationUnit) (b : AmountBreakdown) (d : Money)
    → is_failed (check_amount_conservation unit (some b)).check.status ≡ false
    → subtract (money b.expected_net_minor unit.payment.amount.currency) (settled_total_for unit)
      ≡ ok d
    → within_rounding_tolerance d.amount_minor (length (payment_lines unit)) ≡ true
unfolding check_amount_conservation
conserves-some unit b d h difference =
    let expected = money b.expected_net_minor unit.payment.amount.currency in
    elim (Bool-cases (is_empty (payment_lines unit))) [
      | inl empty ↦ absurd (true-ne-false (rw empty at h))
      | inr lines ↦
          conserved-within unit expected (settled_total_for unit) d _ difference (rw lines at h)
    ]

no_breakdown-fails :
    (unit : ReconciliationUnit)
    → is_failed (check_amount_conservation unit none).check.status ≡ true
unfolding check_amount_conservation
no_breakdown-fails unit = refl

breakdown_for-some :
    (unit : ReconciliationUnit) (b : AmountBreakdown)
    → breakdown_for unit ≡ some b
    → expected_net_from_records (observed_input unit) ≡ ok b
unfolding breakdown_for
breakdown_for-some unit b h = ground arith

conserves_sound :
    (unit : ReconciliationUnit)
    → InCurrency unit.payment.amount.currency (other_amounts unit)
    → is_failed (conservation_of unit).check.status ≡ false
    → magnitude (net_spec (observed_input unit) -ℤ total (amounts (line_amounts unit)))
      ≤ min 100 (2 * max 1 (length (payment_lines unit)))
unfolding conservation_of
conserves_sound unit agree h = elim (Option-cases (breakdown_for unit)) [
  | inl missing ↦ absurd (true-ne-false (sym (no_breakdown-fails unit) ∙ rw missing at h))
  | inr (b, found) ↦
      let c = unit.payment.amount.currency in
      let net = (expected_net_sound (observed_input unit) b (breakdown_for-some unit b found)).3 in
      let settled = settled_total-eq unit (lines-InCurrency unit c agree) in
      let difference =
        subtract_same (money b.expected_net_minor c) (settled_total_for unit)
          (ap (λ m. m.currency) (sym settled)) in
      let within = conserves-some unit b _ (rw found at h) difference in
      rw (← net, ← ap (λ m. m.amount_minor) settled) (within-le _ _ within)
]

-- If a unit is reconciled, it has no duplicates; the amounts of its fees, taxes, refunds,
-- adjustments, settlement lines and bank credits are in the currency of the payment; the payment has
-- settlement lines, whose total is the expected net up to two minor units a line and never more than
-- a hundred; every settlement with a UTR has a bank credit of its UTR, currency and exact net
-- amount, not before it and at most a day after; no refund is late; and, where the payment has a
-- capture time, `daysBetween` each settlement and the expected date is at most one.
pub reconciled-IsSubstantiated :
    (unit : ReconciliationUnit) → (reconcile_unit unit).outcome ≡ reconciled → IsSubstantiated unit
unfolding all_checks
reconciled-IsSubstantiated unit h =
    let (currency, (lifecycle, (duplicates, (fee, (presence, (conservation, (timing, rest))))))) =
      reconciled-passes unit h in
    let agree = currency_sound unit currency in
    record {
      no_duplicates = no_duplicates_sound unit duplicates;
      one_currency = agree;
      has_lines = presence_sound unit presence;
      conserves = conserves_sound unit agree conservation;
      credited = check_bank_credit_sound unit rest.1.1.0;
      refunds_in_window = refunds_sound unit rest.0;
      on_time = λ at e. timing_sound unit at timing e;
    }

-- A reconciled unit has a breakdown.
pub reconciled-breakdown :
    (unit : ReconciliationUnit)
    → (reconcile_unit unit).outcome ≡ reconciled
    → (b : AmountBreakdown) × (expected_net_from_records (observed_input unit) ≡ ok b)
unfolding all_checks conservation_of
reconciled-breakdown unit h =
    let (currency, (lifecycle, (duplicates, (fee, (presence, (conservation, rest)))))) =
      reconciled-passes unit h in
    elim (Option-cases (breakdown_for unit)) [
      | inl missing ↦
          absurd (true-ne-false (sym (no_breakdown-fails unit) ∙ rw missing at conservation))
      | inr (b, found) ↦ (b, breakdown_for-some unit b found)
    ]
