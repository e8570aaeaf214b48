-- ===== src/Reconciliation/BankCredit.antt =====
-- The bank credit check (`checkBankCredit` of packages/domain/src/reconciliation/checks.ts).
pub mod Laws
use settlement_ops.Base.{
  Bool, List, Option, Result, String, [], err, false, first, if◌then◌else◌, is_empty, keep, none,
  not, ok, pos, some, ◌++◌, ◌+ℤ◌, ◌>>=◌, ◌∷◌, ◌≡◌, ◌≤ℤ◌,
}
use settlement_ops.Money.{Money, MoneyError, subtract}
use settlement_ops.Policy.Tolerances.{within_amount_match_tolerance}
use settlement_ops.Policy.Settlement.{bank_credit_within_expected_lag}
use settlement_ops.Records.{BankCreditRecord, SettlementRecord}
use settlement_ops.Reconciliation.Unit.{
  ReconciliationCheck, ReconciliationUnit, bank_credit_amount_mismatch,
  bank_credit_timing_outside_window, credit_for_utr, fail, instants, minor_units,
  missing_bank_credit, pass, plain, remark,
}
use settlement_ops.Reconciliation.Checks.{is_none, is_text}

abbrev has_utr : SettlementRecord → Bool
has_utr s = not (is_none s.utr)

abbrev utr_text : Option String → String
utr_text none = ""
utr_text (some u) = u

-- `creditVariance.ok && withinAmountMatchTolerance(creditVariance.value.amountMinor)`
abbrev amounts_agree : Result MoneyError Money → Bool
amounts_agree (ok variance) = within_amount_match_tolerance variance.amount_minor
amounts_agree (err e) = false

-- What the loop finds for one settlement: a failed check, or the credit that matches.
unfoldable pub credit_for :
    List BankCreditRecord → SettlementRecord → Result ReconciliationCheck BankCreditRecord
credit_for credits settlement = elim (first (λ b. is_text settlement.utr b.utr) credits) [
  | none ↦ err (
      fail "bank_credit" missing_bank_credit (some (credit_for_utr (utr_text settlement.utr)))
        (some (plain "none")) none (settlement.base.id ∷ []))
  | some match ↦
      if not (amounts_agree (subtract match.amount settlement.net_amount))
      then err (
          fail "bank_credit" bank_credit_amount_mismatch
            (some (minor_units settlement.net_amount.amount_minor))
            (some (minor_units match.amount.amount_minor)) none
            (settlement.base.id ∷ match.base.id ∷ []))
      else if not (bank_credit_within_expected_lag settlement.settlement_at match.credited_at)
      then err (
          fail "bank_credit" bank_credit_timing_outside_window
            (some (instants (settlement.settlement_at ∷ [])))
            (some (instants (match.credited_at ∷ []))) none
            (settlement.base.id ∷ match.base.id ∷ []))
      else ok match
]

-- The loop over the settlements: the first that fails ends it, else the credits' ids add up.
unfoldable pub credits_from :
    List BankCreditRecord
    → List String
    → List SettlementRecord
    → Result ReconciliationCheck (List String)
credits_from credits credited [] = ok credited
credits_from credits credited (s ∷ rest) =
    credit_for credits s >>= λ match. credits_from credits (credited ++ (match.base.id ∷ [])) rest

abbrev credit_verdict : Result ReconciliationCheck (List String) → ReconciliationCheck
credit_verdict (err check) = check
credit_verdict (ok credited) = pass "bank_credit" credited none

unfoldable pub check_bank_credit : ReconciliationUnit → ReconciliationCheck
check_bank_credit unit =
    let settlements = keep has_utr unit.settlements in
    if is_empty settlements
    then pass "bank_credit" [] (some (remark "no settlement UTR to match; not applicable"))
    else credit_verdict (credits_from unit.bank_credits [] settlements)

-- The credit that a settlement has: one of its UTR, of exactly its net amount, in its currency, and
-- within a day of it.
pub record IsCredited (s : SettlementRecord) (b : BankCreditRecord) : Type 0 where
  pub same_utr : s.utr ≡ some b.utr
  pub same_currency : b.amount.currency ≡ s.net_amount.currency
  pub same_amount : b.amount.amount_minor ≡ s.net_amount.amount_minor
  pub not_before : s.settlement_at ≤ℤ b.credited_at
  pub within_day : b.credited_at ≤ℤ s.settlement_at +ℤ pos 86400000
