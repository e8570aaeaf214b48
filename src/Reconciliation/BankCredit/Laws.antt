-- ===== src/Reconciliation/BankCredit/Laws.antt =====
-- When the bank credit check passes.
use settlement_ops.Base.{
  All, All-map-of, All-of-keep, List, List-cases, Memᴰ, Option, Option-cases, Result, Result-cases,
  String, [], ap, arith, err, false, first, first-Mem, inl, inr, int_laws, is_empty, is_ok, keep,
  neg_part, none, ok, pos, pos_part, refl, some, str_eq_iff, sym, true, true-ne-false, ℤ, ◌++◌,
  ◌+ℤ◌, ◌-ℤ◌, ◌∙◌, ◌∷◌, ◌≡◌, ◌≢◌, ◌≤ℤ◌,
}
use settlement_ops.Records.{BankCreditRecord, SettlementRecord}
use settlement_ops.Reconciliation.Unit.{ReconciliationCheck, ReconciliationUnit, is_failed}
use settlement_ops.Reconciliation.BankCredit.{
  IsCredited, amounts_agree, check_bank_credit, credit_for, credit_verdict, credits_from, has_utr,
}
use settlement_ops.Money.{Money, subtract}
use settlement_ops.Policy.Tolerances.{within_amount_match_tolerance_iff}
use settlement_ops.Policy.Settlement.{bank_credit_within_expected_lag}
use settlement_ops.Reconciliation.Checks.{is_text}

-- The settlement of `s`, if it has a UTR, is credited.
abbrev pub HasCredit : List BankCreditRecord → SettlementRecord → Type 0
HasCredit credits s = (b : BankCreditRecord) × (Memᴰ b credits × IsCredited s b)

sub-eq-zero : (a b : ℤ) → a -ℤ b ≡ pos 0 → a ≡ b
sub-eq-zero a b h = omega (int_laws, ap pos_part h, ap neg_part h)

amounts_agree-eq :
    (a b : Money)
    → amounts_agree (subtract a b) ≡ true
    → (a.currency ≡ b.currency) × (a.amount_minor ≡ b.amount_minor)
unfolding subtract
amounts_agree-eq a b h = ground (
  arith,
  str_eq_iff a.currency b.currency,
  within_amount_match_tolerance_iff (a.amount_minor -ℤ b.amount_minor),
  sub-eq-zero a.amount_minor b.amount_minor,
)

within_lag :
    (s c : ℤ) → bank_credit_within_expected_lag s c ≡ true → (s ≤ℤ c) × (c ≤ℤ s +ℤ pos 86400000)
unfolding bank_credit_within_expected_lag
within_lag s c h = grind (int_laws)

is_text-eq : (o : Option String) (t : String) → is_text o t ≡ true → o ≡ some t
is_text-eq none t h = absurd (true-ne-false (sym h))
is_text-eq (some u) t h = ap some ((str_eq_iff u t).0 h)

credit_for-IsCredited :
    (credits : List BankCreditRecord) (s : SettlementRecord) (b : BankCreditRecord)
    → credit_for credits s ≡ ok b
    → Memᴰ b credits × IsCredited s b
unfolding credit_for
credit_for-IsCredited credits s b h =
    let (found, agree, lag) = parts in
    let (member, same) = first-Mem (λ c. is_text s.utr c.utr) credits b found in
    let (currency, amount) = amounts_agree-eq b.amount s.net_amount agree in
    let (after, before) = within_lag s.settlement_at b.credited_at lag in
    (
      member,
      record {
        same_utr = is_text-eq s.utr b.utr same;
        same_currency = currency;
        same_amount = amount;
        not_before = after;
        within_day = before;
      },
    )
  where
    parts :
        (first (λ c. is_text s.utr c.utr) credits ≡ some b)
        × (amounts_agree (subtract b.amount s.net_amount) ≡ true)
        × (bank_credit_within_expected_lag s.settlement_at b.credited_at ≡ true)
    parts = ground arith

credits_from-credited :
    (credits : List BankCreditRecord) (seen : List String) (l : List SettlementRecord)
    → is_ok (credits_from credits seen l) ≡ true
    → All (HasCredit credits) l
unfolding credits_from
credits_from-credited credits seen [] h = tt
credits_from-credited credits seen (s ∷ l) h = elim (Result-cases (credit_for credits s)) [
  | inl (b, found) ↦ (
    (b, credit_for-IsCredited credits s b found),
    credits_from-credited credits (seen ++ (b.base.id ∷ [])) l (rw found at h),
  )
  | inr (c, missing) ↦ absurd (true-ne-false (sym (rw missing at h)))
]

verdict-ok :
    (r : Result ReconciliationCheck (List String))
    → ((c : ReconciliationCheck) → r ≡ err c → is_failed c.status ≡ true)
    → is_failed (credit_verdict r).status ≡ false
    → is_ok r ≡ true
verdict-ok (ok ids) bad h = refl
verdict-ok (err c) bad h = absurd (true-ne-false (sym (bad c refl) ∙ h))

credit_for-err :
    (credits : List BankCreditRecord) (s : SettlementRecord) (c : ReconciliationCheck)
    → credit_for credits s ≡ err c
    → is_failed c.status ≡ true
unfolding credit_for
credit_for-err credits s c h = ground arith

err-err :
    (d c : ReconciliationCheck)
    → ◌≡◌ {A = Result ReconciliationCheck (List String)} (err d) (err c)
    → ◌≡◌ {A = Result ReconciliationCheck BankCreditRecord} (err d) (err c)
err-err d c h = cc

credits_from-err :
    (credits : List BankCreditRecord) (seen : List String) (l : List SettlementRecord)
    (c : ReconciliationCheck)
    → credits_from credits seen l ≡ err c
    → is_failed c.status ≡ true
unfolding credits_from
credits_from-err credits seen [] c h = absurd (true-ne-false (ap is_ok h))
credits_from-err credits seen (s ∷ l) c h = elim (Result-cases (credit_for credits s)) [
  | inl (b, found) ↦ credits_from-err credits (seen ++ (b.base.id ∷ [])) l c (rw found at h)
  | inr (d, missing) ↦
      let h' = rw missing at h in credit_for-err credits s c (missing ∙ err-err d c h')
]

with_utr : (s : SettlementRecord) → s.utr ≢ none → has_utr s ≡ true
with_utr s h = ground (arith, Option-cases s.utr)

credited_lines :
    (unit : ReconciliationUnit)
    → is_failed (check_bank_credit unit).status ≡ false
    → All (HasCredit unit.bank_credits) (keep has_utr unit.settlements)
unfolding check_bank_credit is_empty
credited_lines unit h = elim (List-cases (keep has_utr unit.settlements)) [
  | inl empty ↦ rw empty tt
  | inr (s, l, some_left) ↦ rw some_left (
      credits_from-credited unit.bank_credits [] (s ∷ l) (
        verdict-ok (credits_from unit.bank_credits [] (s ∷ l))
          (credits_from-err unit.bank_credits [] (s ∷ l)) (rw some_left at h)))
]

-- If the check does not fail, every settlement that carries a UTR has been credited by the bank:
-- some credit has its UTR and currency, exactly its net amount, and is not before it and at most a
-- day after.
pub check_bank_credit_sound :
    (unit : ReconciliationUnit)
    → is_failed (check_bank_credit unit).status ≡ false
    → All (λ s. s.utr ≢ none → HasCredit unit.bank_credits s) unit.settlements
check_bank_credit_sound unit h =
    All-map-of (λ s. has_utr s ≡ true → HasCredit unit.bank_credits s)
      (λ s. s.utr ≢ none → HasCredit unit.bank_credits s) (λ s f has. f (with_utr s has))
      unit.settlements
      (All-of-keep has_utr (HasCredit unit.bank_credits) unit.settlements (credited_lines unit h))
