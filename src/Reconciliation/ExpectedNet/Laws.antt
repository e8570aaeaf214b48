-- ===== src/Reconciliation/ExpectedNet/Laws.antt =====
-- The expected net is the sum that the sign convention states, in one currency.
use settlement_ops.Base.{
  >>=-eq-ok, All, All-map-of, List, Result, [], ap, arith, err, is_ok, ok, pos, refl, str_eq_iff,
  sym, true, true-ne-false, ℤ, ◌+ℤ◌, ◌-ℤ◌, ◌∙◌, ◌∷◌, ◌≡◌, ◌≤ℤ◌,
}
use settlement_ops.Money.{Currency, Money, MoneyError, money, sum}
use settlement_ops.Money.Breakdown.{
  AmountBreakdown, BreakdownError, BreakdownInput, build_breakdown, build_breakdown-ok_iff,
  build_breakdown-value,
}
use settlement_ops.Money.Laws.{amounts, sum-eq-total, sum-one_currency, total}
use settlement_ops.Reconciliation.ExpectedNet.{
  ExpectedNetInput, agreed_total, expected_net_from_records, net_of, total_of,
}

-- Every amount is in the currency.
abbrev pub InCurrency : Currency → List Money → Type 0
InCurrency c = All (λ m. m.currency ≡ c)

-- gross - fees - taxes - refunds + adjustments, over plain integers.
abbrev pub net_spec : ExpectedNetInput → ℤ
net_spec i =
    i.gross.amount_minor
    -ℤ total (amounts i.fees)
    -ℤ total (amounts i.taxes)
    -ℤ total (amounts i.refunds)
    +ℤ total (amounts i.adjustments)

agreed_total-ok :
    (c : Currency) (r : Result MoneyError Money) (t : Money)
    → agreed_total c r ≡ ok t
    → (r ≡ ok t) × (t.currency ≡ c)
unfolding agreed_total
agreed_total-ok c (err e) t h = absurd (true-ne-false (sym (ap is_ok h)))
agreed_total-ok c (ok u) t h = ground (arith, str_eq_iff u.currency c)

agreed_total-same : (c : Currency) (x : ℤ) → agreed_total c (ok (money x c)) ≡ ok (money x c)
unfolding agreed_total
agreed_total-same c x = ground (arith, str_eq_iff c c)

ok-injective : (a b : Money) → ◌≡◌ {A = Result MoneyError Money} (ok a) (ok b) → a ≡ b
ok-injective a b h = cc

pub total_of-ok :
    (values : List Money) (c : Currency) (t : Money)
    → total_of values c ≡ ok t
    → (t ≡ money (total (amounts values)) c) × InCurrency c values
unfolding total_of
total_of-ok [] c t h = (cc, tt)
total_of-ok (v ∷ vs) c t h =
    let (summed, in_c) = agreed_total-ok c (sum (v ∷ vs)) t h in
    let (top, rest) = sum-one_currency v vs t summed in
    let v_in : v.currency ≡ c = sym top ∙ in_c in
    let value = ok-injective t _ (sym summed ∙ sum-eq-total v vs rest) in
    (
      value ∙ ap (money (total (amounts (v ∷ vs)))) v_in,
      (
        v_in,
        All-map-of (λ m. m.currency ≡ v.currency) (λ m. m.currency ≡ c) (λ m e. e ∙ v_in) vs rest,
      ),
    )

pub total_of-eq :
    (values : List Money) (c : Currency)
    → InCurrency c values
    → total_of values c ≡ ok (money (total (amounts values)) c)
unfolding total_of
total_of-eq [] c h = refl
total_of-eq (v ∷ vs) c h =
    let rest =
      All-map-of (λ m. m.currency ≡ c) (λ m. m.currency ≡ v.currency) (λ m e. e ∙ sym h.0) vs h.1 in
    rw (sum-eq-total v vs rest, h.0) (agreed_total-same c (total (amounts (v ∷ vs))))

-- The parts that must not be negative: the gross and the three totals.
abbrev pub NonNegativeTotals : ExpectedNetInput → Type 0
NonNegativeTotals i =
    (pos 0 ≤ℤ i.gross.amount_minor)
    × (pos 0 ≤ℤ total (amounts i.fees))
    × (pos 0 ≤ℤ total (amounts i.taxes))
    × (pos 0 ≤ℤ total (amounts i.refunds))

abbrev pub InOneCurrency : ExpectedNetInput → Type 0
InOneCurrency i =
    InCurrency i.gross.currency i.fees
    × InCurrency i.gross.currency i.taxes
    × InCurrency i.gross.currency i.refunds
    × InCurrency i.gross.currency i.adjustments

abbrev totals_input : ExpectedNetInput → BreakdownInput
totals_input i = record {
  gross = i.gross;
  fee = money (total (amounts i.fees)) i.gross.currency;
  tax = money (total (amounts i.taxes)) i.gross.currency;
  refund = money (total (amounts i.refunds)) i.gross.currency;
  adjustment = money (total (amounts i.adjustments)) i.gross.currency;
}

expected_net-eq :
    (i : ExpectedNetInput)
    → InOneCurrency i
    → expected_net_from_records i ≡ net_of (build_breakdown (totals_input i))
unfolding expected_net_from_records
expected_net-eq i (fees, taxes, refunds, adjustments) =
    let c = i.gross.currency in
    rw (
      total_of-eq i.fees c fees,
      total_of-eq i.taxes c taxes,
      total_of-eq i.refunds c refunds,
      total_of-eq i.adjustments c adjustments,
    )

currencies_agree :
    (i : ExpectedNetInput) (b : AmountBreakdown)
    → expected_net_from_records i ≡ ok b
    → InOneCurrency i
unfolding expected_net_from_records
currencies_agree i b h =
    let c = i.gross.currency in
    let (fee, fee_ok, h1) = >>=-eq-ok (total_of i.fees c) _ h in
    let (tax, tax_ok, h2) = >>=-eq-ok (total_of i.taxes c) _ h1 in
    let (refund, refund_ok, h3) = >>=-eq-ok (total_of i.refunds c) _ h2 in
    let (adjustment, adjustment_ok, h4) = >>=-eq-ok (total_of i.adjustments c) _ h3 in
    (
      (total_of-ok i.fees c fee fee_ok).1,
      (total_of-ok i.taxes c tax tax_ok).1,
      (total_of-ok i.refunds c refund refund_ok).1,
      (total_of-ok i.adjustments c adjustment adjustment_ok).1,
    )

net_of-ok :
    (r : Result BreakdownError AmountBreakdown) (b : AmountBreakdown) → net_of r ≡ ok b → r ≡ ok b
unfolding net_of
net_of-ok (ok a) b h = cc
net_of-ok (err e) b h = absurd (true-ne-false (sym (ap is_ok h)))

net_of-is_ok :
    (r : Result BreakdownError AmountBreakdown) → is_ok r ≡ true → is_ok (net_of r) ≡ true
unfolding net_of
net_of-is_ok (ok a) h = refl
net_of-is_ok (err e) h = absurd (true-ne-false (sym h))

-- A breakdown that is computed has all records in the currency of the payment, a payment amount and
-- totals of fees, taxes and refunds that are not negative (adjustments may be), and the net of the
-- sign convention.
pub expected_net_sound :
    (i : ExpectedNetInput) (b : AmountBreakdown)
    → expected_net_from_records i ≡ ok b
    → InOneCurrency i
      × NonNegativeTotals i
      × (b.currency ≡ i.gross.currency)
      × (b.expected_net_minor ≡ net_spec i)
expected_net_sound i b h =
    let agree = currencies_agree i b h in
    let built =
      net_of-ok (build_breakdown (totals_input i)) b (sym (expected_net-eq i agree) ∙ h) in
    let (currency, net) = build_breakdown-value (totals_input i) b built in
    (agree, (build_breakdown-ok_iff (totals_input i)).0 (ap is_ok built), currency, net)

-- Records in the currency of the payment, of a payment amount and totals of fees, taxes and refunds
-- that are not negative, always have a breakdown.
pub expected_net_complete :
    (i : ExpectedNetInput)
    → InOneCurrency i
    → NonNegativeTotals i
    → is_ok (expected_net_from_records i) ≡ true
expected_net_complete i agree signs = rw (expected_net-eq i agree) (
    net_of-is_ok (build_breakdown (totals_input i))
      ((build_breakdown-ok_iff (totals_input i)).1 signs))
