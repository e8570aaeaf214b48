-- ===== src/Money/Breakdown.antt =====
-- The canonical breakdown of a payment (packages/domain/src/money/amount-breakdown.ts).
use settlement_ops.Base.{
  Bool, List, Result, [], arith, eq_ℤ, err, if◌then◌else◌, int_laws, is_ok, ltb_ℤ, ok, pos, true, ℤ,
  ◌+ℤ◌, ◌-ℤ◌, ◌>>◌, ◌↔◌, ◌∷◌, ◌≡◌, ◌≤ℤ◌,
}
use settlement_ops.Money.{Currency, Money, equals, money}

pub record AmountBreakdown : Type 0 where
  pub gross_minor : ℤ
  pub fee_minor : ℤ
  pub tax_minor : ℤ
  pub refund_minor : ℤ
  pub adjustment_minor : ℤ
  pub expected_net_minor : ℤ
  pub currency : Currency

-- The keys of `BreakdownInput` that `NON_NEGATIVE` lists.
pub data Component : Type 0 where
  gross_part fee_part tax_part refund_part : Component

-- `DOES_NOT_RECONCILE` is declared in the source and made by no code.
pub data BreakdownError : Type 0 where
  negative_component : Component → ℤ → BreakdownError
  does_not_reconcile : ℤ → ℤ → BreakdownError

pub record BreakdownInput : Type 0 where
  pub gross : Money
  pub fee : Money
  pub tax : Money
  pub refund : Money
  pub adjustment : Money

abbrev component : BreakdownInput → Component → Money
component input gross_part = input.gross
component input fee_part = input.fee
component input tax_part = input.tax
component input refund_part = input.refund

abbrev pub non_negative : List Component
non_negative = gross_part ∷ fee_part ∷ tax_part ∷ refund_part ∷ []

-- The loop over the keys: the first negative component is the error.
check_components : BreakdownInput → List Component → Result BreakdownError (Unit {0})
check_components input [] = ok tt
check_components input (key ∷ keys) =
    let rest = check_components input keys in
    if ltb_ℤ (component input key).amount_minor (pos 0)
    then err (negative_component key (component input key).amount_minor)
    else rest

unfoldable pub build_breakdown : BreakdownInput → Result BreakdownError AmountBreakdown
unfolding check_components
build_breakdown input =
    check_components input non_negative
    >> ok (record {
      gross_minor = input.gross.amount_minor;
      fee_minor = input.fee.amount_minor;
      tax_minor = input.tax.amount_minor;
      refund_minor = input.refund.amount_minor;
      adjustment_minor = input.adjustment.amount_minor;
      expected_net_minor =
          input.gross.amount_minor -ℤ input.fee.amount_minor -ℤ input.tax.amount_minor
          -ℤ input.refund.amount_minor +ℤ input.adjustment.amount_minor;
      currency = input.gross.currency;
    })

unfoldable pub reconciles : AmountBreakdown → Bool
reconciles b =
    eq_ℤ (b.gross_minor -ℤ b.fee_minor -ℤ b.tax_minor -ℤ b.refund_minor +ℤ b.adjustment_minor)
      b.expected_net_minor

unfoldable pub expected_net : AmountBreakdown → Money
expected_net b = money b.expected_net_minor b.currency

unfoldable pub matches_observed : AmountBreakdown → Money → Bool
unfolding expected_net
matches_observed b observed = equals (expected_net b) observed

abbrev pub NonNegativeInput : BreakdownInput → Type 0
NonNegativeInput i =
    (pos 0 ≤ℤ i.gross.amount_minor)
    × (pos 0 ≤ℤ i.fee.amount_minor)
    × (pos 0 ≤ℤ i.tax.amount_minor)
    × (pos 0 ≤ℤ i.refund.amount_minor)

-- A breakdown is built exactly when gross, fee, tax and refund are not negative.
pub build_breakdown-ok_iff :
    (i : BreakdownInput) → (is_ok (build_breakdown i) ≡ true) ↔ NonNegativeInput i
unfolding build_breakdown
build_breakdown-ok_iff i = ground arith

net_restores : (g f t r a : ℤ) → g -ℤ f -ℤ t -ℤ r +ℤ a +ℤ f +ℤ t +ℤ r ≡ g +ℤ a
net_restores g f t r a = omega int_laws

-- Every breakdown that is built passes the independent check, and its net restores the gross:
-- net + fee + tax + refund = gross + adjustment.
pub build_breakdown-reconciles :
    (i : BreakdownInput) (b : AmountBreakdown)
    → build_breakdown i ≡ ok b
    → (reconciles b ≡ true)
      × (b.currency ≡ i.gross.currency)
      × (b.expected_net_minor +ℤ i.fee.amount_minor +ℤ i.tax.amount_minor +ℤ i.refund.amount_minor
          ≡ i.gross.amount_minor +ℤ i.adjustment.amount_minor)
unfolding build_breakdown reconciles
build_breakdown-reconciles i b h = ground (
  arith,
  net_restores i.gross.amount_minor i.fee.amount_minor i.tax.amount_minor i.refund.amount_minor
      i.adjustment.amount_minor,
)

pub build_breakdown-value :
    (i : BreakdownInput) (b : AmountBreakdown)
    → build_breakdown i ≡ ok b
    → (b.currency ≡ i.gross.currency)
      × (b.expected_net_minor
          ≡ i.gross.amount_minor -ℤ i.fee.amount_minor -ℤ i.tax.amount_minor
            -ℤ i.refund.amount_minor +ℤ i.adjustment.amount_minor)
unfolding build_breakdown
build_breakdown-value i b h = ground arith
