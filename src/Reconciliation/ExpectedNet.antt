-- ===== src/Reconciliation/ExpectedNet.antt =====
-- The expected net of a payment and the scheduled fee
-- (packages/domain/src/reconciliation/expected-net.ts).
pub mod Laws
use settlement_ops.Base.{
  List, Option, Result, String, [], err, if◌then◌else◌, none, ok, some, str_eq, ℤ, ◌>>=◌, ◌∷◌,
}
use settlement_ops.Money.{Currency, Money, MoneyError, money, sum, zero_money}
use settlement_ops.Money.Breakdown.{
  AmountBreakdown, BreakdownError, build_breakdown, does_not_reconcile, negative_component,
}
use settlement_ops.Money.Laws.{total}
use settlement_ops.Policy.Rounding.{apply_basis_points}
use settlement_ops.Policy.FeeSchedule.{PaymentMethod, schedule_at}

pub record ExpectedNetInput : Type 0 where
  pub gross : Money
  pub fees : List Money
  pub taxes : List Money
  pub refunds : List Money
  pub adjustments : List Money

-- The component of a negative breakdown is, as in the source, the kind of the inner error.
pub data ExpectedNetError : Type 0 where
  currency_inconsistent_net : ExpectedNetError
  negative_net_component : String → ExpectedNetError

abbrev error_kind : BreakdownError → String
error_kind (negative_component key value) = "NEGATIVE_COMPONENT"
error_kind (does_not_reconcile computed declared) = "DOES_NOT_RECONCILE"

agreed_total : Currency → Result MoneyError Money → Result ExpectedNetError Money
agreed_total currency (err e) = err currency_inconsistent_net
agreed_total currency (ok total) =
    if str_eq total.currency currency then ok total else err currency_inconsistent_net

unfoldable pub total_of : List Money → Currency → Result ExpectedNetError Money
unfolding agreed_total
total_of [] currency = ok (zero_money currency)
total_of (value ∷ values) currency = agreed_total currency (sum (value ∷ values))

net_of : Result BreakdownError AmountBreakdown → Result ExpectedNetError AmountBreakdown
net_of (ok built) = ok built
net_of (err e) = err (negative_net_component (error_kind e))

unfoldable pub expected_net_from_records :
    ExpectedNetInput → Result ExpectedNetError AmountBreakdown
unfolding net_of
expected_net_from_records input = do
  let currency = input.gross.currency
  fee ← total_of input.fees currency
  tax ← total_of input.taxes currency
  refund ← total_of input.refunds currency
  adjustment ← total_of input.adjustments currency
  net_of (
      build_breakdown (record {
        gross = input.gross;
        fee = fee;
        tax = tax;
        refund = refund;
        adjustment = adjustment;
      }))

pub record ScheduledFee : Type 0 where
  pub fee : Money
  pub tax : Money
  pub schedule_id : String

unfoldable pub scheduled_fee_for : Money → PaymentMethod → ℤ → Option ScheduledFee
scheduled_fee_for gross method at = elim (schedule_at at) [
  | none ↦ none
  | some schedule ↦
      let fee_minor = apply_basis_points gross.amount_minor (schedule.fee_rate_bps method) in
      let tax_minor = apply_basis_points fee_minor schedule.tax_on_fee_bps in
      some (record {
        fee = money fee_minor gross.currency;
        tax = money tax_minor gross.currency;
        schedule_id = schedule.id;
      })
]
