-- ===== src/Tools/Lookups.antt =====
-- The handlers that show records of the unit (packages/tools/src/handlers.ts).
use settlement_ops.Base.{
  List, Option, String, [], arith, if◌then◌else◌, is_empty, keep, length, map, none, not, pos, some,
  str_eq, suc, true, zero, ℕ, ℤ, ◌++◌, ◌+ℤ◌, ◌∷◌, ◌≤◌,
}
use settlement_ops.Money.{Money, sum}
use settlement_ops.Records.{BankCreditRecord}
use settlement_ops.Reconciliation.Unit.{ReconciliationUnit}
use settlement_ops.Reconciliation.Checks.{is_none, is_text}
use settlement_ops.Tools.Evidence.{
  AdjustmentView, CreditView, FeeView, RefundView, Summary, TaxView, ToolData, ToolName, ToolResult,
  adjustment_data, adjustments_of, breakup_data, breakup_of, credit_data, credits_of, fee_tax_data,
  fee_tax_of, get_bank_credit, get_fee_tax_lines, get_ledger_entries, get_refunds,
  get_settlement_breakup, ledger_data, no_adjustments, no_bank_credit, no_fee_record,
  no_ledger_evidence, no_refunds, refund_data, refunds_of, search_related_adjustments,
}
use settlement_ops.Tools.{ToolArguments}

abbrev pub max_records : ℕ
max_records = 50

-- `[...items].slice(0, n)`
unfoldable pub take : {A : Type 0} → ℕ → List A → List A
take zero items = []
take (suc n) [] = []
take (suc n) (item ∷ items) = item ∷ take n items

pub length-take : {A : Type 0} (n : ℕ) (xs : List A) → length (take n xs) ≤ n
unfolding take
length-take zero xs = omega arith
length-take (suc n) [] = omega arith
length-take (suc n) (x ∷ xs) = omega (arith, length-take n xs)

abbrev pub cap : {A : Type 0} → List A → List A
cap items = take max_records items

-- `reduce((total, x) => total + x.amount.amountMinor, 0n)`
unfoldable pub added_to : ℤ → List Money → ℤ
added_to total [] = total
added_to total (m ∷ ms) = added_to (total +ℤ m.amount_minor) ms

abbrev pub total_minor : List Money → ℤ
total_minor ms = added_to (pos 0) ms

abbrev pub answer : ToolName → ToolData → Summary → List String → ToolResult
answer name evidence summary record_ids = record {
  succeeded = true;
  name = some name;
  evidence = evidence;
  summary = summary;
  record_ids = record_ids;
  failure = none;
}

abbrev pub fee_ids : ReconciliationUnit → List String
fee_ids unit = map (λ f. f.base.id) unit.fees ++ map (λ t. t.base.id) unit.taxes

unfoldable pub settled_total : ReconciliationUnit → ℤ
settled_total unit = total_minor (
    map (λ l. l.amount)
      (keep (λ l. is_text l.payment_id unit.payment.payment_id) unit.settlement_lines))

unfoldable pub settlement_breakup : ReconciliationUnit → ToolResult
settlement_breakup unit =
    let settlements =
      map
        (λ s. record {
          settlement_id = s.settlement_id;
          utr = s.utr;
          gross_minor = s.gross_amount.amount_minor;
          net_minor = s.net_amount.amount_minor;
          settlement_at = s.settlement_at;
          status = s.status;
        })
        (cap unit.settlements) in
    let lines =
      map
        (λ l. record {
          settlement_id = l.settlement_id;
          line_type = l.line_type;
          amount_minor = l.amount.amount_minor;
        })
        (cap unit.settlement_lines) in
    answer get_settlement_breakup
      (breakup_data (record {
        payment_gross_minor = unit.payment.amount.amount_minor;
        captured_at = unit.payment.captured_at;
        payment_method = unit.payment.payment_method;
        settlements = settlements;
        settlement_lines = lines;
        settled_total_minor = settled_total unit;
      }))
      (breakup_of (length settlements) (length lines) (settled_total unit))
      (unit.payment.base.id ∷ map (λ s. s.base.id) unit.settlements)

unfoldable pub fee_tax_lines : ReconciliationUnit → ToolResult
fee_tax_lines unit =
    let fees : List FeeView =
      map
        (λ f. record {
          fee_type = f.fee_type;
          amount_minor = f.amount.amount_minor;
          effective_date = f.effective_date;
        })
        (cap unit.fees) in
    let taxes : List TaxView =
      map
        (λ t. record {
          tax_type = t.tax_type;
          amount_minor = t.amount.amount_minor;
          period = t.period;
        })
        (cap unit.taxes) in
    let fee_sum = total_minor (map (λ f. f.amount) unit.fees) in
    let tax_sum = total_minor (map (λ t. t.amount) unit.taxes) in
    answer get_fee_tax_lines
      (fee_tax_data (record {
        fee_lines = fees;
        tax_lines = taxes;
        fee_total_minor = fee_sum;
        tax_total_minor = tax_sum;
      }))
      (if is_empty fees
        then no_fee_record
        else fee_tax_of (length fees) fee_sum (length taxes) tax_sum)
      (fee_ids unit)

abbrev pub credits_for : Option String → List BankCreditRecord → List BankCreditRecord
credits_for none credits = credits
credits_for (some utr) credits = keep (λ b. str_eq b.utr utr) credits

-- `reduce((sum, c) => sum + BigInt(c.amount_minor), 0n)`
unfoldable pub credited : ℤ → List CreditView → ℤ
credited sum [] = sum
credited sum (c ∷ cs) = credited (sum +ℤ c.amount_minor) cs

unfoldable pub bank_credit : ToolArguments → ReconciliationUnit → ToolResult
unfolding credited
bank_credit args unit =
    let credits : List CreditView =
      map
        (λ b. record {
          utr = b.utr;
          amount_minor = b.amount.amount_minor;
          credited_at = b.credited_at;
        })
        (cap (credits_for args.utr unit.bank_credits)) in
    let total = credited (pos 0) credits in
    answer get_bank_credit
      (credit_data (record { bank_credits = credits; credited_total_minor = total }))
      (if is_empty credits then no_bank_credit else credits_of (length credits) total)
      (map (λ b. b.base.id) unit.bank_credits)

unfoldable pub refund_list : ReconciliationUnit → ToolResult
refund_list unit =
    let refunds : List RefundView =
      map
        (λ r. record {
          amount_minor = r.amount.amount_minor;
          status = r.status;
          created_at = r.created_at;
          settled_at = r.settled_at;
        })
        (cap unit.refunds) in
    answer get_refunds (refund_data refunds)
      (if is_empty refunds then no_refunds else refunds_of (length refunds))
      (map (λ r. r.base.id) unit.refunds)

unfoldable pub related_adjustments : ReconciliationUnit → ToolResult
related_adjustments unit =
    let adjustments : List AdjustmentView =
      map
        (λ a. record {
          reference = a.reference;
          reason_code = a.reason_code;
          amount_minor = a.amount.amount_minor;
          effective_at = a.effective_at;
          allocated_to_settlement = not (is_none a.settlement_id);
        })
        (cap unit.adjustments) in
    answer search_related_adjustments (adjustment_data adjustments)
      (if is_empty adjustments then no_adjustments else adjustments_of (length adjustments))
      (map (λ a. a.base.id) unit.adjustments)

unfoldable pub ledger_entries : ReconciliationUnit → ToolResult
ledger_entries unit =
    answer get_ledger_entries ledger_data no_ledger_evidence (unit.payment.base.id ∷ [])
