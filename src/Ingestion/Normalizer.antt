-- ===== src/Ingestion/Normalizer.antt =====
-- From a record of an import to a canonical record
-- (packages/application/src/ingestion/normalizer.ts).
use settlement_ops.Base.{Option, Result, String, err, if◌then◌else◌, none, ok, some, ℕ, ℤ, ◌>>=◌}
use settlement_ops.Money.{Money, is_currency, money}
use settlement_ops.Records.{
  FinancialRecord, RecordBase, of_adjustment, of_bank_credit, of_fee, of_ledger_entry, of_order,
  of_payment, of_refund, of_settlement, of_settlement_line, of_tax,
}
use settlement_ops.Workflow.{RequestContext}
use settlement_ops.Ingestion.{
  FinancialRecordDto, WireLineage, WireMoney, dto_adjustment, dto_bank_credit, dto_fee_line,
  dto_ledger_entry, dto_order, dto_payment, dto_refund, dto_settlement, dto_settlement_line,
  dto_tax_line, lineage_of,
}

pub data NormalizationError : Type 0 where
  unsupported_currency_at : (value : String) → (index : ℕ) → NormalizationError
  invalid_timestamp : (field : String) → (index : ℕ) → NormalizationError

unfoldable pub to_money : WireMoney → ℕ → Result NormalizationError Money
to_money dto index =
    if is_currency dto.currency
    then ok (money dto.amount_minor dto.currency)
    else err (unsupported_currency_at dto.currency index)

-- `date_parse` stands for `new Date(text)`, and is none for an invalid date.
module _ (date_parse : String → Option ℤ) where
  unfoldable pub to_date : String → String → ℕ → Result NormalizationError ℤ
  to_date value field index = elim (date_parse value) [
    | none ↦ err (invalid_timestamp field index)
    | some at ↦ ok at
  ]

  unfoldable pub optional_date : Option String → String → ℕ → Result NormalizationError (Option ℤ)
  unfolding to_date
  optional_date none field index = ok none
  optional_date (some value) field index = do at ← to_date value field index; ok (some at)

  -- The `switch` on the kind, with the fields that all kinds share.
  unfoldable pub normalize_kind :
      RecordBase → ℕ → FinancialRecordDto → Result NormalizationError FinancialRecord
  unfolding to_money to_date optional_date
  normalize_kind base index (dto_order d) = do
    amount ← to_money d.amount index
    created_at ← to_date d.created_at "created_at" index
    ok (
        of_order (record {
          base = base;
          order_id = d.order_id;
          customer_reference = d.customer_reference;
          amount = amount;
          status = d.status;
          created_at = created_at;
        }))
  normalize_kind base index (dto_payment d) = do
    amount ← to_money d.amount index
    authorized_at ← optional_date d.authorized_at "authorized_at" index
    captured_at ← optional_date d.captured_at "captured_at" index
    ok (
        of_payment (record {
          base = base;
          payment_id = d.payment_id;
          order_id = d.order_id;
          amount = amount;
          payment_method = d.payment_method;
          status = d.status;
          authorized_at = authorized_at;
          captured_at = captured_at;
        }))
  normalize_kind base index (dto_fee_line d) = do
    amount ← to_money d.amount index
    effective_date ← to_date d.effective_date "effective_date" index
    ok (
        of_fee (record {
          base = base;
          payment_id = d.payment_id;
          settlement_id = d.settlement_id;
          fee_type = d.fee_type;
          amount = amount;
          effective_date = effective_date;
        }))
  normalize_kind base index (dto_tax_line d) = do
    amount ← to_money d.amount index
    ok (
        of_tax (record {
          base = base;
          fee_line_id = d.fee_line_source_id;
          tax_type = d.tax_type;
          amount = amount;
          period = d.period;
        }))
  normalize_kind base index (dto_refund d) = do
    amount ← to_money d.amount index
    created_at ← to_date d.created_at "created_at" index
    settled_at ← optional_date d.settled_at "settled_at" index
    ok (
        of_refund (record {
          base = base;
          refund_id = d.refund_id;
          payment_id = d.payment_id;
          amount = amount;
          status = d.status;
          created_at = created_at;
          settled_at = settled_at;
        }))
  normalize_kind base index (dto_adjustment d) = do
    amount ← to_money d.amount index
    effective_at ← to_date d.effective_at "effective_at" index
    ok (
        of_adjustment (record {
          base = base;
          settlement_id = d.settlement_id;
          reference = d.reference;
          amount = amount;
          effective_at = effective_at;
          reason_code = d.reason_code;
        }))
  normalize_kind base index (dto_settlement d) = do
    gross ← to_money d.gross_amount index
    net ← to_money d.net_amount index
    settlement_at ← to_date d.settlement_at "settlement_at" index
    ok (
        of_settlement (record {
          base = base;
          settlement_id = d.settlement_id;
          settlement_batch_id = d.settlement_batch_reference;
          gross_amount = gross;
          net_amount = net;
          settlement_at = settlement_at;
          status = d.status;
          utr = d.utr;
        }))
  normalize_kind base index (dto_settlement_line d) = do
    amount ← to_money d.amount index
    ok (
        of_settlement_line (record {
          base = base;
          settlement_id = d.settlement_id;
          payment_id = d.payment_id;
          refund_id = d.refund_id;
          line_type = d.line_type;
          amount = amount;
        }))
  normalize_kind base index (dto_bank_credit d) = do
    amount ← to_money d.amount index
    credited_at ← to_date d.credited_at "credited_at" index
    ok (
        of_bank_credit (record {
          base = base;
          utr = d.utr;
          amount = amount;
          credited_at = credited_at;
          bank_reference = d.bank_reference;
        }))
  normalize_kind base index (dto_ledger_entry d) = do
    amount ← to_money d.amount index
    posted_at ← to_date d.posted_at "posted_at" index
    ok (
        of_ledger_entry (record {
          base = base;
          reference_type = d.reference_type;
          reference_id = d.reference_id;
          amount = amount;
          entry_type = d.entry_type;
          posted_at = posted_at;
          status = d.status;
        }))

  abbrev pub common_base : RequestContext → String → ℤ → WireLineage → ℤ → RecordBase
  common_base ctx record_id ingested_at lineage observed_at = record {
    id = record_id;
    scope = record { merchant_id = ctx.tenant_id };
    lineage = record {
      source_system = lineage.source_system;
      source_record_id = lineage.source_record_id;
      observed_at = observed_at;
      ingested_at = ingested_at;
      schema_version = lineage.schema_version;
    };
  }

  unfoldable pub normalize_record :
      RequestContext
      → FinancialRecordDto
      → ℕ
      → String
      → ℤ
      → Result NormalizationError FinancialRecord
  unfolding normalize_kind to_date
  normalize_record ctx dto index record_id ingested_at = do
    observed_at ← to_date (lineage_of dto).observed_at "observed_at" index
    normalize_kind (common_base ctx record_id ingested_at (lineage_of dto) observed_at) index dto
