-- ===== src/Ingestion/Laws.antt =====
-- What the normalizer accepts, and what it makes of it.
use settlement_ops.Base.{
  Bool, List, Option, Result, String, [], ap, arith, err, every, false, map, none, ok, refl, some,
  true, ℕ, ℤ, ◌&&◌, ◌++◌, ◌∙◌, ◌∷◌, ◌≡◌,
}
use settlement_ops.Money.{Money, is_currency, money}
use settlement_ops.Records.{
  FinancialRecord, RecordBase, base_of, of_adjustment, of_bank_credit, of_fee, of_ledger_entry,
  of_order, of_payment, of_refund, of_settlement, of_settlement_line, of_tax,
}
use settlement_ops.Ingestion.{
  FinancialRecordDto, WireLineage, WireMoney, dto_adjustment, dto_bank_credit, dto_fee_line,
  dto_ledger_entry, dto_order, dto_payment, dto_refund, dto_settlement, dto_settlement_line,
  dto_tax_line, lineage_of,
}
use settlement_ops.Ingestion.Normalizer.{
  NormalizationError, common_base, invalid_timestamp, normalize_kind, normalize_record,
  optional_date, to_date, to_money, unsupported_currency_at,
}
use settlement_ops.Workflow.{RequestContext}

-- The amounts of a record of an import, and those of a canonical record.
abbrev pub wire_moneys : FinancialRecordDto → List WireMoney
wire_moneys (dto_order d) = d.amount ∷ []
wire_moneys (dto_payment d) = d.amount ∷ []
wire_moneys (dto_fee_line d) = d.amount ∷ []
wire_moneys (dto_tax_line d) = d.amount ∷ []
wire_moneys (dto_refund d) = d.amount ∷ []
wire_moneys (dto_adjustment d) = d.amount ∷ []
wire_moneys (dto_settlement d) = d.gross_amount ∷ d.net_amount ∷ []
wire_moneys (dto_settlement_line d) = d.amount ∷ []
wire_moneys (dto_bank_credit d) = d.amount ∷ []
wire_moneys (dto_ledger_entry d) = d.amount ∷ []

abbrev pub record_moneys : FinancialRecord → List Money
record_moneys (of_order r) = r.amount ∷ []
record_moneys (of_payment r) = r.amount ∷ []
record_moneys (of_fee r) = r.amount ∷ []
record_moneys (of_tax r) = r.amount ∷ []
record_moneys (of_refund r) = r.amount ∷ []
record_moneys (of_adjustment r) = r.amount ∷ []
record_moneys (of_settlement r) = r.gross_amount ∷ r.net_amount ∷ []
record_moneys (of_settlement_line r) = r.amount ∷ []
record_moneys (of_bank_credit r) = r.amount ∷ []
record_moneys (of_ledger_entry r) = r.amount ∷ []

abbrev present : Option String → List String
present none = []
present (some text) = text ∷ []

-- The timestamps that a record of an import carries, its lineage aside.
abbrev pub wire_dates : FinancialRecordDto → List String
wire_dates (dto_order d) = d.created_at ∷ []
wire_dates (dto_payment d) = present d.authorized_at ++ present d.captured_at
wire_dates (dto_fee_line d) = d.effective_date ∷ []
wire_dates (dto_tax_line d) = []
wire_dates (dto_refund d) = d.created_at ∷ present d.settled_at
wire_dates (dto_adjustment d) = d.effective_at ∷ []
wire_dates (dto_settlement d) = d.settlement_at ∷ []
wire_dates (dto_settlement_line d) = []
wire_dates (dto_bank_credit d) = d.credited_at ∷ []
wire_dates (dto_ledger_entry d) = d.posted_at ∷ []

abbrev given : Option ℤ → List ℤ
given none = []
given (some at) = at ∷ []

-- The times of a canonical record, in the order of `wire_dates`.
abbrev pub record_dates : FinancialRecord → List ℤ
record_dates (of_order r) = r.created_at ∷ []
record_dates (of_payment r) = given r.authorized_at ++ given r.captured_at
record_dates (of_fee r) = r.effective_date ∷ []
record_dates (of_tax r) = []
record_dates (of_refund r) = r.created_at ∷ given r.settled_at
record_dates (of_adjustment r) = r.effective_at ∷ []
record_dates (of_settlement r) = r.settlement_at ∷ []
record_dates (of_settlement_line r) = []
record_dates (of_bank_credit r) = r.credited_at ∷ []
record_dates (of_ledger_entry r) = r.posted_at ∷ []

-- Whether a record is of the kind of the record of the import.
abbrev pub same_kind : FinancialRecordDto → FinancialRecord → Bool
same_kind (dto_order d) (of_order r) = true
same_kind (dto_payment d) (of_payment r) = true
same_kind (dto_fee_line d) (of_fee r) = true
same_kind (dto_tax_line d) (of_tax r) = true
same_kind (dto_refund d) (of_refund r) = true
same_kind (dto_adjustment d) (of_adjustment r) = true
same_kind (dto_settlement d) (of_settlement r) = true
same_kind (dto_settlement_line d) (of_settlement_line r) = true
same_kind (dto_bank_credit d) (of_bank_credit r) = true
same_kind (dto_ledger_entry d) (of_ledger_entry r) = true
same_kind _ _ = false

abbrev pub same_money : WireMoney → Money
same_money w = money w.amount_minor w.currency

abbrev pub error_index : NormalizationError → ℕ
error_index (unsupported_currency_at value index) = index
error_index (invalid_timestamp field index) = index

abbrev is_supported : WireMoney → Bool
is_supported w = is_currency w.currency

-- The record is the tenant's, under the id that was given, with the payload's lineage.
pub record IsFiled (ctx : RequestContext) (record_id : String) (ingested_at : ℤ)
    (lineage : WireLineage) (observed_at : ℤ) (b : RecordBase) : Type 0 where
  pub tenant : b.scope.merchant_id ≡ ctx.tenant_id
  pub given_id : b.id ≡ record_id
  pub source_system : b.lineage.source_system ≡ lineage.source_system
  pub source_record_id : b.lineage.source_record_id ≡ lineage.source_record_id
  pub observed : b.lineage.observed_at ≡ observed_at
  pub ingested : b.lineage.ingested_at ≡ ingested_at
  pub schema_version : b.lineage.schema_version ≡ lineage.schema_version

module _ (date_parse : String → Option ℤ) where
  abbrev is_dated : String → Bool
  is_dated text = elim (date_parse text) [ none ↦ false | some at ↦ true ]

  -- What a result says of the record of the import.
  abbrev pub Normalized :
      RecordBase → ℕ → FinancialRecordDto → Result NormalizationError FinancialRecord → Type 0
  Normalized base index dto (ok r) =
      (base_of r ≡ base)
      × (record_moneys r ≡ map same_money (wire_moneys dto))
      × (every is_supported (wire_moneys dto) ≡ true)
      × (every is_dated (wire_dates dto) ≡ true)
      × (map date_parse (wire_dates dto) ≡ map some (record_dates r))
      × (same_kind dto r ≡ true)
  Normalized base index dto (err e) =
      (error_index e ≡ index)
      × ((every is_supported (wire_moneys dto) && every is_dated (wire_dates dto)) ≡ false)

  normalize_kind-Normalized :
      (base : RecordBase) (index : ℕ) (dto : FinancialRecordDto)
      → Normalized base index dto (normalize_kind date_parse base index dto)
  unfolding normalize_kind to_money to_date optional_date every
  normalize_kind-Normalized base index (dto_order d) = ground arith
  normalize_kind-Normalized base index (dto_payment d) = ground arith
  normalize_kind-Normalized base index (dto_fee_line d) = ground arith
  normalize_kind-Normalized base index (dto_tax_line d) = ground arith
  normalize_kind-Normalized base index (dto_refund d) = ground arith
  normalize_kind-Normalized base index (dto_adjustment d) = ground arith
  normalize_kind-Normalized base index (dto_settlement d) = ground arith
  normalize_kind-Normalized base index (dto_settlement_line d) = ground arith
  normalize_kind-Normalized base index (dto_bank_credit d) = ground arith
  normalize_kind-Normalized base index (dto_ledger_entry d) = ground arith

  dated_some : (text : String) (at : ℤ) → date_parse text ≡ some at → is_dated text ≡ true
  dated_some text at h = rw (h, is_dated) refl

  dated_none : (text : String) → date_parse text ≡ none → is_dated text ≡ false
  dated_none text h = rw (h, is_dated) refl

  -- The same, for the record with its lineage.
  abbrev pub Accounted :
      RequestContext
      → FinancialRecordDto
      → ℕ
      → String
      → ℤ
      → Result NormalizationError FinancialRecord
      → Type 0
  Accounted ctx dto index record_id ingested_at (ok r) =
      (observed_at : ℤ) × (date_parse (lineage_of dto).observed_at ≡ some observed_at)
      × IsFiled ctx record_id ingested_at (lineage_of dto) observed_at (base_of r)
      × (record_moneys r ≡ map same_money (wire_moneys dto))
      × (every is_supported (wire_moneys dto) ≡ true)
      × (every is_dated (wire_dates dto) ≡ true)
      × (map date_parse (wire_dates dto) ≡ map some (record_dates r))
      × (same_kind dto r ≡ true)
  Accounted ctx dto index record_id ingested_at (err e) =
      (error_index e ≡ index)
      × ((is_dated (lineage_of dto).observed_at
            && (every is_supported (wire_moneys dto) && every is_dated (wire_dates dto)))
          ≡ false)

  -- A record of an import is taken exactly when each of its currencies is supported and each of its
  -- timestamps, that of its lineage included, is a date. What becomes of it belongs to the caller's
  -- tenant, whatever the payload says, under the given id and of the payload's kind, with
  -- its lineage and exactly its amounts and times; an error names the position of the record.
  pub normalize_record-Accounted :
      (ctx : RequestContext) (dto : FinancialRecordDto) (index : ℕ) (record_id : String)
      (ingested_at : ℤ)
      → Accounted ctx dto index record_id ingested_at
          (normalize_record date_parse ctx dto index record_id ingested_at)
  unfolding normalize_record to_date
  normalize_record-Accounted ctx dto index record_id ingested_at =
      from_date (date_parse (lineage_of dto).observed_at) refl
    where
      filed :
          {observed_at : ℤ} {b : RecordBase}
          → b ≡ common_base date_parse ctx record_id ingested_at (lineage_of dto) observed_at
          → IsFiled ctx record_id ingested_at (lineage_of dto) observed_at b
      filed at = record {
        tenant = ap (λ b. b.scope.merchant_id) at;
        given_id = ap (λ b. b.id) at;
        source_system = ap (λ b. b.lineage.source_system) at;
        source_record_id = ap (λ b. b.lineage.source_record_id) at;
        observed = ap (λ b. b.lineage.observed_at) at;
        ingested = ap (λ b. b.lineage.ingested_at) at;
        schema_version = ap (λ b. b.lineage.schema_version) at;
      }

      wanted : Bool
      wanted = every is_supported (wire_moneys dto) && every is_dated (wire_dates dto)

      from_kind :
          (observed_at : ℤ) (r : Result NormalizationError FinancialRecord)
          → date_parse (lineage_of dto).observed_at ≡ some observed_at
          → Normalized
              (common_base date_parse ctx record_id ingested_at (lineage_of dto) observed_at)
              index
              dto
              r
          → Accounted ctx dto index record_id ingested_at r
      from_kind observed_at (ok r) dated (based, same, supported, all_dated, dates, kind) =
          (observed_at, dated, filed based, same, supported, all_dated, dates, kind)
      from_kind observed_at (err e) dated kind = (
        kind.0,
        ap (λ b. b && wanted) (dated_some (lineage_of dto).observed_at observed_at dated) ∙ kind.1,
      )

      from_date :
          (o : Option ℤ)
          → date_parse (lineage_of dto).observed_at ≡ o
          → Accounted ctx dto index record_id ingested_at
              (normalize_record date_parse ctx dto index record_id ingested_at)
      from_date none undated =
          rw (undated, normalize_record, to_date)
            (refl, ap (λ b. b && wanted) (dated_none (lineage_of dto).observed_at undated))
      from_date (some observed_at) dated =
          let base =
            common_base date_parse ctx record_id ingested_at (lineage_of dto) observed_at in
          rw (dated, normalize_record, to_date)
            (from_kind observed_at (normalize_kind date_parse base index dto) dated
              (normalize_kind-Normalized base index dto))
