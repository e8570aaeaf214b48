-- ===== src/Ingestion.antt =====
-- The records of an import as they pass the schema (packages/application/src/ingestion/contracts.ts).
-- The schema itself is code of a library: its bounds on lengths and its defaults have been applied.
pub mod Normalizer
pub mod Laws
pub mod Import
use settlement_ops.Base.{Option, String, ℤ}
use settlement_ops.Policy.FeeSchedule.{PaymentMethod}
use settlement_ops.Records.{
  EntryType, LineType, OrderStatus, PaymentStatus, RefundStatus, SettlementStatus,
}

-- An amount is an integer; its currency is any text of three characters.
pub record WireMoney : Type 0 where
  pub amount_minor : ℤ
  pub currency : String

pub record WireLineage : Type 0 where
  pub source_system : String
  pub source_record_id : String
  pub observed_at : String
  pub schema_version : String

pub record OrderDto : Type 0 where
  pub lineage : WireLineage
  pub order_id : String
  pub customer_reference : Option String
  pub amount : WireMoney
  pub status : OrderStatus
  pub created_at : String

pub record PaymentDto : Type 0 where
  pub lineage : WireLineage
  pub payment_id : String
  pub order_id : Option String
  pub amount : WireMoney
  pub payment_method : PaymentMethod
  pub status : PaymentStatus
  pub authorized_at : Option String
  pub captured_at : Option String

pub record FeeLineDto : Type 0 where
  pub lineage : WireLineage
  pub payment_id : Option String
  pub settlement_id : Option String
  pub fee_type : String
  pub amount : WireMoney
  pub effective_date : String

pub record TaxLineDto : Type 0 where
  pub lineage : WireLineage
  pub fee_line_source_id : Option String
  pub tax_type : String
  pub amount : WireMoney
  pub period : String

pub record RefundDto : Type 0 where
  pub lineage : WireLineage
  pub refund_id : String
  pub payment_id : String
  pub amount : WireMoney
  pub status : RefundStatus
  pub created_at : String
  pub settled_at : Option String

pub record AdjustmentDto : Type 0 where
  pub lineage : WireLineage
  pub settlement_id : Option String
  pub reference : String
  pub amount : WireMoney
  pub effective_at : String
  pub reason_code : String

pub record SettlementDto : Type 0 where
  pub lineage : WireLineage
  pub settlement_id : String
  pub settlement_batch_reference : Option String
  pub gross_amount : WireMoney
  pub net_amount : WireMoney
  pub settlement_at : String
  pub status : SettlementStatus
  pub utr : Option String

pub record SettlementLineDto : Type 0 where
  pub lineage : WireLineage
  pub settlement_id : String
  pub payment_id : Option String
  pub refund_id : Option String
  pub line_type : LineType
  pub amount : WireMoney

pub record BankCreditDto : Type 0 where
  pub lineage : WireLineage
  pub utr : String
  pub amount : WireMoney
  pub credited_at : String
  pub bank_reference : String

pub record LedgerEntryDto : Type 0 where
  pub lineage : WireLineage
  pub reference_type : String
  pub reference_id : String
  pub amount : WireMoney
  pub entry_type : EntryType
  pub posted_at : String
  pub status : String

pub data FinancialRecordDto : Type 0 where
  dto_order : OrderDto → FinancialRecordDto
  dto_payment : PaymentDto → FinancialRecordDto
  dto_fee_line : FeeLineDto → FinancialRecordDto
  dto_tax_line : TaxLineDto → FinancialRecordDto
  dto_refund : RefundDto → FinancialRecordDto
  dto_adjustment : AdjustmentDto → FinancialRecordDto
  dto_settlement : SettlementDto → FinancialRecordDto
  dto_settlement_line : SettlementLineDto → FinancialRecordDto
  dto_bank_credit : BankCreditDto → FinancialRecordDto
  dto_ledger_entry : LedgerEntryDto → FinancialRecordDto

abbrev pub lineage_of : FinancialRecordDto → WireLineage
lineage_of (dto_order d) = d.lineage
lineage_of (dto_payment d) = d.lineage
lineage_of (dto_fee_line d) = d.lineage
lineage_of (dto_tax_line d) = d.lineage
lineage_of (dto_refund d) = d.lineage
lineage_of (dto_adjustment d) = d.lineage
lineage_of (dto_settlement d) = d.lineage
lineage_of (dto_settlement_line d) = d.lineage
lineage_of (dto_bank_credit d) = d.lineage
lineage_of (dto_ledger_entry d) = d.lineage
