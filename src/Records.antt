-- ===== src/Records.antt =====
-- Canonical financial records and their lineage (packages/domain/src/records/financial-records.ts,
-- packages/domain/src/lineage/). A `Date` is its integer of milliseconds.
pub mod Lineage
use settlement_ops.Base.{Bool, Option, String, str_eq, ℤ}
use settlement_ops.Money.{Money}
use settlement_ops.Policy.FeeSchedule.{PaymentMethod}

-- `MerchantScope` holds the merchant's id and nothing else.
pub record MerchantScope : Type 0 where
  pub merchant_id : String

unfoldable pub same_scope : MerchantScope → MerchantScope → Bool
same_scope a b = str_eq a.merchant_id b.merchant_id

pub record SourceLineage : Type 0 where
  pub source_system : String
  pub source_record_id : String
  pub observed_at : ℤ
  pub ingested_at : ℤ
  pub schema_version : String

-- `RecordBase`
pub record RecordBase : Type 0 where
  pub id : String
  pub scope : MerchantScope
  pub lineage : SourceLineage

pub data OrderStatus : Type 0 where
  order_created order_paid order_cancelled : OrderStatus

pub record OrderRecord : Type 0 where
  pub base : RecordBase
  pub order_id : String
  pub customer_reference : Option String
  pub amount : Money
  pub status : OrderStatus
  pub created_at : ℤ

pub data PaymentStatus : Type 0 where
  authorized captured failed refunded : PaymentStatus

pub record PaymentRecord : Type 0 where
  pub base : RecordBase
  pub payment_id : String
  pub order_id : Option String
  pub amount : Money
  pub payment_method : PaymentMethod
  pub status : PaymentStatus
  pub authorized_at : Option ℤ
  pub captured_at : Option ℤ

pub record FeeLineRecord : Type 0 where
  pub base : RecordBase
  pub payment_id : Option String
  pub settlement_id : Option String
  pub fee_type : String
  pub amount : Money
  pub effective_date : ℤ

pub record TaxLineRecord : Type 0 where
  pub base : RecordBase
  pub fee_line_id : Option String
  pub tax_type : String
  pub amount : Money
  pub period : String

pub data RefundStatus : Type 0 where
  refund_created refund_processed refund_failed : RefundStatus

pub record RefundRecord : Type 0 where
  pub base : RecordBase
  pub refund_id : String
  pub payment_id : String
  pub amount : Money
  pub status : RefundStatus
  pub created_at : ℤ
  pub settled_at : Option ℤ

pub record AdjustmentRecord : Type 0 where
  pub base : RecordBase
  pub settlement_id : Option String
  pub reference : String
  pub amount : Money
  pub effective_at : ℤ
  pub reason_code : String

pub data SettlementStatus : Type 0 where
  settlement_pending settlement_processed settlement_failed : SettlementStatus

pub record SettlementRecord : Type 0 where
  pub base : RecordBase
  pub settlement_id : String
  pub settlement_batch_id : Option String
  pub gross_amount : Money
  pub net_amount : Money
  pub settlement_at : ℤ
  pub status : SettlementStatus
  pub utr : Option String

pub data LineType : Type 0 where
  payment_line refund_line adjustment_line fee_line tax_line : LineType

pub record SettlementLineRecord : Type 0 where
  pub base : RecordBase
  pub settlement_id : String
  pub payment_id : Option String
  pub refund_id : Option String
  pub line_type : LineType
  pub amount : Money

pub record BankCreditRecord : Type 0 where
  pub base : RecordBase
  pub utr : String
  pub amount : Money
  pub credited_at : ℤ
  pub bank_reference : String

pub data EntryType : Type 0 where
  debit credit : EntryType

pub record LedgerEntryRecord : Type 0 where
  pub base : RecordBase
  pub reference_type : String
  pub reference_id : String
  pub amount : Money
  pub entry_type : EntryType
  pub posted_at : ℤ
  pub status : String

pub data FinancialRecord : Type 0 where
  of_order : OrderRecord → FinancialRecord
  of_payment : PaymentRecord → FinancialRecord
  of_fee : FeeLineRecord → FinancialRecord
  of_tax : TaxLineRecord → FinancialRecord
  of_refund : RefundRecord → FinancialRecord
  of_adjustment : AdjustmentRecord → FinancialRecord
  of_settlement : SettlementRecord → FinancialRecord
  of_settlement_line : SettlementLineRecord → FinancialRecord
  of_bank_credit : BankCreditRecord → FinancialRecord
  of_ledger_entry : LedgerEntryRecord → FinancialRecord

-- The fields of `RecordBase`, which every kind of record has.
abbrev pub base_of : FinancialRecord → RecordBase
base_of (of_order r) = r.base
base_of (of_payment r) = r.base
base_of (of_fee r) = r.base
base_of (of_tax r) = r.base
base_of (of_refund r) = r.base
base_of (of_adjustment r) = r.base
base_of (of_settlement r) = r.base
base_of (of_settlement_line r) = r.base
base_of (of_bank_credit r) = r.base
base_of (of_ledger_entry r) = r.base

abbrev pub merchant_of : FinancialRecord → String
merchant_of r = (base_of r).scope.merchant_id
