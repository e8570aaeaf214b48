-- ===== src/Tests/Intake.antt =====
-- Imports of sample records, and a reconciliation run over sample units.
use settlement_ops.Base.{
  List, Option, String, [], any, ap, if◌then◌else◌, length, none, pos, refl, some, str_eq, suc,
  true, zero, ℕ, ℤ, ◌++◌, ◌∷◌, ◌≡◌,
}
use settlement_ops.Money.{is_currency}
use settlement_ops.Records.{FinancialRecord}
use settlement_ops.Ingestion.{FinancialRecordDto, WireLineage, dto_bank_credit}
use settlement_ops.Ingestion.Normalizer.{
  invalid_timestamp, normalize_record, unsupported_currency_at,
}
use settlement_ops.Ingestion.Laws.{Accounted, normalize_record-Accounted}
use settlement_ops.Ingestion.Import.{
  ImportRequest, ImportRow, Intake, SubmitDeps, import_accepted, normalize_all, rejected_record,
  submit_import,
}
use settlement_ops.Ingestion.Import.Laws.{IsSorted, normalize_all-IsSorted, submit_import-replayed}
use settlement_ops.Tools.Lookups.{take}
use settlement_ops.Workflow.Reconcile.{RunDeps, Tally, fresh_tally, run_reconciliation}
use settlement_ops.Workflow.Reconcile.Laws.{IsTally, run_reconciliation-IsTally}
use settlement_ops.Workflow.Reconcile.Totality.{run_reconciliation-ends}
use settlement_ops.Reconciliation.Unit.{ReconciliationUnit}
use settlement_ops.Tests.Samples.{monday, sample_unit, unrecorded_unit, wednesday}
use settlement_ops.Tests.Starting.{starter}

-- Only one text is a date.
abbrev one_date : String → Option ℤ
one_date text = if str_eq text "2026-06-01T00:00:00Z" then some monday else none

abbrev wire_lineage : WireLineage
wire_lineage = record {
  source_system = "gateway";
  source_record_id = "src_1";
  observed_at = "2026-06-01T00:00:00Z";
  schema_version = "v1";
}

abbrev bank_dto : String → String → FinancialRecordDto
bank_dto currency credited_at = dto_bank_credit (record {
  lineage = wire_lineage;
  utr = "UTR1";
  amount = record { amount_minor = pos 97640; currency = currency };
  credited_at = credited_at;
  bank_reference = "ref_1";
})

abbrev batch : List FinancialRecordDto
batch =
    bank_dto "INR" "2026-06-01T00:00:00Z"
    ∷ bank_dto "XYZ" "2026-06-01T00:00:00Z"
    ∷ bank_dto "INR" "never"
    ∷ []

normalize_record-Accounted_example :
    Accounted one_date starter
      (bank_dto "XYZ" "never")
      4
      "rec_1"
      wednesday
      (normalize_record one_date starter (bank_dto "XYZ" "never") 4 "rec_1" wednesday)
normalize_record-Accounted_example =
    normalize_record-Accounted one_date starter (bank_dto "XYZ" "never") 4 "rec_1" wednesday

normalize_all-IsSorted_example :
    let out = normalize_all one_date starter (λ n. "rec") wednesday 0 batch in
    IsSorted one_date starter (λ n. "rec") wednesday 0 batch out.normalized out.errors
normalize_all-IsSorted_example =
    normalize_all-IsSorted one_date starter (λ n. "rec") wednesday 0 batch

-- One record of the sample batch is taken, and two are listed.
sorted_batch :
    let sorted = normalize_all one_date starter (λ n. "rec") wednesday 0 batch in
    (length sorted.normalized ≡ 1)
    × (sorted.errors
        ≡ rejected_record 1 (unsupported_currency_at "XYZ" 1)
          ∷ rejected_record 2 (invalid_timestamp "credited_at" 2)
          ∷ [])
unfolding normalize_all normalize_record is_currency
sorted_batch = (refl, refl)

-- Records are kept in a list, and none is a duplicate.
abbrev keep_records :
    String → String → List FinancialRecord → List FinancialRecord → List FinancialRecord × (ℕ × ℕ)
keep_records merchant import records store = (records ++ store, (length records, 0))

abbrev submit_deps : ℤ → SubmitDeps (List FinancialRecordDto)
submit_deps at = record {
  parse_request = λ body. some (record { source_type = "bank"; records = body });
  date_parse = one_date;
  clock = at;
  now = at;
  import_id = "import_1";
  record_ids = λ n. "rec";
  event_id = "e1";
}

abbrev no_imports : Intake (List FinancialRecord)
no_imports = record { imports = []; log = []; store = [] }

abbrev request_of : List FinancialRecordDto → ImportRequest
request_of body = record { source_type = "bank"; records = body }

submit_import-replayed_example :
    let after =
      (submit_import keep_records (submit_deps monday) starter batch "key_1" no_imports).0 in
    (row : ImportRow) × (submit_import keep_records (submit_deps wednesday) starter [] "key_1" after
      ≡ (after, import_accepted row true))
submit_import-replayed_example =
    submit_import-replayed keep_records (submit_deps monday) (submit_deps wednesday) starter starter
      (request_of batch) (request_of []) batch [] "key_1" no_imports refl refl refl

-- One payment has a unit that reconciles, one has a unit that does not, and others have none.
abbrev load_sample : String → Option ReconciliationUnit
load_sample payment_id =
    if str_eq payment_id "pay_1"
    then some sample_unit
    else if str_eq payment_id "pay_2"
    then some unrecorded_unit
    else none

-- As many letters as the number.
abbrev serial_id : ℕ → String
serial_id zero = ""
serial_id (suc n) = String.◌∷◌ "c" (serial_id n)

serial_id-different : (m n : ℕ) → serial_id m ≡ serial_id n → m ≡ n
serial_id-different zero zero h = refl
serial_id-different zero (suc n) h = cc
serial_id-different (suc m) zero h = cc
serial_id-different (suc m) (suc n) h = ap suc (serial_id-different m n cc)

abbrev run_deps : RunDeps
run_deps = record {
  load_unit = load_sample;
  case_ids = serial_id;
  event_ids = λ n. "e";
  run_code = λ run_id. run_id;
}

abbrev payments : List String
payments = "pay_1" ∷ "pay_2" ∷ "pay_3" ∷ "pay_2" ∷ []

run_reconciliation-ends_example :
    (out : Tally) × (run_reconciliation run_deps starter "run_1" 9 payments [] [] ≡ some out)
unfolding any
run_reconciliation-ends_example =
    run_reconciliation-ends run_deps starter "run_1" 9 payments [] [] refl refl (λ k later. refl)
      serial_id-different

-- The one residual of the payments, whose second loading finds its case.
abbrev finished :
    (out : Tally) × (run_reconciliation run_deps starter "run_1" 9 payments [] [] ≡ some out)
unfolding any
finished =
    run_reconciliation-ends run_deps starter "run_1" 9 payments [] [] refl refl (λ k later. refl)
      serial_id-different

run_reconciliation-IsTally_example :
    IsTally run_deps starter "run_1" (take 9 payments) (fresh_tally [] []) finished.0
run_reconciliation-IsTally_example =
    run_reconciliation-IsTally run_deps starter "run_1" 9 payments [] [] finished.0 finished.1
