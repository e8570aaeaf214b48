-- ===== src/Ingestion/Import.antt =====
-- Submitting an import (packages/application/src/use-cases/submit-import.ts) over the table of
-- imports (packages/persistence/src/repositories/import-repository.ts).
pub mod Laws
use settlement_ops.Base.{
  Bool, List, Option, Result, String, [], err, false, first, if◌then◌else◌, length, map, none, ok,
  some, str_eq, suc, true, ℕ, ℤ, ◌&&◌, ◌++◌, ◌∷◌,
}
use settlement_ops.Records.{FinancialRecord}
use settlement_ops.Workflow.{RequestContext}
use settlement_ops.Ingestion.{FinancialRecordDto}
use settlement_ops.Ingestion.Normalizer.{NormalizationError, normalize_record}

pub data ImportStatus : Type 0 where
  import_pending import_running import_succeeded import_failed : ImportStatus

-- `{ index, error }` of the import's list of errors, or the reason of a failed import.
pub data ImportIssue : Type 0 where
  rejected_record : ℕ → NormalizationError → ImportIssue
  import_failure : String → ImportIssue

-- A row of `imports`, in the words of `ImportSummary`, with its idempotency key and without the
-- time of its creation.
pub record ImportRow : Type 0 where
  pub id : String
  pub merchant_id : String
  pub idempotency_key : String
  pub source_type : String
  pub status : ImportStatus
  pub submitted_count : ℕ
  pub accepted_count : ℕ
  pub rejected_count : ℕ
  pub duplicate_count : ℕ
  pub validation_errors : List ImportIssue
  pub completed_at : Option ℤ

abbrev pub has_key : String → String → ImportRow → Bool
has_key merchant key row = str_eq row.merchant_id merchant && str_eq row.idempotency_key key

abbrev pub has_import_id : String → String → ImportRow → Bool
has_import_id merchant id row = str_eq row.id id && str_eq row.merchant_id merchant

abbrev pub new_import : String → String → String → String → ℕ → ImportRow
new_import merchant id key source_type submitted = record {
  id = id;
  merchant_id = merchant;
  idempotency_key = key;
  source_type = source_type;
  status = import_running;
  submitted_count = submitted;
  accepted_count = 0;
  rejected_count = 0;
  duplicate_count = 0;
  validation_errors = [];
  completed_at = none;
}

-- `createOrGet`: the rows, the summary, and whether it is a new one. The unique constraint is on
-- the merchant and the key.
unfoldable pub create_or_get :
    String → String → String → String → ℕ → List ImportRow → List ImportRow × (ImportRow × Bool)
create_or_get merchant id key source_type submitted rows =
    elim (first (has_key merchant key) rows) [
      | some found ↦ (rows, (found, false))
      | none ↦
          let row = new_import merchant id key source_type submitted in (row ∷ rows, (row, true))
    ]

pub record ImportCounts : Type 0 where
  pub accepted : ℕ
  pub rejected : ℕ
  pub duplicates : ℕ
  pub validation_errors : List ImportIssue

abbrev pub completed_row : ℤ → String → String → ImportCounts → ImportRow → ImportRow
completed_row now merchant id counts row =
    if has_import_id merchant id row
    then record row {
      status = import_succeeded;
      accepted_count = counts.accepted;
      rejected_count = counts.rejected;
      duplicate_count = counts.duplicates;
      validation_errors = counts.validation_errors;
      completed_at = some now;
    }
    else row

unfoldable pub complete_import :
    ℤ → String → String → ImportCounts → List ImportRow → List ImportRow
complete_import now merchant id counts rows = map (completed_row now merchant id counts) rows

abbrev pub failed_row : ℤ → String → String → String → ImportRow → ImportRow
failed_row now merchant id reason row =
    if has_import_id merchant id row
    then record row {
      status = import_failed;
      completed_at = some now;
      validation_errors = import_failure reason ∷ [];
    }
    else row

unfoldable pub mark_import_failed : ℤ → String → String → String → List ImportRow → List ImportRow
mark_import_failed now merchant id reason rows = map (failed_row now merchant id reason) rows

unfoldable pub find_import : String → String → List ImportRow → Option ImportRow
find_import merchant id rows = first (has_import_id merchant id) rows

pub record ImportRequest : Type 0 where
  pub source_type : String
  pub records : List FinancialRecordDto

-- What a loop over the records collects: the canonical records and the errors.
pub record Sorted : Type 0 where
  pub normalized : List FinancialRecord
  pub errors : List ImportIssue

abbrev pub add_result : ℕ → Result NormalizationError FinancialRecord → Sorted → Sorted
add_result index (ok r) sorted = record sorted { normalized = r ∷ sorted.normalized }
add_result index (err e) sorted = record sorted { errors = rejected_record index e ∷ sorted.errors }

-- `ids` are the next ids, by the position of the record.
module _ (date_parse : String → Option ℤ) (ctx : RequestContext) (ids : ℕ → String)
    (ingested_at : ℤ) where
  -- The loop over `request.records.entries()`, from the given position on.
  unfoldable pub normalize_all : ℕ → List FinancialRecordDto → Sorted
  normalize_all index [] = record { normalized = []; errors = [] }
  normalize_all index (dto ∷ rest) =
      add_result index (normalize_record date_parse ctx dto index (ids index) ingested_at)
        (normalize_all (suc index) rest)

-- What the log is told of an import.
pub record ImportEvent : Type 0 where
  pub event_id : String
  pub tenant : String
  pub entity_id : String
  pub actor_id : String
  pub correlation_id : String
  pub submitted : ℕ
  pub accepted : ℕ
  pub duplicates : ℕ
  pub rejected : ℕ

-- The imports, the log, and the tables of records, of which only `insertMany` knows the form.
pub record Intake (Store : Type 0) : Type 0 where
  pub imports : List ImportRow
  pub log : List ImportEvent
  pub store : Store

pub data SubmitResult : Type 0 where
  import_accepted : ImportRow → (replayed : Bool) → SubmitResult
  validation_error : SubmitResult

-- The services: the schema, which gives a request or nothing, dates, times, and the ids of the
-- import, of its records and of its event.
pub record SubmitDeps (Body : Type 0) : Type 0 where
  pub parse_request : Body → Option ImportRequest
  pub date_parse : String → Option ℤ
  pub clock : ℤ
  pub now : ℤ
  pub import_id : String
  pub record_ids : ℕ → String
  pub event_id : String

abbrev summary_or : Option ImportRow → ImportRow → ImportRow
summary_or none row = row
summary_or (some found) row = found

-- `insert_many` writes records of an import for a merchant, and counts those that it took and those
-- that were there before.
module _ {Body Store : Type 0}
    (insert_many : String → String → List FinancialRecord → Store → Store × (ℕ × ℕ)) where
  -- What follows when the import is a new one.
  unfoldable pub ingest :
      SubmitDeps Body
      → RequestContext
      → ImportRequest
      → ImportRow
      → Intake Store
      → Intake Store × SubmitResult
  unfolding normalize_all complete_import find_import
  ingest deps ctx request summary intake =
      let sorted = normalize_all deps.date_parse ctx deps.record_ids deps.clock 0 request.records in
      let inserted = insert_many ctx.tenant_id summary.id sorted.normalized intake.store in
      let counts : ImportCounts = record {
        accepted = inserted.1.0;
        rejected = length sorted.errors;
        duplicates = inserted.1.1;
        validation_errors = sorted.errors;
      } in
      let imports = complete_import deps.now ctx.tenant_id summary.id counts intake.imports in
      (
        record {
          imports = imports;
          log =
              intake.log
              ++ (record {
                event_id = deps.event_id;
                tenant = ctx.tenant_id;
                entity_id = summary.id;
                actor_id = ctx.user_id;
                correlation_id = ctx.correlation_id;
                submitted = length request.records;
                accepted = inserted.1.0;
                duplicates = inserted.1.1;
                rejected = length sorted.errors;
              }
                  ∷ []);
          store = inserted.0;
        },
        import_accepted (summary_or (find_import ctx.tenant_id summary.id imports) summary) false,
      )

  unfoldable pub submit_import :
      SubmitDeps Body → RequestContext → Body → String → Intake Store → Intake Store × SubmitResult
  unfolding create_or_get ingest
  submit_import deps ctx body key intake = elim (deps.parse_request body) [
    | none ↦ (intake, validation_error)
    | some request ↦
        let got =
          create_or_get ctx.tenant_id deps.import_id key request.source_type
            (length request.records) intake.imports in
        let opened = record intake { imports = got.0 } in
        if got.1.1
        then ingest deps ctx request got.1.0 opened
        else (opened, import_accepted got.1.0 true)
  ]
