-- ===== src/Ingestion/Import/Laws.antt =====
-- What an import accounts for, and that a replay of its key changes nothing.
use settlement_ops.Base.{
  Bool, Bool-cases, List, Option, Option-cases, Result, String, [], err, first, inl, inr, length,
  map, ok, refl, some, str_eq_iff, suc, true, ℕ, ℤ, ◌∙◌, ◌∷◌, ◌≡◌,
}
use settlement_ops.Records.{FinancialRecord}
use settlement_ops.Workflow.{RequestContext}
use settlement_ops.Ingestion.{FinancialRecordDto}
use settlement_ops.Ingestion.Normalizer.{NormalizationError, normalize_record}
use settlement_ops.Ingestion.Laws.{Accounted, normalize_record-Accounted}
use settlement_ops.Ingestion.Import.{
  ImportCounts, ImportIssue, ImportRequest, ImportRow, Intake, Sorted, SubmitDeps, add_result,
  complete_import, completed_row, create_or_get, has_import_id, has_key, import_accepted, ingest,
  new_import, normalize_all, rejected_record, submit_import,
}

-- A batch of records, from a position on, with what was taken of it and what was refused: each record
-- in its turn is either taken, as `Accounted` says, or listed with its error.
pub data IsSorted (date_parse : String → Option ℤ) (ctx : RequestContext) (ids : ℕ → String)
    (ingested_at : ℤ)
    : ℕ → List FinancialRecordDto → List FinancialRecord → List ImportIssue → Type 0 where
  sorted_none : {low : ℕ} → IsSorted date_parse ctx ids ingested_at low [] [] []
  sorted_taken :
      {low : ℕ} {dto : FinancialRecordDto} {dtos : List FinancialRecordDto} {r : FinancialRecord}
      {taken : List FinancialRecord} {refused : List ImportIssue}
      → Accounted date_parse ctx dto low (ids low) ingested_at (ok r)
      → IsSorted date_parse ctx ids ingested_at (suc low) dtos taken refused
      → IsSorted date_parse ctx ids ingested_at low (dto ∷ dtos) (r ∷ taken) refused
  sorted_refused :
      {low : ℕ} {dto : FinancialRecordDto} {dtos : List FinancialRecordDto} {e : NormalizationError}
      {taken : List FinancialRecord} {refused : List ImportIssue}
      → Accounted date_parse ctx dto low (ids low) ingested_at (err e)
      → IsSorted date_parse ctx ids ingested_at (suc low) dtos taken refused
      → IsSorted date_parse ctx ids ingested_at low
          (dto ∷ dtos)
          taken
          (rejected_record low e ∷ refused)

module _ (date_parse : String → Option ℤ) (ctx : RequestContext) (ids : ℕ → String)
    (ingested_at : ℤ) where
  add_result-IsSorted :
      (low : ℕ) (dto : FinancialRecordDto) (dtos : List FinancialRecordDto)
      (r : Result NormalizationError FinancialRecord) (sorted : Sorted)
      → Accounted date_parse ctx dto low (ids low) ingested_at r
      → IsSorted date_parse ctx ids ingested_at (suc low) dtos sorted.normalized sorted.errors
      → let out = add_result low r sorted in
        IsSorted date_parse ctx ids ingested_at low (dto ∷ dtos) out.normalized out.errors
  add_result-IsSorted low dto dtos (ok r) sorted h s = sorted_taken h s
  add_result-IsSorted low dto dtos (err e) sorted h s = sorted_refused h s

  -- No record of an import is lost. In the order of the batch, each record is either taken, as a
  -- record with its own amounts and lineage, of the caller's tenant and under the next id; or, where
  -- one of its currencies is not supported or one of its timestamps no date, listed with an error
  -- that names its position. Nothing else is taken or listed.
  pub normalize_all-IsSorted :
      (low : ℕ) (dtos : List FinancialRecordDto)
      → let out = normalize_all date_parse ctx ids ingested_at low dtos in
        IsSorted date_parse ctx ids ingested_at low dtos out.normalized out.errors
  unfolding normalize_all
  normalize_all-IsSorted low [] = sorted_none
  normalize_all-IsSorted low (dto ∷ dtos) =
      add_result-IsSorted low dto dtos
        (normalize_record date_parse ctx dto low (ids low) ingested_at)
        (normalize_all date_parse ctx ids ingested_at (suc low) dtos)
        (normalize_record-Accounted date_parse ctx dto low (ids low) ingested_at)
        (normalize_all-IsSorted (suc low) dtos)

-- The row of a key stays findable.
first-map :
    (p : ImportRow → Bool) (f : ImportRow → ImportRow) (rows : List ImportRow) (row : ImportRow)
    → ((r : ImportRow) → p (f r) ≡ p r)
    → first p rows ≡ some row
    → (kept : ImportRow) × (first p (map f rows) ≡ some kept)
unfolding first
first-map p f [] row same h = cc
first-map p f (r ∷ rows) row same h = elim (Bool-cases (p r)) [
  | inl hit ↦ (f r, rw (same r ∙ hit) refl)
  | inr miss ↦
      let (kept, found) = first-map p f rows row same (rw miss at h) in
      (kept, rw (same r ∙ miss) found)
]

completed-key :
    (now : ℤ) (merchant id key tenant : String) (counts : ImportCounts) (r : ImportRow)
    → has_key tenant key (completed_row now merchant id counts r) ≡ has_key tenant key r
completed-key now merchant id key tenant counts r =
    elim (Bool-cases (has_import_id merchant id r)) [
      | inl hit ↦ rw hit refl
      | inr miss ↦ rw miss refl
    ]

new_import-found :
    (merchant id key source_type : String) (submitted : ℕ) (rows : List ImportRow)
    → first (has_key merchant key) (new_import merchant id key source_type submitted ∷ rows)
      ≡ some (new_import merchant id key source_type submitted)
unfolding first
new_import-found merchant id key source_type submitted rows =
    rw ((str_eq_iff merchant merchant).1 refl, (str_eq_iff key key).1 refl) refl

got-found :
    (merchant id key source_type : String) (submitted : ℕ) (rows : List ImportRow)
    → let got = create_or_get merchant id key source_type submitted rows in
      first (has_key merchant key) got.0 ≡ some got.1.0
unfolding create_or_get
got-found merchant id key source_type submitted rows =
    elim (Option-cases (first (has_key merchant key) rows)) [
      | inl fresh ↦
          rw (fresh, create_or_get) (new_import-found merchant id key source_type submitted rows)
      | inr (found, at) ↦ rw (at, create_or_get) at
    ]

module _ {Body Store : Type 0}
    (insert_many : String → String → List FinancialRecord → Store → Store × (ℕ × ℕ)) where
  ingest-found :
      (deps : SubmitDeps Body) (ctx : RequestContext) (request : ImportRequest)
      (summary : ImportRow) (intake : Intake Store) (tenant key : String) (row : ImportRow)
      → first (has_key tenant key) intake.imports ≡ some row
      → (kept : ImportRow) × (first
            (has_key tenant key)
            (ingest insert_many deps ctx request summary intake).0.imports
          ≡ some kept)
  unfolding ingest complete_import
  ingest-found deps ctx request summary intake tenant key row h =
      first-map (has_key tenant key) _ intake.imports row
        (λ r. completed-key deps.now ctx.tenant_id summary.id key tenant _ r) h

  submitted_found :
      (deps : SubmitDeps Body) (ctx : RequestContext) (request : ImportRequest) (body : Body)
      (key : String) (intake : Intake Store)
      → deps.parse_request body ≡ some request
      → (kept : ImportRow) × (first
            (has_key ctx.tenant_id key)
            (submit_import insert_many deps ctx body key intake).0.imports
          ≡ some kept)
  unfolding submit_import
  submitted_found deps ctx request body key intake parsed =
      let got =
        create_or_get ctx.tenant_id deps.import_id key request.source_type (length request.records)
          intake.imports in
      let opened = record intake { imports = got.0 } in
      let found =
        got-found ctx.tenant_id deps.import_id key request.source_type (length request.records)
          intake.imports in
      elim (Bool-cases got.1.1) [
        | inl new ↦
            rw (parsed, submit_import, new)
              (ingest-found deps ctx request got.1.0 opened ctx.tenant_id key got.1.0 found)
        | inr old ↦ rw (parsed, submit_import, old) (got.1.0, found)
      ]

  -- An import is taken once: after any submission that passed the schema, another one of the same
  -- tenant and key, whatever its body and time, is answered as a replay and changes nothing.
  pub submit_import-replayed :
      (deps later : SubmitDeps Body) (ctx again : RequestContext) (request other : ImportRequest)
      (body second : Body) (key : String) (intake : Intake Store)
      → deps.parse_request body ≡ some request
      → later.parse_request second ≡ some other
      → again.tenant_id ≡ ctx.tenant_id
      → let after = (submit_import insert_many deps ctx body key intake).0 in
        (row : ImportRow) × (submit_import insert_many later again second key after
          ≡ (after, import_accepted row true))
  unfolding submit_import create_or_get
  submit_import-replayed deps later ctx again request other body second key intake parsed reparsed
        same =
      let after = (submit_import insert_many deps ctx body key intake).0 in
      let (row, found) = submitted_found deps ctx request body key intake parsed in
      (row, replay after row (rw same found))
    where
      replay :
          (after : Intake Store) (row : ImportRow)
          → first (has_key again.tenant_id key) after.imports ≡ some row
          → submit_import insert_many later again second key after
            ≡ (after, import_accepted row true)
      replay after row found = rw (reparsed, submit_import, found, create_or_get) refl
