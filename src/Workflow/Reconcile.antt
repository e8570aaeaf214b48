-- ===== src/Workflow/Reconcile.antt =====
-- A reconciliation run (packages/application/src/use-cases/run-reconciliation.ts) and the creation
-- of residual cases (packages/persistence/src/repositories/case-repository.ts).
pub mod Laws
pub mod Totality
use settlement_ops.Base.{
  Bool, List, Option, String, [], any, first, if◌then◌else◌, leb, ltb, magnitude, none, some,
  str_eq, ℕ, ℤ, ◌&&◌, ◌++◌, ◌+◌, ◌==◌, ◌||◌, ◌∷◌,
}
use settlement_ops.Reconciliation.Unit.{
  Outcome, ReconciliationUnit, ReconciliationVerdict, exception, reconciled,
}
use settlement_ops.Reconciliation.Matcher.{reconcile_unit}
use settlement_ops.Tools.Lookups.{take}
use settlement_ops.Workflow.{RequestContext}

-- `priorityFor`, of amounts in minor units.
unfoldable pub priority_for : ℤ → ℕ
priority_for discrepancy_minor =
    let size = magnitude discrepancy_minor in
    if leb 1000000 size then 3 else if leb 100000 size then 2 else if ltb 0 size then 1 else 0

-- `CASE-…-0001`: the run's part of the number and the number's own.
pub record CaseNumber : Type 0 where
  pub run_code : String
  pub ordinal : ℕ

abbrev pub same_number : CaseNumber → CaseNumber → Bool
same_number a b = str_eq a.run_code b.run_code && (a.ordinal == b.ordinal)

-- `run_code` stands for `slice(0, 8).toUpperCase()`.
abbrev pub case_number_for : (String → String) → String → ℕ → CaseNumber
case_number_for run_code run_id index = record { run_code = run_code run_id; ordinal = index + 1 }

-- A row of `reconciliation_cases` as the run inserts it: its state is EXCEPTION and its version 1.
pub record ResidualCase : Type 0 where
  pub id : String
  pub merchant_id : String
  pub case_number : CaseNumber
  pub run_id : String
  pub payment_id : String
  pub priority : ℕ
  pub verdict : ReconciliationVerdict

-- The key of the partial unique index, and that of the SELECT after a conflict.
abbrev pub is_case_of : String → String → ResidualCase → Bool
is_case_of run_id payment_id row = str_eq row.run_id run_id && str_eq row.payment_id payment_id

abbrev pub is_own_case : String → String → String → ResidualCase → Bool
is_own_case merchant run_id payment_id row =
    str_eq row.merchant_id merchant && is_case_of run_id payment_id row

-- The key of the unique constraint on the number of a case.
abbrev pub has_number : String → CaseNumber → ResidualCase → Bool
has_number merchant number row =
    str_eq row.merchant_id merchant && same_number row.case_number number

-- The primary key.
abbrev pub has_case_id : String → ResidualCase → Bool
has_case_id id row = str_eq row.id id

pub record ResidualInput : Type 0 where
  pub id : String
  pub case_number : CaseNumber
  pub run_id : String
  pub payment_id : String
  pub verdict : ReconciliationVerdict

abbrev pub residual_row : String → ResidualInput → ResidualCase
residual_row merchant input = record {
  id = input.id;
  merchant_id = merchant;
  case_number = input.case_number;
  run_id = input.run_id;
  payment_id = input.payment_id;
  priority = priority_for input.verdict.discrepancy.amount_minor;
  verdict = input.verdict;
}

-- `{ id, created }`, or the error that is thrown.
pub data Creation : Type 0 where
  case_created case_existed : (id : String) → Creation
  creation_threw : Creation

abbrev pub existed : Option ResidualCase → Creation
existed none = creation_threw
existed (some row) = case_existed row.id

-- `createResidual`. The INSERT gives way to a case of the run and payment only: a number or an id that
-- is taken violates another constraint, and is thrown.
unfoldable pub create_residual :
    String → ResidualInput → List ResidualCase → List ResidualCase × Creation
create_residual merchant input cases =
    if any (is_case_of input.run_id input.payment_id) cases
    then (cases, existed (first (is_own_case merchant input.run_id input.payment_id) cases))
    else if any (has_number merchant input.case_number) cases || any (has_case_id input.id) cases
    then (cases, creation_threw)
    else (residual_row merchant input ∷ cases, case_created input.id)

-- The event of a case that was created, in state EXCEPTION with version 1.
pub record ResidualEvent : Type 0 where
  pub event_id : String
  pub tenant : String
  pub entity_id : String
  pub correlation_id : String
  pub verdict : ReconciliationVerdict

-- The counters of the run, and what it writes.
pub record Tally : Type 0 where
  pub evaluated : ℕ
  pub reconciled_count : ℕ
  pub residual : ℕ
  pub cases : List ResidualCase
  pub log : List ResidualEvent

-- The services: the loader, the n-th id of a case and of its event, and the slicing of a run's id.
pub record RunDeps : Type 0 where
  pub load_unit : String → Option ReconciliationUnit
  pub case_ids : ℕ → String
  pub event_ids : ℕ → String
  pub run_code : String → String

-- After `createResidual`; nothing where that threw, and the run with it.
unfoldable pub after_creation :
    RunDeps
    → RequestContext
    → ReconciliationVerdict
    → Tally
    → List ResidualCase × Creation
    → Option Tally
after_creation deps ctx verdict tally (cases, creation_threw) = none
after_creation deps ctx verdict tally (cases, case_existed id) =
    some (record tally { residual = tally.residual + 1; cases = cases })
after_creation deps ctx verdict tally (cases, case_created id) = some (record tally {
  residual = tally.residual + 1;
  cases = cases;
  log =
      tally.log
      ++ (record {
        event_id = deps.event_ids tally.residual;
        tenant = ctx.tenant_id;
        entity_id = id;
        correlation_id = ctx.correlation_id;
        verdict = verdict;
      }
          ∷ []);
})

abbrev pub one_more : Tally → Tally
one_more tally = record tally { evaluated = tally.evaluated + 1 }

abbrev pub next_input : RunDeps → String → String → ReconciliationVerdict → Tally → ResidualInput
next_input deps run_id payment_id verdict tally = record {
  id = deps.case_ids tally.residual;
  case_number = case_number_for deps.run_code run_id tally.residual;
  run_id = run_id;
  payment_id = payment_id;
  verdict = verdict;
}

-- What a verdict adds.
unfoldable pub tally_verdict :
    RunDeps
    → RequestContext
    → String
    → String
    → ReconciliationVerdict
    → Outcome
    → Tally
    → Option Tally
unfolding after_creation create_residual
tally_verdict deps ctx run_id payment_id verdict reconciled tally =
    some (record tally { reconciled_count = tally.reconciled_count + 1 })
tally_verdict deps ctx run_id payment_id verdict exception tally =
    after_creation deps ctx verdict tally
      (create_residual ctx.tenant_id (next_input deps run_id payment_id verdict tally) tally.cases)

-- The body of the loop, by what the loader found.
unfoldable pub tally_unit :
    RunDeps → RequestContext → String → String → Option ReconciliationUnit → Tally → Option Tally
unfolding tally_verdict
tally_unit deps ctx run_id payment_id none tally = some tally
tally_unit deps ctx run_id payment_id (some unit) tally =
    let verdict = reconcile_unit unit in
    tally_verdict deps ctx run_id payment_id verdict verdict.outcome (one_more tally)

-- The loop over the payments.
unfoldable pub tally_all : RunDeps → RequestContext → String → List String → Tally → Option Tally
unfolding tally_unit
tally_all deps ctx run_id [] tally = some tally
tally_all deps ctx run_id (payment_id ∷ rest) tally =
    elim (tally_unit deps ctx run_id payment_id (deps.load_unit payment_id) tally) [
      | none ↦ none
      | some next ↦ tally_all deps ctx run_id rest next
    ]

abbrev pub fresh_tally : List ResidualCase → List ResidualEvent → Tally
fresh_tally cases log = record {
  evaluated = 0;
  reconciled_count = 0;
  residual = 0;
  cases = cases;
  log = log;
}

-- `runReconciliation` from the list of payments to the counts that it completes the run with.
unfoldable pub run_reconciliation :
    RunDeps
    → RequestContext
    → String
    → ℕ
    → List String
    → List ResidualCase
    → List ResidualEvent
    → Option Tally
unfolding tally_all
run_reconciliation deps ctx run_id max_payments payment_ids cases log =
    tally_all deps ctx run_id (take max_payments payment_ids) (fresh_tally cases log)
