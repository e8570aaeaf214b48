-- ===== src/Case/Aggregate.antt =====
-- The case aggregate (packages/domain/src/case/reconciliation-case.ts).
pub mod Laws
pub mod Runs
use settlement_ops.Base.{
  Bool, Option, Result, String, fail_if, false, if◌then◌else◌, not, ok, some, ℕ, ℤ, ◌&&◌, ◌+◌, ◌==◌,
  ◌>>◌,
}
use settlement_ops.Money.{Money}
use settlement_ops.Case.State.{CaseState, TransitionActor, closed, investigating, state_eq, system}
use settlement_ops.Case.Transitions.{can_transition, is_actor_permitted, requires_outcome_record}

-- The merchant of `scope` stands for the scope, which holds nothing else at run time.
pub record ReconciliationCase : Type 0 where
  pub id : String
  pub merchant_id : String
  pub case_number : String
  pub state : CaseState
  pub priority : ℕ
  pub discrepancy : Money
  pub deterministic_reason : String
  pub case_version : ℕ
  pub opened_at : ℤ
  pub closed_at : Option ℤ

pub data TransitionError : Type 0 where
  illegal_transition : (from to : CaseState) → TransitionError
  actor_not_permitted : (from to : CaseState) → TransitionActor → TransitionError
  outcome_required : (from to : CaseState) → TransitionError
  version_conflict : (expected actual : ℕ) → TransitionError

-- An `outcomeRecorded` that is absent is `false`: the code tests `!== true`.
pub record TransitionRequest : Type 0 where
  pub to : CaseState
  pub actor : TransitionActor
  pub expected_version : ℕ
  pub outcome_recorded : Bool
  pub at : ℤ

unfoldable pub apply_transition :
    ReconciliationCase → TransitionRequest → Result TransitionError ReconciliationCase
apply_transition current request = do
  fail_if (not (current.case_version == request.expected_version))
      (version_conflict request.expected_version current.case_version)
  fail_if (not (can_transition current.state request.to))
      (illegal_transition current.state request.to)
  fail_if (not (is_actor_permitted current.state request.to request.actor))
      (actor_not_permitted current.state request.to request.actor)
  fail_if (requires_outcome_record current.state request.to && not request.outcome_recorded)
      (outcome_required current.state request.to)
  ok (record current {
    state = request.to;
    case_version = current.case_version + 1;
    closed_at = if state_eq request.to closed then some request.at else current.closed_at;
  })

unfoldable pub invalidate_proposal :
    ReconciliationCase → ℤ → Result TransitionError ReconciliationCase
unfolding apply_transition
invalidate_proposal current at = apply_transition current (record {
  to = investigating;
  actor = system;
  expected_version = current.case_version;
  outcome_recorded = false;
  at = at;
})
