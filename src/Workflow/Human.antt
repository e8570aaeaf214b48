-- ===== src/Workflow/Human.antt =====
-- Transitions that a human starts (packages/application/src/use-cases/case-workflow.ts).
pub mod Laws
use settlement_ops.Base.{
  Bool, List, Option, Result, String, [], err, false, if◌then◌else◌, none, not, ok, pos, some,
  str_eq, true, ℕ, ℤ, ◌*◌, ◌++◌, ◌+ℤ◌, ◌||◌, ◌∷◌,
}
use settlement_ops.Case.State.{
  CaseState, TransitionActor, approver, escalated, investigating, operator, requesting_evidence,
}
use settlement_ops.Workflow.{
  RequestContext, admin_role, approver_role, has_at_least, has_role, operator_role,
}
use settlement_ops.Workflow.Repository.{CaseTable, MoveFailure, MoveRequest, MoveResult, transition}

pub data HumanPayload : Type 0 where
  reason_given : String → HumanPayload
  detail_asked : String → HumanPayload
  empty_payload : HumanPayload

-- The event of `auditTransition`; `entityType` and `actorType` are the same text in all.
pub record HumanEvent : Type 0 where
  pub event_id : String
  pub tenant : String
  pub entity_id : String
  pub event_type : String
  pub actor_id : String
  pub correlation_id : String
  pub previous_state : CaseState
  pub next_state : CaseState
  pub case_version : ℕ
  pub payload : HumanPayload

-- An evidence request that is open.
pub record OpenRequest : Type 0 where
  pub request_key : String
  pub owner : String
  pub requested_by : String
  pub detail : String
  pub expires_at : ℤ

-- The cases, the log, and the open requests by case: a unique index admits one for each case.
pub record Desk : Type 0 where
  pub cases : CaseTable
  pub log : List HumanEvent
  pub open_requests : String → Option OpenRequest

-- `threw` is the exception that opening a request may end with.
pub data WorkflowResult : Type 0 where
  moved : MoveResult → WorkflowResult
  not_allowed : WorkflowResult
  refused : MoveFailure → WorkflowResult
  threw : WorkflowResult

-- What the environment gives: the database's time, the clock's, the two next ids, and the table as
-- the transition reads it.
pub record Surroundings : Type 0 where
  pub now : ℤ
  pub clock : ℤ
  pub first_id : String
  pub second_id : String
  pub seen : CaseTable

-- `includes('APPROVER') || includes('ADMIN') ? 'APPROVER' : 'OPERATOR'`
unfoldable pub acting_as : RequestContext → TransitionActor
unfolding has_role
acting_as ctx = if has_role ctx approver_role || has_role ctx admin_role then approver else operator

abbrev pub human_move : RequestContext → CaseState → String → ℕ → MoveRequest
human_move ctx to case_id expected_version = record {
  case_id = case_id;
  to = to;
  actor = acting_as ctx;
  expected_version = expected_version;
  outcome_recorded = false;
}

after_move :
    Surroundings
    → RequestContext
    → String
    → HumanPayload
    → Desk
    → CaseTable
    → Result MoveFailure MoveResult
    → Desk × WorkflowResult
after_move env ctx event_type payload desk cases (err failure) =
    (record desk { cases = cases }, refused failure)
after_move env ctx event_type payload desk cases (ok result) = (
  record desk {
    cases = cases;
    log =
        desk.log
        ++ (record {
          event_id = env.first_id;
          tenant = ctx.tenant_id;
          entity_id = result.case_id;
          event_type = event_type;
          actor_id = ctx.user_id;
          correlation_id = ctx.correlation_id;
          previous_state = result.previous_state;
          next_state = result.next_state;
          case_version = result.case_version;
          payload = payload;
        }
            ∷ []);
  },
  moved result,
)

unfoldable pub apply_human_transition :
    Surroundings
    → RequestContext
    → CaseState
    → String
    → ℕ
    → String
    → HumanPayload
    → Desk
    → Desk × WorkflowResult
unfolding after_move
apply_human_transition env ctx to case_id expected_version event_type payload desk =
    let made =
      transition env.now ctx.tenant_id (human_move ctx to case_id expected_version) env.seen
        desk.cases in
    after_move env ctx event_type payload desk made.0 made.1

unfoldable pub escalate_case :
    Surroundings → RequestContext → String → ℕ → String → Desk → Desk × WorkflowResult
unfolding apply_human_transition has_at_least
escalate_case env ctx case_id expected_version reason desk =
    if not (has_at_least ctx operator_role)
    then (desk, not_allowed)
    else apply_human_transition env ctx escalated case_id expected_version "case_escalated"
        (reason_given reason) desk

unfoldable pub reopen_for_investigation :
    Surroundings → RequestContext → String → ℕ → Desk → Desk × WorkflowResult
unfolding apply_human_transition has_at_least
reopen_for_investigation env ctx case_id expected_version desk =
    if not (has_at_least ctx operator_role)
    then (desk, not_allowed)
    else apply_human_transition env ctx investigating case_id expected_version
        "investigation_started" empty_payload desk

-- `open`: nothing is inserted where the case has an open request; if that is not one of this
-- tenant, the second query finds none and the code throws.
unfoldable pub open_request :
    OpenRequest → String → (String → Option OpenRequest) → (String → Option OpenRequest) × Bool
open_request request case_id table = elim (table case_id) [
  | none ↦ ((λ k. if str_eq k case_id then some request else table k), true)
  | some existing ↦ (table, str_eq existing.owner request.owner)
]

-- The end of `requestEvidence`, which opens the request once the case has moved.
then_open :
    Surroundings
    → RequestContext
    → String
    → String
    → ℕ
    → Desk × WorkflowResult
    → Desk × WorkflowResult
unfolding open_request
then_open env ctx case_id detail expiry_days (desk, moved result) =
    let opened =
      open_request
        (record {
          request_key = env.second_id;
          owner = ctx.tenant_id;
          requested_by = ctx.user_id;
          detail = detail;
          expires_at = env.clock +ℤ pos (expiry_days * 86400000);
        })
        case_id desk.open_requests in
    (record desk { open_requests = opened.0 }, if opened.1 then moved result else threw)
then_open env ctx case_id detail expiry_days (desk, not_allowed) = (desk, not_allowed)
then_open env ctx case_id detail expiry_days (desk, refused failure) = (desk, refused failure)
then_open env ctx case_id detail expiry_days (desk, threw) = (desk, threw)

unfoldable pub request_evidence :
    Surroundings → RequestContext → String → ℕ → String → ℕ → Desk → Desk × WorkflowResult
unfolding apply_human_transition has_at_least then_open
request_evidence env ctx case_id expected_version detail expiry_days desk =
    if not (has_at_least ctx operator_role)
    then (desk, not_allowed)
    else then_open env ctx case_id detail expiry_days (
        apply_human_transition env ctx requesting_evidence case_id expected_version
          "evidence_requested" (detail_asked detail) desk)
