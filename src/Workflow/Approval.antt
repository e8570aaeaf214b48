-- ===== src/Workflow/Approval.antt =====
-- Human approval and staging (packages/workflow/src/approval.ts).
pub mod Laws
use settlement_ops.Base.{
  Bool, List, Result, String, [], err, false, if◌then◌else◌, not, ok, str_eq, ℕ, ℤ, ◌++◌, ◌∷◌,
}
use settlement_ops.Case.State.{
  CaseState, TransitionActor, approved, approver, rejected, staged, system,
}
use settlement_ops.Workflow.{RequestContext, approver_role, has_at_least}
use settlement_ops.Workflow.Repository.{CaseTable, MoveFailure, MoveRequest, MoveResult, transition}

pub data ActorType : Type 0 where
  user_actor : String → ActorType
  system_actor : ActorType

-- The payloads of the three events.
pub data Payload : Type 0 where
  note_payload : String → Payload
  reason_payload : String → Payload
  action_payload : (action_type amount_minor currency : String) → Payload

-- The event that `audit.append` takes. `entityType` is the same text in all; `actorType` and
-- `actorId` are one field.
pub record AuditEvent : Type 0 where
  pub id : String
  pub merchant_id : String
  pub entity_id : String
  pub event_type : String
  pub actor : ActorType
  pub correlation_id : String
  pub previous_state : CaseState
  pub next_state : CaseState
  pub case_version : ℕ
  pub payload : Payload

-- What the handlers change: the cases, and the log that is only appended to.
pub record World : Type 0 where
  pub cases : CaseTable
  pub audit : List AuditEvent

pub data ApprovalResult : Type 0 where
  proposal_approved proposal_rejected action_staged : MoveResult → ApprovalResult
  forbidden reason_required : ApprovalResult
  move_failed : MoveFailure → ApprovalResult
  append_threw : ApprovalResult

-- What the environment gives a handler: the time of the database, the id that `ids.next()` returns,
-- the table as the transition reads it before it writes, and whether `audit.append` throws.
pub record Environment : Type 0 where
  pub now : ℤ
  pub next_id : String
  pub seen : CaseTable
  pub append_throws : Bool

abbrev pub move_to : CaseState → TransitionActor → String → ℕ → MoveRequest
move_to to actor case_id expected_version = record {
  case_id = case_id;
  to = to;
  actor = actor;
  expected_version = expected_version;
  outcome_recorded = false;
}

-- After the transition, which has been committed: the failure, or the event and the result. Where
-- the append throws, so does the handler, and the move stays.
record_move :
    Environment
    → RequestContext
    → String
    → String
    → ActorType
    → Payload
    → (MoveResult → ApprovalResult)
    → World
    → CaseTable × Result MoveFailure MoveResult
    → World × ApprovalResult
record_move env ctx case_id event_type actor payload result world (cases, err failure) =
    (record world { cases = cases }, move_failed failure)
record_move env ctx case_id event_type actor payload result world (cases, ok moved) =
    if env.append_throws then (record world { cases = cases }, append_threw) else (
      record {
        cases = cases;
        audit =
            world.audit
            ++ (record {
              id = env.next_id;
              merchant_id = ctx.tenant_id;
              entity_id = case_id;
              event_type = event_type;
              actor = actor;
              correlation_id = ctx.correlation_id;
              previous_state = moved.previous_state;
              next_state = moved.next_state;
              case_version = moved.case_version;
              payload = payload;
            }
                ∷ []);
      },
      result moved,
    )

-- `clip` is `slice(0, 500)` and `trim` is that of a JavaScript string.
module _ (clip trim : String → String) where
  unfoldable pub approve_proposal :
      Environment → RequestContext → String → ℕ → String → World → World × ApprovalResult
  unfolding record_move has_at_least
  approve_proposal env ctx case_id expected_version note world =
      if not (has_at_least ctx approver_role)
      then (world, forbidden)
      else record_move env ctx case_id "proposal_approved" (user_actor ctx.user_id)
          (note_payload (clip note)) proposal_approved world
          (transition env.now ctx.tenant_id (move_to approved approver case_id expected_version)
            env.seen world.cases)

  unfoldable pub reject_proposal :
      Environment → RequestContext → String → ℕ → String → World → World × ApprovalResult
  unfolding record_move has_at_least
  reject_proposal env ctx case_id expected_version reason world =
      if not (has_at_least ctx approver_role)
      then (world, forbidden)
      else if str_eq (trim reason) ""
      then (world, reason_required)
      else record_move env ctx case_id "proposal_rejected" (user_actor ctx.user_id)
          (reason_payload (clip reason)) proposal_rejected world
          (transition env.now ctx.tenant_id (move_to rejected approver case_id expected_version)
            env.seen world.cases)

unfoldable pub stage_approved_action :
    Environment
    → RequestContext
    → String
    → ℕ
    → String
    → String
    → String
    → World
    → World × ApprovalResult
unfolding record_move has_at_least
stage_approved_action env ctx case_id expected_version action_type amount_minor currency world =
    if not (has_at_least ctx approver_role)
    then (world, forbidden)
    else record_move env ctx case_id "action_staged" system_actor
        (action_payload action_type amount_minor currency) action_staged world
        (transition env.now ctx.tenant_id (move_to staged system case_id expected_version) env.seen
          world.cases)
