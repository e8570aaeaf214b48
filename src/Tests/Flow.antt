-- ===== src/Tests/Flow.antt =====
-- A case of two tenants' table as it is approved, rejected and staged.
use settlement_ops.Base.{
  Bool, List, [], any, err, false, if◌then◌else◌, is_ok, length, none, ok, refl, some, str_eq, true,
  ◌∷◌, ◌≡◌, ◌⊎◌,
}
use settlement_ops.Case.State.{approval_pending, approved, approver, rejected, staged, system}
use settlement_ops.Case.Transitions.{
  can_transition, find_transition, is_actor_permitted, requires_outcome_record,
}
use settlement_ops.Workflow.{RequestContext, approver_role, has_at_least, has_role}
use settlement_ops.Workflow.Repository.{
  CaseRow, CaseTable, MoveRequest, MoveResult, check_move, guarded_row, not_found, select_case,
  transition,
}
use settlement_ops.Workflow.Repository.Races.{IsMove, second_writer_refused, transition-IsMove}
use settlement_ops.Case.Aggregate.Runs.{Run}
use settlement_ops.Workflow.Repository.Refinement.{
  Attempt, applied_to, as_case, replay, replay_refines,
}
use settlement_ops.Workflow.Approval.{
  ApprovalResult, Environment, World, append_threw, approve_proposal, move_to,
  stage_approved_action,
}
use settlement_ops.Workflow.Approval.Laws.{
  ByApprover, IsLogged, IsUnlogged, approve_proposal_lem, stage_approved_action_lem,
}
use settlement_ops.Tests.Samples.{sample_case, wednesday}

abbrev pending_row : CaseRow
pending_row = record {
  merchant_id = "m1";
  state = approval_pending;
  case_version = 7;
  closed_at = none;
}

abbrev sample_table : CaseTable
sample_table id = if str_eq id "case_1" then some pending_row else none

abbrev approve_move : MoveRequest
approve_move = move_to approved approver "case_1" 7

abbrev reject_move : MoveRequest
reject_move = move_to rejected approver "case_1" 7

abbrev approve_result : MoveResult
approve_result = record {
  case_id = "case_1";
  previous_state = approval_pending;
  next_state = approved;
  case_version = 8;
}

move_applied :
    (transition wednesday "m1" approve_move sample_table sample_table).1 ≡ ok approve_result
unfolding transition check_move guarded_row select_case can_transition is_actor_permitted
    find_transition requires_outcome_record
move_applied = refl

foreign_refused :
    (transition wednesday "m2" approve_move sample_table sample_table).1 ≡ err not_found
unfolding transition check_move select_case
foreign_refused = refl

transition-IsMove_example :
    IsMove "m1" approve_move sample_table
      (transition wednesday "m1" approve_move sample_table sample_table).0
      approve_result
transition-IsMove_example =
    transition-IsMove wednesday "m1" approve_move sample_table sample_table approve_result
      move_applied

second_writer_refused_example :
    is_ok
      (transition wednesday "m1" reject_move sample_table
        (transition wednesday "m1" approve_move sample_table sample_table).0).1
    ≡ false
second_writer_refused_example =
    second_writer_refused wednesday wednesday "m1" "m1" approve_move reject_move sample_table
      sample_table sample_table approve_result move_applied refl refl

abbrev sample_context : RequestContext
sample_context = record {
  user_id = "u1";
  tenant_id = "m1";
  roles = approver_role ∷ [];
  request_id = "r1";
  correlation_id = "c1";
}

abbrev sample_environment : Environment
sample_environment = record {
  now = wednesday;
  next_id = "e1";
  seen = sample_table;
  append_throws = false;
}

abbrev sample_world : World
sample_world = record { cases = sample_table; audit = [] }

approve_proposal_lem_example :
    ByApprover sample_environment sample_context approve_move sample_world (
      approve_proposal
        (λ s. s)
        (λ s. s)
        sample_environment
        sample_context
        "case_1"
        7
        "ok"
        sample_world)
approve_proposal_lem_example =
    approve_proposal_lem (λ s. s) (λ s. s) sample_environment sample_context "case_1" 7 "ok"
      sample_world

abbrev approved_world : World
approved_world = record {
  cases = λ id. if str_eq id "case_1" then some (record pending_row { state = approved }) else none;
  audit = [];
}

-- The staging reads the approved case; its append may throw.
abbrev staging_environment : Bool → Environment
staging_environment throws = record {
  now = wednesday;
  next_id = "e1";
  seen = approved_world.cases;
  append_throws = throws;
}

abbrev staging : Bool → World × ApprovalResult
staging throws =
    stage_approved_action (staging_environment throws) sample_context "case_1" 7 "ADJUST" "29500"
      "INR" approved_world

-- The case is staged with one event, or, where the append throws, with none.
staged_or_threw :
    (length (staging false).0.audit ≡ 1)
    × ((staging true).1 ≡ append_threw)
    × (length (staging true).0.audit ≡ 0)
unfolding stage_approved_action transition check_move guarded_row select_case can_transition
    is_actor_permitted has_at_least any requires_outcome_record find_transition has_role
staged_or_threw = (refl, refl, refl)

stage_approved_action_lem_example :
    ((staging false).0 ≡ approved_world)
    ⊎ ((has_at_least sample_context approver_role ≡ true)
        × (((logged : IsLogged sample_context
                (move_to staged system "case_1" 7)
                approved_world
                (staging false).0)
              × (logged.moved.before.state ≡ approved)
              × (logged.event.previous_state ≡ approved))
            ⊎ ((unlogged : IsUnlogged
                  (staging_environment false)
                  sample_context
                  (move_to staged system "case_1" 7)
                  approved_world
                  (staging false).0
                  (staging false).1)
                × (unlogged.moved.before.state ≡ approved))))
stage_approved_action_lem_example =
    stage_approved_action_lem (staging_environment false) sample_context "case_1" 7 "ADJUST" "29500"
      "INR" approved_world

-- Two writers who have both read version 7.
abbrev rivals : List Attempt
rivals =
    record { now = wednesday; merchant = "m1"; input = approve_move; seen = sample_table }
    ∷ record { now = wednesday; merchant = "m1"; input = reject_move; seen = sample_table }
    ∷ []

one_applied :
    applied_to "case_1" rivals sample_table
    ≡ record {
      to = approved;
      actor = approver;
      expected_version = 7;
      outcome_recorded = false;
      at = wednesday;
    }
      ∷ []
unfolding applied_to transition check_move guarded_row select_case can_transition is_actor_permitted
    find_transition requires_outcome_record
one_applied = refl

replay_refines_example :
    (end : CaseRow) × (replay rivals sample_table "case_1" ≡ some end)
    × Run
        (as_case sample_case pending_row)
        (as_case sample_case end)
        (applied_to "case_1" rivals sample_table)
replay_refines_example = replay_refines sample_case "case_1" rivals sample_table pending_row refl
