-- ===== src/Tests/Asking.antt =====
-- A request for evidence about a sample case.
use settlement_ops.Base.{[], any, if◌then◌else◌, none, refl, some, str_eq, true, ◌∷◌, ◌≡◌, ◌≢◌}
use settlement_ops.Case.State.{approval_pending, escalated, requesting_evidence}
use settlement_ops.Case.Transitions.{
  can_transition, find_transition, is_actor_permitted, requires_outcome_record,
}
use settlement_ops.Workflow.{RequestContext, has_at_least, has_role, operator_role}
use settlement_ops.Workflow.Repository.{
  CaseTable, MoveResult, check_move, guarded_row, select_case, transition,
}
use settlement_ops.Workflow.Human.{
  Desk, Surroundings, WorkflowResult, acting_as, apply_human_transition, human_move, moved,
  open_request, reason_given, request_evidence,
}
use settlement_ops.Workflow.Human.Laws.{IsHumanMove, request_evidence_lem}
use settlement_ops.Tests.Samples.{wednesday}

abbrev asked_table : CaseTable
asked_table id =
    if str_eq id "case_1"
    then some (record {
      merchant_id = "m1";
      state = approval_pending;
      case_version = 4;
      closed_at = none;
    })
    else none

abbrev clerk : RequestContext
clerk = record {
  user_id = "u2";
  tenant_id = "m1";
  roles = operator_role ∷ [];
  request_id = "r2";
  correlation_id = "c2";
}

abbrev asking : Surroundings
asking = record {
  now = wednesday;
  clock = wednesday;
  first_id = "e1";
  second_id = "e2";
  seen = asked_table;
}

abbrev sample_desk : Desk
sample_desk = record { cases = asked_table; log = []; open_requests = λ id. none }

abbrev asked_result : MoveResult
asked_result = record {
  case_id = "case_1";
  previous_state = approval_pending;
  next_state = requesting_evidence;
  case_version = 5;
}

asked : (request_evidence asking clerk "case_1" 4 "invoice" 7 sample_desk).1 ≡ moved asked_result
unfolding request_evidence apply_human_transition open_request acting_as has_role has_at_least any
    transition check_move guarded_row select_case can_transition is_actor_permitted find_transition
    requires_outcome_record
asked = refl

request_evidence_lem_example :
    let after = request_evidence asking clerk "case_1" 4 "invoice" 7 sample_desk in
    (has_at_least clerk operator_role ≡ true)
    × IsHumanMove clerk
        (human_move clerk requesting_evidence "case_1" 4)
        sample_desk
        after.0
        asked_result
    × (after.0.open_requests "case_1" ≢ none)
request_evidence_lem_example =
    request_evidence_lem asking clerk "case_1" 4 "invoice" 7 sample_desk asked_result asked

abbrev escalated_result : MoveResult
escalated_result = record {
  case_id = "case_1";
  previous_state = approval_pending;
  next_state = escalated;
  case_version = 5;
}

abbrev escalation : Desk × WorkflowResult
escalation =
    apply_human_transition asking clerk escalated "case_1" 4 "case_escalated"
      (reason_given "no invoice") sample_desk

escalation_moved : escalation.1 ≡ moved escalated_result
unfolding apply_human_transition acting_as has_role any transition check_move guarded_row
    select_case can_transition is_actor_permitted find_transition requires_outcome_record
escalation_moved = refl
