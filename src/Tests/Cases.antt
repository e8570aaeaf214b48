-- ===== src/Tests/Cases.antt =====
-- The state machine on the sample case.
use settlement_ops.Base.{
  List, [], any, is_ok, length, none, ok, pos, refl, some, true, ◌↔◌, ◌∷◌, ◌≡◌, ◌≢◌, ◌≤◌,
}
use settlement_ops.Case.State.{
  admin, approval_pending, approved, approver, closed, outcome_logged, reopened, staged, system,
}
use settlement_ops.Case.Transitions.{
  can_transition, find_transition, is_actor_permitted, requires_outcome_record,
}
use settlement_ops.Case.Aggregate.{ReconciliationCase, TransitionRequest, apply_transition}
use settlement_ops.Case.Aggregate.Laws.{
  IsAccepted, apply_transition-effect, apply_transition-ok_iff,
}
use settlement_ops.Case.Aggregate.Runs.{
  Run, can_be_closed, here, is_human_approval, staged_needs_approval, step,
}
use settlement_ops.Tests.Samples.{monday, request_to, rupees, sample_case, wednesday}

abbrev approval : TransitionRequest
approval = request_to approved approver 7

abbrev staging : TransitionRequest
staging = request_to staged system 8

abbrev approved_case : ReconciliationCase
approved_case = record sample_case { state = approved; case_version = 8 }

abbrev staged_case : ReconciliationCase
staged_case = record sample_case { state = staged; case_version = 9 }

approval_applied : apply_transition sample_case approval ≡ ok approved_case
unfolding apply_transition can_transition is_actor_permitted find_transition requires_outcome_record
approval_applied = refl

staging_applied : apply_transition approved_case staging ≡ ok staged_case
unfolding apply_transition can_transition is_actor_permitted find_transition requires_outcome_record
staging_applied = refl

sample-Run : Run sample_case staged_case (approval ∷ staging ∷ [])
sample-Run = step approval_applied (step staging_applied here)

apply_transition-ok_iff_example :
    (is_ok (apply_transition sample_case approval) ≡ true) ↔ IsAccepted sample_case approval
apply_transition-ok_iff_example = apply_transition-ok_iff sample_case approval

apply_transition-effect_example :
    (approved_case.state ≡ approved)
    × (approved_case.case_version ≡ 8)
    × (approved ≡ closed → approved_case.closed_at ≡ some wednesday)
    × (approved ≢ closed → approved_case.closed_at ≡ none)
    × (approved_case.id ≡ "case_1")
    × (approved_case.merchant_id ≡ "m1")
    × (approved_case.case_number ≡ sample_case.case_number)
    × (approved_case.priority ≡ sample_case.priority)
    × (approved_case.discrepancy ≡ rupees (pos 29500))
    × (approved_case.deterministic_reason ≡ sample_case.deterministic_reason)
    × (approved_case.opened_at ≡ monday)
apply_transition-effect_example =
    apply_transition-effect sample_case approval approved_case approval_applied

staged_needs_approval_example : any is_human_approval (approval ∷ staging ∷ []) ≡ true
staged_needs_approval_example = staged_needs_approval sample-Run refl refl

can_be_closed_example :
    (qs : List TransitionRequest) × (e : ReconciliationCase) × Run sample_case e qs
    × (e.state ≡ closed)
    × (length qs ≤ 4)
can_be_closed_example = can_be_closed sample_case wednesday

approver_may : is_actor_permitted approval_pending approved approver ≡ true
unfolding is_actor_permitted find_transition
approver_may = refl

closing_permitted : is_actor_permitted outcome_logged closed system ≡ true
unfolding is_actor_permitted find_transition
closing_permitted = refl

reopening_permitted : is_actor_permitted closed reopened admin ≡ true
unfolding is_actor_permitted find_transition
reopening_permitted = refl
