-- ===== src/Case/Transitions.antt =====
-- The transition table (packages/domain/src/case/case-transitions.ts).
pub mod Laws
use settlement_ops.Base.{
  Bool, List, Option, String, [], any, false, first, if◌then◌else◌, keep, leb, map, none, some,
  true, ℕ, ◌&&◌, ◌∷◌,
}
use settlement_ops.Case.State.{
  CaseState, TransitionActor, action_proposed, actor_eq, admin, applied, approval_pending, approved,
  approver, closed, escalated, exception, investigating, matching, normalized, operator,
  outcome_logged, received, reconciled, rejected, reopened, requesting_evidence, staged, state_eq,
  system,
}

-- `note` of a rule is prose and is left out.
pub record TransitionRule : Type 0 where
  pub from : CaseState
  pub to : CaseState
  pub actors : List TransitionActor
  pub event : String
  pub requires_outcome : Bool

abbrev s_only : List TransitionActor
s_only = system ∷ []

abbrev op_only : List TransitionActor
op_only = operator ∷ []

abbrev sys_op : List TransitionActor
sys_op = system ∷ operator ∷ []

abbrev approver_only : List TransitionActor
approver_only = approver ∷ []

abbrev op_approver : List TransitionActor
op_approver = operator ∷ approver ∷ []

abbrev human : List TransitionActor
human = operator ∷ approver ∷ admin ∷ []

abbrev admin_only : List TransitionActor
admin_only = admin ∷ []

-- A rule, and a rule with `requiresOutcome: true`.
abbrev rule : CaseState → CaseState → List TransitionActor → String → TransitionRule
rule from to actors event = record {
  from = from;
  to = to;
  actors = actors;
  event = event;
  requires_outcome = false;
}

abbrev outcome_rule : CaseState → CaseState → List TransitionActor → String → TransitionRule
outcome_rule from to actors event = record {
  from = from;
  to = to;
  actors = actors;
  event = event;
  requires_outcome = true;
}

abbrev pub transitions : List TransitionRule
transitions =
    rule received normalized s_only "record_normalized"
    ∷ rule normalized matching s_only "reconciliation_started"
    ∷ rule matching reconciled s_only "reconciliation_completed"
    ∷ rule matching exception s_only "reconciliation_exception_created"
    ∷ rule reconciled closed s_only "case_closed"
    ∷ rule exception investigating sys_op "investigation_started"
    ∷ rule exception escalated sys_op "case_escalated"
    ∷ rule investigating action_proposed s_only "verification_completed"
    ∷ rule investigating requesting_evidence s_only "evidence_requested"
    ∷ rule investigating escalated sys_op "case_escalated"
    ∷ rule action_proposed approval_pending s_only "approval_required"
    ∷ rule action_proposed approved approver_only "approval_recorded"
    ∷ rule action_proposed requesting_evidence sys_op "evidence_requested"
    ∷ rule action_proposed escalated sys_op "case_escalated"
    ∷ rule action_proposed investigating s_only "proposal_invalidated"
    ∷ rule approval_pending approved approver_only "approval_recorded"
    ∷ rule approval_pending rejected approver_only "approval_recorded"
    ∷ rule approval_pending requesting_evidence op_approver "evidence_requested"
    ∷ rule approval_pending escalated op_approver "case_escalated"
    ∷ rule approval_pending investigating s_only "proposal_invalidated"
    ∷ rule approved staged s_only "staging_created"
    ∷ outcome_rule approved closed s_only "outcome_logged"
    ∷ rule rejected investigating op_only "investigation_started"
    ∷ rule rejected escalated op_approver "case_escalated"
    ∷ rule requesting_evidence investigating sys_op "evidence_received"
    ∷ rule requesting_evidence escalated sys_op "evidence_request_expired"
    ∷ rule escalated reopened human "case_reopened"
    ∷ outcome_rule escalated closed human "case_closed"
    ∷ rule staged applied s_only "staged_action_applied"
    ∷ rule staged escalated s_only "case_escalated"
    ∷ rule applied outcome_logged sys_op "outcome_logged"
    ∷ outcome_rule outcome_logged closed s_only "case_closed"
    ∷ rule closed reopened admin_only "case_reopened"
    ∷ rule reopened investigating sys_op "investigation_started"
    ∷ []

unfoldable pub find_transition : CaseState → CaseState → Option TransitionRule
unfolding first
find_transition from to = first (λ t. state_eq t.from from && state_eq t.to to) transitions

unfoldable pub can_transition : CaseState → CaseState → Bool
unfolding find_transition
can_transition from to = elim (find_transition from to) [ none ↦ false | some _ ↦ true ]

-- `HUMAN_RANK`: `SYSTEM` has none.
abbrev pub human_rank : TransitionActor → Option ℕ
human_rank system = none
human_rank operator = some 1
human_rank approver = some 2
human_rank admin = some 3

-- `permittedRank !== undefined && permittedRank <= actorRank`
abbrev rank_within : ℕ → Option ℕ → Bool
rank_within actor_rank none = false
rank_within actor_rank (some permitted_rank) = leb permitted_rank actor_rank

inherits_permission : List TransitionActor → Option ℕ → Bool
unfolding any
inherits_permission actors none = false
inherits_permission actors (some actor_rank) =
    any (λ permitted. rank_within actor_rank (human_rank permitted)) actors

rule_permits : Option TransitionRule → TransitionActor → Bool
unfolding any inherits_permission
rule_permits none actor = false
rule_permits (some rule) actor =
    if any (λ a. actor_eq a actor) rule.actors
    then true
    else inherits_permission rule.actors (human_rank actor)

unfoldable pub is_actor_permitted : CaseState → CaseState → TransitionActor → Bool
unfolding find_transition rule_permits
is_actor_permitted from to actor = rule_permits (find_transition from to) actor

unfoldable pub allowed_targets : CaseState → List CaseState
unfolding keep
allowed_targets from = map (λ t. t.to) (keep (λ t. state_eq t.from from) transitions)

unfoldable pub requires_outcome_record : CaseState → CaseState → Bool
unfolding find_transition
requires_outcome_record from to = elim (find_transition from to) [
  | none ↦ false
  | some r ↦ r.requires_outcome
]
