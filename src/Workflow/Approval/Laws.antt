-- ===== src/Workflow/Approval/Laws.antt =====
-- What the handlers of approval do.
use settlement_ops.Base.{
  Bool, Bool-cases, Result, String, [], ap, err, false, if◌then◌else◌, inl, inr, not, ok, refl,
  str_eq, str_eq_iff, true, ℕ, ◌++◌, ◌∙◌, ◌∷◌, ◌≡◌, ◌⊎◌,
}
use settlement_ops.Case.Transitions.Laws.{staged_from_approved}
use settlement_ops.Workflow.{RequestContext, approver_role, has_at_least}
use settlement_ops.Workflow.Repository.{CaseTable, MoveFailure, MoveRequest, MoveResult, transition}
use settlement_ops.Workflow.Repository.Races.{IsMove, transition-IsMove, transition-err_unchanged}
use settlement_ops.Workflow.Approval.{
  ActorType, ApprovalResult, AuditEvent, Environment, Payload, World, action_payload, action_staged,
  append_threw, approve_proposal, forbidden, move_to, note_payload, proposal_approved,
  proposal_rejected, reason_payload, reason_required, record_move, reject_proposal,
  stage_approved_action, system_actor, user_actor,
}
use settlement_ops.Case.State.{approved, approver, rejected, staged, system}

-- A move with its one event in the log.
pub record IsLogged (ctx : RequestContext) (input : MoveRequest) (world after : World)
    : Type 0 where
  pub done : MoveResult
  pub moved : IsMove ctx.tenant_id input world.cases after.cases done
  pub event : AuditEvent
  pub logged : after.audit ≡ world.audit ++ (event ∷ [])
  pub of_case : event.entity_id ≡ input.case_id
  pub left : event.previous_state ≡ done.previous_state
  pub entered : event.next_state ≡ input.to
  pub version : event.case_version ≡ done.case_version

-- A move that was made without its event: the append threw after it.
pub record IsUnlogged (env : Environment) (ctx : RequestContext) (input : MoveRequest)
    (world after : World) (result : ApprovalResult) : Type 0 where
  pub done : MoveResult
  pub moved : IsMove ctx.tenant_id input world.cases after.cases done
  pub unlogged : after.audit ≡ world.audit
  pub throws : env.append_throws ≡ true
  pub threw : result ≡ append_threw

-- What a handler has changed: nothing, or one move with its event, or one move without it.
abbrev pub Recorded :
    Environment → RequestContext → MoveRequest → World → World × ApprovalResult → Type 0
Recorded env ctx input world (after, result) =
    (after ≡ world) ⊎ (IsLogged ctx input world after ⊎ IsUnlogged env ctx input world after result)

-- The same, where only an approver or an admin changes anything.
abbrev pub ByApprover :
    Environment → RequestContext → MoveRequest → World → World × ApprovalResult → Type 0
ByApprover env ctx input world (after, result) =
    (after ≡ world)
    ⊎ ((has_at_least ctx approver_role ≡ true)
        × (IsLogged ctx input world after ⊎ IsUnlogged env ctx input world after result))

moved_or_not :
    (env : Environment) (ctx : RequestContext) (input : MoveRequest) (event_type : String)
    (actor : ActorType) (payload : Payload) (result : MoveResult → ApprovalResult) (world : World)
    (cases : CaseTable) (r : Result MoveFailure MoveResult)
    → ((e : MoveFailure) → r ≡ err e → cases ≡ world.cases)
    → ((done : MoveResult) → r ≡ ok done → IsMove ctx.tenant_id input world.cases cases done)
    → Recorded env ctx input world
        (record_move env ctx input.case_id event_type actor payload result world (cases, r))
unfolding record_move
moved_or_not env ctx input event_type actor payload result world cases (err e) kept made =
    inl (ap (λ t. record world { cases = t }) (kept e refl))
moved_or_not env ctx input event_type actor payload result world cases (ok done) kept made =
    let move = made done refl in
    elim (Bool-cases env.append_throws) [
      | inl throws ↦
          rw (throws, record_move)
            (inr (
              inr (record {
                done = done;
                moved = move;
                unlogged = refl;
                throws = refl;
                threw = refl;
              })))
      | inr appends ↦
          rw (appends, record_move)
            (inr (
              inl (record {
                done = done;
                moved = move;
                event = _;
                logged = refl;
                of_case = refl;
                left = refl;
                entered = move.to_state;
                version = refl;
              })))
    ]

record_move_lem :
    (env : Environment) (ctx : RequestContext) (input : MoveRequest) (event_type : String)
    (actor : ActorType) (payload : Payload) (result : MoveResult → ApprovalResult) (world : World)
    → Recorded env ctx input world (
        record_move env ctx input.case_id event_type actor payload result world
          (transition env.now ctx.tenant_id input env.seen world.cases))
record_move_lem env ctx input event_type actor payload result world =
    let made = transition env.now ctx.tenant_id input env.seen world.cases in
    moved_or_not env ctx input event_type actor payload result world made.0 made.1
      (λ e h. transition-err_unchanged env.now ctx.tenant_id input env.seen world.cases e h)
      (λ done h. transition-IsMove env.now ctx.tenant_id input env.seen world.cases done h)

-- A handler that tests the role first.
guarded_handler :
    (env : Environment) (ctx : RequestContext) (input : MoveRequest) (world : World)
    (run : World × ApprovalResult)
    → Recorded env ctx input world run
    → ByApprover env ctx input world
        (if not (has_at_least ctx approver_role) then (world, forbidden) else run)
guarded_handler env ctx input world run h = elim (Bool-cases (has_at_least ctx approver_role)) [
  | inr lacks ↦ rw lacks (inl refl)
  | inl has ↦ rw has (elim h [ inl same ↦ inl same | inr moved ↦ inr (refl, moved) ])
]

-- Approving either changes nothing, or is done by an approver or an admin and makes exactly one
-- move, to APPROVED, of a row of the caller's tenant that has the expected version and may move
-- there, whatever other writers did meanwhile. The move comes with exactly one event in the log that
-- states it, unless the append throws: then the move stays without an event, and the handler throws.
pub approve_proposal_lem :
    (clip trim : String → String) (env : Environment) (ctx : RequestContext) (id : String)
    (version : ℕ) (note : String) (world : World)
    → ByApprover env ctx
        (move_to approved approver id version)
        world
        (approve_proposal clip trim env ctx id version note world)
unfolding approve_proposal
approve_proposal_lem clip trim env ctx id version note world =
    guarded_handler env ctx (move_to approved approver id version) world _ (
      record_move_lem env ctx (move_to approved approver id version) "proposal_approved"
        (user_actor ctx.user_id) (note_payload (clip note)) proposal_approved world)

-- Rejecting does likewise with REJECTED, and a reason that is blank changes nothing.
pub reject_proposal_lem :
    (clip trim : String → String) (env : Environment) (ctx : RequestContext) (id : String)
    (version : ℕ) (reason : String) (world : World)
    → ByApprover env ctx
        (move_to rejected approver id version)
        world
        (reject_proposal clip trim env ctx id version reason world)
      × (trim reason ≡ "" → (reject_proposal clip trim env ctx id version reason world).0 ≡ world)
unfolding reject_proposal
reject_proposal_lem clip trim env ctx id version reason world = (
  guarded_handler env ctx (move_to rejected approver id version) world _ run_lem,
  λ blank.
      unchanged (has_at_least ctx approver_role) (str_eq (trim reason) "")
        ((str_eq_iff (trim reason) "").1 blank),
)
  where
    run : World × ApprovalResult
    run =
        record_move env ctx id "proposal_rejected" (user_actor ctx.user_id)
          (reason_payload (clip reason)) proposal_rejected world
          (transition env.now ctx.tenant_id (move_to rejected approver id version) env.seen
            world.cases)

    run_lem :
        Recorded env ctx
          (move_to rejected approver id version)
          world
          (if str_eq (trim reason) "" then (world, reason_required) else run)
    run_lem = elim (Bool-cases (str_eq (trim reason) "")) [
      | inl blank ↦ rw blank (inl refl)
      | inr given ↦ rw given (
          record_move_lem env ctx (move_to rejected approver id version) "proposal_rejected"
            (user_actor ctx.user_id) (reason_payload (clip reason)) proposal_rejected world)
    ]

    unchanged :
        (allowed blank : Bool)
        → blank ≡ true
        → (if not allowed
            then (world, forbidden)
            else if blank
            then (world, reason_required)
            else run).0
          ≡ world
    unchanged false blank e = refl
    unchanged true true e = refl
    unchanged true false e = cc

-- Staging either changes nothing, or is asked for by an approver or an admin and makes exactly one
-- move, to STAGED, of a row of the caller's tenant that was APPROVED with the expected version. The
-- move comes with exactly one event, which states that it left APPROVED, unless the append throws:
-- then the move stays without an event, and the handler throws.
pub stage_approved_action_lem :
    (env : Environment) (ctx : RequestContext) (id : String) (version : ℕ)
    (action_type amount_minor currency : String) (world : World)
    → let out = stage_approved_action env ctx id version action_type amount_minor currency world in
      let input = move_to staged system id version in
      (out.0 ≡ world)
      ⊎ ((has_at_least ctx approver_role ≡ true)
          × (((logged : IsLogged ctx input world out.0) × (logged.moved.before.state ≡ approved)
                × (logged.event.previous_state ≡ approved))
              ⊎ ((unlogged : IsUnlogged env ctx input world out.0 out.1)
                  × (unlogged.moved.before.state ≡ approved))))
unfolding stage_approved_action
stage_approved_action_lem env ctx id version action_type amount_minor currency world =
    elim staged_or_not [
      | inl same ↦ inl same
      | inr (has, inl logged) ↦
          let from = was_approved logged.moved in
          inr (has, inl (logged, from, (logged.left ∙ logged.moved.from_state) ∙ from))
      | inr (has, inr unlogged) ↦ inr (has, inr (unlogged, was_approved unlogged.moved))
    ]
  where
    input : MoveRequest
    input = move_to staged system id version

    was_approved :
        {before after : CaseTable} {done : MoveResult}
        → (moved : IsMove ctx.tenant_id input before after done) → moved.before.state ≡ approved
    was_approved moved = staged_from_approved moved.before.state system moved.permitted

    staged_or_not :
        ByApprover env ctx input world
          (stage_approved_action env ctx id version action_type amount_minor currency world)
    staged_or_not = guarded_handler env ctx input world _ (
        record_move_lem env ctx input "action_staged" system_actor
          (action_payload action_type amount_minor currency) action_staged world)
