-- ===== src/Workflow/Human/Laws.antt =====
-- What the human transitions leave behind.
use settlement_ops.Base.{
  Bool, Bool-cases, Option, Option-cases, Result, String, [], err, false, if◌then◌else◌, inl, inr,
  none, ok, refl, some, str_eq, str_eq_iff, subst, sym, true, ℕ, ◌++◌, ◌∙◌, ◌∷◌, ◌≡◌, ◌≢◌,
}
use settlement_ops.Workflow.{RequestContext, has_at_least, operator_role}
use settlement_ops.Workflow.Repository.{CaseTable, MoveFailure, MoveRequest, MoveResult, transition}
use settlement_ops.Workflow.Human.{
  Desk, HumanEvent, HumanPayload, OpenRequest, Surroundings, WorkflowResult, after_move,
  apply_human_transition, detail_asked, human_move, moved, not_allowed, open_request, refused,
  request_evidence, then_open, threw,
}
use settlement_ops.Case.State.{CaseState, requesting_evidence}
use settlement_ops.Workflow.Repository.Races.{IsMove, transition-IsMove}

-- The move that a successful result stands for, and its one event.
pub record IsHumanMove (ctx : RequestContext) (input : MoveRequest) (desk after : Desk)
    (result : MoveResult) : Type 0 where
  pub made : IsMove ctx.tenant_id input desk.cases after.cases result
  pub event : HumanEvent
  pub logged : after.log ≡ desk.log ++ (event ∷ [])
  pub by_user : event.actor_id ≡ ctx.user_id
  pub left : event.previous_state ≡ result.previous_state
  pub entered : event.next_state ≡ result.next_state

after_move-moved :
    (env : Surroundings) (ctx : RequestContext) (input : MoveRequest) (event_type : String)
    (payload : HumanPayload) (desk : Desk) (cases : CaseTable) (r : Result MoveFailure MoveResult)
    (result : MoveResult)
    → ((done : MoveResult) → r ≡ ok done → IsMove ctx.tenant_id input desk.cases cases done)
    → (after_move env ctx event_type payload desk cases r).1 ≡ moved result
    → IsHumanMove ctx input desk (after_move env ctx event_type payload desk cases r).0 result
unfolding after_move
after_move-moved env ctx input event_type payload desk cases (err e) result made h = cc
after_move-moved env ctx input event_type payload desk cases (ok done) result made h =
    subst
      (IsHumanMove ctx input desk (after_move env ctx event_type payload desk cases (ok done)).0)
      same
      (record {
        made = made done refl;
        event = _;
        logged = refl;
        by_user = refl;
        left = refl;
        entered = refl;
      })
  where
    same : done ≡ result
    same = cc

-- When a human transition reports a move, it made that move of a row of the caller's tenant, at the
-- version expected and by a move that the table permits to the actor the caller's roles stand for,
-- with exactly one event in the log, which names the caller and the states.
pub apply_human_transition_lem :
    (env : Surroundings) (ctx : RequestContext) (to : CaseState) (id : String) (version : ℕ)
    (event_type : String) (payload : HumanPayload) (desk : Desk) (result : MoveResult)
    → let made = apply_human_transition env ctx to id version event_type payload desk in
      made.1 ≡ moved result → IsHumanMove ctx (human_move ctx to id version) desk made.0 result
unfolding apply_human_transition
apply_human_transition_lem env ctx to id version event_type payload desk result h =
    let input = human_move ctx to id version in
    let made = transition env.now ctx.tenant_id input env.seen desk.cases in
    after_move-moved env ctx input event_type payload desk made.0 made.1 result
      (λ done e. transition-IsMove env.now ctx.tenant_id input env.seen desk.cases done e) h

some-ne-none : {r : OpenRequest} → some r ≡ none → ⊥
some-ne-none e = cc

inserted :
    (id : String) (r : OpenRequest) (o : Option OpenRequest)
    → (if str_eq id id then some r else o) ≢ none
inserted id r o e = some-ne-none {r = r} (sym (rw ((str_eq_iff id id).1 refl) refl) ∙ e)

open_request-open :
    (request : OpenRequest) (id : String) (table : String → Option OpenRequest)
    → (open_request request id table).0 id ≢ none
unfolding open_request
open_request-open request id table = elim (Option-cases (table id)) [
  | inl absent ↦ rw (absent, open_request) (inserted id request _)
  | inr (existing, present) ↦ rw (present, open_request) (λ e. some-ne-none (sym present ∙ e))
]

then_open-moved :
    (env : Surroundings) (ctx : RequestContext) (id : String) (detail : String) (days : ℕ)
    (desk : Desk) (r : WorkflowResult) (result : MoveResult)
    → let after = then_open env ctx id detail days (desk, r) in
      after.1 ≡ moved result
      → (r ≡ moved result)
        × (after.0.cases ≡ desk.cases)
        × (after.0.log ≡ desk.log)
        × (after.0.open_requests id ≢ none)
unfolding then_open
then_open-moved env ctx id detail days desk (moved done) result h =
    (kept _ h, refl, refl, open_request-open _ id desk.open_requests)
  where
    kept : (b : Bool) → (if b then moved done else threw) ≡ moved result → moved done ≡ moved result
    kept true e = e
    kept false e = cc
then_open-moved env ctx id detail days desk not_allowed result h = cc
then_open-moved env ctx id detail days desk (refused f) result h = cc
then_open-moved env ctx id detail days desk threw result h = cc

-- The move stands while neither the cases nor the log change after it.
still_moved :
    (ctx : RequestContext) (input : MoveRequest) (desk mid after : Desk) (result : MoveResult)
    → IsHumanMove ctx input desk mid result
    → after.cases ≡ mid.cases
    → after.log ≡ mid.log
    → IsHumanMove ctx input desk after result
still_moved ctx input desk mid after result m same_cases same_log = record {
  made = subst (λ t. IsMove ctx.tenant_id input desk.cases t result) (sym same_cases) m.made;
  event = m.event;
  logged = same_log ∙ m.logged;
  by_user = m.by_user;
  left = m.left;
  entered = m.entered;
}

not_allowed-ne-moved : {r : MoveResult} → not_allowed ≡ moved r → ⊥
not_allowed-ne-moved e = cc

-- When a request for evidence reports a move, the case has moved to REQUESTING_EVIDENCE with one
-- event in the log, its row was the caller's tenant's at the expected version, the caller is an
-- operator or above, and the case has an open request.
pub request_evidence_lem :
    (env : Surroundings) (ctx : RequestContext) (id : String) (version : ℕ) (detail : String)
    (days : ℕ) (desk : Desk) (result : MoveResult)
    → let after = request_evidence env ctx id version detail days desk in
      after.1 ≡ moved result
      → (has_at_least ctx operator_role ≡ true)
        × IsHumanMove ctx (human_move ctx requesting_evidence id version) desk after.0 result
        × (after.0.open_requests id ≢ none)
unfolding request_evidence
request_evidence_lem env ctx id version detail days desk result h =
    elim (Bool-cases (has_at_least ctx operator_role)) [
      | inr lacks ↦ absurd (not_allowed-ne-moved (rw (lacks, request_evidence) at h))
      | inl has ↦
          let (reported, same_cases, same_log, opened) =
            then_open-moved env ctx id detail days made.0 made.1 result
              (rw (has, request_evidence) at h) in
          let first =
            apply_human_transition_lem env ctx requesting_evidence id version "evidence_requested"
              (detail_asked detail) desk result reported in
          rw (has, request_evidence)
            (
              refl,
              still_moved ctx (human_move ctx requesting_evidence id version) desk made.0 _ result
                  first same_cases same_log,
              opened,
            )
    ]
  where
    made : Desk × WorkflowResult
    made =
        apply_human_transition env ctx requesting_evidence id version "evidence_requested"
          (detail_asked detail) desk
