-- ===== src/Workflow/AiInvestigation.antt =====
-- The dispatch of the agent (packages/workflow/src/ai-investigation.ts) over the loops of
-- packages/agent/src, the tools of packages/tools/src and the verifier.
pub mod Laws
use settlement_ops.Base.{
  Bool, List, Option, Result, String, [], err, false, if◌then◌else◌, length, map, none, not, ok,
  some, suc, true, ℕ, ℤ, ◌++◌, ◌∷◌,
}
use settlement_ops.Money.{Currency}
use settlement_ops.Cause.{CauseCode, Disposition, disposition_eq, resolve}
use settlement_ops.Policy.FeeSchedule.{PaymentMethod}
use settlement_ops.Case.State.{action_proposed, escalated, system}
use settlement_ops.Reconciliation.Unit.{ReconciliationUnit, ResidualReason}
use settlement_ops.Reconciliation.Matcher.{reconcile_unit}
use settlement_ops.Verifier.Support.{VerifierFailure}
use settlement_ops.Verifier.{Proposal, VerificationResult, verify}
use settlement_ops.Tools.{ToolContext, no_arguments}
use settlement_ops.Tools.Lookups.{take}
use settlement_ops.Tools.Handlers.{UnitLoader}
use settlement_ops.Tools.Registry.{invoke}
use settlement_ops.Agent.{
  AgentBudget, AgentTrace, InvestigationResult, ModelFailure, StopReason, TraceAction,
  budget_exhausted, injection_found, model_digest_mismatch, model_error, model_failed,
  model_schema_violation, model_timeout, model_unavailable, no_progress, proposal_made,
  repeated_tool_call, tool_called, tool_text, wallclock_exceeded,
}
use settlement_ops.Agent.Loop.{Gateway, ToolCall, run_investigation}
use settlement_ops.Agent.LoopV2.{GatewayV2, run_investigation_v2}
use settlement_ops.Workflow.{RequestContext}
use settlement_ops.Workflow.Repository.{CaseTable, MoveFailure, MoveResult, transition}
use settlement_ops.Workflow.Approval.{move_to, system_actor}
use settlement_ops.Workflow.Investigation.{
  Bench, RunEvent, RunStatus, finish_run_row, run_failed, run_succeeded,
}

-- What `caseBriefing` is given.
pub record Briefing : Type 0 where
  pub reasons : List ResidualReason
  pub discrepancy_minor : ℤ
  pub currency : Currency
  pub payment_method : PaymentMethod
  pub captured_at : Option ℤ
  pub untrusted_text : List String

unfoldable pub briefing_of : ReconciliationUnit → Briefing
briefing_of unit =
    let verdict = reconcile_unit unit in
    record {
      reasons = verdict.reasons;
      discrepancy_minor = verdict.discrepancy.amount_minor;
      currency = unit.payment.amount.currency;
      payment_method = unit.payment.payment_method;
      captured_at = unit.payment.captured_at;
      untrusted_text = take 5 (map (λ a. a.reference) unit.adjustments);
    }

-- The services: the model, the units as the loader finds them at each tool call with the time of
-- the call, the clock, `slice(0, 400)` and the budget.
pub record AgentDeps : Type 0 where
  pub gateway : Briefing → Gateway
  pub gateway_v2 : Briefing → GatewayV2
  pub date_parse : String → Option ℤ
  pub call_time : ℕ → ℤ
  pub load_unit : ℕ → UnitLoader
  pub elapsed : ℕ → ℕ
  pub clip : String → String
  pub budget : AgentBudget

-- `registry.invoke(toolCtx, name, {})`
unfoldable pub registry_call : AgentDeps → ToolContext → ToolCall
registry_call deps tool_ctx n tool =
    invoke deps.date_parse (deps.call_time n) (deps.load_unit n) tool_ctx (tool_text tool)
      no_arguments

-- The flag: whether AGENT_LOOP_VARIANT is 'v2'.
unfoldable pub run_loop : Bool → AgentDeps → ToolContext → Briefing → InvestigationResult
run_loop true deps tool_ctx briefing =
    run_investigation_v2 (deps.gateway_v2 briefing) (registry_call deps tool_ctx) deps.elapsed
      deps.clip deps.budget
run_loop false deps tool_ctx briefing =
    run_investigation (deps.gateway briefing) (registry_call deps tool_ctx) deps.elapsed deps.clip
      deps.budget

pub record AiInput : Type 0 where
  pub case_id : String
  pub investigation_id : String
  pub payment_id : String
  pub unit : ReconciliationUnit
  pub expected_version : ℕ

-- The reason of an escalation, by what is printed into it, and its code.
pub data EscalationReason : Type 0 where
  agent_said : String → EscalationReason
  no_resolution_claimed : EscalationReason
  rejected_for : List VerifierFailure → EscalationReason

pub data FailureCode : Type 0 where
  stop_code : StopReason → FailureCode
  verifier_rejected : FailureCode

abbrev failure_text : ModelFailure → String
failure_text model_unavailable = "MODEL_UNAVAILABLE"
failure_text model_timeout = "MODEL_TIMEOUT"
failure_text model_error = "MODEL_ERROR"
failure_text model_schema_violation = "MODEL_SCHEMA_VIOLATION"
failure_text model_digest_mismatch = "MODEL_DIGEST_MISMATCH"

abbrev pub code_text : FailureCode → String
code_text verifier_rejected = "VERIFIER_REJECTED"
code_text (stop_code proposal_made) = "PROPOSAL_MADE"
code_text (stop_code budget_exhausted) = "BUDGET_EXHAUSTED"
code_text (stop_code no_progress) = "NO_PROGRESS"
code_text (stop_code repeated_tool_call) = "REPEATED_TOOL_CALL"
code_text (stop_code wallclock_exceeded) = "WALLCLOCK_EXCEEDED"
code_text (stop_code injection_found) = "INJECTION_DETECTED"
code_text (stop_code (model_failed failure)) = failure_text failure

pub data AiPayload : Type 0 where
  traced : AgentTrace → AiPayload
  escalation_of : EscalationReason → FailureCode → AiPayload
  verified : Proposal → VerificationResult → AiPayload
  proposed_action : Proposal → (tool_calls : ℕ) → AiPayload

pub data AiResult : Type 0 where
  ai_proposed : CauseCode → Disposition → AiResult
  ai_escalated : EscalationReason → AiResult
  ai_failed : MoveFailure → AiResult

-- The database's time, the id of the n-th event, and the table as the transition reads it.
pub record AiEnvironment : Type 0 where
  pub now : ℤ
  pub ids : ℕ → String
  pub seen : CaseTable

abbrev pub ai_event :
    AiEnvironment
    → RequestContext
    → String
    → ℕ
    → String
    → Option MoveResult
    → AiPayload
    → RunEvent AiPayload
ai_event env ctx case_id n event_type move payload = record {
  event_id = env.ids n;
  tenant = ctx.tenant_id;
  entity_id = case_id;
  event_type = event_type;
  actor = system_actor;
  correlation_id = ctx.correlation_id;
  move = move;
  payload = payload;
}

abbrev event_of_action : TraceAction → String
event_of_action tool_called = "agent_tool_called"
event_of_action _ = "agent_step"

-- The events of the trace, from the n-th id on.
unfoldable pub trace_events :
    AiEnvironment → RequestContext → String → ℕ → List AgentTrace → List (RunEvent AiPayload)
trace_events env ctx case_id n [] = []
trace_events env ctx case_id n (entry ∷ trace) =
    ai_event env ctx case_id n (event_of_action entry.action) none (traced entry)
    ∷ trace_events env ctx case_id (suc n) trace

abbrev pub log_event : RunEvent AiPayload → Bench AiPayload → Bench AiPayload
log_event event bench = record bench { log = bench.log ++ (event ∷ []) }

abbrev pub close_run :
    AiEnvironment
    → RequestContext
    → String
    → RunStatus
    → Option String
    → Bench AiPayload
    → Bench AiPayload
close_run env ctx id status code bench = record bench {
  runs = finish_run_row env.now ctx.tenant_id id status code bench.runs;
}

-- After a transition: its failure, or the event of the move and the result.
unfoldable pub after_ai_move :
    (MoveResult → RunEvent AiPayload)
    → AiResult
    → Bench AiPayload
    → CaseTable × Result MoveFailure MoveResult
    → Bench AiPayload × AiResult
after_ai_move event result bench (cases, err failure) =
    (record bench { cases = cases }, ai_failed failure)
after_ai_move event result bench (cases, ok moved) =
    (log_event (event moved) (record bench { cases = cases }), result)

-- `escalateWith`, with the number of ids that were used before it.
unfoldable pub escalate_case_with :
    AiEnvironment
    → RequestContext
    → AiInput
    → ℕ
    → EscalationReason
    → FailureCode
    → Bench AiPayload
    → Bench AiPayload × AiResult
unfolding after_ai_move
escalate_case_with env ctx input used reason code bench =
    after_ai_move
      (λ moved.
        ai_event env ctx input.case_id used "case_escalated" (some moved)
          (escalation_of reason code))
      (ai_escalated reason)
      (close_run env ctx input.investigation_id run_failed (some (code_text code)) bench)
      (transition env.now ctx.tenant_id
        (move_to escalated system input.case_id input.expected_version) env.seen bench.cases)

abbrev pub proposal_from : CauseCode → InvestigationResult → Proposal
proposal_from cause investigation = record {
  cause = cause;
  disposition = investigation.proposed_disposition;
  evidence_record_ids = investigation.evidence_record_ids;
  rationale = investigation.rationale;
  retrieved_record_ids = some investigation.evidence_record_ids;
}

-- From the verifier's result on.
unfoldable pub on_verification :
    AiEnvironment
    → RequestContext
    → AiInput
    → ℕ
    → InvestigationResult
    → Proposal
    → VerificationResult
    → Bench AiPayload
    → Bench AiPayload × AiResult
unfolding escalate_case_with after_ai_move
on_verification env ctx input used investigation proposal verification bench =
    if not (disposition_eq verification.effective_disposition resolve)
    then escalate_case_with env ctx input used
        (if verification.passed then no_resolution_claimed else rejected_for verification.failures)
        (if verification.passed then stop_code investigation.stop_reason else verifier_rejected)
        bench
    else after_ai_move
        (λ moved.
          ai_event env ctx input.case_id used "action_proposed" (some moved)
            (proposed_action proposal investigation.tool_call_count))
        (ai_proposed proposal.cause proposal.disposition)
        (close_run env ctx input.investigation_id run_succeeded none bench)
        (transition env.now ctx.tenant_id
          (move_to action_proposed system input.case_id input.expected_version) env.seen
          bench.cases)

-- From the result of the loop on.
unfoldable pub on_investigation :
    AiEnvironment
    → RequestContext
    → AiInput
    → ℕ
    → InvestigationResult
    → Option CauseCode
    → Bench AiPayload
    → Bench AiPayload × AiResult
unfolding on_verification escalate_case_with
on_investigation env ctx input used investigation none bench =
    escalate_case_with env ctx input used (agent_said investigation.rationale)
      (stop_code investigation.stop_reason) bench
on_investigation env ctx input used investigation (some cause) bench =
    let proposal = proposal_from cause investigation in
    let verification = verify proposal input.unit in
    on_verification env ctx input (suc used) investigation proposal verification (
      log_event
        (ai_event env ctx input.case_id used "verifier_completed" none
          (verified proposal verification))
        bench)

abbrev pub tool_context : RequestContext → AiInput → ToolContext
tool_context ctx input = record {
  scope = record { merchant_id = ctx.tenant_id };
  payment_id = input.payment_id;
}

unfoldable pub run_ai_investigation :
    Bool
    → AgentDeps
    → AiEnvironment
    → RequestContext
    → AiInput
    → Bench AiPayload
    → Bench AiPayload × AiResult
unfolding on_investigation run_loop briefing_of trace_events
run_ai_investigation is_v2 deps env ctx input bench =
    let investigation = run_loop is_v2 deps (tool_context ctx input) (briefing_of input.unit) in
    on_investigation env ctx input (length investigation.trace) investigation
      investigation.proposed_cause
      (record bench { log = bench.log ++ trace_events env ctx input.case_id 0 investigation.trace })
