-- ===== src/Agent/LoopV2.antt =====
-- The exploratory investigation loop (packages/agent/src/investigation-loop-v2.ts): a tool that is
-- asked for again is answered from what it returned.
pub mod Invariant
pub mod Laws
use settlement_ops.Base.{
  Bool, List, Option, Result, String, [], err, false, if◌then◌else◌, inl, inr, keep, ltb, none, not,
  ok, some, str_append, str_eq, suc, true, zero, ℕ, ◌++◌, ◌+◌, ◌==◌, ◌∷◌, ◌⊎◌,
}
use settlement_ops.Cause.{CauseCode, Disposition, escalate, parse_cause, request_evidence, resolve}
use settlement_ops.Tools.Evidence.{
  Summary, ToolName, calculate_expected_net_amount, get_bank_credit, get_fee_schedule,
  get_fee_tax_lines, get_refunds, get_settlement_breakup, search_related_adjustments, tool_eq,
  validate_tax_line_mapping,
}
use settlement_ops.Tools.{is_present}
use settlement_ops.Agent.{
  AgentBudget, AgentTrace, InvestigationResult, ModelFault, Observation, StepDecision, StepPrompt,
  StopReason, TraceAction, TraceSummary, add_ids, asked_for, is_overtime, is_true, model_failed,
  model_schema_violation, no_progress, nothing_observed, observed, proposal_made, proposal_of,
  proposal_step, repeat_served, tool_called, tool_rejected_step, tool_summary, wallclock_exceeded,
}
use settlement_ops.Agent.Loop.{ToolCall, is_conclusion, listed_tool}

-- The variables of the run; `seen` is the map `observed`, in the order of its first insertions.
pub record RunState : Type 0 where
  pub tool_calls : ℕ
  pub steps : ℕ
  pub evidence : List String
  pub trace : List AgentTrace
  pub seen : List (ToolName × Summary)

-- `Map.get`, `Map.has` and `Map.set`.
unfoldable pub seen_summary : ToolName → List (ToolName × Summary) → Option Summary
seen_summary tool [] = none
seen_summary tool ((t, summary) ∷ rest) =
    if tool_eq t tool then some summary else seen_summary tool rest

abbrev pub has_seen : ToolName → List (ToolName × Summary) → Bool
has_seen tool seen = is_present (seen_summary tool seen)

unfoldable pub set_seen : ToolName → Summary → List (ToolName × Summary) → List (ToolName × Summary)
set_seen tool summary [] = (tool, summary) ∷ []
set_seen tool summary ((t, old) ∷ rest) =
    let changed = set_seen tool summary rest in
    if tool_eq t tool then (t, summary) ∷ rest else (t, old) ∷ changed

abbrev pub remaining_tools : List ToolName
remaining_tools =
    get_fee_tax_lines ∷ get_bank_credit ∷ get_refunds ∷ search_related_adjustments
    ∷ get_fee_schedule ∷ validate_tax_line_mapping ∷ []

unfoldable pub escalate_run : StopReason → String → RunState → InvestigationResult
escalate_run stop_reason rationale state = record {
  proposed_cause = none;
  proposed_disposition = escalate;
  rationale = rationale;
  evidence_record_ids = state.evidence;
  tool_call_count = state.tool_calls;
  step_count = state.steps;
  stop_reason = stop_reason;
  trace = state.trace;
  injection_detected = false;
}

abbrev pub entry_of : RunState → TraceAction → Option ToolName → TraceSummary → AgentTrace
entry_of state action tool summary = record {
  step = state.steps;
  action = action;
  tool = tool;
  summary = summary;
}

-- `invoke`
unfoldable pub invoke_tool : ToolCall → ToolName → RunState → RunState
invoke_tool call tool state =
    let result = call state.tool_calls tool in
    record {
      tool_calls = state.tool_calls + 1;
      steps = state.steps;
      evidence = add_ids result.record_ids state.evidence;
      trace =
          state.trace
          ++ (entry_of state tool_called (some tool) (tool_summary result.summary) ∷ []);
      seen = set_seen tool result.summary state.seen;
    }

abbrev pub fresh_run : RunState
fresh_run = record { tool_calls = 0; steps = 0; evidence = []; trace = []; seen = [] }

unfoldable pub opened_run : ToolCall → RunState
unfolding invoke_tool
opened_run call =
    invoke_tool call calculate_expected_net_amount
      (invoke_tool call get_settlement_breakup fresh_run)

abbrev cached_summary : Option Summary → TraceSummary
cached_summary none = nothing_observed
cached_summary (some summary) = tool_summary summary

abbrev pub add_entry : AgentTrace → RunState → RunState
add_entry entry state = record state { trace = state.trace ++ (entry ∷ []) }

-- How an iteration ends.
pub data RunAdvance : Type 0 where
  run_stopped : InvestigationResult → RunAdvance
  run_left : RunState → RunAdvance
  run_again : RunState → RunAdvance

-- From the choice of a tool to the end of the body.
unfoldable pub serve_tool : ToolCall → RunState → Option String → Option ToolName → RunAdvance
unfolding invoke_tool
serve_tool call state name none =
    run_again (add_entry (entry_of state tool_rejected_step none (asked_for name)) state)
serve_tool call state name (some tool) =
    if has_seen tool state.seen
    then run_again (
        add_entry
          (entry_of state repeat_served (some tool) (cached_summary (seen_summary tool state.seen)))
          state)
    else run_again (invoke_tool call tool state)

unfoldable pub on_step : ToolCall → RunState → Result ModelFault StepDecision → RunAdvance
unfolding serve_tool escalate_run
on_step call state (err fault) =
    run_stopped
      (escalate_run (model_failed fault.failure) (str_append "model failure: " fault.detail) state)
on_step call state (ok decision) =
    if is_conclusion decision.action
    then run_left state
    else serve_tool call state decision.tool (listed_tool decision.tool)

abbrev pub gathered : List (ToolName × Summary) → List Observation
gathered [] = []
gathered ((tool, summary) ∷ rest) = observed tool summary ∷ gathered rest

abbrev pub later : RunState → RunState
later state = record state { steps = state.steps + 1 }

unfoldable pub run_prompt : AgentBudget → RunState → StepPrompt
run_prompt budget state = record {
  transcript = gathered state.seen;
  not_yet_retrieved = keep (λ tool. not (has_seen tool state.seen)) remaining_tools;
  tool_calls_used = state.tool_calls;
  tool_calls_allowed = budget.max_tool_calls;
}

-- The reply that `PROPOSAL_SCHEMA_V2` describes.
pub record ProposalDecisionV2 : Type 0 where
  pub reasoning : String
  pub cause : String
  pub conclusion : String
  pub injection_detected : Option Bool

pub record GatewayV2 : Type 0 where
  pub chat_step : ℕ → StepPrompt → Result ModelFault StepDecision
  pub chat_proposal : List Observation → Result ModelFault ProposalDecisionV2

unfoldable pub disposition_of : String → Disposition
disposition_of conclusion =
    if str_eq conclusion "RESOLVE_SUPPORTED"
    then resolve
    else if str_eq conclusion "REQUEST_EVIDENCE"
    then request_evidence
    else escalate

-- `elapsed n` is the time in milliseconds since the start at the n-th test, `clip` is
-- `slice(0, 400)`.
module _ (gateway : GatewayV2) (call : ToolCall) (elapsed : ℕ → ℕ) (clip : String → String)
    (budget : AgentBudget) where
  unfoldable pub advance_run : RunState → RunAdvance
  unfolding on_step escalate_run run_prompt
  advance_run state =
      if is_overtime budget (elapsed state.steps)
      then run_stopped
          (escalate_run wallclock_exceeded "investigation exceeded its time budget" state)
      else on_step call (later state)
          (gateway.chat_step (suc state.steps) (run_prompt budget (later state)))

  -- `while (steps < budget.maxSteps && toolCalls < budget.maxToolCalls)`: the number is what is left
  -- of the steps.
  unfoldable pub loop_run : ℕ → RunState → InvestigationResult ⊎ RunState
  unfolding advance_run
  loop_run zero state = inr state
  loop_run (suc n) state = elim (ltb state.tool_calls budget.max_tool_calls) [
    | false ↦ inr state
    | true ↦ elim (advance_run state) [
      | run_stopped result ↦ inl result
      | run_left state' ↦ inr state'
      | run_again state' ↦ loop_run n state'
    ]
  ]

  unfoldable pub concluded : RunState → ProposalDecisionV2 → Option CauseCode → InvestigationResult
  unfolding escalate_run disposition_of
  concluded state decision none =
      escalate_run (model_failed model_schema_violation)
        "proposal used a cause outside the closed set" state
  concluded state decision (some cause) = record {
    proposed_cause = some cause;
    proposed_disposition = disposition_of decision.conclusion;
    rationale = clip decision.reasoning;
    evidence_record_ids = state.evidence;
    tool_call_count = state.tool_calls;
    step_count = state.steps;
    stop_reason = proposal_made;
    trace =
        state.trace
        ++ (record {
          step = state.steps + 1;
          action = proposal_step;
          tool = none;
          summary = proposal_of cause decision.conclusion;
        }
            ∷ []);
    injection_detected = is_true decision.injection_detected;
  }

  unfoldable pub on_conclusion :
      RunState → Result ModelFault ProposalDecisionV2 → InvestigationResult
  unfolding concluded escalate_run
  on_conclusion state (err fault) =
      escalate_run (model_failed fault.failure) (str_append "model failure: " fault.detail) state
  on_conclusion state (ok decision) = concluded state decision (parse_cause decision.cause)

  unfoldable pub finish_run : InvestigationResult ⊎ RunState → InvestigationResult
  unfolding on_conclusion escalate_run
  finish_run (inl result) = result
  finish_run (inr state) =
      if state.tool_calls == 0
      then escalate_run no_progress "no evidence was gathered" state
      else on_conclusion state (gateway.chat_proposal (gathered state.seen))

  unfoldable pub run_investigation_v2 : InvestigationResult
  unfolding finish_run loop_run opened_run
  run_investigation_v2 = finish_run (loop_run budget.max_steps (opened_run call))
