-- ===== src/Agent/Loop.antt =====
-- The investigation loop (packages/agent/src/investigation-loop.ts). The model, the tools and the
-- clock answer from outside: each is a function of how often it has been asked.
pub mod Cited
pub mod Invariant
pub mod Laws
use settlement_ops.Base.{
  Bool, List, Option, Result, String, [], err, false, if◌then◌else◌, inl, inr, leb, ltb, none, ok,
  some, str_append, suc, true, zero, ℕ, ◌++◌, ◌+◌, ◌==◌, ◌||◌, ◌∷◌, ◌⊎◌,
}
use settlement_ops.Cause.{CauseCode, Disposition, escalate, parse_cause, parse_disposition}
use settlement_ops.Tools.{parse_tool}
use settlement_ops.Tools.Evidence.{
  ToolName, ToolResult, calculate_expected_net_amount, get_settlement_breakup, tool_eq,
}
use settlement_ops.Agent.{
  AgentBudget, AgentTrace, InvestigationResult, ModelFault, Observation, ProposalDecision,
  StepAction, StepDecision, StepPrompt, StopReason, add_ids, asked_for, call_tool, conclude,
  is_overtime, is_true, model_failed, model_schema_violation, no_progress, not_available, observed,
  proposal_made, proposal_of, proposal_step, repeated_tool_call, tool_called, tool_rejected_step,
  tool_summary, tool_text, wallclock_exceeded,
}

-- `state`, with `seenCalls` and `observations`; a tool that `seenCalls` lacks has been seen 0 times.
pub record LoopState : Type 0 where
  pub tool_calls : ℕ
  pub steps : ℕ
  pub evidence : List String
  pub trace : List AgentTrace
  pub seen_calls : ToolName → ℕ
  pub observations : List Observation

unfoldable pub escalate_with : StopReason → String → LoopState → InvestigationResult
escalate_with stop_reason rationale state = record {
  proposed_cause = none;
  proposed_disposition = escalate;
  rationale = rationale;
  evidence_record_ids = state.evidence;
  tool_call_count = state.tool_calls;
  step_count = state.steps;
  stop_reason = stop_reason;
  trace = state.trace;
  injection_detected = false;
}

-- The service of the model: the reply to the prompt of a step, and to that for the proposal.
pub record Gateway : Type 0 where
  pub chat_step : ℕ → StepPrompt → Result ModelFault StepDecision
  pub chat_proposal : List Observation → Result ModelFault ProposalDecision

-- `registry.invoke(ctx, name, {})`, by the number of the calls before it.
abbrev pub ToolCall : Type 0
ToolCall = ℕ → ToolName → ToolResult

-- How an iteration ends: with a result, after the loop, or at its next test.
pub data Advance : Type 0 where
  stopped : InvestigationResult → Advance
  left : LoopState → Advance
  again : LoopState → Advance

abbrev pub initial_state : LoopState
initial_state = record {
  tool_calls = 0;
  steps = 0;
  evidence = [];
  trace = [];
  seen_calls = λ _. 0;
  observations = [];
}

abbrev pub seen_once_more : ToolName → (ToolName → ℕ) → ToolName → ℕ
seen_once_more tool seen t = if tool_eq t tool then suc (seen t) else seen t

-- The call of a tool and what it leaves; an opener, too, is seen for the first time.
unfoldable pub use_tool : ToolCall → ToolName → LoopState → LoopState
use_tool call tool state =
    let result = call state.tool_calls tool in
    record {
      tool_calls = state.tool_calls + 1;
      steps = state.steps;
      evidence = add_ids result.record_ids state.evidence;
      trace =
          state.trace
          ++ (record {
            step = state.steps;
            action = tool_called;
            tool = some tool;
            summary = tool_summary result.summary;
          }
              ∷ []);
      seen_calls = seen_once_more tool state.seen_calls;
      observations = state.observations ++ (observed tool result.summary ∷ []);
    }

unfoldable pub opened : ToolCall → LoopState
unfolding use_tool
opened call =
    use_tool call calculate_expected_net_amount (use_tool call get_settlement_breakup initial_state)

unfoldable pub reject_tool : Option String → LoopState → LoopState
reject_tool name state = record state {
  observations = state.observations ++ (not_available ∷ []);
  trace =
      state.trace
      ++ (record {
        step = state.steps;
        action = tool_rejected_step;
        tool = none;
        summary = asked_for name;
      }
          ∷ []);
}

abbrev pub is_conclusion : StepAction → Bool
is_conclusion conclude = true
is_conclusion call_tool = false

-- `toolName !== undefined && isToolName(toolName)`
abbrev pub listed_tool : Option String → Option ToolName
listed_tool none = none
listed_tool (some name) = parse_tool name

-- From the choice of a tool to the end of the body.
unfoldable pub take_tool :
    AgentBudget → ToolCall → LoopState → Option String → Option ToolName → Advance
unfolding use_tool reject_tool escalate_with
take_tool budget call state name none = again (reject_tool name state)
take_tool budget call state name (some tool) =
    if ltb budget.identical_tool_call_limit (state.seen_calls tool)
    then stopped (
        escalate_with repeated_tool_call
          (str_append "repeated " (str_append (tool_text tool) " without new information")) state)
    else again (use_tool call tool state)

-- What a step's reply leads to.
unfoldable pub on_reply :
    AgentBudget → ToolCall → LoopState → Result ModelFault StepDecision → Advance
unfolding take_tool escalate_with
on_reply budget call state (err fault) =
    stopped
      (escalate_with (model_failed fault.failure) (str_append "model failure: " fault.detail) state)
on_reply budget call state (ok decision) =
    if is_conclusion decision.action || leb budget.max_tool_calls state.tool_calls
    then left state
    else take_tool budget call state decision.tool (listed_tool decision.tool)

abbrev pub next_step : LoopState → LoopState
next_step state = record state { steps = state.steps + 1 }

abbrev pub step_prompt : AgentBudget → LoopState → StepPrompt
step_prompt budget state = record {
  transcript = state.observations;
  not_yet_retrieved = [];
  tool_calls_used = state.tool_calls;
  tool_calls_allowed = budget.max_tool_calls;
}

-- `elapsed n` is the time in milliseconds since the start at the n-th test, `clip` is
-- `slice(0, 400)`.
module _ (gateway : Gateway) (call : ToolCall) (elapsed : ℕ → ℕ) (clip : String → String)
    (budget : AgentBudget) where
  -- The body of the loop.
  unfoldable pub advance : LoopState → Advance
  unfolding on_reply escalate_with
  advance state =
      if is_overtime budget (elapsed state.steps)
      then stopped (escalate_with wallclock_exceeded "investigation exceeded its time budget" state)
      else on_reply budget call (next_step state)
          (gateway.chat_step (suc state.steps) (step_prompt budget (next_step state)))

  -- `while (state.steps < budget.maxSteps)`: the number is what is left of the steps, of which
  -- every iteration uses one.
  unfoldable pub loop : ℕ → LoopState → InvestigationResult ⊎ LoopState
  unfolding advance
  loop zero state = inr state
  loop (suc n) state = elim (advance state) [
    | stopped result ↦ inl result
    | left state' ↦ inr state'
    | again state' ↦ loop n state'
  ]

  unfoldable pub accepted :
      LoopState → ProposalDecision → Option CauseCode → Option Disposition → InvestigationResult
  unfolding escalate_with
  accepted state decision (some cause) (some disposition) = record {
    proposed_cause = some cause;
    proposed_disposition = disposition;
    rationale = clip decision.reasoning;
    evidence_record_ids = state.evidence;
    tool_call_count = state.tool_calls;
    step_count = state.steps;
    stop_reason = proposal_made;
    trace =
        state.trace
        ++ (record {
          step = state.steps + 1;
          action = proposal_step;
          tool = none;
          summary = proposal_of cause decision.disposition;
        }
            ∷ []);
    injection_detected = is_true decision.injection_detected;
  }
  accepted state decision _ _ =
      escalate_with (model_failed model_schema_violation)
        "proposal used a value outside the closed set" state

  -- From the reply to the prompt for a proposal.
  unfoldable pub on_proposal : LoopState → Result ModelFault ProposalDecision → InvestigationResult
  unfolding accepted escalate_with
  on_proposal state (err fault) =
      escalate_with (model_failed fault.failure) (str_append "model failure: " fault.detail) state
  on_proposal state (ok decision) =
      accepted state decision (parse_cause decision.cause) (parse_disposition decision.disposition)

  -- After the loop.
  unfoldable pub finish : InvestigationResult ⊎ LoopState → InvestigationResult
  unfolding on_proposal escalate_with
  finish (inl result) = result
  finish (inr state) =
      if state.tool_calls == 0
      then escalate_with no_progress "no evidence was gathered" state
      else on_proposal state (gateway.chat_proposal state.observations)

  unfoldable pub run_investigation : InvestigationResult
  unfolding finish loop opened
  run_investigation = finish (loop budget.max_steps (opened call))
