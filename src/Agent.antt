-- ===== src/Agent.antt =====
-- What an investigation works with (packages/agent/src/investigation-loop.ts, prompts.ts,
-- model-gateway.ts): budgets, replies of the model, results.
pub mod Loop
pub mod LoopV2
use settlement_ops.Base.{
  Bool, List, Option, String, [], false, if◌then◌else◌, includes, ltb, some, str_eq, true, ℕ, ◌*◌,
  ◌++◌, ◌∷◌,
}
use settlement_ops.Cause.{CauseCode, Disposition}
use settlement_ops.Tools.Evidence.{
  Summary, ToolName, calculate_expected_net_amount, get_bank_credit, get_fee_schedule,
  get_fee_tax_lines, get_ledger_entries, get_refunds, get_settlement_breakup,
  search_related_adjustments, validate_tax_line_mapping,
}

-- The counts are positive integers (`loadAgentBudget`).
pub record AgentBudget : Type 0 where
  pub max_tool_calls : ℕ
  pub max_steps : ℕ
  pub max_wallclock_seconds : ℕ
  pub identical_tool_call_limit : ℕ

abbrev pub default_agent_budget : AgentBudget
default_agent_budget = record {
  max_tool_calls = 8;
  max_steps = 8;
  max_wallclock_seconds = 120;
  identical_tool_call_limit = 1;
}

pub data ModelFailure : Type 0 where
  model_unavailable model_timeout model_error : ModelFailure
  model_schema_violation model_digest_mismatch : ModelFailure

-- The failed arm of `ModelResponse`; `outputTokens` of the other is not read by the loops.
pub record ModelFault : Type 0 where
  pub failure : ModelFailure
  pub detail : String

-- The failures of the model keep their names as stop reasons: the code casts one to the other.
pub data StopReason : Type 0 where
  proposal_made budget_exhausted no_progress repeated_tool_call : StopReason
  wallclock_exceeded injection_found : StopReason
  model_failed : ModelFailure → StopReason

-- The hypotheses and the reasoning of a step are not read.
pub data StepAction : Type 0 where
  call_tool conclude : StepAction

pub record StepDecision : Type 0 where
  pub action : StepAction
  pub tool : Option String

pub record ProposalDecision : Type 0 where
  pub reasoning : String
  pub cause : String
  pub disposition : String
  pub injection_detected : Option Bool

-- The texts of a trace: a tool's summary, the name that was asked for (`String(undefined)` where
-- there was none), or the proposal.
pub data TraceSummary : Type 0 where
  tool_summary : Summary → TraceSummary
  asked_for : Option String → TraceSummary
  proposal_of : CauseCode → String → TraceSummary
  nothing_observed : TraceSummary

pub data TraceAction : Type 0 where
  tool_called tool_rejected_step repeat_served proposal_step : TraceAction

pub record AgentTrace : Type 0 where
  pub step : ℕ
  pub action : TraceAction
  pub tool : Option ToolName
  pub summary : TraceSummary

pub record InvestigationResult : Type 0 where
  pub proposed_cause : Option CauseCode
  pub proposed_disposition : Disposition
  pub rationale : String
  pub evidence_record_ids : List String
  pub tool_call_count : ℕ
  pub step_count : ℕ
  pub stop_reason : StopReason
  pub trace : List AgentTrace
  pub injection_detected : Bool

-- The lines of the prompt: `${tool}: ${summary}`, and that a tool is not available.
pub data Observation : Type 0 where
  observed : ToolName → Summary → Observation
  not_available : Observation

-- What the user message of a step shows beside the briefing.
pub record StepPrompt : Type 0 where
  pub transcript : List Observation
  pub not_yet_retrieved : List ToolName
  pub tool_calls_used : ℕ
  pub tool_calls_allowed : ℕ

-- `Set.add`, and the loop that adds ids to the evidence.
unfoldable pub add_id : String → List String → List String
add_id id ids = if includes str_eq id ids then ids else ids ++ (id ∷ [])

unfoldable pub add_ids : List String → List String → List String
unfolding add_id
add_ids [] ids = ids
add_ids (new ∷ rest) ids = add_ids rest (add_id new ids)

-- `(Date.now() - startedAt) / 1_000 > budget.maxWallclockSeconds`, of milliseconds.
abbrev pub is_overtime : AgentBudget → ℕ → Bool
is_overtime budget elapsed = ltb (budget.max_wallclock_seconds * 1000) elapsed

abbrev pub is_true : Option Bool → Bool
is_true (some true) = true
is_true _ = false

abbrev pub tool_text : ToolName → String
tool_text get_settlement_breakup = "get_settlement_breakup"
tool_text get_fee_tax_lines = "get_fee_tax_lines"
tool_text get_ledger_entries = "get_ledger_entries"
tool_text get_bank_credit = "get_bank_credit"
tool_text search_related_adjustments = "search_related_adjustments"
tool_text get_refunds = "get_refunds"
tool_text get_fee_schedule = "get_fee_schedule"
tool_text calculate_expected_net_amount = "calculate_expected_net_amount"
tool_text validate_tax_line_mapping = "validate_tax_line_mapping"
