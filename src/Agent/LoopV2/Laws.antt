-- ===== src/Agent/LoopV2/Laws.antt =====
-- What the exploratory investigation may report, whatever the model, the tools and the clock answer.
use settlement_ops.Base.{
  ==_iff, Bool-cases, Option, Result, String, arith, err, inl, inr, ltb, ltb→lt, none, ok, refl,
  some, suc, zero, ℕ, ◌+◌, ◌<◌, ◌==◌, ◌≡◌, ◌⊎◌,
}
use settlement_ops.Agent.{
  AgentBudget, InvestigationResult, ModelFault, is_overtime, model_failed, model_schema_violation,
  wallclock_exceeded,
}
use settlement_ops.Agent.Loop.Cited.{CallsWithin, entry-Evidenced}
use settlement_ops.Agent.Loop.Invariant.{other_stays}
use settlement_ops.Agent.LoopV2.{
  GatewayV2, ProposalDecisionV2, RunAdvance, RunState, advance_run, concluded, finish_run, has_seen,
  later, loop_run, on_conclusion, opened_run, run_again, run_investigation_v2, run_left, run_prompt,
  run_stopped,
}
use settlement_ops.Agent.Loop.{ToolCall}
use settlement_ops.Agent.Loop.Laws.{IsVerdict, is_made, proposes}
use settlement_ops.Agent.LoopV2.Invariant.{
  IsFrugal, IsOnce, Kept2, at_most_one, escalate_run-IsFrugal, escalate_run-IsVerdict, later-IsOnce,
  on_step-Kept, opened_run-IsOnce, opened_run-steps,
}
use settlement_ops.Cause.{CauseCode, parse_cause}
use settlement_ops.Tools.Evidence.{ToolName}

module _ (gateway : GatewayV2) (call : ToolCall) (elapsed : ℕ → ℕ) (clip : String → String)
    (P : ℕ → ToolName → String → Type 0) (budget : AgentBudget) (within : CallsWithin P call) where
  advance_run-Kept :
      (state : RunState)
      → IsOnce P budget state
      → state.steps < budget.max_steps
      → state.tool_calls < budget.max_tool_calls
      → Kept2 P budget state.steps (advance_run gateway call elapsed clip budget state)
  unfolding advance_run is_made
  advance_run-Kept state h more room =
      elim (Bool-cases (is_overtime budget (elapsed state.steps))) [
        | inl late ↦
            rw (late, advance_run)
              (
                escalate_run-IsFrugal P budget wallclock_exceeded _ state h,
                escalate_run-IsVerdict P budget wallclock_exceeded _ state refl,
              )
        | inr in_time ↦
            rw (in_time, advance_run)
              (on_step-Kept P budget call state.steps (later state)
                (gateway.chat_step (suc state.steps) (run_prompt budget (later state))) within
                (later-IsOnce P budget state h more) (omega arith) room
                (omega (arith, h.calls_by_steps)))
      ]

  abbrev RunKept : InvestigationResult ⊎ RunState → Type 0
  RunKept (inl r) = IsFrugal P budget r × IsVerdict r
  RunKept (inr state) = IsOnce P budget state

  loop_run-Kept :
      (n : ℕ) (state : RunState)
      → IsOnce P budget state
      → state.steps + n ≡ budget.max_steps
      → RunKept (loop_run gateway call elapsed clip budget n state)
  unfolding loop_run
  loop_run-Kept zero state h left_over = h
  loop_run-Kept (suc n) state h left_over =
      elim (Bool-cases (ltb state.tool_calls budget.max_tool_calls)) [
        | inr full ↦ rw (full, loop_run) h
        | inl room ↦
            rw (room, loop_run)
              (on (advance_run gateway call elapsed clip budget state)
                (advance_run-Kept state h (omega (arith, left_over))
                  (ltb→lt state.tool_calls budget.max_tool_calls room))
                (loop_run-Kept n))
      ]
    where
      on :
          (a : RunAdvance)
          → Kept2 P budget state.steps a
          → ((s : RunState)
              → IsOnce P budget s
              → s.steps + n ≡ budget.max_steps
              → RunKept (loop_run gateway call elapsed clip budget n s))
          → RunKept (elim a [
            | run_stopped result ↦ inl result
            | run_left state' ↦ inr state'
            | run_again state' ↦ loop_run gateway call elapsed clip budget n state'
          ])
      on (run_stopped result) kept next = kept
      on (run_left state') kept next = kept
      on (run_again state') kept next = next state' kept.0 (omega (arith, left_over, kept.1))

  -- A result that keeps to the limits and is a verdict.
  abbrev Good : InvestigationResult → Type 0
  Good r = IsFrugal P budget r × IsVerdict r

  concluded-Kept :
      (state : RunState) (decision : ProposalDecisionV2) (cause : Option CauseCode)
      → IsOnce P budget state
      → Good (concluded gateway call elapsed clip budget state decision cause)
  unfolding concluded is_made
  concluded-Kept state decision none h = (
    escalate_run-IsFrugal P budget (model_failed model_schema_violation) _ state h,
    escalate_run-IsVerdict P budget (model_failed model_schema_violation) _ state refl,
  )
  concluded-Kept state decision (some cause) h = (
    record {
      steps = h.steps;
      calls = h.calls;
      calls_by_steps = h.calls_by_steps;
      never_twice = λ t.
          other_stays t _ state.trace _ refl
            (rw (h.traced t) (at_most_one (has_seen t state.seen)));
      evidence = entry-Evidenced P state.tool_calls _ state.trace state.evidence refl h.evidence;
    },
    proposes cause refl refl,
  )

  on_conclusion-Kept :
      (state : RunState) (reply : Result ModelFault ProposalDecisionV2)
      → IsOnce P budget state
      → Good (on_conclusion gateway call elapsed clip budget state reply)
  unfolding on_conclusion is_made
  on_conclusion-Kept state (err fault) h = (
    escalate_run-IsFrugal P budget (model_failed fault.failure) _ state h,
    escalate_run-IsVerdict P budget (model_failed fault.failure) _ state refl,
  )
  on_conclusion-Kept state (ok decision) h =
      concluded-Kept state decision (parse_cause decision.cause) h

  finish_run-Kept :
      (end : InvestigationResult ⊎ RunState)
      → RunKept end
      → Good (finish_run gateway call elapsed clip budget end)
  unfolding finish_run
  finish_run-Kept (inl r) kept = kept
  finish_run-Kept (inr state) kept = elim (Bool-cases (state.tool_calls == 0)) [
    | inl none_made ↦
        absurd (omega (arith, (==_iff state.tool_calls 0).0 none_made, kept.some_call))
    | inr made ↦ rw (made, finish_run) (on_conclusion-Kept state (gateway.chat_proposal _) kept)
  ]

  -- An exploratory investigation keeps to its budget of steps; it makes no more tool calls than its
  -- budget allows or the two that it opens with, whichever is more; it calls no tool twice,
  -- cites as evidence only what its tool calls returned (what holds of every id that a tool cites,
  -- with the number of the call and the tool, holds of every id of the evidence for some call of the
  -- trace, its number and its tool), and either names a cause or escalates.
  pub run_investigation_v2-IsFrugal :
      IsFrugal P budget (run_investigation_v2 gateway call elapsed clip budget)
      × IsVerdict (run_investigation_v2 gateway call elapsed clip budget)
  unfolding run_investigation_v2
  run_investigation_v2-IsFrugal =
      finish_run-Kept (loop_run gateway call elapsed clip budget budget.max_steps (opened_run call))
        (loop_run-Kept budget.max_steps (opened_run call) (opened_run-IsOnce P budget call within)
          (opened_run-steps call budget.max_steps))
