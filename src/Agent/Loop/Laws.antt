-- ===== src/Agent/Loop/Laws.antt =====
-- What an investigation may report, whatever the model, the tools and the clock answer.
use settlement_ops.Base.{
  ==_iff, All, Bool, Bool-cases, List, Option, Result, String, [], ap, arith, err, false, inl, inr,
  leb, ltb, max, none, ok, refl, some, suc, sym, true, true-ne-false, zero, ℕ, ◌+◌, ◌<◌, ◌==◌, ◌||◌,
  ◌∙◌, ◌∷◌, ◌≡◌, ◌≢◌, ◌≤◌, ◌⊎◌,
}
use settlement_ops.Cause.{CauseCode, Disposition, escalate, parse_cause, parse_disposition}
use settlement_ops.Tools.Evidence.{ToolName}
use settlement_ops.Agent.{
  AgentBudget, InvestigationResult, ModelFault, ProposalDecision, StepDecision, StopReason,
  is_overtime, model_failed, model_schema_violation, proposal_made, repeated_tool_call,
  wallclock_exceeded,
}
use settlement_ops.Agent.Loop.{
  Advance, Gateway, LoopState, ToolCall, accepted, advance, again, escalate_with, finish,
  is_conclusion, left, listed_tool, loop, next_step, on_proposal, on_reply, opened, reject_tool,
  run_investigation, step_prompt, stopped, take_tool,
}
use settlement_ops.Agent.Loop.Cited.{CallsWithin, Evidenced, entry-Evidenced}
use settlement_ops.Agent.Loop.Invariant.{
  IsWithin, calls_of, next_step-IsWithin, opened-IsWithin, opened-steps, other_stays,
  reject_tool-IsWithin, use_tool-IsWithin, use_tool-steps,
}

-- A result within the limits of the budget and of the evidence.
pub record IsSafe (P : ℕ → ToolName → String → Type 0) (budget : AgentBudget)
    (r : InvestigationResult) : Type 0 where
  pub steps : r.step_count ≤ budget.max_steps
  pub calls : r.tool_call_count ≤ max 2 budget.max_tool_calls
  pub calls_by_steps : r.tool_call_count ≤ 2 + r.step_count
  pub opened_first : 2 ≤ r.tool_call_count
  pub repeats : (tool : ToolName) → calls_of tool r.trace ≤ suc budget.identical_tool_call_limit
  pub evidence : Evidenced P r.tool_call_count r.trace r.evidence_record_ids

-- A proposal, or an escalation without a cause; and the stop reason tells which.
pub data IsVerdict (r : InvestigationResult) : Type 0 where
  proposes :
      (cause : CauseCode)
      → r.proposed_cause ≡ some cause
      → r.stop_reason ≡ proposal_made
      → IsVerdict r
  escalates :
      r.proposed_cause ≡ none
      → r.proposed_disposition ≡ escalate
      → r.stop_reason ≢ proposal_made
      → r.injection_detected ≡ false
      → IsVerdict r

escalate_with-IsVerdict :
    (stop : StopReason) (rationale : String) (state : LoopState)
    → stop ≢ proposal_made
    → IsVerdict (escalate_with stop rationale state)
unfolding escalate_with
escalate_with-IsVerdict stop rationale state h = escalates refl refl h refl

-- The stop reasons of the loop are not that of a proposal.
unfoldable pub is_made : StopReason → Bool
is_made proposal_made = true
is_made _ = false

pub not_made : (stop : StopReason) → is_made stop ≡ false → stop ≢ proposal_made
unfolding is_made
not_made stop h e = true-ne-false (sym (ap is_made e) ∙ h)

module _ (P : ℕ → ToolName → String → Type 0) (budget : AgentBudget) where
  escalate_with-IsSafe :
      (stop : StopReason) (rationale : String) (state : LoopState)
      → IsWithin P budget state
      → IsSafe P budget (escalate_with stop rationale state)
  unfolding escalate_with
  escalate_with-IsSafe stop rationale state h = record {
    steps = h.steps;
    calls = h.calls;
    calls_by_steps = h.calls_by_steps;
    opened_first = h.some_call;
    repeats = λ t. rw (h.traced t) (h.seen t);
    evidence = h.evidence;
  }

  -- What an iteration leaves, by how it ends.
  abbrev Kept : ℕ → Advance → Type 0
  Kept before (stopped r) = IsSafe P budget r × IsVerdict r
  Kept before (left state) = IsWithin P budget state
  Kept before (again state) = IsWithin P budget state × (state.steps ≡ suc before)

  take_tool-Kept :
      (call : ToolCall) (before : ℕ) (state : LoopState) (name : Option String)
      (tool : Option ToolName)
      → CallsWithin P call
      → IsWithin P budget state
      → state.steps ≡ suc before
      → state.tool_calls < budget.max_tool_calls
      → state.tool_calls < 2 + state.steps
      → Kept before (take_tool budget call state name tool)
  unfolding take_tool reject_tool is_made
  take_tool-Kept call before state name none within h at room later =
      (reject_tool-IsWithin P budget name state h, at)
  take_tool-Kept call before state name (some tool) within h at room later =
      elim (Bool-cases (ltb budget.identical_tool_call_limit (state.seen_calls tool))) [
        | inl repeated ↦
            rw (repeated, take_tool)
              (
                escalate_with-IsSafe repeated_tool_call _ state h,
                escalate_with-IsVerdict repeated_tool_call _ state
                    (not_made repeated_tool_call refl),
              )
        | inr fresh ↦
            rw (fresh, take_tool)
              (
                use_tool-IsWithin P budget call tool state within h room later (ground arith),
                use_tool-steps call tool state ∙ at,
              )
      ]

  on_reply-Kept :
      (call : ToolCall) (before : ℕ) (state : LoopState) (reply : Result ModelFault StepDecision)
      → CallsWithin P call
      → IsWithin P budget state
      → state.steps ≡ suc before
      → state.tool_calls < 2 + state.steps
      → Kept before (on_reply budget call state reply)
  unfolding on_reply is_made
  on_reply-Kept call before state (err fault) within h at later = (
    escalate_with-IsSafe (model_failed fault.failure) _ state h,
    escalate_with-IsVerdict (model_failed fault.failure) _ state
        (not_made (model_failed fault.failure) refl),
  )
  on_reply-Kept call before state (ok decision) within h at later =
      elim (Bool-cases
        (is_conclusion decision.action || leb budget.max_tool_calls state.tool_calls)) [
          | inl leaves ↦ rw (leaves, on_reply) h
          | inr stays ↦
              rw (stays, on_reply)
                (take_tool-Kept call before state decision.tool (listed_tool decision.tool) within h
                  at (ground arith) later)
        ]

module _ (gateway : Gateway) (call : ToolCall) (elapsed : ℕ → ℕ) (clip : String → String)
    (P : ℕ → ToolName → String → Type 0) (budget : AgentBudget) (within : CallsWithin P call) where
  advance-Kept :
      (state : LoopState)
      → IsWithin P budget state
      → state.steps < budget.max_steps
      → Kept P budget state.steps (advance gateway call elapsed clip budget state)
  unfolding advance is_made
  advance-Kept state h more = elim (Bool-cases (is_overtime budget (elapsed state.steps))) [
    | inl late ↦
        rw (late, advance)
          (
            escalate_with-IsSafe P budget wallclock_exceeded _ state h,
            escalate_with-IsVerdict wallclock_exceeded _ state (not_made wallclock_exceeded refl),
          )
    | inr in_time ↦
        rw (in_time, advance)
          (on_reply-Kept P budget call state.steps (next_step state)
            (gateway.chat_step (suc state.steps) (step_prompt budget (next_step state))) within
            (next_step-IsWithin P budget state h more) (omega arith)
            (omega (arith, h.calls_by_steps)))
  ]

  abbrev LoopKept : InvestigationResult ⊎ LoopState → Type 0
  LoopKept (inl r) = IsSafe P budget r × IsVerdict r
  LoopKept (inr state) = IsWithin P budget state

  loop-Kept :
      (n : ℕ) (state : LoopState)
      → IsWithin P budget state
      → state.steps + n ≡ budget.max_steps
      → LoopKept (loop gateway call elapsed clip budget n state)
  unfolding loop
  loop-Kept zero state h left_over = h
  loop-Kept (suc n) state h left_over =
      on (advance gateway call elapsed clip budget state)
        (advance-Kept state h (omega (arith, left_over))) (loop-Kept n)
    where
      on :
          (a : Advance)
          → Kept P budget state.steps a
          → ((s : LoopState)
              → IsWithin P budget s
              → s.steps + n ≡ budget.max_steps
              → LoopKept (loop gateway call elapsed clip budget n s))
          → LoopKept (elim a [
            | stopped result ↦ inl result
            | left state' ↦ inr state'
            | again state' ↦ loop gateway call elapsed clip budget n state'
          ])
      on (stopped result) kept next = kept
      on (left state') kept next = kept
      on (again state') kept next = next state' kept.0 (omega (arith, left_over, kept.1))

  accepted-Kept :
      (state : LoopState) (decision : ProposalDecision) (cause : Option CauseCode)
      (disposition : Option Disposition)
      → IsWithin P budget state
      → IsSafe P budget (accepted gateway call elapsed clip budget state decision cause disposition)
        × IsVerdict (accepted gateway call elapsed clip budget state decision cause disposition)
  unfolding accepted is_made
  accepted-Kept state decision (some cause) (some disposition) h = (
    record {
      steps = h.steps;
      calls = h.calls;
      calls_by_steps = h.calls_by_steps;
      opened_first = h.some_call;
      repeats = λ t. other_stays t _ state.trace _ refl (rw (h.traced t) (h.seen t));
      evidence = entry-Evidenced P state.tool_calls _ state.trace state.evidence refl h.evidence;
    },
    proposes cause refl refl,
  )
  accepted-Kept state decision none disposition h = (
    escalate_with-IsSafe P budget (model_failed model_schema_violation) _ state h,
    escalate_with-IsVerdict (model_failed model_schema_violation) _ state
        (not_made (model_failed model_schema_violation) refl),
  )
  accepted-Kept state decision (some cause) none h = (
    escalate_with-IsSafe P budget (model_failed model_schema_violation) _ state h,
    escalate_with-IsVerdict (model_failed model_schema_violation) _ state
        (not_made (model_failed model_schema_violation) refl),
  )

  on_proposal-Kept :
      (state : LoopState) (reply : Result ModelFault ProposalDecision)
      → IsWithin P budget state
      → IsSafe P budget (on_proposal gateway call elapsed clip budget state reply)
        × IsVerdict (on_proposal gateway call elapsed clip budget state reply)
  unfolding on_proposal is_made
  on_proposal-Kept state (err fault) h = (
    escalate_with-IsSafe P budget (model_failed fault.failure) _ state h,
    escalate_with-IsVerdict (model_failed fault.failure) _ state
        (not_made (model_failed fault.failure) refl),
  )
  on_proposal-Kept state (ok decision) h =
      accepted-Kept state decision (parse_cause decision.cause)
        (parse_disposition decision.disposition) h

  finish-Kept :
      (end : InvestigationResult ⊎ LoopState)
      → LoopKept end
      → IsSafe P budget (finish gateway call elapsed clip budget end)
        × IsVerdict (finish gateway call elapsed clip budget end)
  unfolding finish is_made
  finish-Kept (inl r) kept = kept
  finish-Kept (inr state) kept = elim (Bool-cases (state.tool_calls == 0)) [
    | inl none_made ↦
        absurd (omega (arith, (==_iff state.tool_calls 0).0 none_made, kept.some_call))
    | inr made ↦
        rw (made, finish) (on_proposal-Kept state (gateway.chat_proposal state.observations) kept)
  ]

  run-Kept :
      IsSafe P budget (run_investigation gateway call elapsed clip budget)
      × IsVerdict (run_investigation gateway call elapsed clip budget)
  unfolding run_investigation
  run-Kept = finish-Kept (loop gateway call elapsed clip budget budget.max_steps (opened call)) (
      loop-Kept budget.max_steps (opened call) (opened-IsWithin P budget call within)
        (opened-steps call budget.max_steps))

  -- An investigation keeps to its budget, whatever the model and the clock say: no more steps than
  -- allowed, no more tool calls than allowed (but always the two it opens with, and at most one
  -- more in each step), no tool more than one time above the limit for identical calls; and its
  -- evidence is what the tools returned: what holds of every record id that a tool cites, with the
  -- number of the call and the tool, holds of every id of the evidence for some call of the trace,
  -- its number and its tool; and the trace has as many calls as are counted.
  pub run_investigation-IsSafe :
      IsSafe P budget (run_investigation gateway call elapsed clip budget)
  run_investigation-IsSafe = run-Kept.0

-- Whatever the model, the tools and the clock answer, an investigation that names no cause escalates
-- and reports no proposal; it names a cause exactly where its stop reason is that a proposal was
-- made.
pub run_investigation-IsVerdict :
    (gateway : Gateway) (call : ToolCall) (elapsed : ℕ → ℕ) (clip : String → String)
    (budget : AgentBudget)
    → IsVerdict (run_investigation gateway call elapsed clip budget)
run_investigation-IsVerdict gateway call elapsed clip budget =
    (run-Kept gateway call elapsed clip (λ n tool id. Unit {0}) budget trivially).1
  where
    all_trivial : (ids : List String) → All (λ _. Unit {0}) ids
    all_trivial [] = tt
    all_trivial (id ∷ ids) = (tt, all_trivial ids)

    trivially : CallsWithin (λ n tool id. Unit {0}) call
    trivially n tool = all_trivial (call n tool).record_ids
