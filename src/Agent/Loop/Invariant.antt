-- ===== src/Agent/Loop/Invariant.antt =====
-- What every iteration of the investigation loop keeps.
use settlement_ops.Base.{
  Bool, Bool-cases, List, Option, String, [], arith, false, if◌then◌else◌, inl, inr, max, none,
  refl, some, subst, suc, sym, ℕ, ◌&&◌, ◌++◌, ◌+◌, ◌<◌, ◌∙◌, ◌∷◌, ◌≡◌, ◌≤◌,
}
use settlement_ops.Tools.Evidence.{ToolName, tool_eq, tool_eq_iff}
use settlement_ops.Agent.{AgentBudget, AgentTrace, TraceSummary, tool_called}
use settlement_ops.Agent.Loop.Cited.{
  CallsWithin, Evidenced, call-Evidenced, entry-Evidenced, is_call, opening-Evidenced,
}
use settlement_ops.Agent.Loop.{
  LoopState, ToolCall, next_step, opened, reject_tool, seen_once_more, use_tool,
}

-- The calls of a tool that a trace records.
abbrev pub is_call_of : ToolName → AgentTrace → Bool
is_call_of tool entry =
    is_call entry.action && elim entry.tool [ none ↦ false | some t ↦ tool_eq tool t ]

-- How often a trace calls a tool, and how often it calls any.
unfoldable pub calls_of : ToolName → List AgentTrace → ℕ
calls_of tool [] = 0
calls_of tool (entry ∷ trace) =
    let rest = calls_of tool trace in if is_call_of tool entry then suc rest else rest

pub calls_of-append :
    (tool : ToolName) (xs ys : List AgentTrace)
    → calls_of tool (xs ++ ys) ≡ calls_of tool xs + calls_of tool ys
unfolding calls_of
calls_of-append tool [] ys = omega arith
calls_of-append tool (x ∷ xs) ys = ground (arith, calls_of-append tool xs ys)

-- The invariant: of the limits of the budget, and of the evidence.
pub record IsWithin (P : ℕ → ToolName → String → Type 0) (budget : AgentBudget) (state : LoopState)
    : Type 0 where
  pub steps : state.steps ≤ budget.max_steps
  pub calls : state.tool_calls ≤ max 2 budget.max_tool_calls
  pub calls_by_steps : state.tool_calls ≤ 2 + state.steps
  pub some_call : 2 ≤ state.tool_calls
  pub seen : (tool : ToolName) → state.seen_calls tool ≤ suc budget.identical_tool_call_limit
  pub traced : (tool : ToolName) → calls_of tool state.trace ≡ state.seen_calls tool
  pub evidence : Evidenced P state.tool_calls state.trace state.evidence

call_adds :
    (tool t : ToolName) (step : ℕ) (summary : TraceSummary) (trace : List AgentTrace)
    (seen : ToolName → ℕ)
    → calls_of t trace ≡ seen t
    → calls_of t (
        trace
        ++ (record { step = step; action = tool_called; tool = some tool; summary = summary } ∷ []))
      ≡ seen_once_more tool seen t
unfolding calls_of
call_adds tool t step summary trace seen h = ground (
  arith,
  h,
  calls_of-append t trace
      (record { step = step; action = tool_called; tool = some tool; summary = summary } ∷ []),
)

pub other_adds :
    (t : ToolName) (entry : AgentTrace) (trace : List AgentTrace)
    → is_call_of t entry ≡ false
    → calls_of t (trace ++ (entry ∷ [])) ≡ calls_of t trace
unfolding calls_of
other_adds t entry trace h = ground (arith, h, calls_of-append t trace (entry ∷ []))

pub other_stays :
    (t : ToolName) (entry : AgentTrace) (trace : List AgentTrace) (limit : ℕ)
    → is_call_of t entry ≡ false
    → calls_of t trace ≤ limit
    → calls_of t (trace ++ (entry ∷ [])) ≤ limit
other_stays t entry trace limit h few = omega (arith, other_adds t entry trace h, few)

seen_more :
    (tool t : ToolName) (seen : ToolName → ℕ) (limit : ℕ)
    → ((u : ToolName) → seen u ≤ suc limit)
    → seen tool ≤ limit
    → seen_once_more tool seen t ≤ suc limit
seen_more tool t seen limit all few = elim (Bool-cases (tool_eq t tool)) [
  | inl same ↦ rw same (
      subst (λ u. suc (seen u) ≤ suc limit) (sym ((tool_eq_iff t tool).0 same))
        (omega (arith, few)))
  | inr other ↦ rw other (all t)
]

module _ (P : ℕ → ToolName → String → Type 0) (budget : AgentBudget) where
  pub use_tool-IsWithin :
      (call : ToolCall) (tool : ToolName) (state : LoopState)
      → CallsWithin P call
      → IsWithin P budget state
      → state.tool_calls < budget.max_tool_calls
      → state.tool_calls < 2 + state.steps
      → state.seen_calls tool ≤ budget.identical_tool_call_limit
      → IsWithin P budget (use_tool call tool state)
  unfolding use_tool
  use_tool-IsWithin call tool state within h room later few = record {
    steps = h.steps;
    calls = omega (arith, room);
    calls_by_steps = omega (arith, later);
    some_call = omega (arith, h.some_call);
    seen = λ t. seen_more tool t state.seen_calls budget.identical_tool_call_limit h.seen few;
    traced = λ t. call_adds tool t _ _ state.trace state.seen_calls (h.traced t);
    evidence =
        call-Evidenced P tool state.tool_calls state.steps _ (call state.tool_calls tool).record_ids
          state.trace state.evidence (within state.tool_calls tool) h.evidence;
  }

  pub reject_tool-IsWithin :
      (name : Option String) (state : LoopState)
      → IsWithin P budget state
      → IsWithin P budget (reject_tool name state)
  unfolding reject_tool
  reject_tool-IsWithin name state h = record {
    steps = h.steps;
    calls = h.calls;
    calls_by_steps = h.calls_by_steps;
    some_call = h.some_call;
    seen = h.seen;
    traced = λ t. other_adds t _ state.trace refl ∙ h.traced t;
    evidence = entry-Evidenced P state.tool_calls _ state.trace state.evidence refl h.evidence;
  }

  pub next_step-IsWithin :
      (state : LoopState)
      → IsWithin P budget state
      → state.steps < budget.max_steps
      → IsWithin P budget (next_step state)
  next_step-IsWithin state h more = record {
    steps = omega (arith, more);
    calls = h.calls;
    calls_by_steps = omega (arith, h.calls_by_steps);
    some_call = h.some_call;
    seen = h.seen;
    traced = h.traced;
    evidence = h.evidence;
  }

  pub opened-IsWithin : (call : ToolCall) → CallsWithin P call → IsWithin P budget (opened call)
  unfolding opened use_tool calls_of
  opened-IsWithin call within = record {
    steps = omega arith;
    calls = omega arith;
    calls_by_steps = omega arith;
    some_call = omega arith;
    seen = λ t. seen_opened t;
    traced = λ t. traced_opened t;
    evidence = opening-Evidenced P call within;
  }
    where
      seen_opened :
          (t : ToolName) → (opened call).seen_calls t ≤ suc budget.identical_tool_call_limit
      seen_opened t = grind arith

      traced_opened : (t : ToolName) → calls_of t (opened call).trace ≡ (opened call).seen_calls t
      traced_opened t = ground arith

pub use_tool-steps :
    (call : ToolCall) (tool : ToolName) (state : LoopState)
    → (use_tool call tool state).steps ≡ state.steps
unfolding use_tool
use_tool-steps call tool state = refl

pub opened-steps : (call : ToolCall) (n : ℕ) → (opened call).steps + n ≡ n
unfolding opened use_tool
opened-steps call n = omega arith
