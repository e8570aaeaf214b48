-- ===== src/Agent/LoopV2/Invariant.antt =====
-- What every iteration of the exploratory loop keeps.
use settlement_ops.Base.{
  Bool, Bool-cases, List, Option, Result, String, [], ap, ap₂, arith, err, false, inl, inr, max,
  none, ok, refl, some, subst, suc, sym, true, ℕ, ◌++◌, ◌+◌, ◌<◌, ◌==◌, ◌||◌, ◌∙◌, ◌∷◌, ◌≡◌, ◌≤◌,
}
use settlement_ops.Tools.Evidence.{
  Summary, ToolName, calculate_expected_net_amount, get_bank_credit, get_fee_schedule,
  get_fee_tax_lines, get_ledger_entries, get_refunds, get_settlement_breakup,
  search_related_adjustments, tool_eq, tool_eq_iff, tool_index, validate_tax_line_mapping,
}
use settlement_ops.Agent.{
  AgentBudget, AgentTrace, InvestigationResult, ModelFault, StepDecision, StopReason, model_failed,
}
use settlement_ops.Agent.Loop.Cited.{
  CallsWithin, Evidenced, call-Evidenced, entry-Evidenced, is_call, opening-Evidenced,
}
use settlement_ops.Agent.Loop.Invariant.{calls_of, calls_of-append, is_call_of, other_adds}
use settlement_ops.Agent.LoopV2.{
  RunAdvance, RunState, add_entry, escalate_run, has_seen, invoke_tool, later, on_step, opened_run,
  run_again, run_left, run_stopped, seen_summary, serve_tool, set_seen,
}
use settlement_ops.Agent.Loop.{ToolCall, is_conclusion, listed_tool}
use settlement_ops.Agent.Loop.Laws.{IsVerdict, escalates, is_made, not_made}

abbrev pub once : Bool → ℕ
once true = 1
once false = 0

-- The limits, and that each tool in `seen` has been called once and no other has been called.
pub record IsOnce (P : ℕ → ToolName → String → Type 0) (budget : AgentBudget) (state : RunState)
    : Type 0 where
  pub steps : state.steps ≤ budget.max_steps
  pub calls : state.tool_calls ≤ max 2 budget.max_tool_calls
  pub calls_by_steps : state.tool_calls ≤ 2 + state.steps
  pub some_call : 2 ≤ state.tool_calls
  pub traced : (tool : ToolName) → calls_of tool state.trace ≡ once (has_seen tool state.seen)
  pub evidence : Evidenced P state.tool_calls state.trace state.evidence

-- A result within the limits, with no tool called twice.
pub record IsFrugal (P : ℕ → ToolName → String → Type 0) (budget : AgentBudget)
    (r : InvestigationResult) : Type 0 where
  pub steps : r.step_count ≤ budget.max_steps
  pub calls : r.tool_call_count ≤ max 2 budget.max_tool_calls
  pub calls_by_steps : r.tool_call_count ≤ 2 + r.step_count
  pub never_twice : (tool : ToolName) → calls_of tool r.trace ≤ 1
  pub evidence : Evidenced P r.tool_call_count r.trace r.evidence_record_ids

==_sym : (m n : ℕ) → (m == n) ≡ (n == m)
==_sym m n = ground arith

tool_eq_sym : (a b : ToolName) → tool_eq a b ≡ tool_eq b a
tool_eq_sym a b = ==_sym (tool_index a) (tool_index b)

has_seen-cons :
    (t u : ToolName) (summary : Summary) (rest : List (ToolName × Summary))
    → has_seen t ((u, summary) ∷ rest) ≡ (tool_eq t u || has_seen t rest)
unfolding seen_summary
has_seen-cons t u summary rest = elim (Bool-cases (tool_eq u t)) [
  | inl same ↦ rw (tool_eq_sym t u, same, seen_summary) refl
  | inr other ↦ rw (tool_eq_sym t u, other, seen_summary) refl
]

has_seen-set_seen :
    (t tool : ToolName) (summary : Summary) (seen : List (ToolName × Summary))
    → has_seen t (set_seen tool summary seen) ≡ (tool_eq t tool || has_seen t seen)
unfolding set_seen
has_seen-set_seen t tool summary [] = has_seen-cons t tool summary []
has_seen-set_seen t tool summary ((u, old) ∷ rest) = elim (Bool-cases (tool_eq u tool)) [
  | inl same ↦
      rw (same, set_seen)
        (has_seen-cons t u summary rest
          ∙ (twice (tool_eq t u) (has_seen t rest)
              ∙ (ap (λ v. tool_eq t v || (tool_eq t u || has_seen t rest))
                    ((tool_eq_iff u tool).0 same)
                  ∙ ap (λ b. tool_eq t tool || b) (sym (has_seen-cons t u old rest)))))
  | inr other ↦
      rw (other, set_seen)
        (has_seen-cons t u old (set_seen tool summary rest)
          ∙ (ap (λ b. tool_eq t u || b) (has_seen-set_seen t tool summary rest)
              ∙ (swapped (tool_eq t u) (tool_eq t tool) (has_seen t rest)
                  ∙ ap (λ b. tool_eq t tool || b) (sym (has_seen-cons t u old rest)))))
]
  where
    twice : (a b : Bool) → (a || b) ≡ (a || (a || b))
    twice a b = ground arith

    swapped : (a b c : Bool) → (a || (b || c)) ≡ (b || (a || c))
    swapped a b c = ground arith

one_entry :
    (t : ToolName) (entry : AgentTrace) → is_call_of t entry ≡ true → calls_of t (entry ∷ []) ≡ 1
unfolding calls_of
one_entry t entry h = rw h refl

-- A tool that has not been seen is called for the first time.
first_call :
    (t tool : ToolName) (summary : Summary) (entry : AgentTrace) (state : RunState)
    → is_call_of t entry ≡ tool_eq t tool
    → calls_of t state.trace ≡ once (has_seen t state.seen)
    → has_seen tool state.seen ≡ false
    → calls_of t (state.trace ++ (entry ∷ []))
      ≡ once (has_seen t (set_seen tool summary state.seen))
unfolding calls_of
first_call t tool summary entry state call h unseen = elim (Bool-cases (tool_eq t tool)) [
  | inl same ↦
      let at : t ≡ tool = (tool_eq_iff t tool).0 same in
      let new : has_seen t state.seen ≡ false =
        subst (λ u. has_seen u state.seen ≡ false) (sym at) unseen in
      let now : has_seen t (set_seen tool summary state.seen) ≡ true =
        has_seen-set_seen t tool summary state.seen ∙ ap (λ b. b || has_seen t state.seen) same in
      let counted : is_call_of t entry ≡ true = call ∙ same in
      let zero_before : calls_of t state.trace ≡ 0 = h ∙ ap once new in
      calls_of-append t state.trace (entry ∷ [])
      ∙ (ap₂ (λ x y. x + y) zero_before (one_entry t entry counted) ∙ sym (ap once now))
  | inr other ↦
      let stays : has_seen t (set_seen tool summary state.seen) ≡ has_seen t state.seen =
        has_seen-set_seen t tool summary state.seen ∙ ap (λ b. b || has_seen t state.seen) other in
      other_adds t entry state.trace (call ∙ other) ∙ (h ∙ ap once (sym stays))
]

invoke_tool-steps :
    (call : ToolCall) (tool : ToolName) (state : RunState)
    → (invoke_tool call tool state).steps ≡ state.steps
unfolding invoke_tool
invoke_tool-steps call tool state = refl

pub at_most_one : (b : Bool) → once b ≤ 1
at_most_one b = ground arith

module _ (P : ℕ → ToolName → String → Type 0) (budget : AgentBudget) where
  pub escalate_run-IsFrugal :
      (stop : StopReason) (rationale : String) (state : RunState)
      → IsOnce P budget state
      → IsFrugal P budget (escalate_run stop rationale state)
  unfolding escalate_run
  escalate_run-IsFrugal stop rationale state h = record {
    steps = h.steps;
    calls = h.calls;
    calls_by_steps = h.calls_by_steps;
    never_twice = λ t. rw (h.traced t) (at_most_one (has_seen t state.seen));
    evidence = h.evidence;
  }

  pub escalate_run-IsVerdict :
      (stop : StopReason) (rationale : String) (state : RunState)
      → is_made stop ≡ false
      → IsVerdict (escalate_run stop rationale state)
  unfolding escalate_run
  escalate_run-IsVerdict stop rationale state h = escalates refl refl (not_made stop h) refl

  invoke_tool-IsOnce :
      (call : ToolCall) (tool : ToolName) (state : RunState)
      → CallsWithin P call
      → IsOnce P budget state
      → state.tool_calls < budget.max_tool_calls
      → state.tool_calls < 2 + state.steps
      → has_seen tool state.seen ≡ false
      → IsOnce P budget (invoke_tool call tool state)
  unfolding invoke_tool
  invoke_tool-IsOnce call tool state within h room behind unseen = record {
    steps = h.steps;
    calls = omega (arith, room);
    calls_by_steps = omega (arith, behind);
    some_call = omega (arith, h.some_call);
    traced = λ t. first_call t tool _ _ state refl (h.traced t) unseen;
    evidence =
        call-Evidenced P tool state.tool_calls state.steps _ (call state.tool_calls tool).record_ids
          state.trace state.evidence (within state.tool_calls tool) h.evidence;
  }

  add_entry-IsOnce :
      (entry : AgentTrace) (state : RunState)
      → ((t : ToolName) → is_call_of t entry ≡ false)
      → is_call entry.action ≡ false
      → IsOnce P budget state
      → IsOnce P budget (add_entry entry state)
  add_entry-IsOnce entry state other no_call h = record {
    steps = h.steps;
    calls = h.calls;
    calls_by_steps = h.calls_by_steps;
    some_call = h.some_call;
    traced = λ t. other_adds t entry state.trace (other t) ∙ h.traced t;
    evidence =
        entry-Evidenced P state.tool_calls entry state.trace state.evidence no_call h.evidence;
  }

  pub later-IsOnce :
      (state : RunState)
      → IsOnce P budget state
      → state.steps < budget.max_steps
      → IsOnce P budget (later state)
  later-IsOnce state h more = record {
    steps = omega (arith, more);
    calls = h.calls;
    calls_by_steps = omega (arith, h.calls_by_steps);
    some_call = h.some_call;
    traced = h.traced;
    evidence = h.evidence;
  }

  pub opened_run-IsOnce : (call : ToolCall) → CallsWithin P call → IsOnce P budget (opened_run call)
  unfolding opened_run invoke_tool set_seen seen_summary calls_of
  opened_run-IsOnce call within = record {
    steps = omega arith;
    calls = omega arith;
    calls_by_steps = omega arith;
    some_call = omega arith;
    traced = λ t. traced_opened t;
    evidence = opening-Evidenced P call within;
  }
    where
      traced_opened :
          (t : ToolName)
          → calls_of t (opened_run call).trace ≡ once (has_seen t (opened_run call).seen)
      traced_opened get_settlement_breakup = refl
      traced_opened calculate_expected_net_amount = refl
      traced_opened get_fee_tax_lines = refl
      traced_opened get_ledger_entries = refl
      traced_opened get_bank_credit = refl
      traced_opened search_related_adjustments = refl
      traced_opened get_refunds = refl
      traced_opened get_fee_schedule = refl
      traced_opened validate_tax_line_mapping = refl

  abbrev pub Kept2 : ℕ → RunAdvance → Type 0
  Kept2 before (run_stopped r) = IsFrugal P budget r × IsVerdict r
  Kept2 before (run_left state) = IsOnce P budget state
  Kept2 before (run_again state) = IsOnce P budget state × (state.steps ≡ suc before)

  serve_tool-Kept :
      (call : ToolCall) (before : ℕ) (state : RunState) (name : Option String)
      (tool : Option ToolName)
      → CallsWithin P call
      → IsOnce P budget state
      → state.steps ≡ suc before
      → state.tool_calls < budget.max_tool_calls
      → state.tool_calls < 2 + state.steps
      → Kept2 before (serve_tool call state name tool)
  unfolding serve_tool
  serve_tool-Kept call before state name none within h at room behind =
      (add_entry-IsOnce _ state (λ t. refl) refl h, at)
  serve_tool-Kept call before state name (some tool) within h at room behind =
      elim (Bool-cases (has_seen tool state.seen)) [
        | inl repeated ↦ rw (repeated, serve_tool) (add_entry-IsOnce _ state (λ t. refl) refl h, at)
        | inr fresh ↦
            rw (fresh, serve_tool)
              (
                invoke_tool-IsOnce call tool state within h room behind fresh,
                invoke_tool-steps call tool state ∙ at,
              )
      ]

  pub on_step-Kept :
      (call : ToolCall) (before : ℕ) (state : RunState) (reply : Result ModelFault StepDecision)
      → CallsWithin P call
      → IsOnce P budget state
      → state.steps ≡ suc before
      → state.tool_calls < budget.max_tool_calls
      → state.tool_calls < 2 + state.steps
      → Kept2 before (on_step call state reply)
  unfolding on_step is_made
  on_step-Kept call before state (err fault) within h at room behind = (
    escalate_run-IsFrugal (model_failed fault.failure) _ state h,
    escalate_run-IsVerdict (model_failed fault.failure) _ state refl,
  )
  on_step-Kept call before state (ok decision) within h at room behind =
      elim (Bool-cases (is_conclusion decision.action)) [
        | inl leaves ↦ rw (leaves, on_step) h
        | inr stays ↦
            rw (stays, on_step)
              (serve_tool-Kept call before state decision.tool (listed_tool decision.tool) within h
                at room behind)
      ]

pub opened_run-steps : (call : ToolCall) (n : ℕ) → (opened_run call).steps + n ≡ n
unfolding opened_run invoke_tool
opened_run-steps call n = omega arith
