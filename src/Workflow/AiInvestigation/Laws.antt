-- ===== src/Workflow/AiInvestigation/Laws.antt =====
-- What an investigation by the agent may do to a case.
use settlement_ops.Base.{
  All, All-map-of, Bool, Bool-cases, List, Option, Result, String, [], arith, err, false, includes,
  inl, inr, keep, length, none, ok, refl, some, str_eq, suc, true, ℕ, ◌++◌, ◌∷◌, ◌≡◌,
}
use settlement_ops.Cause.{CauseCode, Disposition, disposition_eq, resolve}
use settlement_ops.Case.State.{CaseState, action_proposed, escalated, system}
use settlement_ops.Reconciliation.Unit.{ReconciliationUnit}
use settlement_ops.Verifier.{Proposal, foreign_ids, known_ids, verify}
use settlement_ops.Verifier.Laws.{IsCleared, resolve-IsCleared, verify-cases}
use settlement_ops.Tools.Evidence.{ToolName}
use settlement_ops.Tools.{ToolContext, no_arguments}
use settlement_ops.Tools.Laws.{AllIn, AllIn-self, invoke-in_scope}
use settlement_ops.Agent.{InvestigationResult, tool_text}
use settlement_ops.Agent.Loop.Cited.{CallsWithin, Cited}
use settlement_ops.Agent.Loop.Laws.{run_investigation-IsSafe}
use settlement_ops.Agent.LoopV2.Laws.{run_investigation_v2-IsFrugal}
use settlement_ops.Workflow.{RequestContext}
use settlement_ops.Workflow.Repository.{CaseTable, MoveFailure, MoveResult, transition}
use settlement_ops.Workflow.Repository.Races.{IsMove, transition-IsMove, transition-err_unchanged}
use settlement_ops.Workflow.Approval.{move_to}
use settlement_ops.Workflow.Investigation.{Bench, RunEvent, run_failed, run_succeeded}
use settlement_ops.Workflow.AiInvestigation.{
  AgentDeps, AiEnvironment, AiInput, AiPayload, AiResult, Briefing, EscalationReason, FailureCode,
  after_ai_move, agent_said, ai_escalated, ai_event, ai_failed, ai_proposed, briefing_of, close_run,
  code_text, escalate_case_with, log_event, on_investigation, on_verification, proposal_from,
  registry_call, run_ai_investigation, run_loop, stop_code, tool_context, trace_events, verified,
}

-- The evidence of either loop.
run_loop-All :
    (is_v2 : Bool) (deps : AgentDeps) (tool_ctx : ToolContext) (briefing : Briefing)
    (P : ℕ → ToolName → String → Type 0)
    → CallsWithin P (registry_call deps tool_ctx)
    → let found = run_loop is_v2 deps tool_ctx briefing in
      All (Cited P found.trace) found.evidence_record_ids
unfolding run_loop
run_loop-All true deps tool_ctx briefing P within =
    (run_investigation_v2-IsFrugal (deps.gateway_v2 briefing) (registry_call deps tool_ctx)
      deps.elapsed deps.clip P deps.budget within).0.evidence.1
run_loop-All false deps tool_ctx briefing P within =
    (run_investigation-IsSafe (deps.gateway briefing) (registry_call deps tool_ctx) deps.elapsed
      deps.clip P deps.budget within).evidence.1

not_foreign : (known cited : List String) → AllIn known cited → foreign_ids known cited ≡ []
unfolding foreign_ids keep
not_foreign known [] h = refl
not_foreign known (id ∷ cited) h = rw h.0 (not_foreign known cited h.1)

-- What the agent cites is always of the case and always retrieved, whatever the model, the clock and
-- the chosen loop do: where the loader gives the unit of the case at every call, the verifier finds
-- no foreign id among the evidence; and each id of the evidence is among the record ids that the
-- registry answered to one of the calls of the trace, by its number and its tool.
pub agent_evidence_admissible :
    (is_v2 : Bool) (deps : AgentDeps) (tool_ctx : ToolContext) (briefing : Briefing)
    (unit : ReconciliationUnit)
    → ((n : ℕ) → deps.load_unit n tool_ctx ≡ ok (some unit))
    → let found = run_loop is_v2 deps tool_ctx briefing in
      (foreign_ids (known_ids unit) found.evidence_record_ids ≡ [])
      × All
          (Cited
            (λ n tool id. includes str_eq id (registry_call deps tool_ctx n tool).record_ids ≡ true)
            found.trace)
          found.evidence_record_ids
unfolding registry_call
agent_evidence_admissible is_v2 deps tool_ctx briefing unit loads =
    let found = run_loop is_v2 deps tool_ctx briefing in
    let is_known : String → Type 0 = λ id. includes str_eq id (known_ids unit) ≡ true in
    let inside =
      run_loop-All is_v2 deps tool_ctx briefing (λ n tool id. is_known id)
        (λ n tool.
          invoke-in_scope deps.date_parse (deps.call_time n) (deps.load_unit n) unit tool_ctx
            (tool_text tool) no_arguments (loads n)) in
    (
      not_foreign (known_ids unit) found.evidence_record_ids (
          All-map-of (Cited (λ n tool id. is_known id) found.trace) is_known (λ id cited. cited.3)
            found.evidence_record_ids inside),
      run_loop-All is_v2 deps tool_ctx briefing
          (λ n tool id. includes str_eq id (registry_call deps tool_ctx n tool).record_ids ≡ true)
          (λ n tool. AllIn-self (registry_call deps tool_ctx n tool).record_ids),
    )

disposition_eq-path : (d : Disposition) → disposition_eq d resolve ≡ true → d ≡ resolve
disposition_eq-path d h = ground arith

module _ (env : AiEnvironment) (ctx : RequestContext) (input : AiInput) where
  -- A move of the case of the investigation, by the system.
  abbrev pub Moves : CaseState → CaseTable → CaseTable → Type 0
  Moves to before after =
      (done : MoveResult) × IsMove ctx.tenant_id
        (move_to to system input.case_id input.expected_version) before after done

  -- What each result says of the cases, of the investigation's own result `found`.
  abbrev pub Answers : InvestigationResult → CaseTable → CaseTable → AiResult → Type 0
  Answers found before after (ai_proposed cause disposition) =
      (found.proposed_cause ≡ some cause)
      × (disposition ≡ resolve)
      × IsCleared (proposal_from cause found) input.unit
      × Moves action_proposed before after
  Answers found before after (ai_escalated reason) = Moves escalated before after
  Answers found before after (ai_failed failure) = after ≡ before

  after_ai_move-Answers :
      (found : InvestigationResult) (before : CaseTable) (event : MoveResult → RunEvent AiPayload)
      (result : AiResult) (bench : Bench AiPayload) (r : CaseTable × Result MoveFailure MoveResult)
      → ((e : MoveFailure) → r.1 ≡ err e → r.0 ≡ before)
      → ((done : MoveResult) → r.1 ≡ ok done → Answers found before r.0 result)
      → let after = after_ai_move event result bench r in Answers found before after.0.cases after.1
  unfolding after_ai_move
  after_ai_move-Answers found before event result bench (cases, err failure) same moved =
      same failure refl
  after_ai_move-Answers found before event result bench (cases, ok done) same moved =
      moved done refl

  escalate-Answers :
      (found : InvestigationResult) (used : ℕ) (reason : EscalationReason) (code : FailureCode)
      (bench : Bench AiPayload)
      → let done = escalate_case_with env ctx input used reason code bench in
        Answers found bench.cases done.0.cases done.1
  unfolding escalate_case_with
  escalate-Answers found used reason code bench =
      let move = move_to escalated system input.case_id input.expected_version in
      after_ai_move-Answers found bench.cases _ (ai_escalated reason)
        (close_run env ctx input.investigation_id run_failed (some (code_text code)) bench)
        (transition env.now ctx.tenant_id move env.seen bench.cases)
        (transition-err_unchanged env.now ctx.tenant_id move env.seen bench.cases)
        (λ done h. (done, transition-IsMove env.now ctx.tenant_id move env.seen bench.cases done h))

  on_verification-Answers :
      (found : InvestigationResult) (cause : CauseCode) (used : ℕ) (bench : Bench AiPayload)
      → found.proposed_cause ≡ some cause
      → let proposal = proposal_from cause found in
        let done =
          on_verification env ctx input used found proposal (verify proposal input.unit) bench in
        Answers found bench.cases done.0.cases done.1
  unfolding on_verification
  on_verification-Answers found cause used bench named =
      let proposal : Proposal = proposal_from cause found in
      let effective = (verify proposal input.unit).effective_disposition in
      elim (Bool-cases (disposition_eq effective resolve)) [
        | inr withheld ↦ rw (withheld, on_verification) (escalate-Answers found used _ _ bench)
        | inl granted ↦
            let move = move_to action_proposed system input.case_id input.expected_version in
            let at : effective ≡ resolve = disposition_eq-path effective granted in
            rw (granted, on_verification)
              (after_ai_move-Answers found bench.cases _
                (ai_proposed cause found.proposed_disposition)
                (close_run env ctx input.investigation_id run_succeeded none bench)
                (transition env.now ctx.tenant_id move env.seen bench.cases)
                (transition-err_unchanged env.now ctx.tenant_id move env.seen bench.cases)
                (λ done h. (
                  named,
                  ((verify-cases proposal input.unit).0.0 at).0,
                  resolve-IsCleared proposal input.unit at,
                  (done, transition-IsMove env.now ctx.tenant_id move env.seen bench.cases done h),
                )))
      ]

  on_investigation-Answers :
      (found : InvestigationResult) (cause : Option CauseCode) (used : ℕ) (bench : Bench AiPayload)
      → found.proposed_cause ≡ cause
      → let done = on_investigation env ctx input used found cause bench in
        Answers found bench.cases done.0.cases done.1
  unfolding on_investigation
  on_investigation-Answers found none used bench named =
      escalate-Answers found used (agent_said found.rationale) (stop_code found.stop_reason) bench
  on_investigation-Answers found (some cause) used bench named =
      let proposal = proposal_from cause found in
      on_verification-Answers found cause (suc used)
        (log_event
          (ai_event env ctx input.case_id used "verifier_completed" none
            (verified proposal (verify proposal input.unit)))
          bench)
        named

  -- The agent decides nothing by itself: a case that it leaves as proposed has moved to
  -- ACTION_PROPOSED, for a cause that the loop named and a resolution that passed every check of
  -- the verifier on the case's own unit; a case that it leaves as escalated has moved to ESCALATED;
  -- and a result that reports a failure has changed no case.
  pub run_ai_investigation-Answers :
      (is_v2 : Bool) (deps : AgentDeps) (bench : Bench AiPayload)
      → let done = run_ai_investigation is_v2 deps env ctx input bench in
        Answers
          (run_loop is_v2 deps (tool_context ctx input) (briefing_of input.unit))
          bench.cases
          done.0.cases
          done.1
  unfolding run_ai_investigation
  run_ai_investigation-Answers is_v2 deps bench =
      let found = run_loop is_v2 deps (tool_context ctx input) (briefing_of input.unit) in
      on_investigation-Answers found found.proposed_cause (length found.trace)
        (record bench { log = bench.log ++ trace_events env ctx input.case_id 0 found.trace }) refl
