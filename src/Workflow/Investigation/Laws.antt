-- ===== src/Workflow/Investigation/Laws.antt =====
-- What starting an investigation does, by its result.
use settlement_ops.Base.{
  Bool, Bool-cases, List, Memᴰ, Option-cases, Result, String, [], and-eq-true, any, ap, arith, err,
  false, first, first-holds, inl, inr, length, length-append, ok, refl, some, str_eq, subst, suc,
  sym, true, true-ne-false, ℕ, ◌+◌, ◌∙◌, ◌∷◌, ◌≡◌, ◌⊎◌,
}
use settlement_ops.Reconciliation.Matcher.{policy_version_text}
use settlement_ops.Case.State.{investigating, operator}
use settlement_ops.Workflow.{RequestContext, has_at_least, operator_role}
use settlement_ops.Workflow.Repository.{CaseTable, MoveFailure, MoveResult, transition}
use settlement_ops.Workflow.Repository.Races.{IsMove, transition-IsMove, transition-err_unchanged}
use settlement_ops.Workflow.Approval.{move_to}
use settlement_ops.Workflow.Investigation.{
  Bench, InvestigationRow, RunInput, RunPayload, RunStatus, StartEnvironment, StartResult, Started,
  after_escalation, after_investigating, after_start, already_running, created,
  escalated_ai_disabled, escalation_move, existing, found_run, is_active, is_active_of, is_running,
  new_run, run_failed, run_is_started, run_running, run_succeeded, start_error, start_failed,
  start_forbidden, start_investigation, start_run, start_threw, with_disabled, with_started,
}
use settlement_ops.Workflow.Investigation.Table.{
  IsSingle, finish_run_row-IsSingle, start_run-IsSingle,
}

created-injective : {a b : InvestigationRow} → created a ≡ created b → a ≡ b
created-injective e = cc

existing-injective : {a b : InvestigationRow} → existing a ≡ existing b → a ≡ b
existing-injective e = cc

existing-ne-created : {a b : InvestigationRow} → existing a ≡ created b → ⊥
existing-ne-created e = cc

threw-ne-created : {a : InvestigationRow} → start_threw ≡ created a → ⊥
threw-ne-created e = cc

threw-ne-existing : {a : InvestigationRow} → start_threw ≡ existing a → ⊥
threw-ne-existing e = cc

module _ (env : StartEnvironment) (ctx : RequestContext) (case_id : String) (version : ℕ)
    (bench : Bench RunPayload) where
  -- The move into INVESTIGATING.
  abbrev Entered : CaseTable → MoveResult → Type 0
  Entered after moved =
      IsMove ctx.tenant_id (move_to investigating operator case_id version) bench.cases after moved

  -- The escalation, after the other writers, of a case that was in the table `middle`.
  abbrev Escalated : CaseTable → MoveResult → CaseTable → MoveResult → Type 0
  Escalated middle moved after escalation =
      IsMove ctx.tenant_id (escalation_move case_id moved.case_version) (env.others middle) after
        escalation

  -- What each result says of the state after it.
  abbrev pub Accounts : Bool → Bench RunPayload → StartResult → Type 0
  Accounts ai_enabled after (run_is_started run moved) =
      (ai_enabled ≡ true)
      × Entered after.cases moved
      × (run.status ≡ run_running)
      × (run.case_version_at_start ≡ moved.case_version)
      × Memᴰ run after.runs
      × (length after.log ≡ suc (length bench.log))
  Accounts ai_enabled after (escalated_ai_disabled run escalation) =
      (ai_enabled ≡ false)
      × ((middle : CaseTable) × (moved : MoveResult) × Entered middle moved
          × Escalated middle moved after.cases escalation)
      × (length after.log ≡ 2 + length bench.log)
  Accounts ai_enabled after (already_running run) =
      (run.status ≡ run_running)
      × ((moved : MoveResult) × Entered after.cases moved)
      × (after.runs ≡ bench.runs)
      × (after.log ≡ bench.log)
  Accounts ai_enabled after start_forbidden =
      (after ≡ bench) × (has_at_least ctx operator_role ≡ false)
  Accounts ai_enabled after start_error = (after.runs ≡ bench.runs) × (after.log ≡ bench.log)
  Accounts ai_enabled after (start_failed failure) =
      (after ≡ bench)
      ⊎ ((ai_enabled ≡ false)
          × ((middle : CaseTable) × (moved : MoveResult) × Entered middle moved
              × (after.cases ≡ env.others middle)))

  after_escalation-Accounts :
      (run : InvestigationRow) (moved : MoveResult) (middle : CaseTable) (logged : Bench RunPayload)
      (r : CaseTable × Result MoveFailure MoveResult)
      → Entered middle moved
      → length logged.log ≡ suc (length bench.log)
      → ((e : MoveFailure) → r.1 ≡ err e → r.0 ≡ env.others middle)
      → ((done : MoveResult) → r.1 ≡ ok done → Escalated middle moved r.0 done)
      → Accounts false
          (after_escalation env ctx case_id run logged r).0
          (after_escalation env ctx case_id run logged r).1
  unfolding after_escalation
  after_escalation-Accounts run moved middle logged (cases, err failure) entered one same done =
      inr (refl, (middle, moved, entered, same failure refl))
  after_escalation-Accounts run moved middle logged (cases, ok escalation) entered one same done = (
    refl,
    (middle, moved, entered, done escalation refl),
    omega (arith, one, length-append logged.log (_ ∷ [])),
  )

  running_status : (s : RunStatus) → is_running s ≡ true → s ≡ run_running
  running_status run_running h = refl
  running_status run_succeeded h = absurd (true-ne-false (sym h))
  running_status run_failed h = absurd (true-ne-false (sym h))

  after_start-Accounts :
      (ai_enabled : Bool) (moved : MoveResult) (middle : CaseTable)
      (start : List InvestigationRow × Started)
      → Entered middle moved
      → ((run : InvestigationRow)
          → start.1 ≡ created run
          → (run.status ≡ run_running)
            × (run.case_version_at_start ≡ moved.case_version)
            × Memᴰ run start.0)
      → ((run : InvestigationRow)
          → start.1 ≡ existing run
          → (run.status ≡ run_running) × (start.0 ≡ bench.runs))
      → (start.1 ≡ start_threw → start.0 ≡ bench.runs)
      → let done =
          after_start env ctx ai_enabled case_id moved
            (record bench { cases = middle; runs = start.0 })
            start.1 in
        Accounts ai_enabled done.0 done.1
  unfolding after_start
  after_start-Accounts ai_enabled moved middle (runs, start_threw) entered new old nothing =
      (nothing refl, refl)
  after_start-Accounts ai_enabled moved middle (runs, existing run) entered new old nothing =
      ((old run refl).0, (moved, entered), (old run refl).1, refl)
  after_start-Accounts true moved middle (runs, created run) entered new old nothing =
      let (running, version, listed) = new run refl in
      (refl, entered, running, version, listed, omega (arith, length-append bench.log (_ ∷ [])))
  after_start-Accounts false moved middle (runs, created run) entered new old nothing =
      let again =
        transition env.later ctx.tenant_id (escalation_move case_id moved.case_version)
          env.seen_later (env.others middle) in
      after_escalation-Accounts run moved middle
        (with_disabled env ctx run (
          with_started env ctx false case_id moved run
            (record bench { cases = middle; runs = runs })))
        again entered (omega (arith, length-append bench.log (_ ∷ [])))
        (λ e h.
          transition-err_unchanged env.later ctx.tenant_id
            (escalation_move case_id moved.case_version) env.seen_later (env.others middle) e h)
        (λ done h.
          transition-IsMove env.later ctx.tenant_id (escalation_move case_id moved.case_version)
            env.seen_later (env.others middle) done h)

  -- What the repository answers.
  start_run-cases :
      (input : RunInput) (runs : List InvestigationRow)
      → let start = start_run ctx.tenant_id input runs in
        ((run : InvestigationRow) × (start.1 ≡ created run)
          × (run ≡ new_run ctx.tenant_id input)
          × (start.0 ≡ run ∷ runs))
        ⊎ ((start.0 ≡ runs)
            × (((run : InvestigationRow) × (start.1 ≡ existing run) × (run.status ≡ run_running))
                ⊎ (start.1 ≡ start_threw)))
  unfolding start_run
  start_run-cases input runs = elim (Bool-cases (any (is_active input.case_id) runs)) [
    | inr free ↦ rw (free, start_run) (inl (new_run ctx.tenant_id input, refl, refl, refl))
    | inl active ↦
        rw (active, start_run)
          (elim (Option-cases (first (is_active_of ctx.tenant_id input.case_id) runs)) [
            | inl no_row ↦ inr (refl, inr (ap found_run no_row))
            | inr (run, found) ↦
                let test = first-holds (is_active_of ctx.tenant_id input.case_id) runs run found in
                inr (
                  refl,
                  inl (
                    run,
                    ap found_run found,
                    running_status run.status
                        (and-eq-true (str_eq run.case_id input.case_id) (is_running run.status)
                          (and-eq-true (is_active input.case_id run) _ test).0).1,
                  ),
                )
          ])
  ]

  abbrev run_input : MoveResult → RunInput
  run_input moved = record {
    id = env.run_id;
    case_id = case_id;
    case_version_at_start = moved.case_version;
    policy_version = policy_version_text;
    correlation_id = ctx.correlation_id;
  }

  after_investigating-Accounts :
      (ai_enabled : Bool) (r : CaseTable × Result MoveFailure MoveResult)
      → ((e : MoveFailure) → r.1 ≡ err e → r.0 ≡ bench.cases)
      → ((done : MoveResult) → r.1 ≡ ok done → Entered r.0 done)
      → let done = after_investigating env ctx ai_enabled case_id bench r in
        Accounts ai_enabled done.0 done.1
  unfolding after_investigating
  after_investigating-Accounts ai_enabled (cases, err failure) same entered =
      inl (ap (λ t. record bench { cases = t }) (same failure refl))
  after_investigating-Accounts ai_enabled (cases, ok moved) same entered =
      after_start-Accounts ai_enabled moved cases
        (start_run ctx.tenant_id (run_input moved) bench.runs) (entered moved refl)
        (λ run h. elim (start_run-cases (run_input moved) bench.runs) [
          | inl (made, at, new, listed) ↦
              let same_run : made ≡ run = created-injective (sym at ∙ h) in
              (
                ap (λ r. r.status) (sym same_run ∙ new),
                ap (λ r. r.case_version_at_start) (sym same_run ∙ new),
                subst (λ l. Memᴰ run l) (sym listed) (Memᴰ.head (sym same_run)),
              )
          | inr (kept, inl (old, at, running)) ↦ absurd (existing-ne-created (sym at ∙ h))
          | inr (kept, inr at) ↦ absurd (threw-ne-created (sym at ∙ h))
        ])
        (λ run h. elim (start_run-cases (run_input moved) bench.runs) [
          | inl (made, at, new, listed) ↦ absurd (existing-ne-created (sym h ∙ at))
          | inr (kept, inl (old, at, running)) ↦
              (ap (λ r. r.status) (existing-injective (sym h ∙ at)) ∙ running, kept)
          | inr (kept, inr at) ↦ absurd (threw-ne-existing (sym at ∙ h))
        ])
        (λ h. elim (start_run-cases (run_input moved) bench.runs) [
          | inl (made, at, new, listed) ↦ absurd (threw-ne-created (sym h ∙ at))
          | inr (kept, rest) ↦ kept
        ])

  -- What a start of an investigation reports is what it did. STARTED: the switch is on, the case
  -- moved into INVESTIGATING, and a running row of the new version is in the table, with one event.
  -- ESCALATED_AI_DISABLED: the switch is off, and the case moved into INVESTIGATING and then, past
  -- whatever other writers did between, to ESCALATED, with two events. ALREADY_RUNNING: the run that
  -- is reported is running, and the case moved into INVESTIGATING although no event says so.
  -- FORBIDDEN: nothing changed, for want of the role. FAILED: nothing changed, or the switch is off
  -- and only the second transition failed.
  pub start_investigation-Accounts :
      (ai_enabled : Bool)
      → let done = start_investigation env ctx ai_enabled case_id version bench in
        Accounts ai_enabled done.0 done.1
  unfolding start_investigation
  start_investigation-Accounts ai_enabled = elim (Bool-cases (has_at_least ctx operator_role)) [
    | inr lacks ↦ rw (lacks, start_investigation) (refl, lacks)
    | inl has ↦
        rw (has, start_investigation)
          (after_investigating-Accounts ai_enabled
            (transition env.now ctx.tenant_id (move_to investigating operator case_id version)
              env.seen bench.cases)
            (λ e h.
              transition-err_unchanged env.now ctx.tenant_id
                (move_to investigating operator case_id version) env.seen bench.cases e h)
            (λ done h.
              transition-IsMove env.now ctx.tenant_id
                (move_to investigating operator case_id version) env.seen bench.cases done h))
  ]

-- Starting an investigation keeps at most one running investigation for each case, on every path.
pub start_investigation-IsSingle :
    (env : StartEnvironment) (ctx : RequestContext) (ai_enabled : Bool) (case_id : String)
    (version : ℕ) (bench : Bench RunPayload)
    → IsSingle bench.runs
    → IsSingle (start_investigation env ctx ai_enabled case_id version bench).0.runs
unfolding start_investigation after_investigating after_start after_escalation
start_investigation-IsSingle env ctx ai_enabled case_id version bench h =
    elim (Bool-cases (has_at_least ctx operator_role)) [
      | inr lacks ↦ rw lacks h
      | inl has ↦ rw has (
          moved_single (
            transition env.now ctx.tenant_id (move_to investigating operator case_id version)
              env.seen bench.cases))
    ]
  where
    escalated_single :
        (run : InvestigationRow) (b : Bench RunPayload)
        (r : CaseTable × Result MoveFailure MoveResult)
        → IsSingle b.runs
        → IsSingle (after_escalation env ctx case_id run b r).0.runs
    escalated_single run b (cases, err failure) s = s
    escalated_single run b (cases, ok done) s = s

    started_single :
        (enabled : Bool) (moved : MoveResult) (b : Bench RunPayload) (start : Started)
        → IsSingle b.runs
        → IsSingle (after_start env ctx enabled case_id moved b start).0.runs
    started_single enabled moved b start_threw s = s
    started_single enabled moved b (existing run) s = s
    started_single true moved b (created run) s = s
    started_single false moved b (created run) s =
        escalated_single run
          (with_disabled env ctx run (with_started env ctx false case_id moved run b))
          (transition env.later ctx.tenant_id (escalation_move case_id moved.case_version)
            env.seen_later (env.others b.cases))
          (finish_run_row-IsSingle env.later ctx.tenant_id run.id run_failed (some "MODEL_DISABLED")
            b.runs refl s)

    moved_single :
        (r : CaseTable × Result MoveFailure MoveResult)
        → IsSingle (after_investigating env ctx ai_enabled case_id bench r).0.runs
    moved_single (cases, err failure) = h
    moved_single (cases, ok moved) =
        let start =
          start_run ctx.tenant_id (run_input env ctx case_id version bench moved) bench.runs in
        started_single ai_enabled moved (record bench { cases = cases; runs = start.0 }) start.1
          (start_run-IsSingle ctx.tenant_id (run_input env ctx case_id version bench moved)
            bench.runs h)
