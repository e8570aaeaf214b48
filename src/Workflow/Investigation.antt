-- ===== src/Workflow/Investigation.antt =====
-- The life of an investigation: its table (createInvestigationRepository of
-- packages/persistence/src/repositories/workflow-repositories.ts) and its start
-- (packages/workflow/src/investigation.ts).
pub mod Table
pub mod Laws
use settlement_ops.Base.{
  Bool, List, Option, Result, String, [], any, err, false, first, if◌then◌else◌, keep, map, none,
  not, ok, some, str_eq, true, ℕ, ℤ, ◌&&◌, ◌++◌, ◌∷◌,
}
use settlement_ops.Reconciliation.Matcher.{policy_version_text}
use settlement_ops.Case.State.{escalated, investigating, operator, system}
use settlement_ops.Workflow.{RequestContext, has_at_least, operator_role}
use settlement_ops.Workflow.Repository.{CaseTable, MoveFailure, MoveRequest, MoveResult, transition}
use settlement_ops.Workflow.Approval.{ActorType, Payload, move_to, system_actor, user_actor}

pub data RunStatus : Type 0 where
  run_running run_succeeded run_failed : RunStatus

abbrev pub is_running : RunStatus → Bool
is_running run_running = true
is_running _ = false

-- A row of `investigations`; the start time, a default of the table, and the count of tool calls,
-- which is never written, are left out.
pub record InvestigationRow : Type 0 where
  pub id : String
  pub case_id : String
  pub merchant_id : String
  pub status : RunStatus
  pub failure_code : Option String
  pub case_version_at_start : ℕ
  pub policy_version : String
  pub correlation_id : String
  pub finished_at : Option ℤ

pub record RunInput : Type 0 where
  pub id : String
  pub case_id : String
  pub case_version_at_start : ℕ
  pub policy_version : String
  pub correlation_id : String

-- `WHERE case_id = $1 AND status = 'RUNNING'`, of every merchant.
abbrev pub is_active : String → InvestigationRow → Bool
is_active case_id row = str_eq row.case_id case_id && is_running row.status

abbrev pub is_active_of : String → String → InvestigationRow → Bool
is_active_of merchant case_id row = is_active case_id row && str_eq row.merchant_id merchant

abbrev pub new_run : String → RunInput → InvestigationRow
new_run merchant input = record {
  id = input.id;
  case_id = input.case_id;
  merchant_id = merchant;
  status = run_running;
  failure_code = none;
  case_version_at_start = input.case_version_at_start;
  policy_version = input.policy_version;
  correlation_id = input.correlation_id;
  finished_at = none;
}

-- `{ investigation, created }`, or the error that is thrown.
pub data Started : Type 0 where
  created existing : InvestigationRow → Started
  start_threw : Started

abbrev pub found_run : Option InvestigationRow → Started
found_run none = start_threw
found_run (some row) = existing row

-- `start`: the partial unique index refuses a second running investigation of a case.
unfoldable pub start_run :
    String → RunInput → List InvestigationRow → List InvestigationRow × Started
start_run merchant input runs =
    if any (is_active input.case_id) runs
    then (runs, found_run (first (is_active_of merchant input.case_id) runs))
    else (new_run merchant input ∷ runs, created (new_run merchant input))

abbrev pub finished :
    ℤ → String → String → RunStatus → Option String → InvestigationRow → InvestigationRow
finished now merchant id status failure_code row =
    if str_eq row.id id && str_eq row.merchant_id merchant
    then record row { status = status; failure_code = failure_code; finished_at = some now }
    else row

-- `finish`
unfoldable pub finish_run_row :
    ℤ → String → String → RunStatus → Option String → List InvestigationRow → List InvestigationRow
finish_run_row now merchant id status failure_code runs =
    map (finished now merchant id status failure_code) runs

unfoldable pub list_for_case : String → String → List InvestigationRow → List InvestigationRow
list_for_case merchant case_id runs =
    keep (λ row. str_eq row.case_id case_id && str_eq row.merchant_id merchant) runs

pub data RunPayload : Type 0 where
  run_started : (investigation_id : String) → (ai_enabled : Bool) → RunPayload
  run_disabled : RunPayload

-- An event of the log; `entityType` is the same text in all.
pub record RunEvent (Payload : Type 0) : Type 0 where
  pub event_id : String
  pub tenant : String
  pub entity_id : String
  pub event_type : String
  pub actor : ActorType
  pub correlation_id : String
  pub move : Option MoveResult
  pub payload : Payload

-- What the handlers of investigations change.
pub record Bench (Payload : Type 0) : Type 0 where
  pub cases : CaseTable
  pub runs : List InvestigationRow
  pub log : List (RunEvent Payload)

pub data StartResult : Type 0 where
  run_is_started : InvestigationRow → MoveResult → StartResult
  escalated_ai_disabled : InvestigationRow → MoveResult → StartResult
  already_running : InvestigationRow → StartResult
  start_forbidden start_error : StartResult
  start_failed : MoveFailure → StartResult

-- What the environment gives: the database's times, the ids in the order of `ids.next()`, the tables
-- that the two transitions read, and what other writers do to the cases between them.
pub record StartEnvironment : Type 0 where
  pub now : ℤ
  pub later : ℤ
  pub run_id : String
  pub started_event_id : String
  pub escalated_event_id : String
  pub seen : CaseTable
  pub seen_later : CaseTable
  pub others : CaseTable → CaseTable

-- From the second transition to the end.
unfoldable pub after_escalation :
    StartEnvironment
    → RequestContext
    → String
    → InvestigationRow
    → Bench RunPayload
    → CaseTable × Result MoveFailure MoveResult
    → Bench RunPayload × StartResult
after_escalation env ctx case_id run bench (cases, err failure) =
    (record bench { cases = cases }, start_failed failure)
after_escalation env ctx case_id run bench (cases, ok escalation) = (
  record bench {
    cases = cases;
    log =
        bench.log
        ++ (record {
          event_id = env.escalated_event_id;
          tenant = ctx.tenant_id;
          entity_id = case_id;
          event_type = "case_escalated";
          actor = system_actor;
          correlation_id = ctx.correlation_id;
          move = some escalation;
          payload = run_disabled;
        }
            ∷ []);
  },
  escalated_ai_disabled run escalation,
)

abbrev pub escalation_move : String → ℕ → MoveRequest
escalation_move case_id version = move_to escalated system case_id version

-- The log of a run that was created.
abbrev pub with_started :
    StartEnvironment
    → RequestContext
    → Bool
    → String
    → MoveResult
    → InvestigationRow
    → Bench RunPayload
    → Bench RunPayload
with_started env ctx ai_enabled case_id moved run bench = record bench {
  log =
      bench.log
      ++ (record {
        event_id = env.started_event_id;
        tenant = ctx.tenant_id;
        entity_id = case_id;
        event_type = "investigation_started";
        actor = user_actor ctx.user_id;
        correlation_id = ctx.correlation_id;
        move = some moved;
        payload = run_started run.id ai_enabled;
      }
          ∷ []);
}

-- The run, as it is finished when the switch is off.
abbrev pub with_disabled :
    StartEnvironment → RequestContext → InvestigationRow → Bench RunPayload → Bench RunPayload
with_disabled env ctx run bench = record bench {
  runs =
      finish_run_row env.later ctx.tenant_id run.id run_failed (some "MODEL_DISABLED") bench.runs;
}

-- The switch: the run stays, or fails and the case escalates.
unfoldable pub after_start :
    StartEnvironment
    → RequestContext
    → Bool
    → String
    → MoveResult
    → Bench RunPayload
    → Started
    → Bench RunPayload × StartResult
unfolding after_escalation finish_run_row
after_start env ctx ai_enabled case_id moved bench start_threw = (bench, start_error)
after_start env ctx ai_enabled case_id moved bench (existing run) = (bench, already_running run)
after_start env ctx ai_enabled case_id moved bench (created run) =
    let logged = with_started env ctx ai_enabled case_id moved run bench in
    if ai_enabled
    then (logged, run_is_started run moved)
    else after_escalation env ctx case_id run (with_disabled env ctx run logged) (
        transition env.later ctx.tenant_id (escalation_move case_id moved.case_version)
          env.seen_later (env.others logged.cases))

-- From the first transition on.
unfoldable pub after_investigating :
    StartEnvironment
    → RequestContext
    → Bool
    → String
    → Bench RunPayload
    → CaseTable × Result MoveFailure MoveResult
    → Bench RunPayload × StartResult
unfolding after_start start_run
after_investigating env ctx ai_enabled case_id bench (cases, err failure) =
    (record bench { cases = cases }, start_failed failure)
after_investigating env ctx ai_enabled case_id bench (cases, ok moved) =
    let start =
      start_run ctx.tenant_id
        (record {
          id = env.run_id;
          case_id = case_id;
          case_version_at_start = moved.case_version;
          policy_version = policy_version_text;
          correlation_id = ctx.correlation_id;
        })
        bench.runs in
    after_start env ctx ai_enabled case_id moved (record bench { cases = cases; runs = start.0 })
      start.1

unfoldable pub start_investigation :
    StartEnvironment
    → RequestContext
    → Bool
    → String
    → ℕ
    → Bench RunPayload
    → Bench RunPayload × StartResult
unfolding after_investigating
start_investigation env ctx ai_enabled case_id expected_version bench =
    if not (has_at_least ctx operator_role)
    then (bench, start_forbidden)
    else after_investigating env ctx ai_enabled case_id bench (
        transition env.now ctx.tenant_id (move_to investigating operator case_id expected_version)
          env.seen bench.cases)
