-- ===== src/Tests/Starting.antt =====
-- Investigations of a sample case, with the switch off and with the agent.
use settlement_ops.Base.{
  All, [], arith, false, if◌then◌else◌, includes, keep, none, refl, some, str_eq, true, ℕ, ◌∷◌, ◌≡◌,
}
use settlement_ops.Case.State.{CaseState, exception, investigating}
use settlement_ops.Verifier.{foreign_ids, known_ids}
use settlement_ops.Agent.Loop.Cited.{Cited}
use settlement_ops.Agent.{default_agent_budget}
use settlement_ops.Workflow.{RequestContext, operator_role}
use settlement_ops.Workflow.Repository.{CaseTable}
use settlement_ops.Workflow.Investigation.{Bench, RunPayload, StartEnvironment, start_investigation}
use settlement_ops.Workflow.Investigation.Table.{IsSingle}
use settlement_ops.Workflow.Investigation.Laws.{
  Accounts, start_investigation-Accounts, start_investigation-IsSingle,
}
use settlement_ops.Workflow.AiInvestigation.{
  AgentDeps, AiEnvironment, AiInput, AiPayload, briefing_of, registry_call, run_ai_investigation,
  run_loop, tool_context,
}
use settlement_ops.Workflow.AiInvestigation.Laws.{
  Answers, agent_evidence_admissible, run_ai_investigation-Answers,
}
use settlement_ops.Tests.Samples.{monday, unrecorded_unit, wednesday}
use settlement_ops.Tests.Agents.{
  no_dates, sample_context, sample_gateway, sample_gateway_v2, sample_loader,
}

abbrev table_in : CaseState → ℕ → CaseTable
table_in state version id =
    if str_eq id "case_1"
    then some
        (record { merchant_id = "m1"; state = state; case_version = version; closed_at = none })
    else none

abbrev pub starter : RequestContext
starter = record {
  user_id = "u2";
  tenant_id = "m1";
  roles = operator_role ∷ [];
  request_id = "r2";
  correlation_id = "c2";
}

abbrev starting : StartEnvironment
starting = record {
  now = monday;
  later = wednesday;
  run_id = "run_1";
  started_event_id = "e1";
  escalated_event_id = "e2";
  seen = table_in exception 3;
  seen_later = table_in investigating 4;
  others = λ table. table;
}

abbrev start_bench : Bench RunPayload
start_bench = record { cases = table_in exception 3; runs = []; log = [] }

start_investigation-Accounts_example :
    let done = start_investigation starting starter false "case_1" 3 start_bench in
    Accounts starting starter "case_1" 3 start_bench false done.0 done.1
start_investigation-Accounts_example =
    start_investigation-Accounts starting starter "case_1" 3 start_bench false

nothing_running : IsSingle []
unfolding keep
nothing_running = record { single = λ case_id. omega arith }

start_investigation-IsSingle_example :
    IsSingle (start_investigation starting starter true "case_1" 3 start_bench).0.runs
start_investigation-IsSingle_example =
    start_investigation-IsSingle starting starter true "case_1" 3 start_bench nothing_running

abbrev sample_deps : AgentDeps
sample_deps = record {
  gateway = λ briefing. sample_gateway;
  gateway_v2 = λ briefing. sample_gateway_v2;
  date_parse = no_dates;
  call_time = λ n. wednesday;
  load_unit = λ n. sample_loader;
  elapsed = λ n. 0;
  clip = λ text. text;
  budget = default_agent_budget;
}

agent_evidence_admissible_example :
    let found = run_loop false sample_deps sample_context (briefing_of unrecorded_unit) in
    (foreign_ids (known_ids unrecorded_unit) found.evidence_record_ids ≡ [])
    × All
        (Cited
          (λ n tool id.
            includes str_eq id (registry_call sample_deps sample_context n tool).record_ids ≡ true)
          found.trace)
        found.evidence_record_ids
agent_evidence_admissible_example =
    agent_evidence_admissible false sample_deps sample_context (briefing_of unrecorded_unit)
      unrecorded_unit (λ n. refl)

abbrev agent_input : AiInput
agent_input = record {
  case_id = "case_1";
  investigation_id = "run_1";
  payment_id = "pay_1";
  unit = unrecorded_unit;
  expected_version = 4;
}

abbrev agent_environment : AiEnvironment
agent_environment = record { now = wednesday; ids = λ n. "e"; seen = table_in investigating 4 }

abbrev agent_bench : Bench AiPayload
agent_bench = record { cases = table_in investigating 4; runs = []; log = [] }

run_ai_investigation-Answers_example :
    let done =
      run_ai_investigation false sample_deps agent_environment starter agent_input agent_bench in
    Answers agent_environment starter agent_input
      (run_loop false sample_deps (tool_context starter agent_input) (briefing_of agent_input.unit))
      agent_bench.cases
      done.0.cases
      done.1
run_ai_investigation-Answers_example =
    run_ai_investigation-Answers agent_environment starter agent_input false sample_deps agent_bench
