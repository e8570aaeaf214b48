-- ===== src/Tests/Agents.antt =====
-- Tool calls and investigations of a card payment whose fee is not on record.
use Prim.Native.String.{String}
use settlement_ops.Base.{
  Option, String, err, every, false, if◌then◌else◌, includes, leb, none, ok, pos, refl, some,
  str_eq, true, ℕ, ℤ, ◌%◌, ◌*◌, ◌-ℤ◌, ◌==◌, ◌↔◌, ◌≡◌,
}
use settlement_ops.Cause.{parse_cause, parse_disposition}
use settlement_ops.Policy.Rounding.{apply_basis_points}
use settlement_ops.Agent.LoopV2.Invariant.{IsFrugal}
use settlement_ops.Policy.FeeSchedule.{schedule_v1}
use settlement_ops.Verifier.{known_ids}
use settlement_ops.Verifier.Support.{variance}
use settlement_ops.Tools.Evidence.{ToolName}
use settlement_ops.Tools.{
  ToolArguments, ToolContext, is_identifier, no_arguments, parse_tool, validate_arguments,
}
use settlement_ops.Tools.Lookups.{bank_credit}
use settlement_ops.Tools.Arithmetic.{expected_net_amount, expected_tax}
use settlement_ops.Tools.Handlers.{UnitLoader, handle}
use settlement_ops.Tools.Registry.{invoke, invoke_valid}
use settlement_ops.Tools.Laws.{AllIn, invoke-in_scope}
use settlement_ops.Tools.Answers.{IsAnswered, invoke-IsAnswered}
use settlement_ops.Tools.Exactness.{
  expected_net_amount-variance, expected_tax-vs_policy, reported_variance, told_variance,
}
use settlement_ops.Agent.{
  call_tool, conclude, default_agent_budget, model_timeout, proposal_made, tool_text,
}
use settlement_ops.Agent.Loop.{
  Gateway, ToolCall, accepted, advance, finish, loop, on_proposal, on_reply, opened, reject_tool,
  run_investigation, take_tool, use_tool,
}
use settlement_ops.Agent.Loop.Cited.{CallsWithin}
use settlement_ops.Agent.Loop.Laws.{
  IsSafe, IsVerdict, run_investigation-IsSafe, run_investigation-IsVerdict,
}
use settlement_ops.Agent.LoopV2.{GatewayV2, run_investigation_v2}
use settlement_ops.Agent.LoopV2.Laws.{run_investigation_v2-IsFrugal}
use settlement_ops.Tests.Samples.{unrecorded_unit, wednesday}

abbrev pub no_dates : String → Option ℤ
no_dates text = none

abbrev pub sample_loader : UnitLoader
sample_loader ctx = ok (if str_eq ctx.scope.merchant_id "m1" then some unrecorded_unit else none)

abbrev pub sample_context : ToolContext
sample_context = record { scope = record { merchant_id = "m1" }; payment_id = "pay_1" }

abbrev bank_utr : ToolArguments
bank_utr = record no_arguments { utr = some "utr_1" }

invoke-in_scope_example :
    AllIn
      (known_ids unrecorded_unit)
      (invoke no_dates wednesday sample_loader sample_context "get_bank_credit" bank_utr).record_ids
invoke-in_scope_example =
    invoke-in_scope no_dates wednesday sample_loader unrecorded_unit sample_context
      "get_bank_credit" bank_utr refl

credit_answered :
    (invoke no_dates wednesday sample_loader sample_context "get_bank_credit" bank_utr).succeeded
    ≡ true
unfolding invoke invoke_valid parse_tool validate_arguments is_identifier every handle bank_credit
credit_answered = refl

invoke-IsAnswered_example :
    IsAnswered no_dates wednesday sample_loader sample_context "get_bank_credit" bank_utr
      (invoke no_dates wednesday sample_loader sample_context "get_bank_credit" bank_utr)
invoke-IsAnswered_example =
    invoke-IsAnswered no_dates wednesday sample_loader sample_context "get_bank_credit" bank_utr
      credit_answered

expected_net_amount-variance_example :
    (reported_variance (expected_net_amount unrecorded_unit).evidence ≡ variance unrecorded_unit)
    × (told_variance (expected_net_amount unrecorded_unit).summary ≡ variance unrecorded_unit)
    × (((expected_net_amount unrecorded_unit).succeeded ≡ false)
        ↔ (variance unrecorded_unit ≡ none))
expected_net_amount-variance_example = expected_net_amount-variance unrecorded_unit

expected_tax-vs_policy_example : expected_tax (pos 25003) (some schedule_v1) ≡ (
    let policy = apply_basis_points (pos 25003) schedule_v1.tax_on_fee_bps in
    some (
      if leb 10000 (25003 * schedule_v1.tax_on_fee_bps % 10000 * 2)
      then policy -ℤ pos 1
      else policy))
expected_tax-vs_policy_example = expected_tax-vs_policy 25003 schedule_v1

-- A model that asks for the bank credit, then for a tool that there is not, and then concludes.
abbrev pub sample_gateway : Gateway
sample_gateway = record {
  chat_step = λ n prompt.
      if n == 1
      then ok (record { action = call_tool; tool = some "get_bank_credit" })
      else if n == 2
      then ok (record { action = call_tool; tool = some "run_sql" })
      else ok (record { action = conclude; tool = none });
  chat_proposal = λ observations. ok (record {
    reasoning = "fee withheld";
    cause = "MDR_FEE";
    disposition = "RESOLVE";
    injection_detected = none;
  });
}

abbrev pub sample_gateway_v2 : GatewayV2
sample_gateway_v2 = record {
  chat_step = sample_gateway.chat_step;
  chat_proposal = λ observations. err (record { failure = model_timeout; detail = "" });
}

abbrev pub sample_call : ToolCall
sample_call n tool =
    invoke no_dates wednesday sample_loader sample_context (tool_text tool) no_arguments

abbrev pub KnownId : ℕ → ToolName → String → Type 0
KnownId n tool id = includes str_eq id (known_ids unrecorded_unit) ≡ true

calls_within : CallsWithin KnownId sample_call
calls_within n tool =
    invoke-in_scope no_dates wednesday sample_loader unrecorded_unit sample_context (tool_text tool)
      no_arguments refl

run_investigation-IsSafe_example :
    IsSafe KnownId default_agent_budget
      (run_investigation sample_gateway sample_call (λ n. 0) (λ t. t) default_agent_budget)
run_investigation-IsSafe_example =
    run_investigation-IsSafe sample_gateway sample_call (λ n. 0) (λ t. t) KnownId
      default_agent_budget calls_within

run_investigation-IsVerdict_example :
    IsVerdict (run_investigation sample_gateway sample_call (λ n. 0) (λ t. t) default_agent_budget)
run_investigation-IsVerdict_example =
    run_investigation-IsVerdict sample_gateway sample_call (λ n. 0) (λ t. t) default_agent_budget

run_investigation_v2-IsFrugal_example :
    IsFrugal KnownId default_agent_budget
      (run_investigation_v2 sample_gateway_v2 sample_call (λ n. 0) (λ t. t) default_agent_budget)
    × IsVerdict
        (run_investigation_v2 sample_gateway_v2 sample_call (λ n. 0) (λ t. t) default_agent_budget)
run_investigation_v2-IsFrugal_example =
    run_investigation_v2-IsFrugal sample_gateway_v2 sample_call (λ n. 0) (λ t. t) KnownId
      default_agent_budget calls_within

-- The run above: a proposal after four steps' worth of replies, of which two were asked of a tool.
sample_run_ends :
    (run_investigation sample_gateway sample_call
      (λ n. 0)
      (λ t. t)
      default_agent_budget).stop_reason
    ≡ proposal_made
unfolding run_investigation opened loop finish advance on_reply take_tool use_tool reject_tool
    on_proposal accepted invoke parse_tool parse_cause parse_disposition
sample_run_ends = refl
