-- ===== src/Tools/Answers.antt =====
-- When a tool call succeeds, and how much it shows (packages/tools/src/).
use settlement_ops.Base.{
  List, Option, Option-cases, Result, String, [], ap, arith, err, false, inl, inr, length,
  length-map, map, max, none, ok, refl, some, subst, sym, true, true-ne-false, ℕ, ℤ, ◌∙◌, ◌≡◌, ◌≤◌,
  ◌⊎◌,
}
use settlement_ops.Money.Breakdown.{AmountBreakdown}
use settlement_ops.Policy.FeeSchedule.{schedule_at}
use settlement_ops.Reconciliation.ExpectedNet.{ExpectedNetError, expected_net_from_records}
use settlement_ops.Reconciliation.Unit.{ReconciliationUnit}
use settlement_ops.Tools.{ToolArguments, ToolContext, parse_tool, tool_error, validate_arguments}
use settlement_ops.Tools.Evidence.{
  ArgumentFault, ToolData, ToolFailure, ToolName, ToolResult, adjustment_data, breakup_data,
  calculate_expected_net_amount, credit_data, fee_tax_data, get_bank_credit, get_fee_schedule,
  get_fee_tax_lines, get_ledger_entries, get_refunds, get_settlement_breakup, no_data, refund_data,
  schedule_data, search_related_adjustments, validate_tax_line_mapping,
}
use settlement_ops.Tools.Lookups.{
  bank_credit, cap, credits_for, fee_tax_lines, ledger_entries, length-take, refund_list,
  related_adjustments, settlement_breakup,
}
use settlement_ops.Tools.Arithmetic.{
  expected_net_amount, expected_net_answer, fee_schedule_of, tax_line_mapping,
}
use settlement_ops.Tools.Handlers.{UnitLoader, handle, with_unit}
use settlement_ops.Tools.Laws.{ok-injective}
use settlement_ops.Reconciliation.Matcher.{observed_input}
use settlement_ops.Tools.Registry.{caught, invoke, invoke_valid}

-- The lists that a result shows to the model.
abbrev pub longest_list : ToolData → ℕ
longest_list (breakup_data d) = max (length d.settlements) (length d.settlement_lines)
longest_list (fee_tax_data d) = max (length d.fee_lines) (length d.tax_lines)
longest_list (credit_data d) = length d.bank_credits
longest_list (refund_data refunds) = length refunds
longest_list (adjustment_data adjustments) = length adjustments
longest_list (schedule_data d) = length d.all_versions
longest_list _ = 0

length-shown : {A B : Type 0} (f : A → B) (xs : List A) → length (map f (cap xs)) ≤ 50
length-shown f xs = omega (arith, length-map f (cap xs), length-take 50 xs)

shown_pair :
    {A B C D : Type 0} (f : A → B) (g : C → D) (xs : List A) (ys : List C)
    → max (length (map f (cap xs))) (length (map g (cap ys))) ≤ 50
shown_pair f g xs ys = omega (arith, length-shown f xs, length-shown g ys)

-- A result that failed carries no evidence; one that succeeded is within the bound.
pub record IsBounded (r : ToolResult) : Type 0 where
  pub short : longest_list r.evidence ≤ 50
  pub bare : r.succeeded ≡ false → (r.record_ids ≡ []) × (r.evidence ≡ no_data)

tool_error-IsBounded :
    (name : Option ToolName) (failure : ToolFailure) → IsBounded (tool_error name failure)
unfolding tool_error
tool_error-IsBounded name failure = record { short = omega arith; bare = λ h. (refl, refl) }

fee_schedule-IsBounded : (at : Option ℤ) → IsBounded (fee_schedule_of at)
unfolding fee_schedule_of
fee_schedule-IsBounded none = tool_error-IsBounded _ _
fee_schedule-IsBounded (some at) = elim (Option-cases (schedule_at at)) [
  | inl no_schedule ↦ rw (no_schedule, fee_schedule_of) (tool_error-IsBounded _ _)
  | inr (s, found) ↦
      rw (found, fee_schedule_of)
        (record { short = omega arith; bare = λ h. absurd (true-ne-false h) })
]

expected_net-IsBounded :
    (unit : ReconciliationUnit) (r : Result ExpectedNetError AmountBreakdown)
    → IsBounded (expected_net_answer unit r)
unfolding expected_net_answer
expected_net-IsBounded unit (err e) = tool_error-IsBounded _ _
expected_net-IsBounded unit (ok observed) = record {
  short = omega arith;
  bare = λ h. absurd (true-ne-false h);
}

with_unit-IsBounded :
    (name : ToolName) (fn : ReconciliationUnit → ToolResult)
    (loaded : Result String (Option ReconciliationUnit)) (result : ToolResult)
    → ((unit : ReconciliationUnit) → IsBounded (fn unit))
    → with_unit name fn loaded ≡ ok result
    → IsBounded result
with_unit-IsBounded name fn (err message) result h e = cc
with_unit-IsBounded name fn (ok none) result h e =
    subst IsBounded (ok-injective refl e) (tool_error-IsBounded _ _)
with_unit-IsBounded name fn (ok (some unit)) result h e =
    subst IsBounded (ok-injective refl e) (h unit)

module _ (date_parse : String → Option ℤ) (now : ℤ) (load_unit : UnitLoader) where
  handle-IsBounded :
      (tool : ToolName) (ctx : ToolContext) (args : ToolArguments) (result : ToolResult)
      → handle date_parse now load_unit tool ctx args ≡ ok result
      → IsBounded result
  unfolding handle settlement_breakup fee_tax_lines bank_credit refund_list related_adjustments
      ledger_entries expected_net_amount tax_line_mapping
  handle-IsBounded get_settlement_breakup ctx args result e =
      with_unit-IsBounded get_settlement_breakup settlement_breakup (load_unit ctx) result
        (λ unit. record {
          short = shown_pair _ _ unit.settlements unit.settlement_lines;
          bare = λ h. absurd (true-ne-false h);
        })
        e
  handle-IsBounded get_fee_tax_lines ctx args result e =
      with_unit-IsBounded get_fee_tax_lines fee_tax_lines (load_unit ctx) result
        (λ unit. record {
          short = shown_pair _ _ unit.fees unit.taxes;
          bare = λ h. absurd (true-ne-false h);
        })
        e
  handle-IsBounded get_bank_credit ctx args result e =
      with_unit-IsBounded get_bank_credit (bank_credit args) (load_unit ctx) result
        (λ unit. record {
          short = length-shown _ (credits_for args.utr unit.bank_credits);
          bare = λ h. absurd (true-ne-false h);
        })
        e
  handle-IsBounded get_refunds ctx args result e =
      with_unit-IsBounded get_refunds refund_list (load_unit ctx) result
        (λ unit. record {
          short = length-shown _ unit.refunds;
          bare = λ h. absurd (true-ne-false h);
        })
        e
  handle-IsBounded search_related_adjustments ctx args result e =
      with_unit-IsBounded search_related_adjustments related_adjustments (load_unit ctx) result
        (λ unit. record {
          short = length-shown _ unit.adjustments;
          bare = λ h. absurd (true-ne-false h);
        })
        e
  handle-IsBounded get_ledger_entries ctx args result e =
      with_unit-IsBounded get_ledger_entries ledger_entries (load_unit ctx) result
        (λ unit. record { short = omega arith; bare = λ h. absurd (true-ne-false h) }) e
  handle-IsBounded get_fee_schedule ctx args result e =
      subst IsBounded (ok-injective refl e) (fee_schedule-IsBounded _)
  handle-IsBounded calculate_expected_net_amount ctx args result e =
      with_unit-IsBounded calculate_expected_net_amount expected_net_amount (load_unit ctx) result
        (λ unit. expected_net-IsBounded unit (expected_net_from_records (observed_input unit))) e
  handle-IsBounded validate_tax_line_mapping ctx args result e =
      with_unit-IsBounded validate_tax_line_mapping (tax_line_mapping now) (load_unit ctx) result
        (λ unit. record { short = omega arith; bare = λ h. absurd (true-ne-false h) }) e

  valid-IsBounded :
      (ctx : ToolContext) (tool : ToolName) (args : Result ArgumentFault ToolArguments)
      → IsBounded (invoke_valid date_parse now load_unit ctx tool args)
  unfolding invoke_valid
  valid-IsBounded ctx tool (err fault) = tool_error-IsBounded _ _
  valid-IsBounded ctx tool (ok args) =
      go (handle date_parse now load_unit tool ctx args) (handle-IsBounded tool ctx args)
    where
      go :
          (r : Result String ToolResult)
          → ((result : ToolResult) → r ≡ ok result → IsBounded result)
          → IsBounded (caught tool r)
      go (err message) h = tool_error-IsBounded _ _
      go (ok result) h = h result refl

  -- No call shows more than fifty records of a kind, and a call that fails shows none and cites
  -- none.
  pub invoke-IsBounded :
      (ctx : ToolContext) (name : String) (args : ToolArguments)
      → IsBounded (invoke date_parse now load_unit ctx name args)
  unfolding invoke
  invoke-IsBounded ctx name args = elim (Option-cases (parse_tool name)) [
    | inl unknown ↦ rw (unknown, invoke) (tool_error-IsBounded _ _)
    | inr (tool, known) ↦
        rw (known, invoke) (valid-IsBounded ctx tool (validate_arguments date_parse args))
  ]

  -- What has to hold for a call to succeed.
  pub record IsAnswered (ctx : ToolContext) (name : String) (args : ToolArguments) (r : ToolResult)
      : Type 0 where
    pub tool : ToolName
    pub listed : parse_tool name ≡ some tool
    pub named : r.name ≡ some tool
    pub valid : validate_arguments date_parse args ≡ ok args
    pub loaded :
        (tool ≡ get_fee_schedule) ⊎ ((unit : ReconciliationUnit) × (load_unit ctx ≡ ok (some unit)))

  -- Both ends of a successful `withUnit`.
  with_unit-succeeded :
      (name : ToolName) (fn : ReconciliationUnit → ToolResult)
      (loaded : Result String (Option ReconciliationUnit))
      → (caught name (with_unit name fn loaded)).succeeded ≡ true
      → (unit : ReconciliationUnit) × (loaded ≡ ok (some unit))
        × (caught name (with_unit name fn loaded) ≡ fn unit)
  unfolding tool_error
  with_unit-succeeded name fn (err message) h = absurd (true-ne-false (sym h))
  with_unit-succeeded name fn (ok none) h = absurd (true-ne-false (sym h))
  with_unit-succeeded name fn (ok (some unit)) h = (unit, refl, refl)

  -- A handler names its tool, and has read a unit unless it is the fee schedule's.
  abbrev Reads : ToolContext → ToolName → ToolResult → Type 0
  Reads ctx tool r =
      (r.name ≡ some tool)
      × ((tool ≡ get_fee_schedule)
          ⊎ ((unit : ReconciliationUnit) × (load_unit ctx ≡ ok (some unit))))

  with_unit-Reads :
      (ctx : ToolContext) (name : ToolName) (fn : ReconciliationUnit → ToolResult)
      → ((unit : ReconciliationUnit) → (fn unit).name ≡ some name)
      → (caught name (with_unit name fn (load_unit ctx))).succeeded ≡ true
      → Reads ctx name (caught name (with_unit name fn (load_unit ctx)))
  with_unit-Reads ctx name fn named h =
      let (unit, loaded, same) = with_unit-succeeded name fn (load_unit ctx) h in
      (ap (λ r. r.name) same ∙ named unit, inr (unit, loaded))

  expected_net-named :
      (unit : ReconciliationUnit) (r : Result ExpectedNetError AmountBreakdown)
      → (expected_net_answer unit r).name ≡ some calculate_expected_net_amount
  unfolding expected_net_answer tool_error
  expected_net-named unit (err e) = refl
  expected_net-named unit (ok b) = refl

  fee_schedule-named : (at : Option ℤ) → (fee_schedule_of at).name ≡ some get_fee_schedule
  unfolding fee_schedule_of tool_error
  fee_schedule-named none = refl
  fee_schedule-named (some at) = elim (Option-cases (schedule_at at)) [
    | inl no_schedule ↦ rw (no_schedule, fee_schedule_of) refl
    | inr (s, found) ↦ rw (found, fee_schedule_of) refl
  ]

  handle-Reads :
      (tool : ToolName) (ctx : ToolContext) (args : ToolArguments)
      → (caught tool (handle date_parse now load_unit tool ctx args)).succeeded ≡ true
      → Reads ctx tool (caught tool (handle date_parse now load_unit tool ctx args))
  unfolding handle settlement_breakup fee_tax_lines bank_credit refund_list related_adjustments
      ledger_entries expected_net_amount tax_line_mapping
  handle-Reads get_settlement_breakup ctx args h =
      with_unit-Reads ctx get_settlement_breakup settlement_breakup (λ unit. refl) h
  handle-Reads get_fee_tax_lines ctx args h =
      with_unit-Reads ctx get_fee_tax_lines fee_tax_lines (λ unit. refl) h
  handle-Reads get_bank_credit ctx args h =
      with_unit-Reads ctx get_bank_credit (bank_credit args) (λ unit. refl) h
  handle-Reads get_refunds ctx args h = with_unit-Reads ctx get_refunds refund_list (λ unit. refl) h
  handle-Reads search_related_adjustments ctx args h =
      with_unit-Reads ctx search_related_adjustments related_adjustments (λ unit. refl) h
  handle-Reads get_ledger_entries ctx args h =
      with_unit-Reads ctx get_ledger_entries ledger_entries (λ unit. refl) h
  handle-Reads get_fee_schedule ctx args h = (fee_schedule-named _, inl refl)
  handle-Reads calculate_expected_net_amount ctx args h =
      with_unit-Reads ctx calculate_expected_net_amount expected_net_amount
        (λ unit. expected_net-named unit (expected_net_from_records (observed_input unit))) h
  handle-Reads validate_tax_line_mapping ctx args h =
      with_unit-Reads ctx validate_tax_line_mapping (tax_line_mapping now) (λ unit. refl) h

  validated_same :
      (args out : ToolArguments) → validate_arguments date_parse args ≡ ok out → out ≡ args
  unfolding validate_arguments
  validated_same args out h = ground arith

  valid-IsAnswered :
      (ctx : ToolContext) (name : String) (args : ToolArguments) (tool : ToolName)
      (r : Result ArgumentFault ToolArguments)
      → parse_tool name ≡ some tool
      → validate_arguments date_parse args ≡ r
      → (invoke_valid date_parse now load_unit ctx tool r).succeeded ≡ true
      → IsAnswered ctx name args (invoke_valid date_parse now load_unit ctx tool r)
  unfolding invoke_valid tool_error
  valid-IsAnswered ctx name args tool (err fault) listed e h = absurd (true-ne-false (sym h))
  valid-IsAnswered ctx name args tool (ok out) listed e h =
      let (named, loaded) = handle-Reads tool ctx out h in
      record {
        tool = tool;
        listed = listed;
        named = named;
        valid = e ∙ ap ok (validated_same args out e);
        loaded = loaded;
      }

  -- A call succeeds only for a name of the list, with arguments that pass the validation, and, but
  -- for the fee schedule, with a unit that the loader found in the context's scope; the result is
  -- under the name of the tool that was called.
  pub invoke-IsAnswered :
      (ctx : ToolContext) (name : String) (args : ToolArguments)
      → (invoke date_parse now load_unit ctx name args).succeeded ≡ true
      → IsAnswered ctx name args (invoke date_parse now load_unit ctx name args)
  unfolding invoke tool_error
  invoke-IsAnswered ctx name args h = elim (Option-cases (parse_tool name)) [
    | inl unknown ↦ absurd (true-ne-false (sym (rw (unknown, invoke) at h)))
    | inr (tool, known) ↦
        rw (known, invoke)
          (valid-IsAnswered ctx name args tool (validate_arguments date_parse args) known refl
            (rw (known, invoke) at h))
  ]
