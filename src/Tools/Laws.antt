-- ===== src/Tools/Laws.antt =====
-- What a tool call may answer.
use settlement_ops.Base.{
  All, All-append, All-map-of, List, Option, Option-cases, Result, String, [], ap, arith, err,
  includes, inl, inr, map, none, ok, refl, some, str_eq, str_eq_iff, subst, true, ℤ, ◌++◌, ◌∷◌, ◌≡◌,
}
use settlement_ops.Reconciliation.Unit.{ReconciliationUnit}
use settlement_ops.Money.Breakdown.{AmountBreakdown}
use settlement_ops.Policy.FeeSchedule.{schedule_at}
use settlement_ops.Reconciliation.ExpectedNet.{ExpectedNetError, expected_net_from_records}
use settlement_ops.Reconciliation.Matcher.{observed_input}
use settlement_ops.Tools.{ToolArguments, ToolContext, parse_tool, tool_error, validate_arguments}
use settlement_ops.Tools.Evidence.{
  ArgumentFault, ToolName, ToolResult, calculate_expected_net_amount, get_bank_credit,
  get_fee_schedule, get_fee_tax_lines, get_ledger_entries, get_refunds, get_settlement_breakup,
  search_related_adjustments, validate_tax_line_mapping,
}
use settlement_ops.Tools.Lookups.{
  bank_credit, fee_ids, fee_tax_lines, ledger_entries, refund_list, related_adjustments,
  settlement_breakup,
}
use settlement_ops.Tools.Arithmetic.{
  expected_net_amount, expected_net_answer, fee_schedule_of, tax_line_mapping,
}
use settlement_ops.Tools.Handlers.{UnitLoader, handle, schedule_time, with_unit}
use settlement_ops.Verifier.{known_ids}
use settlement_ops.Tools.Registry.{caught, invoke, invoke_valid}

-- Every id of the second list is in the first.
abbrev pub AllIn : List String → List String → Type 0
AllIn known ids = All (λ id. includes str_eq id known ≡ true) ids

-- Membership, in the terms of `includes`.
includes-append_left :
    (id : String) (xs ys : List String)
    → includes str_eq id xs ≡ true
    → includes str_eq id (xs ++ ys) ≡ true
unfolding includes
includes-append_left id [] ys h = cc
includes-append_left id (x ∷ xs) ys h = ground (arith, includes-append_left id xs ys)

includes-append_right :
    (id : String) (xs ys : List String)
    → includes str_eq id ys ≡ true
    → includes str_eq id (xs ++ ys) ≡ true
unfolding includes
includes-append_right id [] ys h = h
includes-append_right id (x ∷ xs) ys h = ground (arith, includes-append_right id xs ys h)

in_tail :
    (id x : String) (xs : List String)
    → includes str_eq id xs ≡ true
    → includes str_eq id (x ∷ xs) ≡ true
unfolding includes
in_tail id x xs h = ground arith

pub AllIn-self : (xs : List String) → AllIn xs xs
unfolding includes
AllIn-self [] = tt
AllIn-self (x ∷ xs) = (
  ground (arith, str_eq_iff x x),
  All-map-of (λ id. includes str_eq id xs ≡ true) (λ id. includes str_eq id (x ∷ xs) ≡ true)
      (λ id. in_tail id x xs) xs (AllIn-self xs),
)

AllIn-left : (ids xs ys : List String) → AllIn xs ids → AllIn (xs ++ ys) ids
AllIn-left ids xs ys h =
    All-map-of (λ id. includes str_eq id xs ≡ true) (λ id. includes str_eq id (xs ++ ys) ≡ true)
      (λ id. includes-append_left id xs ys) ids h

AllIn-right : (ids xs ys : List String) → AllIn ys ids → AllIn (xs ++ ys) ids
AllIn-right ids xs ys h =
    All-map-of (λ id. includes str_eq id ys ≡ true) (λ id. includes str_eq id (xs ++ ys) ≡ true)
      (λ id. includes-append_right id xs ys) ids h

AllIn-tail : (ids : List String) (x : String) (xs : List String) → AllIn xs ids → AllIn (x ∷ xs) ids
AllIn-tail ids x xs h =
    All-map-of (λ id. includes str_eq id xs ≡ true) (λ id. includes str_eq id (x ∷ xs) ≡ true)
      (λ id. in_tail id x xs) ids h

-- The ids of each kind of record are among those of the unit.
record HasParts (unit : ReconciliationUnit) : Type 0 where
  payment_in : includes str_eq unit.payment.base.id (known_ids unit) ≡ true
  fees_in : AllIn (known_ids unit) (map (λ f. f.base.id) unit.fees)
  taxes_in : AllIn (known_ids unit) (map (λ t. t.base.id) unit.taxes)
  refunds_in : AllIn (known_ids unit) (map (λ r. r.base.id) unit.refunds)
  adjustments_in : AllIn (known_ids unit) (map (λ a. a.base.id) unit.adjustments)
  settlements_in : AllIn (known_ids unit) (map (λ s. s.base.id) unit.settlements)
  credits_in : AllIn (known_ids unit) (map (λ b. b.base.id) unit.bank_credits)

unit-HasParts : (unit : ReconciliationUnit) → HasParts unit
unfolding known_ids includes
unit-HasParts unit =
    let p = unit.payment.base.id in
    let fs = map (λ f. f.base.id) unit.fees in
    let ts = map (λ t. t.base.id) unit.taxes in
    let rs = map (λ r. r.base.id) unit.refunds in
    let adjs = map (λ a. a.base.id) unit.adjustments in
    let ss = map (λ s. s.base.id) unit.settlements in
    let ls = map (λ l. l.base.id) unit.settlement_lines in
    let bs = map (λ b. b.base.id) unit.bank_credits in
    record {
      payment_in = ground (arith, str_eq_iff p p);
      fees_in = AllIn-tail fs p _ (AllIn-left fs fs _ (AllIn-self fs));
      taxes_in = AllIn-tail ts p _ (AllIn-right ts fs _ (AllIn-left ts ts _ (AllIn-self ts)));
      refunds_in =
          AllIn-tail rs p _
            (AllIn-right rs fs _ (AllIn-right rs ts _ (AllIn-left rs rs _ (AllIn-self rs))));
      adjustments_in = AllIn-tail adjs p _ (
          AllIn-right adjs fs _ (
            AllIn-right adjs ts _
              (AllIn-right adjs rs _ (AllIn-left adjs adjs _ (AllIn-self adjs)))));
      settlements_in = AllIn-tail ss p _ (
          AllIn-right ss fs _ (
            AllIn-right ss ts _
              (AllIn-right ss rs _ (AllIn-right ss adjs _ (AllIn-left ss ss _ (AllIn-self ss))))));
      credits_in = AllIn-tail bs p _ (
          AllIn-right bs fs _ (
            AllIn-right bs ts _ (
              AllIn-right bs rs _ (
                AllIn-right bs adjs _
                  (AllIn-right bs ss _ (AllIn-right bs ls bs (AllIn-self bs)))))));
    }

fee_ids-in : (unit : ReconciliationUnit) → AllIn (known_ids unit) (fee_ids unit)
fee_ids-in unit =
    let parts : HasParts unit = unit-HasParts unit in
    All-append (λ id. includes str_eq id (known_ids unit) ≡ true) (map (λ f. f.base.id) unit.fees)
      (map (λ t. t.base.id) unit.taxes) parts.fees_in parts.taxes_in

expected_net-in :
    (unit : ReconciliationUnit) (r : Result ExpectedNetError AmountBreakdown)
    → AllIn (known_ids unit) (expected_net_answer unit r).record_ids
unfolding expected_net_answer tool_error
expected_net-in unit (err e) = tt
expected_net-in unit (ok observed) = ((unit-HasParts unit).payment_in, tt)

fee_schedule-in :
    (known : List String) (at : Option ℤ) → AllIn known (fee_schedule_of at).record_ids
unfolding fee_schedule_of tool_error
fee_schedule-in known none = tt
fee_schedule-in known (some at) = elim (Option-cases (schedule_at at)) [
  | inl no_schedule ↦ rw (no_schedule, fee_schedule_of) tt
  | inr (s, found) ↦ rw (found, fee_schedule_of) tt
]

pub ok-injective : {r : Result String ToolResult} {a b : ToolResult} → r ≡ ok a → r ≡ ok b → a ≡ b
ok-injective d e = cc

with_unit-in :
    (unit : ReconciliationUnit) (name : ToolName) (fn : ReconciliationUnit → ToolResult)
    (loaded : Result String (Option ReconciliationUnit)) (result : ToolResult)
    → loaded ≡ ok (some unit)
    → with_unit name fn loaded ≡ ok result
    → AllIn (known_ids unit) (fn unit).record_ids
    → AllIn (known_ids unit) result.record_ids
with_unit-in unit name fn loaded result h e inside =
    subst (λ r. AllIn (known_ids unit) r.record_ids) (ok-injective (ap (with_unit name fn) h) e)
      inside

module _ (date_parse : String → Option ℤ) (now : ℤ) (load_unit : UnitLoader) where
  handle-in :
      (unit : ReconciliationUnit) (tool : ToolName) (ctx : ToolContext) (args : ToolArguments)
      (result : ToolResult)
      → load_unit ctx ≡ ok (some unit)
      → handle date_parse now load_unit tool ctx args ≡ ok result
      → AllIn (known_ids unit) result.record_ids
  unfolding handle settlement_breakup fee_tax_lines bank_credit refund_list related_adjustments
      ledger_entries expected_net_amount tax_line_mapping
  handle-in unit get_settlement_breakup ctx args result h e =
      with_unit-in unit get_settlement_breakup settlement_breakup (load_unit ctx) result h e
        ((unit-HasParts unit).payment_in, (unit-HasParts unit).settlements_in)
  handle-in unit get_fee_tax_lines ctx args result h e =
      with_unit-in unit get_fee_tax_lines fee_tax_lines (load_unit ctx) result h e (fee_ids-in unit)
  handle-in unit get_bank_credit ctx args result h e =
      with_unit-in unit get_bank_credit (bank_credit args) (load_unit ctx) result h e
        (unit-HasParts unit).credits_in
  handle-in unit get_refunds ctx args result h e =
      with_unit-in unit get_refunds refund_list (load_unit ctx) result h e
        (unit-HasParts unit).refunds_in
  handle-in unit search_related_adjustments ctx args result h e =
      with_unit-in unit search_related_adjustments related_adjustments (load_unit ctx) result h e
        (unit-HasParts unit).adjustments_in
  handle-in unit get_ledger_entries ctx args result h e =
      with_unit-in unit get_ledger_entries ledger_entries (load_unit ctx) result h e
        ((unit-HasParts unit).payment_in, tt)
  handle-in unit get_fee_schedule ctx args result h e =
      let same : fee_schedule_of (schedule_time date_parse now load_unit args.effective_date)
          ≡ result =
        cc in
      subst (λ r. AllIn (known_ids unit) r.record_ids) same (fee_schedule-in (known_ids unit) _)
  handle-in unit calculate_expected_net_amount ctx args result h e =
      with_unit-in unit calculate_expected_net_amount expected_net_amount (load_unit ctx) result h e
        (expected_net-in unit (expected_net_from_records (observed_input unit)))
  handle-in unit validate_tax_line_mapping ctx args result h e =
      with_unit-in unit validate_tax_line_mapping (tax_line_mapping now) (load_unit ctx) result h e
        (fee_ids-in unit)

  caught-in :
      (unit : ReconciliationUnit) (tool : ToolName) (r : Result String ToolResult)
      → ((result : ToolResult) → r ≡ ok result → AllIn (known_ids unit) result.record_ids)
      → AllIn (known_ids unit) (caught tool r).record_ids
  unfolding tool_error
  caught-in unit tool (err message) h = tt
  caught-in unit tool (ok result) h = h result refl

  valid-in :
      (unit : ReconciliationUnit) (tool : ToolName) (ctx : ToolContext)
      (args : Result ArgumentFault ToolArguments)
      → load_unit ctx ≡ ok (some unit)
      → AllIn (known_ids unit) (invoke_valid date_parse now load_unit ctx tool args).record_ids
  unfolding invoke_valid tool_error
  valid-in unit tool ctx (err fault) h = tt
  valid-in unit tool ctx (ok args) h =
      caught-in unit tool (handle date_parse now load_unit tool ctx args)
        (λ result. handle-in unit tool ctx args result h)

  -- The evidence that any call of a tool returns, whatever name and arguments a model gives, is of
  -- records of the unit that is loaded for the context's scope and payment.
  pub invoke-in_scope :
      (unit : ReconciliationUnit) (ctx : ToolContext) (name : String) (args : ToolArguments)
      → load_unit ctx ≡ ok (some unit)
      → AllIn (known_ids unit) (invoke date_parse now load_unit ctx name args).record_ids
  unfolding invoke tool_error
  invoke-in_scope unit ctx name args h = elim (Option-cases (parse_tool name)) [
    | inl unknown ↦ rw (unknown, invoke) tt
    | inr (tool, known) ↦
        rw (known, invoke) (valid-in unit tool ctx (validate_arguments date_parse args) h)
  ]
