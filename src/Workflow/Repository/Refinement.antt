-- ===== src/Workflow/Repository/Refinement.antt =====
-- The table of cases refines the case aggregate: whatever the order in which the writers of the
-- adapter interleave (packages/persistence/src/repositories/workflow-repositories.ts), each case
-- goes through a history of the domain's own transitions (packages/domain/src/case/).
use settlement_ops.Base.{
  Bool, Bool-cases, List, Result, Result-cases, String, [], ap, arith, false, if◌then◌else◌, inl,
  inr, is_ok, ok, some, str_eq, str_eq_iff, subst, sym, true, true-ne-false, ℤ, ◌&&◌, ◌∙◌, ◌∷◌, ◌≡◌,
}
use settlement_ops.Case.Transitions.{can_transition, is_actor_permitted, requires_outcome_record}
use settlement_ops.Case.Transitions.Laws.{permitted_can}
use settlement_ops.Case.Aggregate.{ReconciliationCase, TransitionRequest, apply_transition}
use settlement_ops.Case.Aggregate.Laws.{IsAccepted}
use settlement_ops.Workflow.Repository.{
  CaseRow, CaseTable, MoveFailure, MoveRequest, MoveResult, advanced, select_case, set_row,
  transition,
}
use settlement_ops.Case.Aggregate.Runs.{Run, step}
use settlement_ops.Workflow.Repository.Races.{
  of_merchant-some, set_row-same, transition-IsMove, transition-err_unchanged, transition-writes,
}

-- One call of `transition`, with the table that it read: what it has seen may be out of date.
pub record Attempt : Type 0 where
  pub now : ℤ
  pub merchant : String
  pub input : MoveRequest
  pub seen : CaseTable

abbrev pub attempt : Attempt → CaseTable → CaseTable × Result MoveFailure MoveResult
attempt a table = transition a.now a.merchant a.input a.seen table

-- The writes of several callers, in the order in which they reach the table.
unfoldable pub replay : List Attempt → CaseTable → CaseTable
replay [] table = table
replay (a ∷ rest) table = replay rest (attempt a table).0

-- The request that an attempt makes of the aggregate.
abbrev pub request_of : Attempt → TransitionRequest
request_of a = record {
  to = a.input.to;
  actor = a.input.actor;
  expected_version = a.input.expected_version;
  outcome_recorded = a.input.outcome_recorded;
  at = a.now;
}

-- The attempts on a case that succeed, as requests of the aggregate.
unfoldable pub applied_to : String → List Attempt → CaseTable → List TransitionRequest
applied_to id [] table = []
applied_to id (a ∷ rest) table =
    let others = applied_to id rest (attempt a table).0 in
    if str_eq a.input.case_id id && is_ok (attempt a table).1 then request_of a ∷ others else others

-- The aggregate that a row stands for: what the row does not hold is as in `base`.
abbrev pub as_case : ReconciliationCase → CaseRow → ReconciliationCase
as_case base row = record base {
  merchant_id = row.merchant_id;
  state = row.state;
  case_version = row.case_version;
  closed_at = row.closed_at;
}

apply-advanced :
    (base : ReconciliationCase) (a : Attempt) (b : CaseRow)
    → IsAccepted (as_case base b) (request_of a)
    → apply_transition (as_case base b) (request_of a)
      ≡ ok (as_case base (advanced a.now a.input b))
unfolding apply_transition
apply-advanced base a b h =
    let can : can_transition b.state a.input.to ≡ true =
      permitted_can b.state a.input.to a.input.actor h.permitted in
    let outcome : requires_outcome_record b.state a.input.to ≡ true
        → a.input.outcome_recorded ≡ true =
      h.outcome in
    ground (arith, h.version, h.permitted)

-- What an attempt does to the row of a case: a transition of the aggregate, or nothing.
data Effect (base : ReconciliationCase) (id : String) (a : Attempt) (table : CaseTable)
    (row : CaseRow) : Type 0 where
  moves :
      (row' : CaseRow)
      → (str_eq a.input.case_id id && is_ok (attempt a table).1) ≡ true
      → (attempt a table).0 id ≡ some row'
      → apply_transition (as_case base row) (request_of a) ≡ ok (as_case base row')
      → Effect base id a table row
  stays :
      (str_eq a.input.case_id id && is_ok (attempt a table).1) ≡ false
      → (attempt a table).0 id ≡ some row
      → Effect base id a table row

some-injective : {a b : CaseRow} → some a ≡ some b → a ≡ b
some-injective e = cc

both : {a b : Bool} → a ≡ true → b ≡ true → (a && b) ≡ true
both p q = ground arith

right_false : (a : Bool) {b : Bool} → b ≡ false → (a && b) ≡ false
right_false a h = ground arith

left_false : {a : Bool} (b : Bool) → a ≡ false → (a && b) ≡ false
left_false b h = ground arith

moved-Effect :
    (base : ReconciliationCase) (id : String) (a : Attempt) (table : CaseTable) (row : CaseRow)
    (done : MoveResult)
    → table id ≡ some row
    → (attempt a table).1 ≡ ok done
    → Effect base id a table row
unfolding select_case
moved-Effect base id a table row done present done_eq =
    elim (Bool-cases (str_eq a.input.case_id id)) [
      | inl same ↦
          let at_id : a.input.case_id ≡ id = (str_eq_iff a.input.case_id id).0 same in
          let (b, from, admitted, found, state, current, after, prev, next, version) =
            transition-writes a.now a.merchant a.input a.seen table done done_eq in
          let move = transition-IsMove a.now a.merchant a.input a.seen table done done_eq in
          let met : b ≡ row = some-injective (
            sym (of_merchant-some a.merchant (table a.input.case_id) b found).0
            ∙ (ap table at_id ∙ present)) in
          let old : move.before ≡ row =
            some-injective (sym move.met ∙ (ap table at_id ∙ present)) in
          moves (advanced a.now a.input row) (both same (ap is_ok done_eq))
            (ap (λ t. t id) after
              ∙ (ap (λ k. set_row k (advanced a.now a.input b) table id) at_id
                  ∙ (set_row-same id (advanced a.now a.input b) table
                      ∙ ap (λ r. some (advanced a.now a.input r)) met)))
            (apply-advanced base a row (record {
              version = ap (λ r. r.case_version) (sym old) ∙ move.current;
              permitted =
                  subst (λ r. is_actor_permitted r.state a.input.to a.input.actor ≡ true) old
                    move.permitted;
              outcome =
                  subst
                    (λ r.
                      requires_outcome_record r.state a.input.to ≡ true
                      → a.input.outcome_recorded ≡ true)
                    old move.outcome;
            }))
      | inr apart ↦
          let move = transition-IsMove a.now a.merchant a.input a.seen table done done_eq in
          stays (left_false _ apart) (
            move.others id
              (λ e. true-ne-false (sym ((str_eq_iff a.input.case_id id).1 (sym e)) ∙ apart))
            ∙ present)
    ]

attempt-Effect :
    (base : ReconciliationCase) (id : String) (a : Attempt) (table : CaseTable) (row : CaseRow)
    → table id ≡ some row
    → Effect base id a table row
attempt-Effect base id a table row present = elim (Result-cases (attempt a table).1) [
  | inl (done, moved) ↦ moved-Effect base id a table row done present moved
  | inr (e, refused) ↦ stays (right_false _ (ap is_ok refused)) (
      ap (λ t. t id) (transition-err_unchanged a.now a.merchant a.input a.seen table e refused)
      ∙ present)
]

-- However the transitions of many callers interleave, each with its own and possibly outdated view
-- of the table, the row of a case ends where a history of the domain's `apply_transition` takes it
-- from the row it began with: the history of the requests that the adapter reported as done, in the
-- order of their writes.
pub replay_refines :
    (base : ReconciliationCase) (id : String) (schedule : List Attempt) (table : CaseTable)
    (row : CaseRow)
    → table id ≡ some row
    → (end : CaseRow) × (replay schedule table id ≡ some end)
      × Run (as_case base row) (as_case base end) (applied_to id schedule table)
unfolding replay applied_to
replay_refines base id [] table row present = (row, present, Run.here)
replay_refines base id (a ∷ rest) table row present =
    elim (attempt-Effect base id a table row present) [
      | moves row' counted next made ↦
          let (end, at_end, run) = replay_refines base id rest (attempt a table).0 row' next in
          (end, at_end, rw counted (step made run))
      | stays not_counted next ↦
          let (end, at_end, run) = replay_refines base id rest (attempt a table).0 row next in
          (end, at_end, rw not_counted run)
    ]
