-- ===== src/Workflow/Repository.antt =====
-- The transition adapter (createCaseTransitionRepository of
-- packages/persistence/src/repositories/workflow-repositories.ts).
pub mod Races
pub mod Refinement
use settlement_ops.Base.{
  Bool, Option, Result, String, err, fail_if, if◌then◌else◌, none, not, ok, some, str_eq, ℕ, ℤ,
  ◌&&◌, ◌+◌, ◌==◌, ◌>>◌,
}
use settlement_ops.Case.State.{CaseState, TransitionActor, closed, state_eq}
use settlement_ops.Case.Transitions.{can_transition, is_actor_permitted, requires_outcome_record}

-- The columns of `reconciliation_cases` that the adapter reads and writes. A CHECK on the table
-- admits the names of the states alone, so the state is one.
pub record CaseRow : Type 0 where
  pub merchant_id : String
  pub state : CaseState
  pub case_version : ℕ
  pub closed_at : Option ℤ

-- The table by its primary key, the case's id.
abbrev pub CaseTable : Type 0
CaseTable = String → Option CaseRow

pub record MoveRequest : Type 0 where
  pub case_id : String
  pub to : CaseState
  pub actor : TransitionActor
  pub expected_version : ℕ
  pub outcome_recorded : Bool

-- `CaseTransitionResult`
pub record MoveResult : Type 0 where
  pub case_id : String
  pub previous_state : CaseState
  pub next_state : CaseState
  pub case_version : ℕ

-- `TransitionFailure`. The version of a conflict is -1 in the source where the case is gone.
pub data MoveFailure : Type 0 where
  not_found : MoveFailure
  stale_version : Option ℕ → MoveFailure
  illegal_move : (from to : CaseState) → MoveFailure
  actor_refused : (from to : CaseState) → TransitionActor → MoveFailure
  outcome_missing : MoveFailure

-- `WHERE id = $1 AND merchant_id = $2`
abbrev of_merchant : String → Option CaseRow → Option CaseRow
of_merchant merchant none = none
of_merchant merchant (some row) = if str_eq row.merchant_id merchant then some row else none

unfoldable pub select_case : String → String → CaseTable → Option CaseRow
select_case merchant id table = of_merchant merchant (table id)

-- `currentState`
unfoldable pub current_state : String → String → CaseTable → Option (CaseState × ℕ)
unfolding select_case
current_state merchant id table = elim (select_case merchant id table) [
  | none ↦ none
  | some row ↦ some (row.state, row.case_version)
]

-- The tests between the read and the write; the result is the state that was read.
unfoldable pub check_move : MoveRequest → Option CaseRow → Result MoveFailure CaseState
check_move input none = err not_found
check_move input (some row) = do
  fail_if (not (row.case_version == input.expected_version)) (stale_version (some row.case_version))
  fail_if (not (can_transition row.state input.to)) (illegal_move row.state input.to)
  fail_if (not (is_actor_permitted row.state input.to input.actor))
      (actor_refused row.state input.to input.actor)
  fail_if (requires_outcome_record row.state input.to && not input.outcome_recorded) outcome_missing
  ok row.state

-- The SET clause of the UPDATE.
abbrev pub advanced : ℤ → MoveRequest → CaseRow → CaseRow
advanced now input row = record row {
  state = input.to;
  case_version = row.case_version + 1;
  closed_at = if state_eq input.to closed then some now else row.closed_at;
}

-- The row that the guarded UPDATE changes, if the one of the table's meets its WHERE clause.
unfoldable pub guarded_row : ℤ → MoveRequest → CaseState → Option CaseRow → Option CaseRow
guarded_row now input from none = none
guarded_row now input from (some row) =
    if state_eq row.state from && row.case_version == input.expected_version
    then some (advanced now input row)
    else none

abbrev pub set_row : String → CaseRow → CaseTable → CaseTable
set_row id row table = λ k. if str_eq k id then some row else table k

abbrev version_of : Option CaseRow → Option ℕ
version_of none = none
version_of (some row) = some row.case_version

-- After the UPDATE: the row that it returned, or a conflict.
write_case :
    String
    → MoveRequest
    → CaseState
    → CaseTable
    → Option CaseRow
    → CaseTable × Result MoveFailure MoveResult
write_case merchant input from table (some row) = (
  set_row input.case_id row table,
  ok (record {
    case_id = input.case_id;
    previous_state = from;
    next_state = input.to;
    case_version = row.case_version;
  }),
)
write_case merchant input from table none =
    (table, err (stale_version (version_of (select_case merchant input.case_id table))))

after_check :
    ℤ
    → String
    → MoveRequest
    → CaseTable
    → Result MoveFailure CaseState
    → CaseTable × Result MoveFailure MoveResult
unfolding write_case guarded_row select_case
after_check now merchant input table (err failure) = (table, err failure)
after_check now merchant input table (ok from) =
    write_case merchant input from table
      (guarded_row now input from (select_case merchant input.case_id table))

-- `transition`: `seen` is the table at the read, `table` the one at the write, which other writers
-- may have changed in between.
unfoldable pub transition :
    ℤ → String → MoveRequest → CaseTable → CaseTable → CaseTable × Result MoveFailure MoveResult
unfolding after_check check_move select_case
transition now merchant input seen table =
    after_check now merchant input table
      (check_move input (select_case merchant input.case_id seen))
