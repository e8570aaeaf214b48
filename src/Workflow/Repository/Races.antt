-- ===== src/Workflow/Repository/Races.antt =====
-- What a transition does when other writers come between its read and its write.
use settlement_ops.Base.{
  ==_iff, Bool, Bool-cases, Option, Result, Result-cases, String, ap, arith, err, false, inl, inr,
  is_ok, none, ok, refl, some, str_eq_iff, subst, sym, true, ℤ, ◌&&◌, ◌+◌, ◌==◌, ◌∙◌, ◌≡◌, ◌≢◌,
}
use settlement_ops.Case.Transitions.{is_actor_permitted, requires_outcome_record}
use settlement_ops.Workflow.Repository.{
  CaseRow, CaseTable, MoveFailure, MoveRequest, MoveResult, advanced, after_check, check_move,
  guarded_row, of_merchant, select_case, set_row, transition, write_case,
}
use settlement_ops.Case.State.{CaseState, state_eq, state_eq_iff}

-- The facts of a move that took place, of the row that the write met.
pub record IsMove (merchant : String) (input : MoveRequest) (table after : CaseTable)
    (done : MoveResult) : Type 0 where
  pub before : CaseRow
  pub met : table input.case_id ≡ some before
  pub own : before.merchant_id ≡ merchant
  pub current : before.case_version ≡ input.expected_version
  pub permitted : is_actor_permitted before.state input.to input.actor ≡ true
  pub outcome : requires_outcome_record before.state input.to ≡ true → input.outcome_recorded ≡ true
  pub from_state : done.previous_state ≡ before.state
  pub to_state : done.next_state ≡ input.to
  pub version : done.case_version ≡ before.case_version + 1
  pub now_row :
      (row : CaseRow) × (after input.case_id ≡ some row)
      × (row.state ≡ input.to)
      × (row.case_version ≡ before.case_version + 1)
      × (row.merchant_id ≡ merchant)
  pub others : (k : String) → k ≢ input.case_id → after k ≡ table k

write-err_unchanged :
    (merchant : String) (input : MoveRequest) (from : CaseState) (table : CaseTable)
    (o : Option CaseRow) (e : MoveFailure)
    → (write_case merchant input from table o).1 ≡ err e
    → (write_case merchant input from table o).0 ≡ table
unfolding write_case
write-err_unchanged merchant input from table none e h = refl
write-err_unchanged merchant input from table (some row) e h = cc

after-err_unchanged :
    (now : ℤ) (merchant : String) (input : MoveRequest) (table : CaseTable)
    (r : Result MoveFailure CaseState) (e : MoveFailure)
    → (after_check now merchant input table r).1 ≡ err e
    → (after_check now merchant input table r).0 ≡ table
unfolding after_check
after-err_unchanged now merchant input table (err f) e h = refl
after-err_unchanged now merchant input table (ok from) e h =
    write-err_unchanged merchant input from table
      (guarded_row now input from (select_case merchant input.case_id table)) e h

check_move-ok :
    (input : MoveRequest) (o : Option CaseRow) (from : CaseState)
    → check_move input o ≡ ok from
    → (is_actor_permitted from input.to input.actor ≡ true)
      × (requires_outcome_record from input.to ≡ true → input.outcome_recorded ≡ true)
unfolding check_move
check_move-ok input none from h = cc
check_move-ok input (some row) from h = ground arith

pub of_merchant-some :
    (merchant : String) (o : Option CaseRow) (row : CaseRow)
    → of_merchant merchant o ≡ some row
    → (o ≡ some row) × (row.merchant_id ≡ merchant)
of_merchant-some merchant none row h = cc
of_merchant-some merchant (some b) row h = ground (arith, str_eq_iff b.merchant_id merchant)

none-ne-some : {row : CaseRow} → none ≡ some row → ⊥
none-ne-some e = cc

some-injective : {a b : CaseRow} → some a ≡ some b → a ≡ b
some-injective e = cc

both_true : {a b : Bool} → (a && b) ≡ true → (a ≡ true) × (b ≡ true)
both_true h = ground arith

-- What the guard admits.
guarded_row-some :
    (now : ℤ) (input : MoveRequest) (from : CaseState) (o : Option CaseRow) (row : CaseRow)
    → guarded_row now input from o ≡ some row
    → (b : CaseRow) × (o ≡ some b)
      × (b.state ≡ from)
      × (b.case_version ≡ input.expected_version)
      × (row ≡ advanced now input b)
unfolding guarded_row
guarded_row-some now input from none row h = cc
guarded_row-some now input from (some b) row h =
    elim (Bool-cases (state_eq b.state from && b.case_version == input.expected_version)) [
      | inr unmet ↦ absurd (none-ne-some (rw (unmet, guarded_row) at h))
      | inl met ↦
          let e : advanced now input b ≡ row = some-injective (rw (met, guarded_row) at h) in
          let (same, version) = both_true met in
          (
            b,
            refl,
            (state_eq_iff b.state from).0 same,
            (==_iff b.case_version input.expected_version).0 version,
            sym e,
          )
    ]

-- The case that was written, and the result.
write_case-ok :
    (merchant : String) (input : MoveRequest) (from : CaseState) (table : CaseTable)
    (o : Option CaseRow) (done : MoveResult)
    → (write_case merchant input from table o).1 ≡ ok done
    → (row : CaseRow) × (o ≡ some row)
      × ((write_case merchant input from table o).0 ≡ set_row input.case_id row table)
      × (done.previous_state ≡ from)
      × (done.next_state ≡ input.to)
      × (done.case_version ≡ row.case_version)
unfolding write_case
write_case-ok merchant input from table none done h = cc
write_case-ok merchant input from table (some row) done h =
    let (p, n, v) = fields in (row, refl, refl, p, n, v)
  where
    fields :
        (done.previous_state ≡ from)
        × (done.next_state ≡ input.to)
        × (done.case_version ≡ row.case_version)
    fields = ground arith

-- The state that the tests admitted, when the chain succeeds.
after_check-ok :
    (now : ℤ) (merchant : String) (input : MoveRequest) (table : CaseTable)
    (r : Result MoveFailure CaseState) (done : MoveResult)
    → (after_check now merchant input table r).1 ≡ ok done
    → (from : CaseState) × (r ≡ ok from)
unfolding after_check
after_check-ok now merchant input table (err e) done h = cc
after_check-ok now merchant input table (ok from) done h = (from, refl)

pub set_row-same :
    (id : String) (row : CaseRow) (table : CaseTable) → set_row id row table id ≡ some row
set_row-same id row table = rw ((str_eq_iff id id).1 refl) refl

set_row-other :
    (id k : String) (row : CaseRow) (table : CaseTable) → k ≢ id → set_row id row table k ≡ table k
set_row-other id k row table h = ground (arith, str_eq_iff k id)

-- A transition that fails changes nothing, whatever the other writers did before its write.
pub transition-err_unchanged :
    (now : ℤ) (merchant : String) (input : MoveRequest) (seen table : CaseTable) (e : MoveFailure)
    → (transition now merchant input seen table).1 ≡ err e
    → (transition now merchant input seen table).0 ≡ table
unfolding transition
transition-err_unchanged now merchant input seen table e h =
    after-err_unchanged now merchant input table
      (check_move input (select_case merchant input.case_id seen)) e h

-- What a transition that succeeds writes: the row as it stood at the write, advanced.
pub transition-writes :
    (now : ℤ) (merchant : String) (input : MoveRequest) (seen table : CaseTable) (done : MoveResult)
    → (transition now merchant input seen table).1 ≡ ok done
    → (b : CaseRow) × (from : CaseState) × (check_move input
          (select_case merchant input.case_id seen)
        ≡ ok from)
      × (select_case merchant input.case_id table ≡ some b)
      × (b.state ≡ from)
      × (b.case_version ≡ input.expected_version)
      × ((transition now merchant input seen table).0
          ≡ set_row input.case_id (advanced now input b) table)
      × (done.previous_state ≡ from)
      × (done.next_state ≡ input.to)
      × (done.case_version ≡ b.case_version + 1)
unfolding transition after_check select_case
transition-writes now merchant input seen table done h =
    let r = check_move input (select_case merchant input.case_id seen) in
    let (from, admitted) = after_check-ok now merchant input table r done h in
    let guarded = guarded_row now input from (select_case merchant input.case_id table) in
    let (row, changed, after_eq, prev, next, version) =
      write_case-ok merchant input from table guarded done (rw (admitted, after_check) at h) in
    let (b, found, same, current, is_advanced) =
      guarded_row-some now input from (select_case merchant input.case_id table) row changed in
    (
      b,
      from,
      admitted,
      found,
      same,
      current,
      ap (λ x. (after_check now merchant input table x).0) admitted
          ∙ (after_eq ∙ ap (λ x. set_row input.case_id x table) is_advanced),
      prev,
      next,
      version ∙ ap (λ x. x.case_version) is_advanced,
    )

-- A transition that succeeds has moved the row as it stood at the write: of this merchant, of the
-- expected version, in the state it read, by a move that the table permits to the actor, with an
-- outcome where one is required; and no other row has changed.
pub transition-IsMove :
    (now : ℤ) (merchant : String) (input : MoveRequest) (seen table : CaseTable) (done : MoveResult)
    → (transition now merchant input seen table).1 ≡ ok done
    → IsMove merchant input table (transition now merchant input seen table).0 done
unfolding select_case
transition-IsMove now merchant input seen table done h =
    let (b, from, admitted, found, same, current, after_row, prev, next, version) =
      transition-writes now merchant input seen table done h in
    let (permitted, outcome) =
      check_move-ok input (select_case merchant input.case_id seen) from admitted in
    let (met, own) = of_merchant-some merchant (table input.case_id) b found in
    record {
      before = b;
      met = met;
      own = own;
      current = current;
      permitted =
          subst (λ x. is_actor_permitted x input.to input.actor ≡ true) (sym same) permitted;
      outcome =
          subst (λ x. requires_outcome_record x input.to ≡ true → input.outcome_recorded ≡ true)
            (sym same) outcome;
      from_state = prev ∙ sym same;
      to_state = next;
      version = version;
      now_row = (
        advanced now input b,
        ap (λ t. t input.case_id) after_row
            ∙ set_row-same input.case_id (advanced now input b) table,
        refl,
        refl,
        own,
      );
      others = λ k apart.
          ap (λ t. t k) after_row
          ∙ set_row-other input.case_id k (advanced now input b) table apart;
    }

-- Of two transitions of a case that expect the same version, the second to write fails, whatever
-- either of them had read.
pub second_writer_refused :
    (now later : ℤ) (merchant other : String) (p q : MoveRequest) (seen read table : CaseTable)
    (done : MoveResult)
    → (transition now merchant p seen table).1 ≡ ok done
    → q.case_id ≡ p.case_id
    → q.expected_version ≡ p.expected_version
    → is_ok (transition later other q read (transition now merchant p seen table).0).1 ≡ false
second_writer_refused now later merchant other p q seen read table done h same_case same_version =
    elim (Result-cases (transition later other q read after).1) [
      | inr (e, refused) ↦ rw refused refl
      | inl (again, moved) ↦ absurd (clash (transition-IsMove later other q read after again moved))
    ]
  where
    after : CaseTable
    after = (transition now merchant p seen table).0

    first : IsMove merchant p table after done
    first = transition-IsMove now merchant p seen table done h

    clash : {again : MoveResult} {end : CaseTable} → IsMove other q after end again → ⊥
    clash second =
        let (row, here, to, version, own) = first.now_row in
        let same : row ≡ second.before =
          some-injective (sym here ∙ (ap after (sym same_case) ∙ second.met)) in
        omega (
          arith,
          version,
          first.current,
          second.current,
          same_version,
          ap (λ r. r.case_version) same,
        )
