-- ===== src/Workflow/Reconcile/Laws.antt =====
-- What a reconciliation run counts, which cases it opens and what it logs.
use settlement_ops.Base.{
  All, Bool, Bool-cases, List, Option, Option-cases, String, [], any, ap, arith, false, first, inl,
  inr, none, not, refl, some, str_eq_iff, subst, sym, true, true-ne-false, ℕ, ◌++◌, ◌+◌, ◌||◌, ◌∙◌,
  ◌∷◌, ◌≡◌,
}
use settlement_ops.Reconciliation.Unit.{
  Outcome, ReconciliationUnit, ReconciliationVerdict, exception, reconciled,
}
use settlement_ops.Reconciliation.Matcher.{reconcile_unit}
use settlement_ops.Tools.Lookups.{take}
use settlement_ops.Workflow.{RequestContext}
use settlement_ops.Workflow.Reconcile.{
  ResidualCase, ResidualEvent, ResidualInput, RunDeps, Tally, after_creation, case_created,
  create_residual, creation_threw, existed, fresh_tally, has_case_id, has_number, is_case_of,
  is_own_case, next_input, one_more, residual_row, run_reconciliation, tally_all, tally_unit,
  tally_verdict,
}

-- A case that a run opened: of this run and tenant, for a payment whose unit has an exception.
pub record IsResidual (deps : RunDeps) (ctx : RequestContext) (run_id : String) (row : ResidualCase)
    : Type 0 where
  pub of_run : row.run_id ≡ run_id
  pub of_tenant : row.merchant_id ≡ ctx.tenant_id
  pub unit : ReconciliationUnit
  pub loaded : deps.load_unit row.payment_id ≡ some unit
  pub failed : (reconcile_unit unit).outcome ≡ exception
  pub judged : row.verdict ≡ reconcile_unit unit

-- The event of a case that a run opened.
pub record IsEventOf (ctx : RequestContext) (row : ResidualCase) (event : ResidualEvent)
    : Type 0 where
  pub tenant : event.tenant ≡ ctx.tenant_id
  pub entity : event.entity_id ≡ row.id
  pub correlation : event.correlation_id ≡ ctx.correlation_id
  pub verdict : event.verdict ≡ row.verdict

-- The cases that a run opened, the last one first, and their events, the last one last.
pub data IsOpened (deps : RunDeps) (ctx : RequestContext) (run_id : String)
    : List ResidualCase → List ResidualEvent → Type 0 where
  opened_none : IsOpened deps ctx run_id [] []
  opened_more :
      {row : ResidualCase} {event : ResidualEvent} {new : List ResidualCase}
      {events : List ResidualEvent}
      → IsResidual deps ctx run_id row
      → IsEventOf ctx row event
      → IsOpened deps ctx run_id new events
      → IsOpened deps ctx run_id (row ∷ new) (events ++ (event ∷ []))

abbrev is_reconciled : Outcome → Bool
is_reconciled reconciled = true
is_reconciled exception = false

-- Whether a payment has a unit, one that reconciles, or one that does not.
abbrev pub is_loaded : RunDeps → String → Bool
is_loaded deps payment_id = elim (deps.load_unit payment_id) [ none ↦ false | some unit ↦ true ]

abbrev pub ends_reconciled : RunDeps → String → Bool
ends_reconciled deps payment_id = elim (deps.load_unit payment_id) [
  | none ↦ false
  | some unit ↦ is_reconciled (reconcile_unit unit).outcome
]

abbrev pub ends_residual : RunDeps → String → Bool
ends_residual deps payment_id = elim (deps.load_unit payment_id) [
  | none ↦ false
  | some unit ↦ not (is_reconciled (reconcile_unit unit).outcome)
]

abbrev one_if : Bool → ℕ
one_if true = 1
one_if false = 0

abbrev pub count_of : (String → Bool) → List String → ℕ
count_of p [] = 0
count_of p (x ∷ xs) = one_if (p x) + count_of p xs

-- What holds between the tally before some payments and the one after.
pub record IsTally (deps : RunDeps) (ctx : RequestContext) (run_id : String)
    (payments : List String) (before after : Tally) : Type 0 where
  pub evaluated : after.evaluated ≡ before.evaluated + count_of (is_loaded deps) payments
  pub reconciled_ones :
      after.reconciled_count ≡ before.reconciled_count + count_of (ends_reconciled deps) payments
  pub residual_ones : after.residual ≡ before.residual + count_of (ends_residual deps) payments
  pub new : List ResidualCase
  pub events : List ResidualEvent
  pub cases : after.cases ≡ new ++ before.cases
  pub log : after.log ≡ before.log ++ events
  pub opened : IsOpened deps ctx run_id new events
  pub covered :
      All (λ p. ends_residual deps p ≡ true → any (is_case_of run_id p) after.cases ≡ true) payments

append_assoc : {A : Type 0} (xs ys zs : List A) → (xs ++ ys) ++ zs ≡ xs ++ (ys ++ zs)
append_assoc [] ys zs = refl
append_assoc (x ∷ xs) ys zs = ap (λ l. x ∷ l) (append_assoc xs ys zs)

append-nil : {A : Type 0} (xs : List A) → xs ≡ xs ++ []
append-nil [] = refl
append-nil (x ∷ xs) = ap (λ l. x ∷ l) (append-nil xs)

any-later :
    (p : ResidualCase → Bool) (new old : List ResidualCase)
    → any p old ≡ true
    → any p (new ++ old) ≡ true
unfolding any
any-later p [] old h = h
any-later p (row ∷ new) old h = let rest = any-later p new old h in ground arith

module _ (deps : RunDeps) (ctx : RequestContext) (run_id : String) where
  IsOpened-then :
      (new more : List ResidualCase) (events later : List ResidualEvent)
      → IsOpened deps ctx run_id new events
      → IsOpened deps ctx run_id more later
      → IsOpened deps ctx run_id (more ++ new) (events ++ later)
  IsOpened-then new more events later h opened_none =
      subst (IsOpened deps ctx run_id new) (append-nil events) h
  IsOpened-then new more events later h
        (opened_more {row} {event} {new = last} {events = before} r e k) =
      subst (IsOpened deps ctx run_id (row ∷ (last ++ new)))
        (append_assoc events before (event ∷ []))
        (opened_more r e (IsOpened-then new last events before h k))

  IsTally-self : (tally : Tally) → IsTally deps ctx run_id [] tally tally
  IsTally-self tally = record {
    evaluated = omega arith;
    reconciled_ones = omega arith;
    residual_ones = omega arith;
    new = [];
    events = [];
    cases = refl;
    log = append-nil tally.log;
    opened = opened_none;
    covered = tt;
  }

  IsTally-then :
      (payment_id : String) (rest : List String) (a b c : Tally)
      → IsTally deps ctx run_id (payment_id ∷ []) a b
      → IsTally deps ctx run_id rest b c
      → IsTally deps ctx run_id (payment_id ∷ rest) a c
  IsTally-then payment_id rest a b c h k = record {
    evaluated = omega (arith, h.evaluated, k.evaluated);
    reconciled_ones = omega (arith, h.reconciled_ones, k.reconciled_ones);
    residual_ones = omega (arith, h.residual_ones, k.residual_ones);
    new = k.new ++ h.new;
    events = h.events ++ k.events;
    cases = k.cases ∙ (ap (λ l. k.new ++ l) h.cases ∙ sym (append_assoc k.new h.new a.cases));
    log = k.log ∙ (ap (λ l. l ++ k.events) h.log ∙ append_assoc a.log h.events k.events);
    opened = IsOpened-then h.new k.new h.events k.events h.opened k.opened;
    covered = (
      λ residual.
          ap (any (is_case_of run_id payment_id)) k.cases
          ∙ any-later (is_case_of run_id payment_id) k.new b.cases (h.covered.0 residual),
      k.covered,
    );
  }

  some-injective : {a b : Tally} → some a ≡ some b → a ≡ b
  some-injective e = cc

  -- How a payment counts, by its outcome.
  Counts : String → Bool → Bool → Bool → Type 0
  Counts payment_id loaded good bad =
      (is_loaded deps payment_id ≡ loaded)
      × (ends_reconciled deps payment_id ≡ good)
      × (ends_residual deps payment_id ≡ bad)

  none-Counts :
      (payment_id : String) → deps.load_unit payment_id ≡ none → Counts payment_id false false false
  unfolding Counts
  none-Counts payment_id h =
      (rw (h, is_loaded) refl, rw (h, ends_reconciled) refl, rw (h, ends_residual) refl)

  some-Counts :
      (payment_id : String) (unit : ReconciliationUnit)
      → deps.load_unit payment_id ≡ some unit
      → Counts payment_id true
          (is_reconciled (reconcile_unit unit).outcome)
          (not (is_reconciled (reconcile_unit unit).outcome))
  unfolding Counts
  some-Counts payment_id unit h =
      (rw (h, is_loaded) refl, rw (h, ends_reconciled) refl, rw (h, ends_residual) refl)

  -- The tally with no case more.
  same_cases :
      (payment_id : String) (loaded good bad : Bool) (tally out next : Tally)
      → some next ≡ some out
      → Counts payment_id loaded good bad
      → next.cases ≡ tally.cases
      → next.log ≡ tally.log
      → next.evaluated ≡ tally.evaluated + one_if loaded
      → next.reconciled_count ≡ tally.reconciled_count + one_if good
      → next.residual ≡ tally.residual + one_if bad
      → (bad ≡ true → any (is_case_of run_id payment_id) tally.cases ≡ true)
      → IsTally deps ctx run_id (payment_id ∷ []) tally out
  unfolding Counts
  same_cases payment_id loaded good bad tally out next h counts cases log c0 c1 c2 has =
      subst (IsTally deps ctx run_id (payment_id ∷ []) tally) (some-injective h) (record {
        evaluated = omega (arith, c0, ap one_if counts.0);
        reconciled_ones = omega (arith, c1, ap one_if counts.1);
        residual_ones = omega (arith, c2, ap one_if counts.2);
        new = [];
        events = [];
        cases = cases;
        log = log ∙ append-nil tally.log;
        opened = opened_none;
        covered = (
          λ residual. ap (any (is_case_of run_id payment_id)) cases ∙ has (sym counts.2 ∙ residual),
          tt,
        );
      })

  covers :
      (payment_id : String) (input : ResidualInput) (cases : List ResidualCase)
      → input.run_id ≡ run_id
      → input.payment_id ≡ payment_id
      → any (is_case_of run_id payment_id) (residual_row ctx.tenant_id input ∷ cases) ≡ true
  unfolding any
  covers payment_id input cases of_run of_payment =
      let h = (str_eq_iff input.run_id run_id).1 of_run in
      let k = (str_eq_iff input.payment_id payment_id).1 of_payment in rw (h, k) refl

  -- The tally with one residual more, a case and its event.
  opened_one :
      (payment_id : String) (unit : ReconciliationUnit) (tally out : Tally)
      → deps.load_unit payment_id ≡ some unit
      → (reconcile_unit unit).outcome ≡ exception
      → after_creation deps ctx (reconcile_unit unit) (one_more tally) (
        residual_row ctx.tenant_id
              (next_input deps run_id payment_id (reconcile_unit unit) (one_more tally))
            ∷ tally.cases,
        case_created (next_input deps run_id payment_id (reconcile_unit unit) (one_more tally)).id,
      )
        ≡ some out
      → IsTally deps ctx run_id (payment_id ∷ []) tally out
  unfolding after_creation Counts
  opened_one payment_id unit tally out loaded failed h =
      let counts = some-Counts payment_id unit loaded in
      subst (IsTally deps ctx run_id (payment_id ∷ []) tally) (some-injective h) (record {
        evaluated = omega (arith, ap one_if counts.0);
        reconciled_ones = omega (arith, ap one_if (counts.1 ∙ ap is_reconciled failed));
        residual_ones =
            omega (arith, ap one_if (counts.2 ∙ ap (λ o. not (is_reconciled o)) failed));
        new =
            residual_row ctx.tenant_id
              (next_input deps run_id payment_id (reconcile_unit unit) (one_more tally))
            ∷ [];
        events = _;
        cases = refl;
        log = refl;
        opened =
            opened_more
              (record {
                of_run = refl;
                of_tenant = refl;
                unit = unit;
                loaded = loaded;
                failed = failed;
                judged = refl;
              })
              (record { tenant = refl; entity = refl; correlation = refl; verdict = refl })
              opened_none;
        covered = (
          (λ residual.
              covers payment_id
                (next_input deps run_id payment_id (reconcile_unit unit) (one_more tally))
                tally.cases refl refl),
          tt,
        );
      })

  threw_one :
      (payments : List String) (verdict : ReconciliationVerdict) (tally out : Tally)
      → after_creation deps ctx verdict (one_more tally) (tally.cases, creation_threw) ≡ some out
      → IsTally deps ctx run_id payments tally out
  unfolding after_creation
  threw_one payments verdict tally out h = cc

  kept_one :
      (payment_id : String) (unit : ReconciliationUnit) (tally out : Tally)
      (o : Option ResidualCase)
      → deps.load_unit payment_id ≡ some unit
      → (reconcile_unit unit).outcome ≡ exception
      → any (is_case_of run_id payment_id) tally.cases ≡ true
      → after_creation deps ctx (reconcile_unit unit) (one_more tally) (tally.cases, existed o)
        ≡ some out
      → IsTally deps ctx run_id (payment_id ∷ []) tally out
  unfolding after_creation
  kept_one payment_id unit tally out none loaded failed taken h =
      threw_one (payment_id ∷ []) (reconcile_unit unit) tally out h
  kept_one payment_id unit tally out (some row) loaded failed taken h =
      same_cases payment_id true false true tally out _ h
        (subst (λ o. Counts payment_id true (is_reconciled o) (not (is_reconciled o))) failed
          (some-Counts payment_id unit loaded))
        refl refl (omega arith) (omega arith) (omega arith) (λ e. taken)

  tally_verdict-IsTally :
      (payment_id : String) (unit : ReconciliationUnit) (outcome : Outcome) (tally out : Tally)
      → deps.load_unit payment_id ≡ some unit
      → (reconcile_unit unit).outcome ≡ outcome
      → tally_verdict deps ctx run_id payment_id (reconcile_unit unit) outcome (one_more tally)
        ≡ some out
      → IsTally deps ctx run_id (payment_id ∷ []) tally out
  unfolding tally_verdict create_residual
  tally_verdict-IsTally payment_id unit reconciled tally out loaded judged h =
      same_cases payment_id true true false tally out _ h
        (subst (λ o. Counts payment_id true (is_reconciled o) (not (is_reconciled o))) judged
          (some-Counts payment_id unit loaded))
        refl refl (omega arith) (omega arith) (omega arith) (λ e. absurd (true-ne-false (sym e)))
  tally_verdict-IsTally payment_id unit exception tally out loaded judged h =
      let input = next_input deps run_id payment_id (reconcile_unit unit) (one_more tally) in
      let conflicts =
        any (has_number ctx.tenant_id input.case_number) tally.cases
        || any (has_case_id input.id) tally.cases in
      elim (Bool-cases (any (is_case_of run_id payment_id) tally.cases)) [
        | inr free ↦ elim (Bool-cases conflicts) [
          | inl conflict ↦
              threw_one (payment_id ∷ []) (reconcile_unit unit) tally out
                (rw (free, create_residual, conflict) at h)
          | inr fresh ↦
              opened_one payment_id unit tally out loaded judged
                (rw (free, create_residual, fresh) at h)
        ]
        | inl taken ↦
            kept_one payment_id unit tally out
              (first (is_own_case ctx.tenant_id run_id payment_id) tally.cases) loaded judged taken
              (rw (taken, create_residual) at h)
      ]

  tally_unit-IsTally :
      (payment_id : String) (o : Option ReconciliationUnit) (tally out : Tally)
      → deps.load_unit payment_id ≡ o
      → tally_unit deps ctx run_id payment_id o tally ≡ some out
      → IsTally deps ctx run_id (payment_id ∷ []) tally out
  unfolding tally_unit
  tally_unit-IsTally payment_id none tally out loaded h =
      same_cases payment_id false false false tally out tally h (none-Counts payment_id loaded) refl
        refl (omega arith) (omega arith) (omega arith) (λ e. absurd (true-ne-false (sym e)))
  tally_unit-IsTally payment_id (some unit) tally out loaded h =
      tally_verdict-IsTally payment_id unit (reconcile_unit unit).outcome tally out loaded refl h

  tally_all-IsTally :
      (payments : List String) (tally out : Tally)
      → tally_all deps ctx run_id payments tally ≡ some out
      → IsTally deps ctx run_id payments tally out
  unfolding tally_all
  tally_all-IsTally [] tally out h =
      subst (IsTally deps ctx run_id [] tally) (some-injective h) (IsTally-self tally)
  tally_all-IsTally (payment_id ∷ rest) tally out h =
      elim (Option-cases
        (tally_unit deps ctx run_id payment_id (deps.load_unit payment_id) tally)) [
          | inl threw ↦ absurd (none-ne-some (rw (threw, tally_all) at h))
          | inr (next, stepped) ↦
              IsTally-then payment_id rest tally next out
                (tally_unit-IsTally payment_id (deps.load_unit payment_id) tally next refl stepped)
                (tally_all-IsTally rest next out (rw (stepped, tally_all) at h))
        ]
    where
      none-ne-some : {t : Tally} → none ≡ some t → ⊥
      none-ne-some e = cc

-- A run that ends has gone through the payments up to its bound and counted exactly those that have
-- a unit as evaluated, those whose unit the matcher reconciles as reconciled, and the others as
-- residuals; for each residual payment there is a case of the run. The cases that it adds are of
-- this run and of the caller's tenant, each for a payment whose unit the matcher leaves with an
-- exception, with that verdict. For each case that it adds, and for nothing else, it logs one event,
-- in the order of their creation, of the tenant, with the id of the case, its verdict and the
-- request's correlation id.
pub run_reconciliation-IsTally :
    (deps : RunDeps) (ctx : RequestContext) (run_id : String) (max_payments : ℕ)
    (payments : List String) (cases : List ResidualCase) (log : List ResidualEvent) (out : Tally)
    → run_reconciliation deps ctx run_id max_payments payments cases log ≡ some out
    → IsTally deps ctx run_id (take max_payments payments) (fresh_tally cases log) out
unfolding run_reconciliation
run_reconciliation-IsTally deps ctx run_id max_payments payments cases log out h =
    tally_all-IsTally deps ctx run_id (take max_payments payments) (fresh_tally cases log) out h
