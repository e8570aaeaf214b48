-- ===== src/Workflow/Reconcile/Totality.antt =====
-- A run throws over no conflict, where its id, the start of its numbers and its ids are its own.
use settlement_ops.Base.{
  Bool, Bool-cases, List, Option, String, [], any, arith, false, first, inl, inr, ltb, none, not,
  refl, some, str_eq, str_eq_iff, sym, true, true-ne-false, ℕ, ◌&&◌, ◌+◌, ◌∙◌, ◌∷◌, ◌≡◌, ◌≤◌,
}
use settlement_ops.Reconciliation.Unit.{
  Outcome, ReconciliationUnit, ReconciliationVerdict, exception, reconciled,
}
use settlement_ops.Reconciliation.Matcher.{reconcile_unit}
use settlement_ops.Tools.Lookups.{take}
use settlement_ops.Workflow.{RequestContext}
use settlement_ops.Workflow.Reconcile.{
  ResidualCase, ResidualEvent, ResidualInput, RunDeps, Tally, after_creation, case_number_for,
  create_residual, fresh_tally, has_case_id, has_number, is_case_of, is_own_case, next_input,
  one_more, residual_row, run_reconciliation, tally_all, tally_unit, tally_verdict,
}

module _ (deps : RunDeps) (ctx : RequestContext) (run_id : String) where
  -- No case of the run is of another tenant.
  abbrev is_alien : ResidualCase → Bool
  is_alien row = str_eq row.run_id run_id && not (str_eq row.merchant_id ctx.tenant_id)

  abbrev pub AllOwn : List ResidualCase → Type 0
  AllOwn cases = any is_alien cases ≡ false

  -- No case of the tenant has a number of the run beyond the given one.
  abbrev is_beyond : ℕ → ResidualCase → Bool
  is_beyond n row =
      str_eq row.merchant_id ctx.tenant_id
      && (str_eq row.case_number.run_code (deps.run_code run_id) && ltb n row.case_number.ordinal)

  abbrev pub AllWithin : ℕ → List ResidualCase → Type 0
  AllWithin n cases = any (is_beyond n) cases ≡ false

  more-AllWithin : (n : ℕ) (cases : List ResidualCase) → AllWithin n cases → AllWithin (n + 1) cases
  unfolding any
  more-AllWithin n [] within = refl
  more-AllWithin n (row ∷ cases) within =
      let rest = more-AllWithin n cases (ground arith) in ground arith

  new-AllWithin :
      (input : ResidualInput) (n : ℕ) (cases : List ResidualCase)
      → input.case_number.ordinal ≤ n + 1
      → AllWithin n cases
      → AllWithin (n + 1) (residual_row ctx.tenant_id input ∷ cases)
  unfolding any
  new-AllWithin input n cases low within = let rest = more-AllWithin n cases within in ground arith

  within_free :
      (n : ℕ) (cases : List ResidualCase)
      → AllWithin n cases
      → any (has_number ctx.tenant_id (case_number_for deps.run_code run_id n)) cases ≡ false
  unfolding any
  within_free n [] within = refl
  within_free n (row ∷ cases) within = let rest = within_free n cases (ground arith) in ground arith

  own_case :
      (payment_id : String) (cases : List ResidualCase)
      → AllOwn cases
      → any (is_case_of run_id payment_id) cases ≡ true
      → (row : ResidualCase) × (first (is_own_case ctx.tenant_id run_id payment_id) cases
          ≡ some row)
  unfolding any first
  own_case payment_id [] own taken = absurd (true-ne-false (sym taken))
  own_case payment_id (row ∷ cases) own taken =
      elim (Bool-cases (is_own_case ctx.tenant_id run_id payment_id row)) [
        | inl hit ↦ (row, rw hit refl)
        | inr miss ↦
            let (found, at) = own_case payment_id cases (ground arith) (ground arith) in
            (found, rw miss at)
      ]

  -- The ids from the given one on are new: no case has one of them.
  abbrev pub AllUnused : ℕ → List ResidualCase → Type 0
  AllUnused n cases = (k : ℕ) → n ≤ k → any (has_case_id (deps.case_ids k)) cases ≡ false

  -- `ids.next()` gives no id twice.
  abbrev pub AllDifferent : Type 0
  AllDifferent = (m n : ℕ) → deps.case_ids m ≡ deps.case_ids n → m ≡ n

  new-AllUnused :
      (input : ResidualInput) (n : ℕ) (cases : List ResidualCase)
      → AllDifferent
      → input.id ≡ deps.case_ids n
      → AllUnused n cases
      → AllUnused (n + 1) (residual_row ctx.tenant_id input ∷ cases)
  unfolding any
  new-AllUnused input n cases different at unused k later =
      elim (Bool-cases (str_eq input.id (deps.case_ids k))) [
        | inr other ↦ rw other (unused k (omega (arith, later)))
        | inl same ↦ absurd (
            omega (
              arith,
              later,
              different n k (sym at ∙ (str_eq_iff input.id (deps.case_ids k)).0 same),
            ))
      ]

  abbrev IsFree : Tally → Type 0
  IsFree tally =
      AllOwn tally.cases
      × AllWithin tally.residual tally.cases
      × AllUnused tally.residual tally.cases

  -- One more payment leaves a tally, in which the next number is free.
  Goes : Option Tally → Type 0
  Goes o = (next : Tally) × (o ≡ some next) × IsFree next

  new-AllOwn :
      (input : ResidualInput) (cases : List ResidualCase)
      → AllOwn cases
      → AllOwn (residual_row ctx.tenant_id input ∷ cases)
  unfolding any
  new-AllOwn input cases own = ground (arith, str_eq_iff ctx.tenant_id ctx.tenant_id)

  tally_verdict-Goes :
      (payment_id : String) (verdict : ReconciliationVerdict) (outcome : Outcome) (tally : Tally)
      → AllDifferent
      → IsFree tally
      → Goes (tally_verdict deps ctx run_id payment_id verdict outcome tally)
  unfolding Goes tally_verdict create_residual after_creation
  tally_verdict-Goes payment_id verdict reconciled tally different own = (_, refl, own)
  tally_verdict-Goes payment_id verdict exception tally different own =
      let input = next_input deps run_id payment_id verdict tally in
      elim (Bool-cases (any (is_case_of run_id payment_id) tally.cases)) [
        | inr free ↦
            rw
              (
                free,
                create_residual,
                within_free tally.residual tally.cases own.1,
                own.2 tally.residual (omega arith),
              )
              (
                _,
                refl,
                (
                  new-AllOwn input tally.cases own.0,
                  new-AllWithin input tally.residual tally.cases (omega arith) own.1,
                  new-AllUnused input tally.residual tally.cases different refl own.2,
                ),
              )
        | inl taken ↦
            let (row, found) = own_case payment_id tally.cases own.0 taken in
            rw (taken, create_residual, found)
              (
                _,
                refl,
                (
                  own.0,
                  more-AllWithin tally.residual tally.cases own.1,
                  λ k later. own.2 k (omega (arith, later)),
                ),
              )
      ]

  tally_unit-Goes :
      (payment_id : String) (o : Option ReconciliationUnit) (tally : Tally)
      → AllDifferent
      → IsFree tally
      → Goes (tally_unit deps ctx run_id payment_id o tally)
  unfolding Goes tally_unit
  tally_unit-Goes payment_id none tally different own = (tally, refl, own)
  tally_unit-Goes payment_id (some unit) tally different own =
      tally_verdict-Goes payment_id (reconcile_unit unit) (reconcile_unit unit).outcome
        (one_more tally) different own

  tally_all-Goes :
      (payments : List String) (tally : Tally)
      → AllDifferent
      → IsFree tally
      → Goes (tally_all deps ctx run_id payments tally)
  unfolding Goes tally_all
  tally_all-Goes [] tally different own = (tally, refl, own)
  tally_all-Goes (payment_id ∷ rest) tally different own =
      let (next, stepped, own') =
        tally_unit-Goes payment_id (deps.load_unit payment_id) tally different own in
      rw (stepped, tally_all) (tally_all-Goes rest next different own')

-- A run comes to its end, its tally with it, when no case of the run is another tenant's, the tenant
-- has no case yet whose number starts as those of the run do, no case has an id that the generator is
-- to give, and the generator gives no id twice.
pub run_reconciliation-ends :
    (deps : RunDeps) (ctx : RequestContext) (run_id : String) (max_payments : ℕ)
    (payments : List String) (cases : List ResidualCase) (log : List ResidualEvent)
    → AllOwn deps ctx run_id cases
    → AllWithin deps ctx run_id 0 cases
    → AllUnused deps ctx run_id 0 cases
    → AllDifferent deps ctx run_id
    → (out : Tally) × (run_reconciliation deps ctx run_id max_payments payments cases log
        ≡ some out)
unfolding run_reconciliation Goes
run_reconciliation-ends deps ctx run_id max_payments payments cases log own within unused
      different =
    let (out, done, rest) =
      tally_all-Goes deps ctx run_id (take max_payments payments) (fresh_tally cases log) different
        (own, within, unused) in
    (out, done)
