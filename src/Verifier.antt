-- ===== src/Verifier.antt =====
-- The terminal verifier (packages/verification/src/verifier.ts).
pub mod Support
pub mod Variance
pub mod Laws
pub mod Gaps
use settlement_ops.Base.{
  Bool, List, Option, String, [], false, if◌then◌else◌, includes, is_empty, keep, map, none, not,
  some, str_eq, true, ◌&&◌, ◌++◌, ◌∷◌,
}
use settlement_ops.Cause.{
  CauseCode, Disposition, can_ever_resolve, disposition_eq, escalate, is_disposition_permitted,
  resolve,
}
use settlement_ops.Reconciliation.Unit.{ReconciliationUnit}
use settlement_ops.Reconciliation.Checks.{impossible_adjustments}
use settlement_ops.Verifier.Support.{
  VerifierFailure, cause_not_permitted_to_resolve, cause_supported,
  disposition_not_permitted_for_cause, evidence_missing, evidence_not_in_scope,
  evidence_not_retrieved, timing_impossible,
}

-- `retrievedRecordIds` is absent for a system that runs no investigation.
pub record Proposal : Type 0 where
  pub cause : CauseCode
  pub disposition : Disposition
  pub evidence_record_ids : List String
  pub rationale : String
  pub retrieved_record_ids : Option (List String)

-- `passed` is kept as in the source; `detail`, the prose beside the failures, is left out.
pub record VerificationResult : Type 0 where
  pub passed : Bool
  pub effective_disposition : Disposition
  pub failures : List VerifierFailure

-- The record ids of the case: `known` in the source.
unfoldable pub known_ids : ReconciliationUnit → List String
known_ids unit =
    unit.payment.base.id
    ∷ (map (λ f. f.base.id) unit.fees
        ++ (map (λ t. t.base.id) unit.taxes
            ++ (map (λ r. r.base.id) unit.refunds
                ++ (map (λ a. a.base.id) unit.adjustments
                    ++ (map (λ s. s.base.id) unit.settlements
                        ++ (map (λ l. l.base.id) unit.settlement_lines
                            ++ map (λ b. b.base.id) unit.bank_credits))))))

-- `if (test) failures.push(failure)`
abbrev pub failure_if : Bool → VerifierFailure → List VerifierFailure
failure_if true failure = failure ∷ []
failure_if false failure = []

unfoldable pub foreign_ids : List String → List String → List String
foreign_ids known cited = keep (λ id. not (includes str_eq id known)) cited

unfoldable pub unretrieved_ids : List String → List String → List String → List String
unretrieved_ids known retrieved cited =
    keep (λ id. includes str_eq id known && not (includes str_eq id retrieved)) cited

-- The check of retrieval, which is made only where a retrieval list is given.
retrieval_failures : List String → List String → Option (List String) → List VerifierFailure
retrieval_failures known cited none = []
retrieval_failures known cited (some retrieved) =
    failure_if (not (is_empty (unretrieved_ids known retrieved cited))) evidence_not_retrieved

abbrev support_failures : Option VerifierFailure → List VerifierFailure
support_failures none = []
support_failures (some failure) = failure ∷ []

-- The failures of a proposal to resolve, in the order in which they are pushed.
unfoldable pub resolve_failures : Proposal → ReconciliationUnit → List VerifierFailure
unfolding retrieval_failures
resolve_failures proposal unit =
    let known = known_ids unit in
    let cited = proposal.evidence_record_ids in
    failure_if (not (can_ever_resolve proposal.cause)) cause_not_permitted_to_resolve
    ++ (failure_if (not (is_disposition_permitted proposal.cause proposal.disposition))
          disposition_not_permitted_for_cause
        ++ (failure_if (is_empty cited) evidence_missing
            ++ (failure_if (not (is_empty (foreign_ids known cited))) evidence_not_in_scope
                ++ (retrieval_failures known cited proposal.retrieved_record_ids
                    ++ (failure_if
                          (not (is_empty (impossible_adjustments unit))
                            && not (is_empty unit.settlements))
                          timing_impossible
                        ++ support_failures (cause_supported proposal.cause unit))))))

unfoldable pub verify : Proposal → ReconciliationUnit → VerificationResult
verify proposal unit =
    if not (disposition_eq proposal.disposition resolve)
    then record { passed = true; effective_disposition = proposal.disposition; failures = [] }
    else (let failures = resolve_failures proposal unit in
        let passed = is_empty failures in
        record {
          passed = passed;
          effective_disposition = if passed then resolve else escalate;
          failures = failures;
        })
