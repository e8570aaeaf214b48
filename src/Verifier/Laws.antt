-- ===== src/Verifier/Laws.antt =====
-- What the verifier lets through.
use settlement_ops.Base.{
  All, All-map-of, Bool, Bool-cases, List, Option, Option-cases, String, [], any-false-All, ap,
  arith, false, if◌then◌else◌, includes, inl, inr, is_empty, keep, keep-nil_iff, length, magnitude,
  map, max, none, not, pos, refl, some, str_eq, sym, true, true-ne-false, unique, ℕ, ℤ, ◌&&◌, ◌++◌,
  ◌+◌, ◌-ℤ◌, ◌↔◌, ◌∙◌, ◌∷◌, ◌≡◌, ◌≢◌, ◌≤◌, ◌⊎◌,
}
use settlement_ops.Cause.{
  CauseCode, ambiguous, can_ever_resolve, compound, escalate, mdr_fee, refund_netting, resolve,
  rounding_drift, timing_lag, utr_split,
}
use settlement_ops.Reconciliation.ExpectedNet.{ScheduledFee, scheduled_fee_for}
use settlement_ops.Reconciliation.Unit.{ReconciliationUnit}
use settlement_ops.Reconciliation.Checks.{impossible_adjustments, is_late_refund, or_else}
use settlement_ops.Verifier.Support.{
  VerifierFailure, cause_not_supported_by_evidence, cause_supported, evidence_not_retrieved,
  is_uncredited, mdr_fee_rule, refund_netting_rule, rounding_drift_rule, rule_for, timing_lag_rule,
  unrecorded, utr_split_rule, variance,
}
use settlement_ops.Verifier.{
  Proposal, failure_if, foreign_ids, known_ids, resolve_failures, retrieval_failures,
  support_failures, unretrieved_ids, verify,
}
use settlement_ops.Policy.Tolerances.{rounding_tolerance_for, within_cap, within_rounding_tolerance}

is_empty-nil : {A : Type 0} (xs : List A) → (is_empty xs ≡ true) ↔ (xs ≡ [])
unfolding is_empty
is_empty-nil [] = (λ h. refl, λ h. refl)
is_empty-nil (x ∷ xs) = ground arith

-- The effective disposition is RESOLVE exactly when RESOLVE is proposed and no check fails; a
-- proposal that fails has ESCALATE, and a proposal that claims no resolution keeps its own.
pub verify-cases :
    (p : Proposal) (unit : ReconciliationUnit)
    → let v = verify p unit in
      ((v.effective_disposition ≡ resolve)
        ↔ ((p.disposition ≡ resolve) × (resolve_failures p unit ≡ [])))
      × (v.passed ≡ false → v.effective_disposition ≡ escalate)
      × (p.disposition ≢ resolve → v.effective_disposition ≡ p.disposition)
unfolding verify
verify-cases p unit = ground (arith, is_empty-nil (resolve_failures p unit))

-- An append is empty only if both parts are.
append-nil_both : {A : Type 0} (xs ys : List A) → xs ++ ys ≡ [] → (xs ≡ []) × (ys ≡ [])
append-nil_both [] ys h = (refl, h)
append-nil_both (x ∷ xs) ys h = absurd (cons-ne-nil h)
  where
    cons-ne-nil : {zs : List _} → x ∷ zs ≡ [] → ⊥
    cons-ne-nil e = cc

failure_if-nil : (b : Bool) (f : VerifierFailure) → failure_if b f ≡ [] → b ≡ false
failure_if-nil true f h = cc
failure_if-nil false f h = refl

not-false : (b : Bool) → not b ≡ false → b ≡ true
not-false b h = ground arith

-- Every check that `verify` makes of a resolution, as facts.
pub record IsCleared (p : Proposal) (unit : ReconciliationUnit) : Type 0 where
  pub permitted : can_ever_resolve p.cause ≡ true
  pub cites : p.evidence_record_ids ≢ []
  pub in_scope : All (λ id. includes str_eq id (known_ids unit) ≡ true) p.evidence_record_ids
  pub retrieved :
      (ids : List String)
      → p.retrieved_record_ids ≡ some ids
      → All (λ id. includes str_eq id ids ≡ true) p.evidence_record_ids
  pub causal : (impossible_adjustments unit ≡ []) ⊎ (unit.settlements ≡ [])
  pub supported : cause_supported p.cause unit ≡ none

foreign-nil :
    (known cited : List String)
    → not (is_empty (foreign_ids known cited)) ≡ false
    → All (λ id. includes str_eq id known ≡ true) cited
unfolding foreign_ids
foreign-nil known cited h =
    let foreign : String → Bool = λ id. not (includes str_eq id known) in
    All-map-of (λ id. foreign id ≡ false) (λ id. includes str_eq id known ≡ true)
      (λ id e. ground arith) cited
      (any-false-All foreign cited
        ((keep-nil_iff foreign cited).0 ((is_empty-nil (keep foreign cited)).0 (ground arith))))

retrieval-nil :
    (known cited ids : List String)
    → retrieval_failures known cited (some ids) ≡ []
    → unretrieved_ids known ids cited ≡ []
unfolding retrieval_failures
retrieval-nil known cited ids h = (is_empty-nil (unretrieved_ids known ids cited)).0 (
    ground (
      arith,
      failure_if-nil (not (is_empty (unretrieved_ids known ids cited))) evidence_not_retrieved h,
    ))

unretrieved-nil :
    (known ids cited : List String)
    → All (λ id. includes str_eq id known ≡ true) cited
    → unretrieved_ids known ids cited ≡ []
    → All (λ id. includes str_eq id ids ≡ true) cited
unfolding unretrieved_ids keep
unretrieved-nil known ids [] h e = tt
unretrieved-nil known ids (c ∷ cs) h e = elim (Bool-cases (includes str_eq c ids)) [
  | inl got ↦ (got, unretrieved-nil known ids cs h.1 (ground arith))
  | inr missed ↦ absurd (ground arith)
]

causal-cases :
    (unit : ReconciliationUnit)
    → (not (is_empty (impossible_adjustments unit)) && not (is_empty unit.settlements)) ≡ false
    → (impossible_adjustments unit ≡ []) ⊎ (unit.settlements ≡ [])
causal-cases unit h =
    ground (arith, is_empty-nil (impossible_adjustments unit), is_empty-nil unit.settlements)

support-nil : (o : Option VerifierFailure) → support_failures o ≡ [] → o ≡ none
support-nil none h = refl
support-nil (some f) h = cc

-- A proposal takes effect as RESOLVE only if its cause may resolve, it cites at least one record,
-- every cited record belongs to the case and (where the investigation lists what it retrieved) was
-- retrieved, no adjustment of a unit with settlements is impossible for all of them, and the rule of the
-- cause supports it.
pub resolve-IsCleared :
    (p : Proposal) (unit : ReconciliationUnit)
    → (verify p unit).effective_disposition ≡ resolve
    → IsCleared p unit
unfolding resolve_failures
resolve-IsCleared p unit h =
    let (wanted, none_failed) = (verify-cases p unit).0.0 h in
    let (never, r1) = append-nil_both _ _ none_failed in
    let (policy, r2) = append-nil_both _ _ r1 in
    let (uncited, r3) = append-nil_both _ _ r2 in
    let (foreign, r4) = append-nil_both _ _ r3 in
    let (unretrieved, r5) = append-nil_both _ _ r4 in
    let (impossible, unsupported) = append-nil_both _ _ r5 in
    let in_scope =
      foreign-nil (known_ids unit) p.evidence_record_ids (failure_if-nil _ _ foreign) in
    record {
      permitted = not-false _ (failure_if-nil _ _ never);
      cites = λ e.
          true-ne-false
            (sym ((is_empty-nil p.evidence_record_ids).1 e) ∙ failure_if-nil _ _ uncited);
      in_scope = in_scope;
      retrieved = λ ids given. unretrieved-nil (known_ids unit) ids p.evidence_record_ids in_scope (
          retrieval-nil (known_ids unit) p.evidence_record_ids ids (
            ap (retrieval_failures (known_ids unit) p.evidence_record_ids) (sym given)
            ∙ unretrieved));
      causal = causal-cases unit (failure_if-nil _ _ impossible);
      supported = support-nil (cause_supported p.cause unit) unsupported;
    }

-- What the rule of each cause establishes of a unit with variance `d`.
abbrev pub Supports : CauseCode → ReconciliationUnit → ℤ → Type 0
Supports mdr_fee unit d =
    (at : ℤ) × (fee : ScheduledFee) × (or_else unit.payment.captured_at unit.payment.authorized_at
      ≡ some at)
    × (scheduled_fee_for unit.payment.amount unit.payment.payment_method at ≡ some fee)
    × (magnitude d ≤ magnitude (unrecorded unit fee) + 4)
    × (magnitude (unrecorded unit fee) ≤ magnitude d + 4)
Supports utr_split unit d =
    (magnitude d ≤ 100)
    × (2 ≤ length (unique str_eq (map (λ s. s.settlement_id) unit.settlements)))
    × All (λ s. is_uncredited unit.bank_credits s ≡ false) unit.settlements
Supports timing_lag unit d =
    (magnitude d ≤ 100) × (unit.payment.captured_at ≢ none) × (unit.settlements ≢ [])
Supports rounding_drift unit d = magnitude d ≤ 100
Supports refund_netting unit d =
    (unit.refunds ≢ []) × All (λ r. is_late_refund r ≡ false) unit.refunds
Supports ambiguous unit d = ⊥
Supports compound unit d = ⊥

some-ne-none : {f : VerifierFailure} → some f ≡ none → ⊥
some-ne-none e = cc

supported-rule :
    (cause : CauseCode) (unit : ReconciliationUnit)
    → cause_supported cause unit ≡ none
    → (d : ℤ) × (variance unit ≡ some d) × (rule_for cause unit d ≡ none)
unfolding cause_supported
supported-rule cause unit h = elim (Option-cases (variance unit)) [
  | inl missing ↦ absurd (some-ne-none (rw (missing, cause_supported) at h))
  | inr (d, found) ↦ (d, found, rw (found, cause_supported) at h)
]

rounding-cap : (v : ℤ) (n : ℕ) → within_rounding_tolerance v n ≡ true → magnitude v ≤ 100
rounding-cap v n h = within_cap v n h

near_lem :
    (d u : ℤ)
    → within_rounding_tolerance (pos (magnitude d) -ℤ pos (magnitude u)) 2 ≡ true
    → (magnitude d ≤ magnitude u + 4) × (magnitude u ≤ magnitude d + 4)
unfolding within_rounding_tolerance rounding_tolerance_for ◌-ℤ◌
near_lem d u h = ground arith

mdr_fee-Supports :
    (unit : ReconciliationUnit) (d : ℤ) → mdr_fee_rule unit d ≡ none → Supports mdr_fee unit d
unfolding mdr_fee_rule
mdr_fee-Supports unit d h =
    elim (Option-cases (or_else unit.payment.captured_at unit.payment.authorized_at)) [
      | inl undated ↦ absurd (some-ne-none (rw (undated, mdr_fee_rule) at h))
      | inr (at, dated) ↦
          elim (Option-cases
            (scheduled_fee_for unit.payment.amount unit.payment.payment_method at)) [
              | inl unscheduled ↦ absurd (some-ne-none (rw (dated, unscheduled, mdr_fee_rule) at h))
              | inr (fee, scheduled) ↦
                  (let (over, under) =
                      near_lem d (unrecorded unit fee)
                        (close fee (rw (dated, scheduled, mdr_fee_rule) at h)) in
                    (at, fee, dated, scheduled, over, under))
            ]
    ]
  where
    close :
        (fee : ScheduledFee)
        → (if within_rounding_tolerance
              (pos (magnitude d) -ℤ pos (magnitude (unrecorded unit fee)))
              2
            then none
            else some cause_not_supported_by_evidence)
          ≡ none
        → within_rounding_tolerance (pos (magnitude d) -ℤ pos (magnitude (unrecorded unit fee))) 2
          ≡ true
    close fee e = ground arith

utr_split-Supports :
    (unit : ReconciliationUnit) (d : ℤ) → utr_split_rule unit d ≡ none → Supports utr_split unit d
unfolding utr_split_rule
utr_split-Supports unit d h =
    let legs = length (unique str_eq (map (λ s. s.settlement_id) unit.settlements)) in
    let uncredited = is_uncredited unit.bank_credits in
    let within : within_rounding_tolerance d (length unit.settlement_lines) ≡ true = ground arith in
    let none_missing : is_empty (keep uncredited unit.settlements) ≡ true = ground arith in
    let two_legs : 2 ≤ legs = ground arith in
    (
      rounding-cap d (length unit.settlement_lines) within,
      two_legs,
      any-false-All uncredited unit.settlements
          ((keep-nil_iff uncredited unit.settlements).0 ((is_empty-nil _).0 none_missing)),
    )

timing_lag-Supports :
    (unit : ReconciliationUnit) (d : ℤ) → timing_lag_rule unit d ≡ none → Supports timing_lag unit d
unfolding timing_lag_rule
timing_lag-Supports unit d h =
    ground
      (arith, rounding-cap d (max 1 (length unit.settlement_lines)), is_empty-nil unit.settlements)

rounding_drift-Supports : (d : ℤ) → rounding_drift_rule d ≡ none → magnitude d ≤ 100
unfolding rounding_drift_rule
rounding_drift-Supports d h = ground arith

refund_netting-Supports :
    (unit : ReconciliationUnit) (d : ℤ)
    → refund_netting_rule unit ≡ none
    → Supports refund_netting unit d
unfolding refund_netting_rule
refund_netting-Supports unit d h =
    let (some_refund, none_late) = parts in
    (
      some_refund,
      any-false-All is_late_refund unit.refunds
          ((keep-nil_iff is_late_refund unit.refunds).0 ((is_empty-nil _).0 none_late)),
    )
  where
    parts : (unit.refunds ≢ []) × (is_empty (keep is_late_refund unit.refunds) ≡ true)
    parts = ground (arith, is_empty-nil unit.refunds)

rule-Supports :
    (cause : CauseCode) (unit : ReconciliationUnit) (d : ℤ)
    → can_ever_resolve cause ≡ true
    → rule_for cause unit d ≡ none
    → Supports cause unit d
unfolding rule_for can_ever_resolve
rule-Supports mdr_fee unit d _ h = mdr_fee-Supports unit d h
rule-Supports utr_split unit d _ h = utr_split-Supports unit d h
rule-Supports timing_lag unit d _ h = timing_lag-Supports unit d h
rule-Supports rounding_drift unit d _ h = rounding_drift-Supports d h
rule-Supports refund_netting unit d _ h = refund_netting-Supports unit d h
rule-Supports ambiguous unit d never h = cc
rule-Supports compound unit d _ h = cc

-- A resolution that takes effect is of a unit whose variance is computable, with the facts of its
-- cause: for MDR_FEE the magnitude of the variance is within four minor units of that of the
-- scheduled fee and tax not on record; for UTR_SPLIT, TIMING_LAG and ROUNDING_DRIFT it is at most a
-- hundred, with two settlements or more of which none has an uncredited UTR for the first, and a
-- capture time and a settlement for the second; for REFUND_NETTING there is a refund and none is
-- late. The cause is neither AMBIGUOUS nor COMPOUND.
pub resolve-Supports :
    (p : Proposal) (unit : ReconciliationUnit)
    → (verify p unit).effective_disposition ≡ resolve
    → (d : ℤ) × (variance unit ≡ some d) × Supports p.cause unit d
resolve-Supports p unit h =
    let cleared = resolve-IsCleared p unit h in
    let (d, found, rule) = supported-rule p.cause unit cleared.supported in
    (d, found, rule-Supports p.cause unit d cleared.permitted rule)
