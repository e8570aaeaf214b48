-- ===== src/Cause.antt =====
-- Causes and dispositions (packages/domain/src/cause/).
use settlement_ops.Base.{
  Bool, List, Option, String, [], any, arith, false, if◌then◌else◌, none, some, str_eq, true, ℕ,
  ◌==◌, ◌↔◌, ◌∷◌, ◌≡◌,
}

pub data CauseCode : Type 0 where
  mdr_fee utr_split refund_netting timing_lag rounding_drift ambiguous compound : CauseCode

pub data Disposition : Type 0 where
  resolve request_evidence escalate : Disposition

pub data RecommendedActionType : Type 0 where
  stage_ledger_adjustment draft_evidence_request no_action : RecommendedActionType

abbrev pub disposition_index : Disposition → ℕ
disposition_index resolve = 0
disposition_index request_evidence = 1
disposition_index escalate = 2

abbrev pub disposition_eq : Disposition → Disposition → Bool
disposition_eq a b = disposition_index a == disposition_index b

unfoldable pub parse_cause : String → Option CauseCode
parse_cause value =
    if str_eq value "MDR_FEE"
    then some mdr_fee
    else if str_eq value "UTR_SPLIT"
    then some utr_split
    else if str_eq value "REFUND_NETTING"
    then some refund_netting
    else if str_eq value "TIMING_LAG"
    then some timing_lag
    else if str_eq value "ROUNDING_DRIFT"
    then some rounding_drift
    else if str_eq value "AMBIGUOUS"
    then some ambiguous
    else if str_eq value "COMPOUND"
    then some compound
    else none

unfoldable pub parse_disposition : String → Option Disposition
parse_disposition value =
    if str_eq value "RESOLVE"
    then some resolve
    else if str_eq value "REQUEST_EVIDENCE"
    then some request_evidence
    else if str_eq value "ESCALATE"
    then some escalate
    else none

abbrev pub all_dispositions : List Disposition
all_dispositions = resolve ∷ request_evidence ∷ escalate ∷ []

abbrev pub cause_disposition_policy : CauseCode → List Disposition
cause_disposition_policy mdr_fee = all_dispositions
cause_disposition_policy utr_split = all_dispositions
cause_disposition_policy refund_netting = all_dispositions
cause_disposition_policy timing_lag = all_dispositions
cause_disposition_policy rounding_drift = resolve ∷ escalate ∷ []
cause_disposition_policy ambiguous = escalate ∷ []
cause_disposition_policy compound = all_dispositions

unfoldable pub is_disposition_permitted : CauseCode → Disposition → Bool
unfolding any
is_disposition_permitted cause disposition =
    any (λ d. disposition_eq d disposition) (cause_disposition_policy cause)

unfoldable pub can_ever_resolve : CauseCode → Bool
unfolding any
can_ever_resolve cause = any (λ d. disposition_eq d resolve) (cause_disposition_policy cause)

unfoldable pub requires_staging : RecommendedActionType → Bool
requires_staging no_action = false
requires_staging _ = true

-- Escalation is open to every cause, and `can_ever_resolve` fails for AMBIGUOUS alone.
pub policy_floor :
    (cause : CauseCode)
    → (is_disposition_permitted cause escalate ≡ true)
      × ((can_ever_resolve cause ≡ false) ↔ (cause ≡ ambiguous))
unfolding is_disposition_permitted can_ever_resolve
policy_floor cause = ground arith
