-- ===== src/Case/Aggregate/Laws.antt =====
-- When a transition is applied, and what it changes.
use settlement_ops.Base.{arith, err, is_ok, ok, some, true, ◌+◌, ◌↔◌, ◌≡◌, ◌≢◌}
use settlement_ops.Case.State.{closed, state_eq_iff}
use settlement_ops.Case.Transitions.{is_actor_permitted, requires_outcome_record}
use settlement_ops.Case.Transitions.Laws.{permitted_can}
use settlement_ops.Case.Aggregate.{
  ReconciliationCase, TransitionRequest, apply_transition, version_conflict,
}

-- The four guards, as one condition.
pub record IsAccepted (c : ReconciliationCase) (q : TransitionRequest) : Type 0 where
  pub version : c.case_version ≡ q.expected_version
  pub permitted : is_actor_permitted c.state q.to q.actor ≡ true
  pub outcome : requires_outcome_record c.state q.to ≡ true → q.outcome_recorded ≡ true

-- A transition is applied exactly when the version is current, the table permits the move to the
-- actor, and an outcome that the move requires is recorded.
pub apply_transition-ok_iff :
    (c : ReconciliationCase) (q : TransitionRequest)
    → (is_ok (apply_transition c q) ≡ true) ↔ IsAccepted c q
unfolding apply_transition
apply_transition-ok_iff c q = ground (arith, permitted_can c.state q.to q.actor)

-- An applied transition moves to the requested state, advances the version by one and stamps the
-- closing time when it closes; every other field stays.
pub apply_transition-effect :
    (c : ReconciliationCase) (q : TransitionRequest) (c' : ReconciliationCase)
    → apply_transition c q ≡ ok c'
    → (c'.state ≡ q.to)
      × (c'.case_version ≡ c.case_version + 1)
      × (q.to ≡ closed → c'.closed_at ≡ some q.at)
      × (q.to ≢ closed → c'.closed_at ≡ c.closed_at)
      × (c'.id ≡ c.id)
      × (c'.merchant_id ≡ c.merchant_id)
      × (c'.case_number ≡ c.case_number)
      × (c'.priority ≡ c.priority)
      × (c'.discrepancy ≡ c.discrepancy)
      × (c'.deterministic_reason ≡ c.deterministic_reason)
      × (c'.opened_at ≡ c.opened_at)
unfolding apply_transition
apply_transition-effect c q c' h = ground (arith, state_eq_iff q.to closed)

-- The version guards against a lost update: after one request has been applied, every request that
-- was made against the same version is refused with the version that the case has now.
pub stale_request_refused :
    (c : ReconciliationCase) (q r : TransitionRequest) (c' : ReconciliationCase)
    → apply_transition c q ≡ ok c'
    → r.expected_version ≡ q.expected_version
    → apply_transition c' r ≡ err (version_conflict q.expected_version (c.case_version + 1))
unfolding apply_transition
stale_request_refused c q r c' h e = ground arith
