-- ===== src/Case/Aggregate/Runs.antt =====
-- Sequences of applied transitions: what every history of a case has in common.
use settlement_ops.Base.{
  Bool, Bool-cases, List, Result, [], any, ap, arith, err, every, false, inl, inr, is_ok, leb,
  length, ltb, ok, refl, suc, sym, true, true-ne-false, zero, ℕ, ℤ, ◌&&◌, ◌+◌, ◌<◌, ◌||◌, ◌∙◌, ◌∷◌,
  ◌≡◌, ◌≢◌, ◌≤◌,
}
use settlement_ops.Case.State.{
  CaseState, TransitionActor, admin, all_states, applied, approval_pending, approved, closed,
  escalated, every_state, investigating, matching, normalized, operator, outcome_logged, received,
  reconciled, rejected, reopened, staged, state_eq, state_eq_iff, system,
}
use settlement_ops.Case.Transitions.{is_actor_permitted}
use settlement_ops.Case.Transitions.Laws.{every_move, for_all_moves, implies, seniority}
use settlement_ops.Case.Aggregate.{
  ReconciliationCase, TransitionError, TransitionRequest, apply_transition,
}
use settlement_ops.Case.Aggregate.Laws.{apply_transition-effect, apply_transition-ok_iff}

-- `Run c e qs`: the requests `qs`, in this order, are all applied and take the case from `c` to `e`.
pub data Run : ReconciliationCase → ReconciliationCase → List TransitionRequest → Type 0 where
  here : {c : ReconciliationCase} → Run c c []
  step :
      {c d e : ReconciliationCase} {q : TransitionRequest} {qs : List TransitionRequest}
      → apply_transition c q ≡ ok d
      → Run d e qs
      → Run c e (q ∷ qs)

-- The version of a case is the number of transitions that it has made, and its tenant never changes.
pub Run-version :
    {c e : ReconciliationCase} {qs : List TransitionRequest}
    → Run c e qs
    → (e.case_version ≡ c.case_version + length qs)
      × (e.id ≡ c.id)
      × (e.merchant_id ≡ c.merchant_id)
Run-version here = (omega arith, refl, refl)
Run-version {c} {e} (step {d = d} {q = q} done rest) =
    let effect = apply_transition-effect c q d done in
    let (count, id', merchant') = Run-version rest in
    (omega (arith, count, effect.1), id' ∙ effect.4, merchant' ∙ effect.5)

-- The states that lie behind a human approval.
abbrev pub is_past_approval : CaseState → Bool
is_past_approval s =
    state_eq s approved || state_eq s staged || state_eq s applied || state_eq s outcome_logged

-- A request that records an approval by an approver or an admin.
abbrev pub is_human_approval : TransitionRequest → Bool
is_human_approval q = state_eq q.to approved && leb 2 (seniority q.actor)

approval_test : CaseState → CaseState → TransitionActor → Bool
approval_test f t a =
    implies (is_actor_permitted f t a && is_past_approval t)
      (is_past_approval f || (state_eq t approved && leb 2 (seniority a)))

approval_table : for_all_moves approval_test ≡ true
unfolding for_all_moves is_actor_permitted approval_test
approval_table = refl

move_past_approval :
    (f t : CaseState) (a : TransitionActor)
    → is_actor_permitted f t a ≡ true
    → is_past_approval f ≡ false
    → is_past_approval t ≡ true
    → (state_eq t approved && leb 2 (seniority a)) ≡ true
unfolding approval_test
move_past_approval f t a permitted before after =
    implied (is_actor_permitted f t a) (is_past_approval f) (is_past_approval t)
      (every_move approval_test approval_table f t a) permitted before after
  where
    implied :
        (p b n : Bool) {x : Bool}
        → implies (p && n) (b || x) ≡ true
        → p ≡ true
        → b ≡ false
        → n ≡ true
        → x ≡ true
    implied p b n h e before after = ground arith

step_past_approval :
    (c d : ReconciliationCase) (q : TransitionRequest)
    → apply_transition c q ≡ ok d
    → is_past_approval c.state ≡ false
    → is_past_approval d.state ≡ true
    → is_human_approval q ≡ true
step_past_approval c d q done before after =
    let accepted = (apply_transition-ok_iff c q).0 (ap is_ok done) in
    let at_target = (apply_transition-effect c q d done).0 in
    move_past_approval c.state q.to q.actor accepted.permitted before
      (ap is_past_approval (sym at_target) ∙ after)

-- A human has approved whatever is past approval: in every history of a case that begins outside
-- the states APPROVED, STAGED, APPLIED and OUTCOME_LOGGED and ends in one of them, some applied
-- request of an approver or an admin moved it to APPROVED.
pub staged_needs_approval :
    {c e : ReconciliationCase} {qs : List TransitionRequest}
    → Run c e qs
    → is_past_approval c.state ≡ false
    → is_past_approval e.state ≡ true
    → any is_human_approval qs ≡ true
unfolding any
staged_needs_approval here before after = absurd (true-ne-false (sym after ∙ before))
staged_needs_approval {c} {e} (step {d = d} {q = q} {qs = qs} done rest) before after =
    elim (Bool-cases (is_past_approval d.state)) [
      | inl past ↦ rw (step_past_approval c d q done before past) refl
      | inr not_past ↦ ground (arith, staged_needs_approval rest not_past after)
    ]

-- A case is never stuck: a move that leads on to CLOSED, and how far it still has to go.
abbrev toward_closed : CaseState → CaseState × TransitionActor
toward_closed received = (normalized, system)
toward_closed normalized = (matching, system)
toward_closed matching = (reconciled, system)
toward_closed reconciled = (closed, system)
toward_closed approved = (closed, system)
toward_closed escalated = (closed, operator)
toward_closed applied = (outcome_logged, system)
toward_closed outcome_logged = (closed, system)
toward_closed closed = (reopened, admin)
toward_closed reopened = (investigating, system)
toward_closed approval_pending = (escalated, operator)
toward_closed rejected = (escalated, operator)
toward_closed _ = (escalated, system)

abbrev distance : CaseState → ℕ
distance received = 4
distance normalized = 3
distance matching = 2
distance reconciled = 1
distance approved = 1
distance escalated = 1
distance applied = 2
distance outcome_logged = 1
distance closed = 0
distance reopened = 3
distance _ = 2

toward_test : CaseState → Bool
toward_test s =
    state_eq s closed
    || (is_actor_permitted s (toward_closed s).0 (toward_closed s).1
        && ltb (distance (toward_closed s).0) (distance s))

toward_table : every toward_test all_states ≡ true
unfolding every is_actor_permitted toward_test
toward_table = refl

abbrev closing_request : ReconciliationCase → ℤ → TransitionRequest
closing_request c at = record {
  to = (toward_closed c.state).0;
  actor = (toward_closed c.state).1;
  expected_version = c.case_version;
  outcome_recorded = true;
  at = at;
}

toward_step :
    (s : CaseState)
    → s ≢ closed
    → (is_actor_permitted s (toward_closed s).0 (toward_closed s).1 ≡ true)
      × (distance (toward_closed s).0 < distance s)
unfolding toward_test
toward_step s open_case =
    ground (arith, every_state toward_test toward_table s, state_eq_iff s closed)

is_ok-ok :
    (r : Result TransitionError ReconciliationCase)
    → is_ok r ≡ true
    → (d : ReconciliationCase) × (r ≡ ok d)
is_ok-ok (ok d) h = (d, refl)
is_ok-ok (err e) h = absurd (true-ne-false (sym h))

not_closed : (s : CaseState) → state_eq s closed ≡ false → s ≢ closed
not_closed s h e = true-ne-false (sym ((state_eq_iff s closed).1 e) ∙ h)

close_within :
    (n : ℕ) (c : ReconciliationCase) (at : ℤ)
    → distance c.state ≤ n
    → (qs : List TransitionRequest) × (e : ReconciliationCase) × Run c e qs
      × (e.state ≡ closed)
      × (length qs ≤ n)
close_within zero c at h = elim (Bool-cases (state_eq c.state closed)) [
  | inl done ↦ ([], c, here, (state_eq_iff c.state closed).0 done, omega arith)
  | inr open_case ↦ absurd (omega (arith, toward_step c.state (not_closed c.state open_case)))
]
close_within (suc n) c at h = elim (Bool-cases (state_eq c.state closed)) [
  | inl done ↦ ([], c, here, (state_eq_iff c.state closed).0 done, omega arith)
  | inr open_case ↦
      let q = closing_request c at in
      let (permitted, nearer) = toward_step c.state (not_closed c.state open_case) in
      let (d, done) = is_ok-ok (apply_transition c q) (
        (apply_transition-ok_iff c q).1
          (record { version = refl; permitted = permitted; outcome = λ _. refl })) in
      let near : distance d.state ≤ n = rw ((apply_transition-effect c q d done).0) (omega arith) in
      let (qs, e, run, at_end, few) = close_within n d at near in
      (q ∷ qs, e, step done run, at_end, omega arith)
]

-- From every state a case can be closed, in at most four transitions.
pub can_be_closed :
    (c : ReconciliationCase) (at : ℤ)
    → (qs : List TransitionRequest) × (e : ReconciliationCase) × Run c e qs
      × (e.state ≡ closed)
      × (length qs ≤ 4)
can_be_closed c at = close_within 4 c at (distance_small c.state)
  where
    distance_small : (s : CaseState) → distance s ≤ 4
    distance_small received = omega arith
    distance_small _ = omega arith
