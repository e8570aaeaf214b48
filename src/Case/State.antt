-- ===== src/Case/State.antt =====
-- Case states and actors (packages/domain/src/case/case-state.ts).
use settlement_ops.Base.{
  ==_iff, Bool, List, [], any, ap, arith, every, refl, suc, sym, true, zero, ℕ, ◌==◌, ◌↔◌, ◌∙◌, ◌∷◌,
  ◌≡◌,
}

pub data CaseState : Type 0 where
  received normalized matching reconciled exception investigating action_proposed : CaseState
  approval_pending approved rejected requesting_evidence escalated staged applied : CaseState
  outcome_logged closed reopened : CaseState

pub data TransitionActor : Type 0 where
  system operator approver admin : TransitionActor

-- The place in `CASE_STATES`, by which two states are compared.
abbrev pub state_index : CaseState → ℕ
state_index received = 0
state_index normalized = 1
state_index matching = 2
state_index reconciled = 3
state_index exception = 4
state_index investigating = 5
state_index action_proposed = 6
state_index approval_pending = 7
state_index approved = 8
state_index rejected = 9
state_index requesting_evidence = 10
state_index escalated = 11
state_index staged = 12
state_index applied = 13
state_index outcome_logged = 14
state_index closed = 15
state_index reopened = 16

abbrev pub state_eq : CaseState → CaseState → Bool
state_eq a b = state_index a == state_index b

abbrev pub actor_index : TransitionActor → ℕ
actor_index system = 0
actor_index operator = 1
actor_index approver = 2
actor_index admin = 3

abbrev pub actor_eq : TransitionActor → TransitionActor → Bool
actor_eq a b = actor_index a == actor_index b

abbrev pub terminal_states : List CaseState
terminal_states = closed ∷ []

unfoldable pub is_terminal : CaseState → Bool
is_terminal state = any (λ t. state_eq t state) terminal_states

state_at : ℕ → CaseState
state_at zero = received
state_at (suc zero) = normalized
state_at (suc (suc zero)) = matching
state_at (suc (suc (suc zero))) = reconciled
state_at (suc (suc (suc (suc zero)))) = exception
state_at (suc (suc (suc (suc (suc zero))))) = investigating
state_at (suc (suc (suc (suc (suc (suc zero)))))) = action_proposed
state_at (suc (suc (suc (suc (suc (suc (suc zero))))))) = approval_pending
state_at (suc (suc (suc (suc (suc (suc (suc (suc zero)))))))) = approved
state_at (suc (suc (suc (suc (suc (suc (suc (suc (suc zero))))))))) = rejected
state_at (suc (suc (suc (suc (suc (suc (suc (suc (suc (suc zero)))))))))) = requesting_evidence
state_at (suc (suc (suc (suc (suc (suc (suc (suc (suc (suc (suc n))))))))))) = late_state n
  where
    late_state : ℕ → CaseState
    late_state zero = escalated
    late_state (suc zero) = staged
    late_state (suc (suc zero)) = applied
    late_state (suc (suc (suc zero))) = outcome_logged
    late_state (suc (suc (suc (suc zero)))) = closed
    late_state (suc (suc (suc (suc (suc n))))) = reopened

state_at-index : (s : CaseState) → state_at (state_index s) ≡ s
unfolding state_at
state_at-index received = refl
state_at-index _ = refl

pub state_eq_iff : (a b : CaseState) → (state_eq a b ≡ true) ↔ (a ≡ b)
state_eq_iff a b = (
  (λ h.
      sym (state_at-index a)
      ∙ ap state_at ((==_iff (state_index a) (state_index b)).0 h)
      ∙ state_at-index b),
  λ e. (==_iff (state_index a) (state_index b)).1 (ap state_index e),
)

abbrev pub all_states : List CaseState
all_states =
    received ∷ normalized ∷ matching ∷ reconciled ∷ exception ∷ investigating ∷ action_proposed
    ∷ approval_pending ∷ approved ∷ rejected ∷ requesting_evidence ∷ escalated ∷ staged ∷ applied
    ∷ outcome_logged ∷ closed ∷ reopened ∷ []

abbrev pub all_actors : List TransitionActor
all_actors = system ∷ operator ∷ approver ∷ admin ∷ []

-- A test that passes on the list of all states passes at each.
pub every_state : (p : CaseState → Bool) → every p all_states ≡ true → (s : CaseState) → p s ≡ true
unfolding every
every_state p h received = ground arith
every_state p h _ = ground arith

pub every_actor :
    (p : TransitionActor → Bool) → every p all_actors ≡ true → (a : TransitionActor) → p a ≡ true
unfolding every
every_actor p h system = ground arith
every_actor p h _ = ground arith
