-- ===== src/Case/Transitions/Laws.antt =====
-- What the table allows, and to whom.
use settlement_ops.Base.{
  Bool, [], arith, every, leb, not, refl, some, true, ℕ, ◌&&◌, ◌||◌, ◌∷◌, ◌≡◌, ◌≢◌, ◌≤◌, ◌⊎◌,
}
use settlement_ops.Case.State.{
  CaseState, TransitionActor, actor_eq, admin, all_actors, all_states, approved, approver, closed,
  every_actor, every_state, operator, reconciled, reopened, staged, state_eq, state_eq_iff, system,
}
use settlement_ops.Case.Transitions.{
  TransitionRule, can_transition, find_transition, is_actor_permitted, requires_outcome_record,
}

abbrev pub implies : Bool → Bool → Bool
implies a b = not a || b

abbrev pub seniority : TransitionActor → ℕ
seniority system = 0
seniority operator = 1
seniority approver = 2
seniority admin = 3

pub implies-elim : (a b : Bool) → implies a b ≡ true → a ≡ true → b ≡ true
implies-elim a b h e = ground arith

-- A test of all pairs of states and all actors, which evaluation decides.
unfoldable pub for_all_moves : (CaseState → CaseState → TransitionActor → Bool) → Bool
unfolding every
for_all_moves p = every (λ f. every (λ t. every (λ a. p f t a) all_actors) all_states) all_states

pub every_move :
    (p : CaseState → CaseState → TransitionActor → Bool)
    → for_all_moves p ≡ true
    → (f t : CaseState) (a : TransitionActor) → p f t a ≡ true
unfolding for_all_moves
every_move p h f t a =
    every_actor (p f t)
      (every_state (λ t. every (λ a. p f t a) all_actors)
        (every_state (λ f. every (λ t. every (λ a. p f t a) all_actors) all_states) h f) t)
      a

seniority_test : CaseState → CaseState → TransitionActor → Bool
unfolding every
seniority_test f t a =
    implies (is_actor_permitted f t a && not (actor_eq a system))
      (every (λ b. implies (leb (seniority a) (seniority b)) (is_actor_permitted f t b)) all_actors)

seniority_table : for_all_moves seniority_test ≡ true
unfolding for_all_moves is_actor_permitted seniority_test
seniority_table = refl

seniority_by :
    (p : TransitionActor → Bool) (a b : TransitionActor)
    → implies
        (p a && not (actor_eq a system))
        (every (λ c. implies (leb (seniority a) (seniority c)) (p c)) all_actors)
      ≡ true
    → p a ≡ true
    → a ≢ system
    → seniority a ≤ seniority b
    → p b ≡ true
unfolding every
seniority_by p a b h permitted is_human senior = ground arith

-- Seniority among humans carries permission, and `SYSTEM` is outside it: whatever a human may do, a
-- human of the same or a higher rank may do.
pub permission_hierarchy :
    (f t : CaseState) (a b : TransitionActor)
    → is_actor_permitted f t a ≡ true
    → a ≢ system
    → seniority a ≤ seniority b
    → is_actor_permitted f t b ≡ true
unfolding seniority_test
permission_hierarchy f t a b permitted is_human senior =
    seniority_by (is_actor_permitted f t) a b (every_move seniority_test seniority_table f t a)
      permitted is_human senior

-- A move that the table gives to `SYSTEM` alone is closed to every human, `ADMIN` included.
pub system_only :
    (f t : CaseState) (r : TransitionRule) (a : TransitionActor)
    → find_transition f t ≡ some r
    → r.actors ≡ system ∷ []
    → is_actor_permitted f t a ≡ true
    → a ≡ system
unfolding is_actor_permitted
system_only f t r a found only permitted = ground arith

-- The forms of the table that proofs about runs of the machine need.
closing_test : CaseState → CaseState → TransitionActor → Bool
closing_test f t a =
    implies (is_actor_permitted f t a && state_eq t closed)
      (state_eq f reconciled || requires_outcome_record f t)

closing_table : for_all_moves closing_test ≡ true
unfolding for_all_moves is_actor_permitted closing_test requires_outcome_record
closing_table = refl

-- A case is closed with an outcome record, unless the baseline has reconciled it.
pub closing_needs_outcome :
    (f : CaseState) (a : TransitionActor)
    → is_actor_permitted f closed a ≡ true
    → (f ≡ reconciled) ⊎ (requires_outcome_record f closed ≡ true)
unfolding closing_test
closing_needs_outcome f a h =
    ground (arith, every_move closing_test closing_table f closed a, state_eq_iff f reconciled)

-- What a closed case may do.
reopen_test : CaseState → CaseState → TransitionActor → Bool
reopen_test f t a =
    implies (is_actor_permitted f t a && state_eq f closed)
      (state_eq t reopened && actor_eq a admin)

reopen_table : for_all_moves reopen_test ≡ true
unfolding for_all_moves is_actor_permitted reopen_test
reopen_table = refl

-- A closed case can only be reopened, and only by an `ADMIN`.
pub closed_reopens :
    (t : CaseState) (a : TransitionActor)
    → is_actor_permitted closed t a ≡ true
    → (t ≡ reopened) × (a ≡ admin)
unfolding reopen_test
closed_reopens t a h =
    ground (arith, every_move reopen_test reopen_table closed t a, state_eq_iff t reopened)

-- Where a staged case comes from.
staging_test : CaseState → CaseState → TransitionActor → Bool
staging_test f t a = implies (is_actor_permitted f t a && state_eq t staged) (state_eq f approved)

staging_table : for_all_moves staging_test ≡ true
unfolding for_all_moves is_actor_permitted staging_test
staging_table = refl

pub staged_from_approved :
    (f : CaseState) (a : TransitionActor) → is_actor_permitted f staged a ≡ true → f ≡ approved
unfolding staging_test
staged_from_approved f a h =
    ground (arith, every_move staging_test staging_table f staged a, state_eq_iff f approved)

-- Whoever is permitted a move has a rule for it.
pub permitted_can :
    (f t : CaseState) (a : TransitionActor)
    → is_actor_permitted f t a ≡ true
    → can_transition f t ≡ true
unfolding is_actor_permitted can_transition
permitted_can f t a h = ground arith
