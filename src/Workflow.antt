-- ===== src/Workflow.antt =====
-- The workflow of a case: who asks (packages/application/src/auth/request-context.ts), the guarded
-- transition (Repository), human approval (Approval), and the other human transitions (Human).
pub mod Repository
pub mod Approval
pub mod Human
pub mod Investigation
pub mod AiInvestigation
pub mod Reconcile
use settlement_ops.Base.{Bool, List, String, any, leb, ℕ, ◌==◌}

pub data Role : Type 0 where
  operator_role approver_role admin_role : Role

pub record RequestContext : Type 0 where
  pub user_id : String
  pub tenant_id : String
  pub roles : List Role
  pub request_id : String
  pub correlation_id : String

-- `RANK`
abbrev pub role_rank : Role → ℕ
role_rank operator_role = 1
role_rank approver_role = 2
role_rank admin_role = 3

unfoldable pub has_role : RequestContext → Role → Bool
unfolding any
has_role ctx role = any (λ r. role_rank r == role_rank role) ctx.roles

unfoldable pub has_at_least : RequestContext → Role → Bool
unfolding any
has_at_least ctx minimum = any (λ r. leb (role_rank minimum) (role_rank r)) ctx.roles
