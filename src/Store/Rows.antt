-- ===== src/Store/Rows.antt =====
-- The tables, and the event and audit records.
use financial_os.Base.{ℕ, Bool, Option, List, Uuid}
use financial_os.Base.Int.{ℤ}
use financial_os.SharedElements.Balances.{GoalStatus}
use financial_os.Money.Currency.{CurrencyCode}
use financial_os.Permissions.{MemberRole}
use financial_os.Profiles.Membership.{MembershipStatus, Instant}
use financial_os.Profiles.SharedProfile.{ProfileStatus}

pub data PeriodLength : Type 0 where
  weekly monthly quarterly yearly : PeriodLength

pub data PeriodStatus : Type 0 where
  open_period closed_period : PeriodStatus

-- `EventType`
pub data EventType : Type 0 where
  shared_profile_created member_invited invitation_accepted invitation_declined : EventType
  invitation_expired declared_income_set profile_archived member_role_changed : EventType
  member_left owner_nominated ownership_transferred allocation_set : EventType
  percentage_redistributed contribution_recorded goal_funded shared_debt_paid : EventType
  debt_responsibility_set contribution_period_opened contribution_period_closed : EventType

pub record DomainEvent : Type 0 where
  pub event_type : EventType
  pub aggregate_id : Uuid
  pub actor_membership_id : Option Uuid

-- The `action` of an audit entry is an event's name, or says what else was done.
pub data AuditAction : Type 0 where
  of_event : EventType → AuditAction
  shared_goal_created shared_debt_created shared_investment_created : AuditAction
  shared_investment_value_updated shared_budget_created shared_budget_spend_recorded : AuditAction

pub record AuditEntry : Type 0 where
  pub shared_profile_id : Uuid
  pub actor_membership_id : Option Uuid
  pub action : AuditAction

pub record MembershipRow : Type 0 where
  pub id : Uuid
  pub shared_profile_id : Uuid
  pub user_id : Uuid
  pub role : MemberRole
  pub status : MembershipStatus
  pub pending_owner_nominee : Bool
  pub invitation_expires_at : Instant
  pub joined_at : Option Instant
  pub left_at : Option Instant
  pub declared_income_cents : ℤ
  pub version : ℕ

pub record ProfileRow : Type 0 where
  pub id : Uuid
  pub base_currency : CurrencyCode
  pub status : ProfileStatus
  pub period_length : PeriodLength
  pub owner_membership_id : Option Uuid
  pub archived_at : Option Instant

pub record PlanRow : Type 0 where
  pub id : Uuid
  pub shared_profile_id : Uuid
  pub version : ℕ
  pub created_by : Uuid

pub record AllocationRow : Type 0 where
  pub contribution_plan_id : Uuid
  pub membership_id : Uuid
  pub percentage_bp : ℤ
  pub version : ℕ

-- The snapshot maps members to their incomes.
pub record PeriodRow : Type 0 where
  pub id : Uuid
  pub shared_profile_id : Uuid
  pub start_date : Instant
  pub end_date : Instant
  pub status : PeriodStatus
  pub plan_version_snapshot : ℕ
  pub income_snapshot : List (Uuid × ℤ)

pub record RecordRow : Type 0 where
  pub id : Uuid
  pub shared_profile_id : Uuid
  pub period_id : Uuid
  pub membership_id : Uuid
  pub amount : ℤ
  pub source_account_id : Option Uuid

pub record PersonalProfileRow : Type 0 where
  pub id : Uuid
  pub user_id : Uuid

-- `AccountProfileType`
pub data ProfileType : Type 0 where
  personal shared : ProfileType

pub record AccountRow : Type 0 where
  pub id : Uuid
  pub profile_type : ProfileType
  pub profile_id : Uuid
  pub balance : ℤ
  pub currency : CurrencyCode

pub record GoalRow : Type 0 where
  pub id : Uuid
  pub shared_profile_id : Uuid
  pub target_amount : ℤ
  pub funded_amount : ℤ
  pub status : GoalStatus
  pub version : ℕ

pub record DebtRow : Type 0 where
  pub id : Uuid
  pub shared_profile_id : Uuid
  pub outstanding_balance : ℤ
  pub version : ℕ

pub record ResponsibilityRow : Type 0 where
  pub shared_debt_id : Uuid
  pub membership_id : Uuid
  pub percentage_bp : ℤ

pub record InvestmentRow : Type 0 where
  pub id : Uuid
  pub shared_profile_id : Uuid
  pub current_value : ℤ
  pub value_as_of : Instant
  pub version : ℕ

pub record BudgetRow : Type 0 where
  pub id : Uuid
  pub shared_profile_id : Uuid
  pub period_id : Uuid
  pub category : List ℕ
  pub limit : ℤ
  pub spent : ℤ
  pub version : ℕ

-- A user is its identifier. Amounts are taken to fit their 64-bit columns.
pub record Store : Type 0 where
  pub users : List Uuid
  pub profiles : List ProfileRow
  pub memberships : List MembershipRow
  pub plans : List PlanRow
  pub allocations : List AllocationRow
  pub periods : List PeriodRow
  pub records : List RecordRow
  pub personal_profiles : List PersonalProfileRow
  pub accounts : List AccountRow
  pub goals : List GoalRow
  pub debts : List DebtRow
  pub responsibilities : List ResponsibilityRow
  pub investments : List InvestmentRow
  pub budgets : List BudgetRow
  pub outbox : List DomainEvent
  pub audit : List AuditEntry

-- `TenantPrincipal`; no tenant is the empty string.
pub record Principal : Type 0 where
  pub tenant_id : Option Uuid
  pub user_id : Uuid
