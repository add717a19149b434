-- ===== src/SharedElements/Service.antt =====
-- `application/shared-elements.service.ts`: each use case is one transaction. `fresh` is the
-- identifier that the database gives to a new row.
use financial_os.Base.{ℕ, ◌-◌, ◌||◌, some, List, [], ◌∷◌, map, filter, if◌then◌else◌, ◌==◌, Uuid}
use financial_os.Base.Int.{ℤ, pos, pos_part, ltb_ℤ, leb_ℤ}
use financial_os.Errors.{
  Result, Attempt, returned, ok, fail, fail_with, total, forbidden, validation, invariant,
  not_found, archived,
}
use financial_os.Errors
use financial_os.Money.Values.{Number, integer, fractional}
use financial_os.Money.Allocation.{allocate_by_largest_remainder}
use financial_os.Permissions.{Capability, manage_shared_elements, set_debt_responsibility}
use financial_os.Profiles.Membership.{Instant}
use financial_os.Profiles.Service.{checked_member}
use financial_os.Contributions.Service.{open_profile}
use financial_os.Contributions.Period.{allocations_of}
use financial_os.Contributions.Repository.{
  current_plan, active_memberships, percentage_or_zero, find_open_period,
}
use financial_os.Store.{
  Store, MembershipRow, AllocationRow, GoalRow, DebtRow, InvestmentRow, BudgetRow, Principal, Tx,
  ◌>>=◌, ◌>>◌, lift, attempt, read, require, expect, emit, log, of_event,
  update_with_optimistic_lock, goal_funded, shared_debt_paid, debt_responsibility_set,
  shared_goal_created, shared_debt_created, shared_investment_created,
  shared_investment_value_updated, shared_budget_created, shared_budget_spend_recorded,
}
use financial_os.Store.Memberships.{find_shared_profile, find_by_profile_and_user, find_first}
use financial_os.Store.Table.{create}
use financial_os.SharedElements.Balances.{active_goal}
use financial_os.SharedElements.Balances
use financial_os.SharedElements.Responsibility.{
  full_bp, ResponsibilityShare, weight_of, share_of, stays, normalized, validate_sum_to_100,
}
use financial_os.SharedElements.Repository.{
  goals, debts, investments, create_budget, find_goal, fund_goal_versioned, find_debt,
  pay_debt_versioned, touch_debt_versioned, list_responsibilities, replace_responsibilities,
  find_investment, update_investment_versioned, find_budget, record_spend_versioned,
}

-- `guard`: a writable profile, and the caller's active membership with a role that allows the action.
unfoldable pub guard : Uuid → Uuid → Capability → Tx MembershipRow
guard profile_id user capability = do
  found ← read (find_shared_profile profile_id)
  profile ← lift (open_profile found)
  member ← read (find_by_profile_and_user profile_id user)
  lift (checked_member member capability)

abbrev pub new_goal : Uuid → ℤ → Uuid → GoalRow
new_goal profile_id target fresh = record {
  id = fresh;
  shared_profile_id = profile_id;
  target_amount = target;
  funded_amount = pos 0;
  status = active_goal;
  version = 0;
}

unfoldable pub create_shared_goal_tx : Principal → Uuid → ℤ → Uuid → Tx GoalRow
create_shared_goal_tx principal profile_id target fresh = do
  actor ← guard profile_id principal.user_id manage_shared_elements
  lift (if leb_ℤ target (pos 0) then fail validation else ok tt)
  create goals (new_goal profile_id target fresh)
  log profile_id (some actor.id) shared_goal_created
  lift (ok (new_goal profile_id target fresh))

unfoldable pub fund_goal_tx : Principal → Uuid → ℤ → ℕ → Tx GoalRow
fund_goal_tx principal id cents expected_version = do
  found ← read (find_goal id)
  goal ← require found not_found
  actor ← guard goal.shared_profile_id principal.user_id manage_shared_elements
  decision ← lift (Balances.fund_goal goal.funded_amount goal.target_amount cents)
  updated ←
      update_with_optimistic_lock
        (fund_goal_versioned id decision.new_funded_cents decision.status expected_version)
        (read (find_goal id) >>= expect)
  emit goal_funded id (some actor.id)
  log goal.shared_profile_id (some actor.id) (of_event goal_funded)
  lift (ok updated)

-- `bpByMember.get(m.id) ?? 0`
abbrev pub weighed : List AllocationRow → MembershipRow → ResponsibilityShare
weighed allocations m = record {
  membership_id = m.id;
  percentage_bp = percentage_or_zero (find_first (λ a. a.membership_id == m.id) allocations);
}

-- The shares of a new debt: by the members' contribution percentages, equal ones if all are zero.
unfoldable pub default_responsibilities_for :
    List MembershipRow → List AllocationRow → Attempt (List ResponsibilityShare)
default_responsibilities_for [] allocations = returned []
default_responsibilities_for (m ∷ ms) allocations =
    Errors.◌>>=◌
      (allocate_by_largest_remainder (pos full_bp)
        (normalized (map (weighed allocations) (m ∷ ms))))
      (λ rs. returned (map share_of rs))

abbrev pub default_shares : Uuid → Store → Attempt (List ResponsibilityShare)
default_shares profile_id s =
    default_responsibilities_for (active_memberships profile_id s)
      (allocations_of (current_plan profile_id s) s)

-- `if (shares.length > 0) await replaceResponsibilities(…)`
unfoldable pub replace_if_any : Uuid → List ResponsibilityShare → Tx (Unit {0})
replace_if_any debt [] = lift (ok tt)
replace_if_any debt (share ∷ shares) = replace_responsibilities debt (share ∷ shares)

abbrev pub new_debt : Uuid → ℤ → Uuid → DebtRow
new_debt profile_id balance fresh = record {
  id = fresh;
  shared_profile_id = profile_id;
  outstanding_balance = balance;
  version = 0;
}

unfoldable pub create_shared_debt_tx : Principal → Uuid → ℤ → Uuid → Tx DebtRow
create_shared_debt_tx principal profile_id balance fresh = do
  actor ← guard profile_id principal.user_id manage_shared_elements
  lift (if ltb_ℤ balance (pos 0) then fail validation else ok tt)
  create debts (new_debt profile_id balance fresh)
  defaults ← read (default_shares profile_id)
  shares ← attempt defaults
  replace_if_any fresh shares
  log profile_id (some actor.id) shared_debt_created
  lift (ok (new_debt profile_id balance fresh))

unfoldable pub pay_shared_debt_tx : Principal → Uuid → ℤ → ℕ → Tx DebtRow
pay_shared_debt_tx principal id cents expected_version = do
  found ← read (find_debt id)
  debt ← require found not_found
  actor ← guard debt.shared_profile_id principal.user_id manage_shared_elements
  decision ← lift (Balances.pay_debt debt.outstanding_balance cents)
  updated ←
      update_with_optimistic_lock
        (pay_debt_versioned id decision.new_outstanding_cents expected_version)
        (read (find_debt id) >>= expect)
  emit shared_debt_paid id (some actor.id)
  log debt.shared_profile_id (some actor.id) (of_event shared_debt_paid)
  lift (ok updated)

-- The percentage, if it is an integer from 0 to 10000.
unfoldable pub checked_share : Number → Result ℕ
checked_share fractional = fail validation
checked_share (integer bp) =
    if ltb_ℤ bp (pos 0) || ltb_ℤ (pos full_bp) bp then fail validation else ok (pos_part bp)

-- The others are rescaled to what is left.
unfoldable pub rescaled : Uuid → ℕ → List ResponsibilityShare → Attempt (List ResponsibilityShare)
rescaled id bp others =
    Errors.◌>>=◌ (allocate_by_largest_remainder (pos (full_bp - bp)) (map weight_of others))
      (λ rs. returned (record { membership_id = id; percentage_bp = pos bp } ∷ map share_of rs))

-- `others.length === 0 && remaining !== 0`
unfoldable pub check_sole : ℕ → List ResponsibilityShare → Result (Unit {0})
check_sole bp [] = if bp == full_bp then ok tt else fail invariant
check_sole bp (o ∷ os) = ok tt

unfoldable pub set_debt_responsibility_tx : Principal → Uuid → Uuid → Number → ℕ → Tx DebtRow
set_debt_responsibility_tx principal id member percentage expected_version = do
  found ← read (find_debt id)
  debt ← require found not_found
  actor ← guard debt.shared_profile_id principal.user_id set_debt_responsibility
  bp ← lift (checked_share percentage)
  current ← read (list_responsibilities id)
  lift (check_sole bp (filter (stays member) current))
  shares ← attempt (rescaled member bp (filter (stays member) current))
  lift (validate_sum_to_100 shares)
  updated ←
      update_with_optimistic_lock (touch_debt_versioned id expected_version)
        (read (find_debt id) >>= expect)
  replace_responsibilities id shares
  emit debt_responsibility_set id (some actor.id)
  log debt.shared_profile_id (some actor.id) (of_event debt_responsibility_set)
  lift (ok updated)

abbrev pub new_investment : Uuid → ℤ → Instant → Uuid → InvestmentRow
new_investment profile_id value now fresh = record {
  id = fresh;
  shared_profile_id = profile_id;
  current_value = value;
  value_as_of = now;
  version = 0;
}

unfoldable pub create_investment_tx : Principal → Uuid → ℤ → Instant → Uuid → Tx InvestmentRow
create_investment_tx principal profile_id value now fresh = do
  actor ← guard profile_id principal.user_id manage_shared_elements
  lift (if ltb_ℤ value (pos 0) then fail validation else ok tt)
  create investments (new_investment profile_id value now fresh)
  log profile_id (some actor.id) shared_investment_created
  lift (ok (new_investment profile_id value now fresh))

unfoldable pub update_investment_value_tx : Principal → Uuid → ℤ → ℕ → Instant → Tx InvestmentRow
update_investment_value_tx principal id value expected_version now = do
  found ← read (find_investment id)
  investment ← require found not_found
  actor ← guard investment.shared_profile_id principal.user_id manage_shared_elements
  decision ← lift (Balances.update_investment_value investment.current_value value)
  updated ←
      update_with_optimistic_lock (update_investment_versioned id decision now expected_version)
        (read (find_investment id) >>= expect)
  log investment.shared_profile_id (some actor.id) shared_investment_value_updated
  lift (ok updated)

abbrev pub new_budget : Uuid → Uuid → List ℕ → ℤ → Uuid → BudgetRow
new_budget profile_id period category limit fresh = record {
  id = fresh;
  shared_profile_id = profile_id;
  period_id = period;
  category = category;
  limit = limit;
  spent = pos 0;
  version = 0;
}

unfoldable pub create_budget_tx : Principal → Uuid → List ℕ → ℤ → Uuid → Tx BudgetRow
create_budget_tx principal profile_id category limit fresh = do
  actor ← guard profile_id principal.user_id manage_shared_elements
  lift (if ltb_ℤ limit (pos 0) then fail validation else ok tt)
  found ← read (find_open_period profile_id)
  period ← require found validation
  create_budget (new_budget profile_id period.id category limit fresh)
  log profile_id (some actor.id) shared_budget_created
  lift (ok (new_budget profile_id period.id category limit fresh))

unfoldable pub record_budget_spend_tx : Principal → Uuid → ℤ → ℕ → Tx BudgetRow
record_budget_spend_tx principal id cents expected_version = do
  found ← read (find_budget id)
  budget ← require found not_found
  actor ← guard budget.shared_profile_id principal.user_id manage_shared_elements
  decision ← lift (Balances.record_spend budget.limit budget.spent cents)
  updated ←
      update_with_optimistic_lock
        (record_spend_versioned id decision.new_spent_cents expected_version)
        (read (find_budget id) >>= expect)
  log budget.shared_profile_id (some actor.id) shared_budget_spend_recorded
  lift (ok updated)
