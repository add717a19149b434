-- ===== src/SharedElements/Repository.antt =====
-- `modules/shared-elements/infrastructure/shared-elements.repository.ts`.
use financial_os.Base.{
  ℕ, ◌+◌, refl, Bool, false, not, any, all, ◌||◌, ◌&&◌, if◌then◌else◌, Option, none, some, List, [],
  ◌∷◌, map, filter, ◌++◌, ◌==◌, Uuid,
}
use financial_os.Base.Int.{ℤ}
use financial_os.Money.Currency.{str_eq}
use financial_os.SharedElements.Balances.{GoalStatus}
use financial_os.SharedElements.Responsibility.{ResponsibilityShare}
use financial_os.Profiles.Membership.{Instant}
use financial_os.Store.{
  Store, Tx, done, rolled_back, GoalRow, DebtRow, ResponsibilityRow, InvestmentRow, BudgetRow,
}
use financial_os.Errors.{ok, constraint}
use financial_os.Store.Memberships.{find_first, is_membership}
use financial_os.Store.Table.{Table, create, find_unique, versioned_update}

abbrev pub goals : Table GoalRow
goals = record {
  rows = λ s. s.goals;
  put = λ xs s. record s { goals = xs };
  key = λ g. g.id;
  put_rows = λ xs s. refl;
}

abbrev pub debts : Table DebtRow
debts = record {
  rows = λ s. s.debts;
  put = λ xs s. record s { debts = xs };
  key = λ d. d.id;
  put_rows = λ xs s. refl;
}

abbrev pub investments : Table InvestmentRow
investments = record {
  rows = λ s. s.investments;
  put = λ xs s. record s { investments = xs };
  key = λ i. i.id;
  put_rows = λ xs s. refl;
}

abbrev pub budgets : Table BudgetRow
budgets = record {
  rows = λ s. s.budgets;
  put = λ xs s. record s { budgets = xs };
  key = λ b. b.id;
  put_rows = λ xs s. refl;
}

abbrev pub find_goal : Uuid → Store → Option GoalRow
find_goal id s = find_unique goals id s

abbrev pub funded : ℤ → GoalStatus → GoalRow → GoalRow
funded amount status g = record g {
  funded_amount = amount;
  status = status;
  version = g.version + 1;
}

abbrev pub fund_goal_versioned : Uuid → ℤ → GoalStatus → ℕ → Tx ℕ
fund_goal_versioned id amount status expected =
    versioned_update goals (λ g. g.version) (funded amount status) id expected

abbrev pub find_debt : Uuid → Store → Option DebtRow
find_debt id s = find_unique debts id s

abbrev pub debts_for_profile : Uuid → Store → List DebtRow
debts_for_profile profile s = filter (λ d. d.shared_profile_id == profile) s.debts

abbrev pub paid : ℤ → DebtRow → DebtRow
paid balance d = record d { outstanding_balance = balance; version = d.version + 1 }

abbrev pub pay_debt_versioned : Uuid → ℤ → ℕ → Tx ℕ
pay_debt_versioned id balance expected =
    versioned_update debts (λ d. d.version) (paid balance) id expected

abbrev pub touched : DebtRow → DebtRow
touched d = record d { version = d.version + 1 }

abbrev pub touch_debt_versioned : Uuid → ℕ → Tx ℕ
touch_debt_versioned id expected = versioned_update debts (λ d. d.version) touched id expected

abbrev pub is_for_debt : Uuid → ResponsibilityRow → Bool
is_for_debt debt r = r.shared_debt_id == debt

abbrev pub to_share : ResponsibilityRow → ResponsibilityShare
to_share r = record { membership_id = r.membership_id; percentage_bp = r.percentage_bp }

abbrev pub list_responsibilities : Uuid → Store → List ResponsibilityShare
list_responsibilities debt s = map to_share (filter (is_for_debt debt) s.responsibilities)

abbrev pub responsibility_row : Uuid → ResponsibilityShare → ResponsibilityRow
responsibility_row debt share = record {
  shared_debt_id = debt;
  membership_id = share.membership_id;
  percentage_bp = share.percentage_bp;
}

-- `deleteMany`, then one `create` for each share.
abbrev pub replaced :
    Uuid → List ResponsibilityShare → List ResponsibilityRow → List ResponsibilityRow
replaced debt shares rows =
    filter (λ r. not (is_for_debt debt r)) rows ++ map (responsibility_row debt) shares

-- A member that two shares name, against the unique pair of debt and member.
abbrev pub repeats : List ResponsibilityShare → Bool
repeats [] = false
repeats (x ∷ xs) = any (λ y. y.membership_id == x.membership_id) xs || repeats xs

-- The foreign key on members.
abbrev pub all_members : List ResponsibilityShare → Store → Bool
all_members shares s = all (λ x. is_membership x.membership_id s) shares

abbrev pub replace_responsibilities : Uuid → List ResponsibilityShare → Tx (Unit {0})
replace_responsibilities debt shares s =
    if repeats shares || not (all_members shares s)
    then rolled_back constraint
    else done (ok tt) (record s { responsibilities = replaced debt shares s.responsibilities })

abbrev pub find_investment : Uuid → Store → Option InvestmentRow
find_investment id s = find_unique investments id s

abbrev pub revalued : ℤ → Instant → InvestmentRow → InvestmentRow
revalued value at i = record i { current_value = value; value_as_of = at; version = i.version + 1 }

abbrev pub update_investment_versioned : Uuid → ℤ → Instant → ℕ → Tx ℕ
update_investment_versioned id value at expected =
    versioned_update investments (λ i. i.version) (revalued value at) id expected

abbrev pub find_budget : Uuid → Store → Option BudgetRow
find_budget id s = find_unique budgets id s

abbrev pub spent_to : ℤ → BudgetRow → BudgetRow
spent_to spent b = record b { spent = spent; version = b.version + 1 }

abbrev pub record_spend_versioned : Uuid → ℤ → ℕ → Tx ℕ
record_spend_versioned id spent expected =
    versioned_update budgets (λ b. b.version) (spent_to spent) id expected

abbrev pub is_budget : Uuid → Uuid → List ℕ → BudgetRow → Bool
is_budget profile period category b =
    b.shared_profile_id == profile && b.period_id == period && str_eq b.category category

-- `create` keeps profile, period and category unique together, and throws otherwise.
abbrev pub create_budget : BudgetRow → Tx (Unit {0})
create_budget row s =
    elim (find_first (is_budget row.shared_profile_id row.period_id row.category) s.budgets) [
      | some taken ↦ rolled_back constraint
      | none ↦ create budgets row s
    ]
