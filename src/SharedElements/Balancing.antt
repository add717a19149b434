-- ===== src/SharedElements/Balancing.antt =====
-- The use cases under the optimistic lock, `fundGoal`, `paySharedDebt`, `updateInvestmentValue` and
-- `recordBudgetSpend`: what they ensure of the store.
use financial_os.Base.{
  ◌+◌, ◌≢◌, ◌↔◌, arith, inr, inl, Bool-cases, ℕ, ◌≡◌, refl, sym, subst, some, ◌∷◌, Uuid,
}
use financial_os.Base.Int.{ltb_ℤ, ◌+ℤ◌, ℤ, pos, ◌≤ℤ◌}
use financial_os.Errors.{ok_injective, ok}
use financial_os.Permissions.{manage_shared_elements}
use financial_os.Profiles.Membership.{Instant}
use financial_os.Store.{
  Store, MembershipRow, GoalRow, DebtRow, InvestmentRow, BudgetRow, AuditEntry, AuditAction,
  Principal, goal_funded, shared_debt_paid, shared_investment_value_updated,
  shared_budget_spend_recorded,
}
use financial_os.Store.Post.{Post, lift-Post, require-Post, reading-Post, Recorded}
use financial_os.Store.Table.{change}
use financial_os.Store.Commit.{IsCommitted, view, commit-Post}
use financial_os.SharedElements.Balances.{
  fund_goal_exact, PayDebtResult, FundGoalResult, RecordSpendResult, pay_debt_step,
  record_spend_exact, achieved, archived_goal,
}
use financial_os.SharedElements.Balances
use financial_os.SharedElements.Repository.{
  goals, debts, investments, budgets, find_goal, find_debt, find_investment, find_budget, funded,
  paid, revalued, spent_to,
}
use financial_os.SharedElements.Guarded.{IsGuarded, guard-IsGuarded}
use financial_os.SharedElements.Service.{
  fund_goal_tx, pay_shared_debt_tx, update_investment_value_tx, record_budget_spend_tx,
}

-- One audit entry more, and no event.
abbrev pub IsAudited : AuditAction → Store → Store → Type 0
IsAudited action s s' =
    (a : AuditEntry) × (s'.audit ≡ a ∷ s.audit) × (a.action ≡ action) × (s'.outbox ≡ s.outbox)

-- A member whose role allows it acts on an element of an active profile.
abbrev pub IsManaged : Principal → Uuid → Store → Type 0
IsManaged principal profile s =
    (m : MembershipRow) × IsGuarded profile principal.user_id manage_shared_elements s m

module _ (principal : Principal) (id : Uuid) (cents : ℤ) (expected : ℕ) (s : Store) where
  pub record IsFunded (goal : GoalRow) (s' : Store) : Type 0 where
    pub row : GoalRow
    pub result : FundGoalResult
    pub found : find_goal id s ≡ some row
    pub added :
        (result.new_funded_cents ≡ row.funded_amount +ℤ cents)
        × ((result.status ≡ achieved) ↔ (row.target_amount ≤ℤ result.new_funded_cents))
        × (result.status ≢ archived_goal)
        × (pos 1 ≤ℤ cents)
    pub managed : IsManaged principal row.shared_profile_id s
    pub committed :
        IsCommitted
          (λ x. x.version)
          (λ g. record g {
            funded_amount = result.new_funded_cents;
            status = result.status;
            version = g.version + 1;
          })
          id
          expected
          (view goals s)
          goal
          (view goals s')
    pub recorded : Recorded goal_funded s s'

  -- `fundGoal` never throws and, after an error, a stale version among them, has changed nothing.
  -- Otherwise the amount is positive and, on the map of goals, it is an update under the lock: the goal had
  -- the expected version and has the next one, its funds are the old ones and the amount, it is achieved
  -- exactly if these reach its target, and nothing else of it, and no other goal, has changed; by a
  -- member who may manage the elements of the active profile, with one event and one audit entry.
  pub fund_goal-IsFunded :
      Post IsFunded (λ s'. s' ≡ s) ⊥ (fund_goal_tx principal id cents expected s)
  unfolding fund_goal_tx
  fund_goal-IsFunded = require-Post _ _ _ (find_goal id s) _ _ s refl (λ row found.
      reading-Post _ _ _ _ _ _ s
        (guard-IsGuarded row.shared_profile_id principal.user_id manage_shared_elements s) refl
        (λ m guarded.
          lift-Post _ _ _ (Balances.fund_goal row.funded_amount row.target_amount cents) _ s refl
            (λ r decided.
              commit-Post goals _ _ _ (λ x. x.version) (funded r.new_funded_cents r.status) id
                expected _ s (λ x. refl) found refl
                (λ committed. record {
                  row = row;
                  result = r;
                  found = found;
                  added = fund_goal_exact row.funded_amount row.target_amount cents decided;
                  managed = (m, guarded);
                  committed = committed;
                  recorded = record { events = (_, refl, refl); entries = (_, refl, refl) };
                }))))

  pub record IsPaid (debt : DebtRow) (s' : Store) : Type 0 where
    pub row : DebtRow
    pub result : PayDebtResult
    pub found : find_debt id s ≡ some row
    pub taken :
        (result.new_outstanding_cents +ℤ cents ≡ row.outstanding_balance)
        × (pos 0 ≤ℤ result.new_outstanding_cents)
        × (pos 1 ≤ℤ cents)
    pub managed : IsManaged principal row.shared_profile_id s
    pub committed :
        IsCommitted
          (λ x. x.version)
          (λ d. record d {
            outstanding_balance = result.new_outstanding_cents;
            version = d.version + 1;
          })
          id
          expected
          (view debts s)
          debt
          (view debts s')
    pub recorded : Recorded shared_debt_paid s s'

  -- `paySharedDebt` never throws and, after an error, an overpayment or a stale version among them, has
  -- changed nothing. Otherwise the amount is positive and, on the map of debts, it is an update under the
  -- lock: the debt had the expected version and has the next one, the amount has left its balance, which
  -- is not below zero, and nothing else of it, and no other debt, has changed; by a member who may manage
  -- the elements of the active profile, with one event and one audit entry.
  pub pay_shared_debt-IsPaid :
      Post IsPaid (λ s'. s' ≡ s) ⊥ (pay_shared_debt_tx principal id cents expected s)
  unfolding pay_shared_debt_tx
  pay_shared_debt-IsPaid = require-Post _ _ _ (find_debt id s) _ _ s refl (λ row found.
      reading-Post _ _ _ _ _ _ s
        (guard-IsGuarded row.shared_profile_id principal.user_id manage_shared_elements s) refl
        (λ m guarded.
          lift-Post _ _ _ (Balances.pay_debt row.outstanding_balance cents) _ s refl (λ r decided.
            commit-Post debts _ _ _ (λ x. x.version) (paid r.new_outstanding_cents) id expected _ s
              (λ x. refl) found refl
              (λ committed. record {
                row = row;
                result = r;
                found = found;
                taken = pay_debt_step row.outstanding_balance cents decided;
                managed = (m, guarded);
                committed = committed;
                recorded = record { events = (_, refl, refl); entries = (_, refl, refl) };
              }))))

  pub record IsSpent (budget : BudgetRow) (s' : Store) : Type 0 where
    pub row : BudgetRow
    pub result : RecordSpendResult
    pub found : find_budget id s ≡ some row
    pub added : (result.new_spent_cents ≡ row.spent +ℤ cents) × (pos 1 ≤ℤ cents)
    pub managed : IsManaged principal row.shared_profile_id s
    pub committed :
        IsCommitted
          (λ x. x.version)
          (λ b. record b { spent = result.new_spent_cents; version = b.version + 1 })
          id
          expected
          (view budgets s)
          budget
          (view budgets s')
    pub recorded : IsAudited shared_budget_spend_recorded s s'

  -- `recordBudgetSpend` never throws and, after an error, has changed nothing. Otherwise the amount is
  -- positive and, on the map of budgets, it is an update under the lock: the budget had the expected
  -- version and has the next one, what is spent is what was and the amount, and
  -- nothing else of it, and no other budget, has changed; by a member who may manage the elements of
  -- the active profile, with one audit entry and no event.
  pub record_budget_spend-IsSpent :
      Post IsSpent (λ s'. s' ≡ s) ⊥ (record_budget_spend_tx principal id cents expected s)
  unfolding record_budget_spend_tx
  record_budget_spend-IsSpent = require-Post _ _ _ (find_budget id s) _ _ s refl (λ row found.
      reading-Post _ _ _ _ _ _ s
        (guard-IsGuarded row.shared_profile_id principal.user_id manage_shared_elements s) refl
        (λ m guarded.
          lift-Post _ _ _ (Balances.record_spend row.limit row.spent cents) _ s refl (λ r decided.
            commit-Post budgets _ _ _ (λ x. x.version) (spent_to r.new_spent_cents) id expected _ s
              (λ x. refl) found refl
              (λ committed. record {
                row = row;
                result = r;
                found = found;
                added = record_spend_exact row.limit row.spent cents decided;
                managed = (m, guarded);
                committed = committed;
                recorded = (_, refl, refl, refl);
              }))))

pub record IsRevalued (principal : Principal) (id : Uuid) (cents : ℤ) (expected : ℕ) (now : Instant)
    (s : Store) (investment : InvestmentRow) (s' : Store) : Type 0 where
  pub row : InvestmentRow
  pub found : find_investment id s ≡ some row
  pub nonnegative : pos 0 ≤ℤ cents
  pub managed : IsManaged principal row.shared_profile_id s
  pub committed :
      IsCommitted
        (λ x. x.version)
        (λ i. record i { current_value = cents; value_as_of = now; version = i.version + 1 })
        id
        expected
        (view investments s)
        investment
        (view investments s')
  pub recorded : IsAudited shared_investment_value_updated s s'

value_lem :
    (current new : ℤ) {r : ℤ}
    → Balances.update_investment_value current new ≡ ok r
    → (r ≡ new) × (pos 0 ≤ℤ new)
unfolding Balances.update_investment_value
value_lem current new h = elim (Bool-cases (ltb_ℤ new (pos 0))) [
  | inl below ↦ let refused = rw below at h in absurd (cc)
  | inr above ↦ let e = ok_injective (rw above at h) in (sym e, ground arith)
]

-- `updateInvestmentValue` never throws and, after an error, has changed nothing. Otherwise the new value
-- is not negative and, on the map of investments, it is an update under the lock: the investment had the
-- expected version and has the next one, this value and this instant, and nothing else of it, and no other
-- investment, has changed; by a member who may manage the elements of the active profile, with one
-- audit entry and no event.
pub update_investment_value-IsRevalued :
    (principal : Principal) (id : Uuid) (cents : ℤ) (expected : ℕ) (now : Instant) (s : Store)
    → Post
        (IsRevalued principal id cents expected now s)
        (λ s'. s' ≡ s)
        ⊥
        (update_investment_value_tx principal id cents expected now s)
unfolding update_investment_value_tx
update_investment_value-IsRevalued principal id cents expected now s =
    require-Post _ _ _ (find_investment id s) _ _ s refl (λ row found.
      reading-Post _ _ _ _ _ _ s
        (guard-IsGuarded row.shared_profile_id principal.user_id manage_shared_elements s) refl
        (λ m guarded.
          lift-Post _ _ _ (Balances.update_investment_value row.current_value cents) _ s refl
            (λ r decided.
              let (same, low) = value_lem row.current_value cents decided in
              commit-Post investments _ _ _ (λ x. x.version) (revalued r now) id expected _ s
                (λ x. refl) found refl
                (λ committed. record {
                  row = row;
                  found = found;
                  nonnegative = low;
                  managed = (m, guarded);
                  committed =
                      subst
                        (λ v.
                          IsCommitted (λ x. x.version) (revalued v now) id expected
                            (view investments s) (revalued r now row)
                            (view investments (change investments id (revalued r now) s)))
                        same committed;
                  recorded = (_, refl, refl, refl);
                }))))
