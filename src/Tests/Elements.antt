-- ===== src/Tests/Elements.antt =====
-- The use cases on debts, goals, investments and budgets.
use financial_os.Profiles.Invariant.{row_id}
use financial_os.Tests.Ledger.{ledger, as_user, ledger-IsShared, ledger-IsCapped}
use financial_os.Base.{IsAbsent, ◌≢◌, ◌≡◌, ◌⊎◌, refl, true, false, List, [], ◌∷◌, arith, map, any}
use financial_os.Base.Int.{pos}
use financial_os.Errors.{ok, returned}
use financial_os.Money.Values.{integer}
use financial_os.Store.{done}
use financial_os.Store.Post.{Post}
use financial_os.SharedElements.Responsibility.{validate_sum_to_100, full_bp, ResponsibilityShare}
use financial_os.SharedElements.Repository.{debts_for_profile}
use financial_os.SharedElements.Shares.{share_id, IsFull}
use financial_os.SharedElements.Responsible.{IsAssigned, set_debt_responsibility-IsAssigned}
use financial_os.SharedElements.Rescaling.{has_share, rescaled_exact}
use financial_os.SharedElements.Leaving.{IsSwept, reassign_for_left_member-IsSwept}
use financial_os.SharedElements.Reassignment.{reassign_for_left_member}
use financial_os.SharedElements.NewDebt.{IsCreated, create_shared_debt-IsCreated}
use financial_os.SharedElements.Balancing.{
  IsFunded, IsPaid, IsSpent, IsRevalued, fund_goal-IsFunded, pay_shared_debt-IsPaid,
  record_budget_spend-IsSpent, update_investment_value-IsRevalued,
}
use financial_os.SharedElements.Service.{
  rescaled, fund_goal_tx, pay_shared_debt_tx, record_budget_spend_tx, update_investment_value_tx,
  set_debt_responsibility_tx, create_shared_debt_tx,
}

set_debt_responsibility-IsAssigned_example :
    Post
      (IsAssigned 11 61 3 (integer (pos 2500)) 0 ledger)
      (λ s'. s' ≡ ledger)
      (IsAbsent row_id 3 ledger.memberships)
      (set_debt_responsibility_tx (as_user 11) 61 3 (integer (pos 2500)) 0 ledger)
set_debt_responsibility-IsAssigned_example =
    set_debt_responsibility-IsAssigned (as_user 11) 61 3 (integer (pos 2500)) 0 ledger
      ledger-IsShared

abbrev others : List ResponsibilityShare
others = record { membership_id = 1; percentage_bp = pos 6000 } ∷ []

rescaled_exact_example :
    (out : List ResponsibilityShare) × (rescaled 3 2500 others
      ≡ returned (record { membership_id = 3; percentage_bp = pos 2500 } ∷ out))
    × (map share_id out ≡ map share_id others)
    × ((((2500 ≡ full_bp) ⊎ (any has_share others ≡ true))
          × (validate_sum_to_100 (record { membership_id = 3; percentage_bp = pos 2500 } ∷ out)
              ≡ ok tt)
          × IsFull (record { membership_id = 3; percentage_bp = pos 2500 } ∷ out))
        ⊎ ((2500 ≢ full_bp)
            × (any has_share others ≡ false)
            × (validate_sum_to_100 (record { membership_id = 3; percentage_bp = pos 2500 } ∷ out)
                ≢ ok tt)))
rescaled_exact_example =
    rescaled_exact 3 2500 others (omega arith) (omega arith, tt) (tt, tt) (omega arith, tt)

reassign_for_left_member-IsSwept_example :
    Post
      (λ n s'.
        IsSwept 3 (debts_for_profile 7 ledger) ledger s'
        × (reassign_for_left_member 7 3 s' ≡ done (ok 0) s'))
      (λ s'. ⊥)
      ⊥
      (reassign_for_left_member 7 3 ledger)
reassign_for_left_member-IsSwept_example =
    reassign_for_left_member-IsSwept 7 3 ledger (tt, tt) ledger-IsShared

create_shared_debt-IsCreated_example :
    Post
      (IsCreated (as_user 11) 7 (pos 80) 64 ledger)
      (λ s'. s' ≡ ledger)
      ⊥
      (create_shared_debt_tx (as_user 11) 7 (pos 80) 64 ledger)
create_shared_debt-IsCreated_example =
    create_shared_debt-IsCreated (as_user 11) 7 (pos 80) 64 ledger ledger-IsShared
      ledger-IsCapped.keys ledger-IsCapped.nonnegative refl

fund_goal-IsFunded_example :
    Post
      (IsFunded (as_user 11) 60 (pos 60) 2 ledger)
      (λ s'. s' ≡ ledger)
      ⊥
      (fund_goal_tx (as_user 11) 60 (pos 60) 2 ledger)
fund_goal-IsFunded_example = fund_goal-IsFunded (as_user 11) 60 (pos 60) 2 ledger

pay_shared_debt-IsPaid_example :
    Post
      (IsPaid (as_user 11) 61 (pos 500) 0 ledger)
      (λ s'. s' ≡ ledger)
      ⊥
      (pay_shared_debt_tx (as_user 11) 61 (pos 500) 0 ledger)
pay_shared_debt-IsPaid_example = pay_shared_debt-IsPaid (as_user 11) 61 (pos 500) 0 ledger

record_budget_spend-IsSpent_example :
    Post
      (IsSpent (as_user 11) 63 (pos 90) 0 ledger)
      (λ s'. s' ≡ ledger)
      ⊥
      (record_budget_spend_tx (as_user 11) 63 (pos 90) 0 ledger)
record_budget_spend-IsSpent_example = record_budget_spend-IsSpent (as_user 11) 63 (pos 90) 0 ledger

update_investment_value-IsRevalued_example :
    Post
      (IsRevalued (as_user 11) 62 (pos 12) 0 9 ledger)
      (λ s'. s' ≡ ledger)
      ⊥
      (update_investment_value_tx (as_user 11) 62 (pos 12) 0 9 ledger)
update_investment_value-IsRevalued_example =
    update_investment_value-IsRevalued (as_user 11) 62 (pos 12) 0 9 ledger
