-- ===== src/Tests/Periods.antt =====
-- The use cases on allocations, contributions and periods.
use financial_os.Contributions.RollAll.{first_due}
use financial_os.SharedElements.PersonalProfile.{IsUnmoved}
use financial_os.Tests.Ledger.{ledger, as_user, ledger-IsCapped}
use financial_os.Base.{◌≤◌, All, ◌*◌, ◌+◌, ◌≡◌, refl, none, List, [], ◌∷◌, arith}
use financial_os.Base.Int.{pos}
use financial_os.Money.Values.{integer}
use financial_os.Store.{open_period, monthly}
use financial_os.Store.Post.{Post}
use financial_os.Contributions.Windows.{period_end_date, period_end_date-IsLaterBy}
use financial_os.Calendar.Laws.{IsLaterBy}
use financial_os.Contributions.Allocating.{IsAllocated, set_allocation-IsAllocated}
use financial_os.Contributions.Redistribution.{RedistributionAllocation}
use financial_os.Contributions.Redistribute.{IsRedistributed, redistribute-IsRedistributed}
use financial_os.Contributions.Recording.{IsRecorded, record_contribution-IsRecorded}
use financial_os.Contributions.RollAll.{IsRolledOver, IsFreshFor, rollover_for_tenant-IsRolledOver}
use financial_os.Contributions.Period.{rollover_for_tenant}
use financial_os.Contributions.Service.{set_allocation_tx, redistribute_tx, record_contribution_tx}
use financial_os.SharedElements.Accounts.{contribute_from_account_tx}
use financial_os.SharedElements.Contributing.{IsContributed, contribute_from_account-IsContributed}

period_end_date-IsLaterBy_example :
    IsLaterBy (30 * 86_400_000 + 5) 28 31 (period_end_date (30 * 86_400_000 + 5) monthly)
period_end_date-IsLaterBy_example = period_end_date-IsLaterBy (30 * 86_400_000 + 5) monthly

set_allocation-IsAllocated_example :
    Post
      (IsAllocated 7 1 (integer (pos 7000)) ledger)
      (λ s'. s' ≡ ledger)
      ⊥
      (set_allocation_tx (as_user 11) 7 1 (integer (pos 7000)) 22 ledger)
set_allocation-IsAllocated_example =
    set_allocation-IsAllocated (as_user 11) 7 1 (integer (pos 7000)) 22 ledger ledger-IsCapped
      (omega arith, (omega arith, (omega arith, tt)))

abbrev shares : List RedistributionAllocation
shares =
    record { membership_id = 1; percentage_bp = integer (pos 5000) }
    ∷ record { membership_id = 3; percentage_bp = integer (pos 4000) }
    ∷ []

redistribute-IsRedistributed_example :
    Post
      (IsRedistributed 7 shares ledger)
      (λ s'. s' ≡ ledger)
      ⊥
      (redistribute_tx (as_user 11) 7 shares 22 ledger)
redistribute-IsRedistributed_example =
    redistribute-IsRedistributed (as_user 11) 7 shares 22 ledger ledger-IsCapped
      ((omega arith, (omega arith, tt)), (omega arith, (omega arith, (omega arith, tt))))

record_contribution-IsRecorded_example :
    Post
      (IsRecorded (as_user 13) 7 3 (pos 250) none 9 31 ledger)
      (λ s'. s' ≡ ledger)
      ⊥
      (record_contribution_tx (as_user 13) 7 3 (pos 250) none 9 31 70 ledger)
record_contribution-IsRecorded_example =
    record_contribution-IsRecorded (as_user 13) 7 3 (pos 250) none 9 31 70 ledger

ledger-IsFreshFor : IsFreshFor (λ id. id + 100) (first_due (40 * 86_400_000) ledger) ledger
ledger-IsFreshFor = record {
  unused = (refl, tt);
  apart = ((omega arith, tt), tt);
  injective = λ a b h. omega arith;
}

rollover_for_tenant-IsRolledOver_example :
    All
      (λ p. (p.status ≡ open_period) × (p.end_date ≤ 40 * 86_400_000))
      (first_due (40 * 86_400_000) ledger)
    × Post
        (λ n s'. IsRolledOver (λ id. id + 100) (first_due (40 * 86_400_000) ledger) ledger s')
        (λ s'. ⊥)
        ⊥
        (rollover_for_tenant (40 * 86_400_000) (λ id. id + 100) ledger)
rollover_for_tenant-IsRolledOver_example =
    rollover_for_tenant-IsRolledOver (40 * 86_400_000) (λ id. id + 100) ledger (tt, tt)
      ledger-IsFreshFor
      ((omega arith, omega arith), ((omega arith, omega arith), ((omega arith, omega arith), tt)))

contribute_from_account-IsContributed_example :
    Post
      (IsContributed 11 50 7 1 (pos 300) 9 41 31 ledger)
      (IsUnmoved 11 41 ledger)
      ⊥
      (contribute_from_account_tx (as_user 11) 50 7 1 (pos 300) 9 41 31 70 ledger)
contribute_from_account-IsContributed_example =
    contribute_from_account-IsContributed (as_user 11) 50 7 1 (pos 300) 9 41 31 70 ledger
