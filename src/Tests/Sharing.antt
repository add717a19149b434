-- ===== src/Tests/Sharing.antt =====
-- Runs of the allocation, the debt responsibilities, the cap, the redistribution and the
-- reconciliation, for a household of three.
use financial_os.Base.{
  ℕ, ◌≡◌, ◌≢◌, ◌↔◌, refl, List, [], ◌∷◌, arith, All, filter, IsDistinct, sum_by,
}
use financial_os.Base.Int.{ℤ, pos, ◌+ℤ◌, ◌-ℤ◌, ◌*ℤ◌, ◌≤ℤ◌, sum_ℤ, div_trunc}
use financial_os.Errors.{returned, ok, fail_with, cap_exceeded, cap}
use financial_os.Money.Values.{integer}
use financial_os.Money.Percentage.{from_basis_points, apply_to_cents}
use financial_os.Money.Allocation.{
  AllocationWeight, AllocationResult, Share, allocate_by_largest_remainder, allocate_shares,
  checked_shares, distribute, ranking, insert, bump, bumped_of,
}
use financial_os.Money.Allocation.Total.{sum-allocate}
use financial_os.Money.Allocation.Fairness.{bumped-IsFair, IsFair, part}
use financial_os.Money.Allocation.QuotaRule.{allocate_shares-IsWithinQuota, IsWithinQuota}
use financial_os.Contributions.Analytics.{expected_contribution_cents}
use financial_os.Contributions.Reconciliation.{
  MemberSnapshot, Reconciliation, Reconciles, reconcile, expected_for_member, reconcile-Reconciles,
}
use financial_os.Contributions.Cap.{
  ProfileCommitment, check_allocation_within_cap, committed_total_bp, committed_from, remaining_bp,
  elsewhere_of, is_other, check_allocation_iff, check_allocation_headroom,
}
use financial_os.Contributions.Redistribution.{
  RedistributionAllocation, validate_redistribution, IsInRange, id_of, validate_redistribution_iff,
}
use financial_os.SharedElements.Responsibility.{ResponsibilityShare}

abbrev weight : ℕ → ℕ → AllocationWeight
weight id w = record { membership_id = id; weight_bp = integer (pos w) }

abbrev weights : List AllocationWeight
weights = weight 3 3333 ∷ weight 1 3333 ∷ weight 2 3334 ∷ []

abbrev share : ℕ → ℕ → Share
share id w = record { membership_id = id; weight = w }

abbrev shares : List Share
shares = share 3 3333 ∷ share 1 3333 ∷ share 2 3334 ∷ []

abbrev amount : ℕ → ℕ → AllocationResult
amount id a = record { membership_id = id; amount_cents = a }

abbrev amounts : List AllocationResult
amounts = amount 3 33 ∷ amount 1 33 ∷ amount 2 34 ∷ []

weights-IsDistinct : IsDistinct (λ w. w.membership_id) weights
weights-IsDistinct = ((omega arith, (omega arith, tt)), ((omega arith, tt), (tt, tt)))

shares-IsDistinct : IsDistinct (λ s. s.membership_id) shares
shares-IsDistinct = ((omega arith, (omega arith, tt)), ((omega arith, tt), (tt, tt)))

bumped-IsFair_example :
    All
      (λ s. All (λ t. IsFair (bumped_of 100 shares) (part 100 shares s) (part 100 shares t)) shares)
      shares
bumped-IsFair_example = bumped-IsFair 100 shares shares-IsDistinct

allocate_shares-IsWithinQuota_example : IsWithinQuota 100 10000 shares (allocate_shares 100 shares)
allocate_shares-IsWithinQuota_example =
    allocate_shares-IsWithinQuota 100 shares (omega arith) shares-IsDistinct

allocated-weights : allocate_by_largest_remainder (pos 100) weights ≡ returned amounts
unfolding allocate_by_largest_remainder checked_shares allocate_shares distribute ranking insert
    bump
allocated-weights = refl

sum-allocate_example : sum_by (λ r. r.amount_cents) amounts ≡ 100
sum-allocate_example = sum-allocate 100 weights allocated-weights weights-IsDistinct refl

abbrev held : ℕ → ℕ → ResponsibilityShare
held id bp = record { membership_id = id; percentage_bp = pos bp }

-- Nobody has a percentage: the shares are equal, 33.34%, 33.33% and 33.33%.
abbrev unweighted : List ResponsibilityShare
unweighted = held 3 0 ∷ held 1 0 ∷ held 2 0 ∷ []

abbrev thirds : List ResponsibilityShare
thirds = held 3 3334 ∷ held 1 3333 ∷ held 2 3333 ∷ []

abbrev commitment : ℕ → ℕ → ProfileCommitment
commitment id bp = record { shared_profile_id = id; percentage_bp = pos bp }

abbrev commitments : List ProfileCommitment
commitments = commitment 1 6000 ∷ commitment 2 3000 ∷ []

check_allocation_iff_example :
    (check_allocation_within_cap commitments 2 (integer (pos 4000)) ≡ ok tt) ↔ (
      (z : ℤ) × (integer (pos 4000) ≡ integer z)
      × (pos 0 ≤ℤ z)
      × (z ≤ℤ pos 10000)
      × (z +ℤ elsewhere_of 2 commitments ≤ℤ pos 10000))
check_allocation_iff_example = check_allocation_iff commitments 2 (integer (pos 4000))

over_the_cap :
    check_allocation_within_cap commitments 2 (integer (pos 5000))
    ≡ fail_with cap_exceeded (cap (pos 4000) (pos 5000) (pos 6000))
unfolding check_allocation_within_cap committed_total_bp remaining_bp committed_from ◌+ℤ◌ ◌-ℤ◌
over_the_cap = refl

check_allocation_headroom_example :
    (pos 5000 ≡ pos 5000)
    × (pos 6000 ≡ committed_total_bp (filter (is_other 2) commitments))
    × (check_allocation_within_cap commitments 2 (integer (pos 4000)) ≡ ok tt)
    × (check_allocation_within_cap commitments 2 (integer (pos 4001)) ≢ ok tt)
check_allocation_headroom_example =
    check_allocation_headroom commitments 2 (pos 5000) (pos 4001) over_the_cap (omega arith)
      (omega arith) refl

abbrev plan : List RedistributionAllocation
plan =
    record { membership_id = 1; percentage_bp = integer (pos 2500) }
    ∷ record { membership_id = 2; percentage_bp = integer (pos 4000) }
    ∷ []

validate_redistribution_iff_example :
    (validate_redistribution plan ≡ ok tt)
    ↔ ((plan ≢ []) × IsDistinct id_of plan × All IsInRange plan)
validate_redistribution_iff_example = validate_redistribution_iff plan

abbrev snapshot : ℕ → ℕ → MemberSnapshot
snapshot id income = record {
  membership_id = id;
  income_cents = pos income;
  percentage_bp = integer (pos 5000);
}

abbrev members : List MemberSnapshot
members = snapshot 1 1001 ∷ snapshot 2 2000 ∷ []

-- Member 9 has paid and left.
abbrev payments : List (ℕ × ℤ)
payments = (1, pos 500) ∷ (9, pos 300) ∷ (2, pos 600) ∷ []

abbrev half : MemberSnapshot → ℤ
half m = div_trunc (m.income_cents *ℤ pos 5000) 10000

halves : All (λ m. expected_for_member m ≡ returned (half m)) members
unfolding expected_for_member expected_contribution_cents from_basis_points apply_to_cents
halves = (refl, (refl, tt))

reconcile-Reconciles_example :
    (r : Reconciliation) × (reconcile members payments ≡ returned r)
    × Reconciles (sum_ℤ half members) (sum_ℤ (λ e. e.1) payments) r
reconcile-Reconciles_example =
    reconcile-Reconciles half members payments halves ((omega arith, tt), (tt, tt))
      ((omega arith, (omega arith, tt)), ((omega arith, tt), (tt, tt)))
