-- ===== src/Tests/Ledger.antt =====
-- A tenant with two shared profiles, and what holds of it.
use financial_os.SharedElements.Repository.{list_responsibilities}
use financial_os.Base.{
  ◌*◌, refl, subst, ==_iff, false, none, some, [], ◌∷◌, arith, Uuid, ℕ, ◌==◌, Bool-cases, inl, inr,
}
use financial_os.Base.Int.{pos, ◌+ℤ◌, ◌≤ℤ◌}
use financial_os.Permissions.{MemberRole, owner, contributor}
use financial_os.Profiles.Membership.{active}
use financial_os.Profiles.SharedProfile.{active_profile}
use financial_os.Store.{
  Store, MembershipRow, ProfileRow, PlanRow, AllocationRow, PeriodRow, AccountRow, Principal,
  monthly, open_period, personal,
}
use financial_os.Contributions.Cap.{committed_total_bp, committed_from}
use financial_os.Contributions.Repository.{committed_by_user}
use financial_os.Contributions.Commitment.{IsCapped}
use financial_os.SharedElements.Balances.{active_goal}
use financial_os.SharedElements.Shares.{IsSplit, IsShared}

abbrev member : Uuid → Uuid → Uuid → MemberRole → MembershipRow
member id profile user role = record {
  id = id;
  shared_profile_id = profile;
  user_id = user;
  role = role;
  status = active;
  pending_owner_nominee = false;
  invitation_expires_at = 0;
  joined_at = some 0;
  left_at = none;
  declared_income_cents = pos 500_000;
  version = 0;
}

abbrev profile : Uuid → Uuid → ProfileRow
profile id owner_id = record {
  id = id;
  base_currency = b'U' ∷ b'S' ∷ b'D' ∷ [];
  status = active_profile;
  period_length = monthly;
  owner_membership_id = some owner_id;
  archived_at = none;
}

abbrev plan : Uuid → Uuid → PlanRow
plan id profile_id = record { id = id; shared_profile_id = profile_id; version = 1; created_by = 1 }

abbrev allocation : Uuid → Uuid → ℕ → AllocationRow
allocation plan_id member_id bp = record {
  contribution_plan_id = plan_id;
  membership_id = member_id;
  percentage_bp = pos bp;
  version = 0;
}

abbrev january : PeriodRow
january = record {
  id = 30;
  shared_profile_id = 7;
  start_date = 0;
  end_date = 31 * 86_400_000;
  status = open_period;
  plan_version_snapshot = 1;
  income_snapshot = (1, pos 500_000) ∷ (3, pos 500_000) ∷ [];
}

abbrev savings : AccountRow
savings = record {
  id = 50;
  profile_type = personal;
  profile_id = 40;
  balance = pos 900;
  currency = b'u' ∷ b's' ∷ b'd' ∷ [];
}

-- Alice is in both profiles, Carol in the first.
abbrev pub ledger : Store
ledger = record {
  users = 11 ∷ 13 ∷ [];
  profiles = profile 7 1 ∷ profile 8 2 ∷ [];
  memberships = member 1 7 11 owner ∷ member 3 7 13 contributor ∷ member 2 8 11 owner ∷ [];
  plans = plan 20 7 ∷ plan 21 8 ∷ [];
  allocations = allocation 20 1 6000 ∷ allocation 20 3 3000 ∷ allocation 21 2 2000 ∷ [];
  periods = january ∷ [];
  records = [];
  personal_profiles = record { id = 40; user_id = 11 } ∷ [];
  accounts = savings ∷ [];
  goals =
      record {
        id = 60;
        shared_profile_id = 7;
        target_amount = pos 100;
        funded_amount = pos 40;
        status = active_goal;
        version = 2;
      }
      ∷ [];
  debts =
      record { id = 61; shared_profile_id = 7; outstanding_balance = pos 500; version = 0 } ∷ [];
  responsibilities =
      record { shared_debt_id = 61; membership_id = 1; percentage_bp = pos 6000 }
      ∷ record { shared_debt_id = 61; membership_id = 3; percentage_bp = pos 4000 }
      ∷ [];
  investments =
      record {
        id = 62;
        shared_profile_id = 7;
        current_value = pos 10;
        value_as_of = 0;
        version = 0;
      }
      ∷ [];
  budgets =
      record {
        id = 63;
        shared_profile_id = 7;
        period_id = 30;
        category = b'f' ∷ [];
        limit = pos 80;
        spent = pos 0;
        version = 0;
      }
      ∷ [];
  outbox = [];
  audit = [];
}

abbrev pub as_user : Uuid → Principal
as_user user = record { tenant_id = some 5; user_id = user }

nobody_over : (user : Uuid) → committed_total_bp (committed_by_user user ledger) ≤ℤ pos 10000
unfolding committed_total_bp committed_from ◌+ℤ◌
nobody_over user = elim (Bool-cases (11 == user)) [
  | inl alice ↦
      subst (λ u. committed_total_bp (committed_by_user u ledger) ≤ℤ pos 10000)
        ((==_iff 11 user).0 alice) (omega arith)
  | inr not_alice ↦ elim (Bool-cases (13 == user)) [
    | inl carol ↦
        subst (λ u. committed_total_bp (committed_by_user u ledger) ≤ℤ pos 10000)
          ((==_iff 13 user).0 carol) (omega arith)
    | inr nobody ↦ rw (not_alice, nobody) (omega arith)
  ]
]

pub ledger-IsCapped : IsCapped ledger
ledger-IsCapped = record {
  keys = ((omega arith, (omega arith, tt)), ((omega arith, tt), (tt, tt)));
  unique = ((refl, (refl, tt)), ((refl, tt), (tt, tt)));
  nonnegative = (omega arith, (omega arith, (omega arith, tt)));
  capped = nobody_over;
}

pub ledger-IsShared : IsShared ledger
unfolding ◌+ℤ◌
ledger-IsShared = (split, (refl, (refl, tt)))
  where
    split : (debt : Uuid) → IsSplit (list_responsibilities debt ledger)
    split debt = elim (Bool-cases (61 == debt)) [
      | inl this ↦ rw this (
          inr (record {
            sum = refl;
            nonnegative = (omega arith, (omega arith, tt));
            distinct = ((omega arith, tt), (tt, tt));
          }))
      | inr other ↦ rw other (inl refl)
    ]
