-- ===== src/Contributions/Period.antt =====
-- `application/period.service.ts`: periods are opened, snapshot and rolled over.
use financial_os.Base.{
  ℕ, ◌+◌, not, Option, none, some, List, [], ◌∷◌, map, if◌then◌else◌, ◌==◌, Uuid,
}
use financial_os.Base.Int.{ℤ}
use financial_os.Errors.{ok}
use financial_os.Money.Values.{integer}
use financial_os.Profiles.Membership.{Instant}
use financial_os.Profiles.SharedProfile.{is_writable}
use financial_os.Store.{
  Store, ProfileRow, MembershipRow, PlanRow, AllocationRow, PeriodRow, open_period, Tx, ◌>>=◌, ◌>>◌,
  lift, read, attempt, emit, contribution_period_opened, contribution_period_closed,
}
use financial_os.Store.Memberships.{find_first, find_shared_profile}
use financial_os.Contributions.Windows.{
  PeriodWindow, first_period_window, next_period_window, is_period_due,
}
use financial_os.Contributions.Reconciliation.{MemberSnapshot, reconcile}
use financial_os.Contributions.Repository.{
  current_plan, plan_by_version, list_allocations, percentage_or_zero, active_memberships,
  find_open_period, create_period, close_period, due_periods, actual_by_member,
}

-- `plan?.version ?? 0`
abbrev pub version_or_zero : Option PlanRow → ℕ
version_or_zero none = 0
version_or_zero (some plan) = plan.version

abbrev pub income_of : MembershipRow → Uuid × ℤ
income_of m = (m.id, m.declared_income_cents)

-- The row of a period that opens now, with what it freezes.
abbrev pub opened : Uuid → PeriodWindow → Uuid → Store → PeriodRow
opened profile window fresh s = record {
  id = fresh;
  shared_profile_id = profile;
  start_date = window.start_date;
  end_date = window.end_date;
  status = open_period;
  plan_version_snapshot = version_or_zero (current_plan profile s);
  income_snapshot = map income_of (active_memberships profile s);
}

unfoldable pub open_period_tx : Uuid → PeriodWindow → Uuid → Tx PeriodRow
open_period_tx profile window fresh = do
  period ← read (opened profile window fresh)
  create_period period
  emit contribution_period_opened fresh none
  lift (ok period)

unfoldable pub ensure_open_period : ProfileRow → Instant → Uuid → Tx PeriodRow
ensure_open_period profile now fresh = do
  found ← read (find_open_period profile.id)
  elim found [
    | some period ↦ lift (ok period)
    | none ↦ open_period_tx profile.id (first_period_window now profile.period_length) fresh
  ]

-- `plan ? listAllocations : []`
abbrev pub allocations_of : Option PlanRow → Store → List AllocationRow
allocations_of none s = []
allocations_of (some plan) s = list_allocations plan.id s

abbrev pub snapshot_of : List AllocationRow → Uuid × ℤ → MemberSnapshot
snapshot_of allocations (member, cents) = record {
  membership_id = member;
  income_cents = cents;
  percentage_bp =
      integer (percentage_or_zero (find_first (λ a. a.membership_id == member) allocations));
}

unfoldable pub snapshot_members : PeriodRow → Store → List MemberSnapshot
snapshot_members period s =
    let allocations =
      allocations_of (plan_by_version period.shared_profile_id period.plan_version_snapshot s) s in
    map (snapshot_of allocations) period.income_snapshot

-- A profile that is gone or archived does not open another period.
unfoldable pub successor : Option ProfileRow → PeriodRow → Uuid → Tx ℕ
successor none period fresh = lift (ok 0)
successor (some profile) period fresh =
    if not (is_writable profile.status)
    then lift (ok 0)
    else open_period_tx period.shared_profile_id
        (next_period_window period.end_date profile.period_length) fresh
      >>= λ _. lift (ok 1)

-- One due period; `fresh` identifies its successor.
unfoldable pub roll_over : PeriodRow → Uuid → Tx ℕ
roll_over period fresh = do
  amounts ← read (actual_by_member period.id)
  members ← read (snapshot_members period)
  pool ← attempt (reconcile members amounts)
  close_period period.id
  emit contribution_period_closed period.id none
  profile ← read (find_shared_profile period.shared_profile_id)
  successor profile period fresh

-- The loop over the due periods, with the number of those that rolled over.
unfoldable pub roll_over_all : Instant → (Uuid → Uuid) → List PeriodRow → Tx ℕ
roll_over_all now fresh [] = lift (ok 0)
roll_over_all now fresh (period ∷ ps) =
    let rest = roll_over_all now fresh ps in
    if not (is_period_due period.end_date now)
    then rest
    else roll_over period (fresh period.id) >>= λ rolled. rest >>= λ n. lift (ok (rolled + n))

unfoldable pub rollover_for_tenant : Instant → (Uuid → Uuid) → Tx ℕ
rollover_for_tenant now fresh s = roll_over_all now fresh (due_periods now s) s
