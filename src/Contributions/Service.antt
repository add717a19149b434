-- ===== src/Contributions/Service.antt =====
-- `application/contributions.service.ts`: each use case is one transaction. `now` is the clock's
-- reading and `fresh` the identifiers that the database gives to new rows.
use financial_os.Base.{not, ◌||◌, Option, none, some, List, [], ◌∷◌, if◌then◌else◌, ◌==◌, Uuid}
use financial_os.Base.Int.{ℤ, pos, ltb_ℤ, leb_ℤ}
use financial_os.Errors.{Result, ok, fail, forbidden, validation, not_found, archived}
use financial_os.Money.Values.{Number, integer, fractional}
use financial_os.Permissions.{
  Capability, can, set_own_income, set_own_allocation, record_contribution,
  redistribute_percentages,
}
use financial_os.Profiles.Membership.{Instant, status_eq, active}
use financial_os.Profiles.SharedProfile.{is_writable}
use financial_os.Profiles.Service.{require_capability}
use financial_os.Store.{
  Store, MembershipRow, ProfileRow, PlanRow, RecordRow, Principal, Tx, ◌>>=◌, ◌>>◌, lift, read,
  expect, emit, log, of_event, declared_income_set, allocation_set, contribution_recorded,
  percentage_redistributed,
}
use financial_os.Store.Memberships.{
  find_by_id, find_shared_profile, has_id, update_first, write_memberships,
}
use financial_os.Contributions.Cap.{check_allocation_within_cap, remaining_bp}
use financial_os.Contributions.Redistribution.{
  RedistributionAllocation, next_plan_version, validate_redistribution,
}
use financial_os.Contributions.Period.{ensure_open_period}
use financial_os.Contributions.Repository.NextPlan.{version_of}
use financial_os.Contributions.Repository.{
  current_plan, create_plan, upsert_allocation, committed_by_user, create_record,
}

-- `selfMember`: the caller's own active membership in the profile, if its role allows the action.
unfoldable pub self_member : Uuid → Uuid → Capability → Option MembershipRow → Result MembershipRow
self_member profile user capability none = fail forbidden
self_member profile user capability (some m) =
    if not (m.shared_profile_id == profile) || not (m.user_id == user)
    then fail forbidden
    else if not (status_eq m.status active)
    then fail forbidden
    else if not (can m.role capability)
    then fail forbidden
    else ok m

-- A profile that exists and is not archived.
unfoldable pub open_profile : Option ProfileRow → Result ProfileRow
open_profile none = fail not_found
open_profile (some p) = if not (is_writable p.status) then fail archived else ok p

abbrev pub with_income : ℤ → MembershipRow → MembershipRow
with_income cents m = record m { declared_income_cents = cents }

unfoldable pub set_declared_income_tx : Principal → Uuid → Uuid → ℤ → Tx MembershipRow
set_declared_income_tx principal profile_id id cents = do
  found ← read (find_by_id id)
  member ← lift (self_member profile_id principal.user_id set_own_income found)
  lift (if ltb_ℤ cents (pos 0) then fail validation else ok tt)
  write_memberships (update_first (has_id id) (with_income cents))
  emit declared_income_set id (some id)
  log profile_id (some id) (of_event declared_income_set)
  updated ← read (find_by_id id)
  expect updated

-- The first version of a plan.
abbrev pub first_plan : Uuid → Uuid → Uuid → PlanRow
first_plan profile creator fresh = record {
  id = fresh;
  shared_profile_id = profile;
  version = 1;
  created_by = creator;
}

-- The current plan, made if there is none.
unfoldable pub plan_or_first : Uuid → Uuid → Uuid → Option PlanRow → Tx PlanRow
plan_or_first profile creator fresh none = create_plan (first_plan profile creator fresh)
plan_or_first profile creator fresh (some plan) = lift (ok plan)

-- What the column stores of a number; only an integer reaches it.
abbrev pub bp_of : Number → ℤ
bp_of (integer bp) = bp
bp_of fractional = pos 0

unfoldable pub set_allocation_tx : Principal → Uuid → Uuid → Number → Uuid → Tx PlanRow
set_allocation_tx principal profile_id id bp fresh = do
  found ← read (find_by_id id)
  member ← lift (self_member profile_id principal.user_id set_own_allocation found)
  committed ← read (committed_by_user principal.user_id)
  lift (check_allocation_within_cap committed profile_id bp)
  current ← read (current_plan profile_id)
  plan ← plan_or_first profile_id id fresh current
  upsert_allocation plan.id id (bp_of bp)
  emit allocation_set plan.id (some id)
  log profile_id (some id) (of_event allocation_set)
  lift (ok plan)

abbrev pub new_record : Uuid → Uuid → ℤ → Option Uuid → Uuid → Uuid → RecordRow
new_record profile_id id cents source fresh period = record {
  id = fresh;
  shared_profile_id = profile_id;
  period_id = period;
  membership_id = id;
  amount = cents;
  source_account_id = source;
}

unfoldable pub record_contribution_tx :
    Principal → Uuid → Uuid → ℤ → Option Uuid → Instant → Uuid → Uuid → Tx RecordRow
record_contribution_tx principal profile_id id cents source now fresh_period fresh = do
  found ← read (find_by_id id)
  member ← lift (self_member profile_id principal.user_id record_contribution found)
  lift (if leb_ℤ cents (pos 0) then fail validation else ok tt)
  found_profile ← read (find_shared_profile profile_id)
  profile ← lift (open_profile found_profile)
  period ← ensure_open_period profile now fresh_period
  create_record (new_record profile_id id cents source fresh period.id)
  emit contribution_recorded fresh (some id)
  log profile_id (some id) (of_event contribution_recorded)
  lift (ok (new_record profile_id id cents source fresh period.id))

-- An allocation's membership: active, and of this profile.
unfoldable pub target_member : Uuid → Option MembershipRow → Result MembershipRow
target_member profile none = fail validation
target_member profile (some m) =
    if not (m.shared_profile_id == profile) || not (status_eq m.status active)
    then fail validation
    else ok m

-- The loop that checks the cap of each member.
unfoldable pub check_targets : Uuid → List RedistributionAllocation → Tx (Unit {0})
check_targets profile [] = lift (ok tt)
check_targets profile (a ∷ as') = do
  found ← read (find_by_id a.membership_id)
  member ← lift (target_member profile found)
  committed ← read (committed_by_user member.user_id)
  lift (check_allocation_within_cap committed profile a.percentage_bp)
  check_targets profile as'

-- The loop that stores the allocations of a plan.
unfoldable pub upsert_all : Uuid → List RedistributionAllocation → Tx (Unit {0})
upsert_all plan [] = lift (ok tt)
upsert_all plan (a ∷ as') = do
  upsert_allocation plan a.membership_id (bp_of a.percentage_bp)
  upsert_all plan as'

abbrev pub next_plan : Uuid → Uuid → Uuid → Option PlanRow → PlanRow
next_plan profile creator fresh current = record {
  id = fresh;
  shared_profile_id = profile;
  version = next_plan_version (version_of current);
  created_by = creator;
}

unfoldable pub redistribute_tx :
    Principal → Uuid → List RedistributionAllocation → Uuid → Tx PlanRow
unfolding require_capability
redistribute_tx principal profile_id allocations fresh = do
  actor ← require_capability profile_id principal.user_id redistribute_percentages
  found ← read (find_shared_profile profile_id)
  profile ← lift (open_profile found)
  lift (validate_redistribution allocations)
  check_targets profile_id allocations
  current ← read (current_plan profile_id)
  plan ← create_plan (next_plan profile_id actor.id fresh current)
  upsert_all plan.id allocations
  emit percentage_redistributed plan.id (some actor.id)
  log profile_id (some actor.id) (of_event percentage_redistributed)
  lift (ok plan)

unfoldable pub remaining_allocation_percentage_bp : Uuid → Store → ℤ
remaining_allocation_percentage_bp user s = remaining_bp (committed_by_user user s)
