-- ===== src/Contributions/Repository.antt =====
-- `modules/contributions/infrastructure/contribution.repository.ts`.
pub mod Upsert
pub mod NextPlan
use financial_os.Base.{
  ℕ, ◌+◌, ◌≡◌, refl, Bool, true, false, ◌&&◌, Option, none, some, List, [], ◌∷◌, ◌++◌, map, filter,
  take, if◌then◌else◌, ltb, leb, ◌==◌, Uuid,
}
use financial_os.Base.Int.{ℤ, pos, ◌+ℤ◌, sum_ℤ}
use financial_os.Errors.{ok, constraint}
use financial_os.Contributions.Cap.{ProfileCommitment}
use financial_os.Contributions.Reconciliation.{Amounts}
use financial_os.Profiles.Membership.{active, status_eq, Instant}
use financial_os.Store.{
  Store, MembershipRow, PlanRow, AllocationRow, PeriodRow, PeriodStatus, open_period, closed_period,
  RecordRow, Tx, done, rolled_back, write,
}
use financial_os.Store.Memberships.{find_first, update_first}
use financial_os.Store.Table.{Table, create, update_unique}

-- `orderBy: { version: 'desc' }`, the first row.
abbrev pub highest : List PlanRow → Option PlanRow
highest [] = none
highest (p ∷ ps) = elim (highest ps) [
  | none ↦ some p
  | some q ↦ if ltb p.version q.version then some q else some p
]

abbrev pub plan_of : Uuid → PlanRow → Bool
plan_of profile p = p.shared_profile_id == profile

abbrev pub current_plan : Uuid → Store → Option PlanRow
current_plan profile s = highest (filter (plan_of profile) s.plans)

abbrev pub plan_by_version : Uuid → ℕ → Store → Option PlanRow
plan_by_version profile version s =
    find_first (λ p. plan_of profile p && p.version == version) s.plans

-- `create` keeps the pair of profile and version unique, and throws otherwise.
abbrev pub create_plan : PlanRow → Tx PlanRow
create_plan plan s = elim (plan_by_version plan.shared_profile_id plan.version s) [
  | some taken ↦ rolled_back constraint
  | none ↦ done (ok plan) (record s { plans = s.plans ++ (plan ∷ []) })
]

abbrev pub list_allocations : Uuid → Store → List AllocationRow
list_allocations plan s = filter (λ a. a.contribution_plan_id == plan) s.allocations

abbrev pub is_allocation : Uuid → Uuid → AllocationRow → Bool
is_allocation plan member a = a.contribution_plan_id == plan && a.membership_id == member

abbrev pub allocation_for : Uuid → Uuid → Store → Option AllocationRow
allocation_for plan member s = find_first (is_allocation plan member) s.allocations

abbrev pub upserted : Uuid → Uuid → ℤ → List AllocationRow → List AllocationRow
upserted plan member bp rows = elim (find_first (is_allocation plan member) rows) [
  | some a ↦
      update_first (is_allocation plan member)
        (λ a. record a { percentage_bp = bp; version = a.version + 1 }) rows
  | none ↦
      rows
      ++ (record {
        contribution_plan_id = plan;
        membership_id = member;
        percentage_bp = bp;
        version = 0;
      }
          ∷ [])
]

abbrev pub upsert_allocation : Uuid → Uuid → ℤ → Tx (Unit {0})
upsert_allocation plan member bp =
    write (λ s. record s { allocations = upserted plan member bp s.allocations })

-- `alloc?.percentageBp ?? 0`
abbrev pub percentage_or_zero : Option AllocationRow → ℤ
percentage_or_zero none = pos 0
percentage_or_zero (some a) = a.percentage_bp

abbrev pub is_active_of : Uuid → MembershipRow → Bool
is_active_of user m = m.user_id == user && status_eq m.status active

-- One membership's entry: none, if its profile has no plan.
abbrev pub commitment_of : Store → MembershipRow → List ProfileCommitment → List ProfileCommitment
commitment_of s m rest = elim (current_plan m.shared_profile_id s) [
  | none ↦ rest
  | some plan ↦
      record {
        shared_profile_id = m.shared_profile_id;
        percentage_bp = percentage_or_zero (allocation_for plan.id m.id s);
      }
      ∷ rest
]

abbrev pub commitments : Store → List MembershipRow → List ProfileCommitment
commitments s [] = []
commitments s (m ∷ ms) = commitment_of s m (commitments s ms)

abbrev pub committed_by_user : Uuid → Store → List ProfileCommitment
committed_by_user user s = commitments s (filter (is_active_of user) s.memberships)

abbrev pub is_open : PeriodStatus → Bool
is_open open_period = true
is_open closed_period = false

-- `orderBy: { startDate: 'desc' }`, the first row.
abbrev pub latest : List PeriodRow → Option PeriodRow
latest [] = none
latest (p ∷ ps) = elim (latest ps) [
  | none ↦ some p
  | some q ↦ if ltb p.start_date q.start_date then some q else some p
]

abbrev pub is_open_of : Uuid → PeriodRow → Bool
is_open_of profile p = p.shared_profile_id == profile && is_open p.status

abbrev pub find_open_period : Uuid → Store → Option PeriodRow
find_open_period profile s = latest (filter (is_open_of profile) s.periods)

abbrev pub periods : Table PeriodRow
periods = record {
  rows = λ s. s.periods;
  put = λ xs s. record s { periods = xs };
  key = λ p. p.id;
  put_rows = λ xs s. refl;
}

abbrev pub records : Table RecordRow
records = record {
  rows = λ s. s.records;
  put = λ xs s. record s { records = xs };
  key = λ r. r.id;
  put_rows = λ xs s. refl;
}

abbrev pub create_period : PeriodRow → Tx (Unit {0})
create_period = create periods

abbrev pub closed : PeriodRow → PeriodRow
closed p = record p { status = closed_period }

abbrev pub close_period : Uuid → Tx (Unit {0})
close_period id = update_unique periods id closed

abbrev pub is_due_period : Instant → PeriodRow → Bool
is_due_period now p = is_open p.status && leb p.end_date now

abbrev pub due_periods : Instant → Store → List PeriodRow
due_periods now s = take 500 (filter (is_due_period now) s.periods)

abbrev pub create_record : RecordRow → Tx (Unit {0})
create_record = create records

-- `groupBy` with `_sum`: one entry for each member.
abbrev pub add_amount : Uuid → ℤ → Amounts → Amounts
add_amount member amount [] = (member, amount) ∷ []
add_amount member amount ((k, v) ∷ es) =
    if k == member then (k, amount +ℤ v) ∷ es else (k, v) ∷ add_amount member amount es

abbrev pub grouped : List RecordRow → Amounts
grouped [] = []
grouped (r ∷ rs) = add_amount r.membership_id r.amount (grouped rs)

abbrev pub records_of : Uuid → Store → List RecordRow
records_of period s = filter (λ r. r.period_id == period) s.records

abbrev pub actual_by_member : Uuid → Store → Amounts
actual_by_member period s = grouped (records_of period s)

abbrev pub actual_for_member : Uuid → Uuid → Store → ℤ
actual_for_member period member s =
    sum_ℤ (λ r. r.amount) (filter (λ r. r.membership_id == member) (records_of period s))

abbrev pub active_memberships : Uuid → Store → List MembershipRow
active_memberships profile s =
    filter (λ m. m.shared_profile_id == profile && status_eq m.status active) s.memberships
