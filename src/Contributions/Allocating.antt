-- ===== src/Contributions/Allocating.antt =====
-- `setAllocation`: what it ensures of the store.
use financial_os.Contributions.FirstPlan.{plan-Post, IsPlanned}
use financial_os.Base.{
  map, ◌≡◌, ◌≢◌, inl, inr, refl, sym, ap, subst, ◌∙◌, true, false, Option, none, some, List, arith,
  ◌==◌, ==_iff, All, All-map_into, IsAbsent, Uuid, Bool-cases,
}
use financial_os.Base.Int.{ℤ, pos, ◌≤ℤ◌, ◌+ℤ◌}
use financial_os.Errors.{ok}
use financial_os.Money.Values.{Number, integer, fractional}
use financial_os.Permissions.{Capability}
use financial_os.Profiles.Membership.{status_eq, active}
use financial_os.Profiles.Invariant.{row_id}
use financial_os.Store.{
  PeriodRow, Store, MembershipRow, PlanRow, AllocationRow, Principal, allocation_set,
}
use financial_os.Store.Memberships.{find_first, find_by_id}
use financial_os.Store.Tables.{find_first-own, find_first-test, find_first-filter}
use financial_os.Store.Post.{Post, lift-Post, Recorded}
use financial_os.Contributions.Cap.{check_allocation_within_cap, check_beside, no_fraction}
use financial_os.Contributions.Repository.{
  list_allocations, plan_by_version, current_plan, allocation_for, is_allocation,
  percentage_or_zero, upserted, committed_by_user,
}
use financial_os.Contributions.Repository.Upsert.{upserted-own, upserted-other, upserted-All}
use financial_os.Contributions.Commitment.{bp_in, committed, IsCapped}
use financial_os.Contributions.CapStep.{cap_step, IsAllowed, IsUntouched, elsewhere}
use financial_os.Contributions.Period.{snapshot_members, snapshot_of, allocations_of}
use financial_os.Contributions.Service.{self_member, bp_of, set_allocation_tx}

pub self_member_lem :
    (profile user : Uuid) (capability : Capability) (o : Option MembershipRow) {m : MembershipRow}
    → self_member profile user capability o ≡ ok m
    → (o ≡ some m)
      × (m.shared_profile_id ≡ profile)
      × (m.user_id ≡ user)
      × (status_eq m.status active ≡ true)
unfolding self_member
self_member_lem profile user capability none h = cc
self_member_lem profile user capability (some m) h = ground arith

-- What a stored allocation ensures: it is in the current plan, and nobody exceeds 100%. A period that
-- froze the version of this plan, an open one too, reads the new percentage in its snapshot.
pub record IsAllocated (profile member : Uuid) (bp : Number) (s : Store) (plan : PlanRow)
    (s' : Store) : Type 0 where
  pub capped : IsCapped s'
  pub current : current_plan profile s' ≡ some plan
  pub stored :
      (z : ℤ) × (bp ≡ integer z) × (percentage_or_zero (allocation_for plan.id member s') ≡ z)
  pub reaches :
      (period : PeriodRow) (income : ℤ)
      → plan_by_version period.shared_profile_id period.plan_version_snapshot s' ≡ some plan
      → (snapshot_members period s'
          ≡ map (snapshot_of (list_allocations plan.id s')) period.income_snapshot)
        × ((snapshot_of (list_allocations plan.id s') (member, income)).percentage_bp ≡ bp)
  pub recorded : Recorded allocation_set s s'

-- Only the member's row is the row with its identifier.
pub own_row :
    (s : Store) {r : MembershipRow}
    → IsCapped s
    → find_by_id r.id s ≡ some r
    → All (λ m. m.id ≡ r.id → m ≡ r) s.memberships
own_row s {r} c found =
    All-map_into _ _ (λ m own e. same_row m own e) s.memberships
      (find_first-own row_id s.memberships c.keys)
  where
    same_row : (m : MembershipRow) → find_by_id m.id s ≡ some m → m.id ≡ r.id → m ≡ r
    same_row m own e =
        let own' : find_by_id r.id s ≡ some m = subst (λ i. find_by_id i s ≡ some m) e own in cc

bp_in-other :
    (o : Option PlanRow) (plan member other : Uuid) (z : ℤ) (rows : List AllocationRow)
    → other ≢ member
    → bp_in o other (upserted plan member z rows) ≡ bp_in o other rows
bp_in-other none plan member other z rows ne = refl
bp_in-other (some p) plan member other z rows ne =
    ap percentage_or_zero (upserted-other plan p.id member other z rows ne)

module _ (profile member : Uuid) (z : ℤ) (s s' : Store) (xs : List PlanRow) (plan : PlanRow)
    (planned : IsPlanned profile s xs plan) (same_members : s'.memberships ≡ s.memberships)
    (same_plans : s'.plans ≡ xs)
    (stores : s'.allocations ≡ upserted plan.id member z s.allocations) where
  others_committed : (m : MembershipRow) → m.id ≢ member → committed s' m ≡ committed s m
  unfolding committed
  others_committed m ne =
      ap (λ rows. bp_in (current_plan m.shared_profile_id s') m.id rows) stores
      ∙ bp_in-other (current_plan m.shared_profile_id s') plan.id member m.id z s.allocations ne
      ∙ ap
          (λ ps.
            bp_in (current_plan m.shared_profile_id (record s { plans = ps })) m.id s.allocations)
          same_plans
      ∙ planned.unchanged m.shared_profile_id m.id

  own_committed :
      (m : MembershipRow) → m.id ≡ member → m.shared_profile_id ≡ profile → committed s' m ≡ z
  unfolding committed
  own_committed m e p =
      ap (λ rows. bp_in (current_plan m.shared_profile_id s') m.id rows) stores
      ∙ ap (λ ps. bp_in (current_plan m.shared_profile_id (record s { plans = ps })) m.id rows')
          same_plans
      ∙ rw (p, e, planned.current) (upserted-own plan.id member z s.allocations)
    where
      rows' : List AllocationRow
      rows' = upserted plan.id member z s.allocations

  -- The invariant, if the percentage was checked beside the member's other profiles.
  allocated-IsCapped :
      IsCapped s
      → {r : MembershipRow} → find_by_id member s ≡ some r
      → r.id ≡ member
      → r.shared_profile_id ≡ profile
      → pos 0 ≤ℤ z
      → z +ℤ elsewhere profile r.user_id s ≤ℤ pos 10000
      → IsCapped s'
  allocated-IsCapped c {r} found is_r in_p low fits = record {
    keys = rw same_members c.keys;
    unique = rw same_members c.unique;
    nonnegative =
        rw stores (upserted-All (λ b. pos 0 ≤ℤ b) plan.id member z s.allocations low c.nonnegative);
    capped =
        cap_step profile s s' same_members c.unique (All-map_into _ _ untouched s.memberships only)
          (All-map_into _ _ allowed s.memberships only) c.capped;
  }
    where
      only : All (λ m. m.id ≡ r.id → m ≡ r) s.memberships
      only = own_row s c (subst (λ i. find_by_id i s ≡ some r) (sym is_r) found)

      untouched : (m : MembershipRow) → (m.id ≡ r.id → m ≡ r) → IsUntouched profile s s' m
      untouched m is_it away =
          others_committed m
            (λ e. away (ap (λ x. x.shared_profile_id) (is_it (e ∙ sym is_r)) ∙ in_p))

      different : (m : MembershipRow) → m.id == member ≡ false → m.id ≢ member
      different m h = ground arith

      le_refl : (a : ℤ) → a ≤ℤ a
      le_refl a = omega arith

      allowed : (m : MembershipRow) → (m.id ≡ r.id → m ≡ r) → IsAllowed profile s s' m
      allowed m is_it act here = elim (Bool-cases (m.id == member)) [
        | inl own ↦
            let e : m.id ≡ member = (==_iff _ _).0 own in
            let same : m ≡ r = is_it (e ∙ sym is_r) in inr (rw (own_committed m e here, same) fits)
        | inr other ↦ inl (rw (others_committed m (different m other)) (le_refl (committed s m)))
      ]

snapshot_lem :
    (period : PeriodRow) (s : Store) {plan : PlanRow}
    → plan_by_version period.shared_profile_id period.plan_version_snapshot s ≡ some plan
    → snapshot_members period s
      ≡ map (snapshot_of (list_allocations plan.id s)) period.income_snapshot
unfolding snapshot_members
snapshot_lem period s {plan} frozen =
    ap (λ o. map (snapshot_of (allocations_of o s)) period.income_snapshot) frozen

-- The check's verdict, in the terms of the commitments.
pub check_fits :
    (profile user : Uuid) (bp : Number) (s : Store)
    → check_allocation_within_cap (committed_by_user user s) profile bp ≡ ok tt
    → (z : ℤ) × (bp ≡ integer z) × (pos 0 ≤ℤ z) × (z +ℤ elsewhere profile user s ≤ℤ pos 10000)
check_fits profile user (integer z) s h =
    let (low, high, fits) = (check_beside (committed_by_user user s) profile z).0 h in
    (z, refl, low, fits)
check_fits profile user fractional s h = absurd (no_fraction _ profile h)

-- `setAllocation` never throws and, after an error, has changed nothing. If it returns a plan, this is
-- the profile's current one, the member's percentage in it is the one asked for, the event and the
-- audit entry are there, and still no user of the tenant commits more than 100% over all profiles; and
-- every period that froze the version of this plan reads the new percentage for the member from now
-- on. This is where nobody was above 100% before, and the identifier for a first plan is in no
-- allocation.
pub set_allocation-IsAllocated :
    (principal : Principal) (profile member : Uuid) (bp : Number) (fresh : Uuid) (s : Store)
    → IsCapped s
    → IsAbsent (λ a. a.contribution_plan_id) fresh s.allocations
    → Post
        (IsAllocated profile member bp s)
        (λ s'. s' ≡ s)
        ⊥
        (set_allocation_tx principal profile member bp fresh s)
unfolding set_allocation_tx
set_allocation-IsAllocated principal profile member bp fresh s c absent =
    lift-Post _ _ _ (self_member _ _ _ (find_by_id member s)) _ s refl (λ r allowed.
      let (found, in_p, mine, act) = self_member_lem _ _ _ _ allowed in
      lift-Post _ _ _ (check_allocation_within_cap _ profile bp) _ s refl (λ (u : Unit {0}) checked.
        let (z, is_z, low, fits) = check_fits profile principal.user_id bp s checked in
        plan-Post _ _ _ profile member fresh _ s absent (λ plan xs planned.
          let is_r : r.id ≡ member = (==_iff _ _).0 (find_first-test _ s.memberships found) in
          let stores = ap (λ b. upserted plan.id member (bp_of b) s.allocations) is_z in
          let stored =
            ap (λ rows. percentage_or_zero (find_first (is_allocation plan.id member) rows))
              stores in
          record {
            capped =
                allocated-IsCapped profile member z s _ xs plan planned refl refl stores c found
                  is_r in_p low
                  (subst (λ v. z +ℤ elsewhere profile v s ≤ℤ pos 10000) (sym mine) fits);
            current = planned.current;
            stored = (z, is_z, stored ∙ upserted-own plan.id member z s.allocations);
            reaches = λ period income frozen. (
              snapshot_lem period _ frozen,
              ap integer (
                    ap percentage_or_zero
                      (find_first-filter _ _ (upserted plan.id member (bp_of bp) s.allocations))
                    ∙ stored
                    ∙ upserted-own plan.id member z s.allocations)
                  ∙ sym is_z,
            );
            recorded = record { events = (_, refl, refl); entries = (_, refl, refl) };
          })))
