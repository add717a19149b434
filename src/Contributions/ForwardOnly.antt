-- ===== src/Contributions/ForwardOnly.antt =====
-- `redistribute` makes a new version of the plan: what holds of the store afterwards, and of the
-- periods that froze an older version.
use financial_os.Base.{
  ◌≡◌, inl, inr, refl, sym, ap, subst, ◌∙◌, Option, none, some, Option-cases, List, [], ◌∷◌, ◌++◌,
  arith, ==_iff, All, All-map_into, IsAbsent, IsDistinct, Uuid,
}
use financial_os.Base.Int.{pos, ◌≤ℤ◌, ◌+ℤ◌}
use financial_os.Profiles.Invariant.{row_id}
use financial_os.Store.{Store, MembershipRow, PlanRow, AllocationRow}
use financial_os.Store.Memberships.{find_first, find_by_id}
use financial_os.Store.Tables.{find_first-own, find_first-All, find_first-test}
use financial_os.Contributions.Redistribution.{RedistributionAllocation, id_of}
use financial_os.Contributions.Repository.{current_plan, is_allocation, percentage_or_zero}
use financial_os.Contributions.Repository.Upsert.{upserted-All, current_plan-other}
use financial_os.Contributions.Repository.NextPlan.{current_plan-with_plan}
use financial_os.Contributions.Commitment.{bp_in, committed, IsCapped, IsNonnegative}
use financial_os.Contributions.CapStep.{cap_step, IsAllowed, IsUntouched, elsewhere}
use financial_os.Contributions.FirstPlan.{bp_in-absent}
use financial_os.Contributions.Redistributing.{
  upserted_all, upserted_all-other, upserted_all-own, is_for, IsChecked,
}
use financial_os.Contributions.Service.{bp_of, next_plan}

upserted_all-IsNonnegative :
    (profile plan : Uuid) (s : Store) (as' : List RedistributionAllocation)
    → All (IsChecked profile s) as'
    → (rows : List AllocationRow) → All IsNonnegative rows
    → All IsNonnegative (upserted_all plan as' rows)
upserted_all-IsNonnegative profile plan s [] h rows k = k
upserted_all-IsNonnegative profile plan s (a ∷ as') (h, hs) rows k =
    upserted_all-IsNonnegative profile plan s as' hs _
      (upserted-All (λ b. pos 0 ≤ℤ b) plan a.membership_id (bp_of a.percentage_bp) rows h.fits k)

-- The plan of the new version, with the store that has it and its allocations.
module _ (profile creator fresh : Uuid) (s : Store) (as' : List RedistributionAllocation) where
  abbrev pub plan_made : PlanRow
  plan_made = next_plan profile creator fresh (current_plan profile s)

  abbrev pub redistributed : Store
  redistributed = record s {
    plans = s.plans ++ (plan_made ∷ []);
    allocations = upserted_all fresh as' s.allocations;
  }

  module _ (capped : IsCapped s)
      (absent : IsAbsent (λ a. a.contribution_plan_id) fresh s.allocations)
      (distinct : IsDistinct id_of as') (checked : All (IsChecked profile s) as') where
    pub current_plan-redistributed : current_plan profile redistributed ≡ some plan_made
    current_plan-redistributed = current_plan-with_plan plan_made s refl

    -- Who is given a share commits it.
    given :
        (m : MembershipRow) {a : RedistributionAllocation}
        → m.shared_profile_id ≡ profile
        → find_first (is_for m.id) as' ≡ some a
        → committed redistributed m ≡ bp_of a.percentage_bp
    unfolding committed
    given m here found =
        rw (here, current_plan-redistributed)
          (upserted_all-own fresh m.id as' s.allocations distinct found)

    -- Every other member of the profile commits nothing.
    not_given :
        (m : MembershipRow)
        → m.shared_profile_id ≡ profile
        → find_first (is_for m.id) as' ≡ none
        → committed redistributed m ≡ pos 0
    unfolding committed
    not_given m here missing =
        rw (here, current_plan-redistributed)
          (ap percentage_or_zero (upserted_all-other fresh fresh m.id as' s.allocations missing)
            ∙ bp_in-absent plan_made m.id s.allocations absent)

    -- A share is of a member of the profile, and was checked for it.
    checked_row :
        (m : MembershipRow) {a : RedistributionAllocation}
        → find_by_id m.id s ≡ some m
        → find_first (is_for m.id) as' ≡ some a
        → (m.shared_profile_id ≡ profile)
          × (bp_of a.percentage_bp +ℤ elsewhere profile m.user_id s ≤ℤ pos 10000)
    checked_row m {a} own found =
        let c = find_first-All (IsChecked profile s) _ as' checked found in
        let e : a.membership_id ≡ m.id = (==_iff _ _).0 (find_first-test _ as' found) in
        let there : find_by_id m.id s ≡ some c.row =
          subst (λ i. find_by_id i s ≡ some c.row) e c.found in
        let same : c.row ≡ m = cc in
        (
          subst (λ r. r.shared_profile_id ≡ profile) same c.here,
          subst (λ r. bp_of a.percentage_bp +ℤ elsewhere profile r.user_id s ≤ℤ pos 10000) same
              c.within,
        )

    untouched :
        (m : MembershipRow) → find_by_id m.id s ≡ some m → IsUntouched profile s redistributed m
    unfolding committed
    untouched m own away = elim (Option-cases (find_first (is_for m.id) as')) [
      | inl missing ↦
          ap (λ o. bp_in o m.id (upserted_all fresh as' s.allocations))
            (current_plan-other m.shared_profile_id plan_made s (λ e. away (sym e)))
          ∙ bp_in-kept (current_plan m.shared_profile_id s) m.id missing
      | inr (a, found) ↦ absurd (away (checked_row m own found).0)
    ]
      where
        bp_in-kept :
            (o : Option PlanRow) (member : Uuid)
            → find_first (is_for member) as' ≡ none
            → bp_in o member (upserted_all fresh as' s.allocations) ≡ bp_in o member s.allocations
        bp_in-kept none member h = refl
        bp_in-kept (some p) member h =
            ap percentage_or_zero (upserted_all-other fresh p.id member as' s.allocations h)

    allowed : (m : MembershipRow) → find_by_id m.id s ≡ some m → IsAllowed profile s redistributed m
    unfolding committed
    allowed m own act here = elim (Option-cases (find_first (is_for m.id) as')) [
      | inl missing ↦ inl (rw (not_given m here missing) (committed-IsNonnegative m))
      | inr (a, found) ↦ inr (rw (given m here found) (checked_row m own found).1)
    ]
      where
        bp_in-IsNonnegative :
            (o : Option PlanRow) (member : Uuid) → pos 0 ≤ℤ bp_in o member s.allocations
        bp_in-IsNonnegative none member = omega arith
        bp_in-IsNonnegative (some p) member =
            elim (Option-cases (find_first (is_allocation p.id member) s.allocations)) [
              | inl missing ↦ rw missing (omega arith)
              | inr (a, found) ↦
                  rw found (find_first-All IsNonnegative _ s.allocations capped.nonnegative found)
            ]

        committed-IsNonnegative : (m : MembershipRow) → pos 0 ≤ℤ committed s m
        committed-IsNonnegative m = bp_in-IsNonnegative (current_plan m.shared_profile_id s) m.id

    pub redistributed-IsCapped : IsCapped redistributed
    redistributed-IsCapped =
        let own = find_first-own row_id s.memberships capped.keys in
        record {
          keys = capped.keys;
          unique = capped.unique;
          nonnegative =
              upserted_all-IsNonnegative profile fresh s as' checked s.allocations
                capped.nonnegative;
          capped =
              cap_step profile s redistributed refl capped.unique
                (All-map_into _ _ untouched s.memberships own)
                (All-map_into _ _ allowed s.memberships own) capped.capped;
        }
