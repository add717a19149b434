-- ===== src/Contributions/Redistributing.antt =====
-- `redistribute`: what it ensures of the store.
use financial_os.Base.{
  ◌≡◌, ◌≢◌, inl, inr, refl, sym, ap, subst, ◌∙◌, Bool, true, false, Option, none, some, List, [],
  ◌∷◌, arith, ◌==◌, ==_iff, All, IsAbsent, IsDistinct, Uuid, Bool-cases,
}
use financial_os.Base.Int.{pos, ◌≤ℤ◌, ◌+ℤ◌}
use financial_os.Errors.{ok, err}
use financial_os.Profiles.Membership.{status_eq, active}
use financial_os.Store.{rolled_back, Store, MembershipRow, AllocationRow, Outcome, done}
use financial_os.Store.Memberships.{find_first, find_by_id}
use financial_os.Store.Post.{Post, lift-Post}
use financial_os.Contributions.Cap.{check_allocation_within_cap}
use financial_os.Contributions.Redistribution.{RedistributionAllocation, id_of}
use financial_os.Contributions.Repository.{is_allocation, percentage_or_zero, upserted}
use financial_os.Contributions.Repository.Upsert.{upserted-own, upserted-other}
use financial_os.Contributions.CapStep.{elsewhere}
use financial_os.Contributions.Allocating.{check_fits}
use financial_os.Contributions.Service.{target_member, check_targets, upsert_all, bp_of}

-- The allocations after the loop that stores them.
abbrev pub upserted_all :
    Uuid → List RedistributionAllocation → List AllocationRow → List AllocationRow
upserted_all plan [] rows = rows
upserted_all plan (a ∷ as') rows =
    upserted_all plan as' (upserted plan a.membership_id (bp_of a.percentage_bp) rows)

pub upsert_all_lem :
    (plan : Uuid) (as' : List RedistributionAllocation) (s : Store)
    → upsert_all plan as' s
      ≡ done (ok tt) (record s { allocations = upserted_all plan as' s.allocations })
unfolding upsert_all
upsert_all_lem plan [] s = refl
upsert_all_lem plan (a ∷ as') s = upsert_all_lem plan as' _

abbrev pub is_for : Uuid → RedistributionAllocation → Bool
is_for member a = a.membership_id == member

-- A member without a share is found as before.
pub upserted_all-other :
    (plan plan' member : Uuid) (as' : List RedistributionAllocation) (rows : List AllocationRow)
    → find_first (is_for member) as' ≡ none
    → find_first (is_allocation plan' member) (upserted_all plan as' rows)
      ≡ find_first (is_allocation plan' member) rows
upserted_all-other plan plan' member [] rows h = refl
upserted_all-other plan plan' member (a ∷ as') rows h = elim (Bool-cases (is_for member a)) [
  | inl hit ↦ let found = rw hit at h in absurd (cc)
  | inr miss ↦
      upserted_all-other plan plan' member as' _ (rw miss at h)
      ∙ upserted-other plan plan' a.membership_id member (bp_of a.percentage_bp) rows (apart a miss)
]
  where
    apart : (a : RedistributionAllocation) → is_for member a ≡ false → member ≢ a.membership_id
    apart a h = ground arith

absent_none :
    (member : Uuid) (as' : List RedistributionAllocation)
    → IsAbsent id_of member as'
    → find_first (is_for member) as' ≡ none
absent_none member [] h = refl
absent_none member (a ∷ as') (ne, h) = ground (arith, absent_none member as' h)

-- A member's share is the one given.
pub upserted_all-own :
    (plan member : Uuid) (as' : List RedistributionAllocation) (rows : List AllocationRow)
    {a : RedistributionAllocation}
    → IsDistinct id_of as'
    → find_first (is_for member) as' ≡ some a
    → percentage_or_zero (find_first (is_allocation plan member) (upserted_all plan as' rows))
      ≡ bp_of a.percentage_bp
upserted_all-own plan member [] rows d h = absurd (cc)
upserted_all-own plan member (x ∷ xs) rows {a} (absent, d) h = elim (Bool-cases (is_for member x)) [
  | inl hit ↦
      let e : x.membership_id ≡ member = (==_iff _ _).0 hit in
      let same : some x ≡ some a = rw hit at h in
      let is_a : x ≡ a = cc in
      let gone : find_first (is_for member) xs ≡ none = absent_none member xs (rw e at absent) in
      ap percentage_or_zero (upserted_all-other plan plan member xs _ gone)
      ∙ rw e (upserted-own plan member (bp_of x.percentage_bp) rows)
      ∙ ap (λ y. bp_of y.percentage_bp) is_a
  | inr miss ↦ upserted_all-own plan member xs _ d (rw miss at h)
]

-- An allocation that passed the loop of checks: it is of an active member, and fits under the cap.
pub record IsChecked (profile : Uuid) (s : Store) (a : RedistributionAllocation) : Type 0 where
  pub row : MembershipRow
  pub found : find_by_id a.membership_id s ≡ some row
  pub here : row.shared_profile_id ≡ profile
  pub is_active : status_eq row.status active ≡ true
  pub fits : pos 0 ≤ℤ bp_of a.percentage_bp
  pub within : bp_of a.percentage_bp +ℤ elsewhere profile row.user_id s ≤ℤ pos 10000

target_member_lem :
    (profile : Uuid) (o : Option MembershipRow) {m : MembershipRow}
    → target_member profile o ≡ ok m
    → (o ≡ some m) × (m.shared_profile_id ≡ profile) × (status_eq m.status active ≡ true)
unfolding target_member
target_member_lem profile none h = cc
target_member_lem profile (some m) h = ground arith

-- The loop of checks changes nothing, and every allocation that it lets pass is checked.
pub check_targets-IsChecked :
    (profile : Uuid) (as' : List RedistributionAllocation) (s : Store)
    → Post
        (λ u s'. (s' ≡ s) × All (IsChecked profile s) as')
        (λ s'. s' ≡ s)
        ⊥
        (check_targets profile as' s)
unfolding check_targets
check_targets-IsChecked profile [] s = (refl, tt)
check_targets-IsChecked profile (a ∷ as') s =
    lift-Post _ _ _ (target_member profile (find_by_id a.membership_id s)) _ s refl (λ m is_target.
      let (found, here, act) = target_member_lem _ _ is_target in
      lift-Post _ _ _ (check_allocation_within_cap _ profile a.percentage_bp) _ s refl
        (λ (u : Unit {0}) checked.
          let (z, is_z, low, fits) = check_fits profile m.user_id a.percentage_bp s checked in
          let same : bp_of a.percentage_bp ≡ z = ap bp_of is_z in
          let this : IsChecked profile s a = record {
            row = m;
            found = found;
            here = here;
            is_active = act;
            fits = subst (λ b. pos 0 ≤ℤ b) (sym same) low;
            within = subst (λ b. b +ℤ elsewhere profile m.user_id s ≤ℤ pos 10000) (sym same) fits;
          } in
          with_this this (check_targets profile as' s) (check_targets-IsChecked profile as' s)))
  where
    with_this :
        IsChecked profile s a
        → (o : Outcome (Unit {0}))
        → Post (λ u s'. (s' ≡ s) × All (IsChecked profile s) as') (λ s'. s' ≡ s) ⊥ o
        → Post (λ u s'. (s' ≡ s) × All (IsChecked profile s) (a ∷ as')) (λ s'. s' ≡ s) ⊥ o
    with_this this (done (ok u) s') (same, rest) = (same, (this, rest))
    with_this this (done (err x) s') same = same
    with_this this (rolled_back x) p = p
