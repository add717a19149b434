-- ===== src/Contributions/CapStep.antt =====
-- A change of what the members commit in one profile keeps everybody within 100%, if each of its
-- members commits no more than before or was checked against the cap.
use financial_os.Base.{
  ◌≡◌, ◌≢◌, ◌⊎◌, inl, inr, refl, sym, ap, subst, ◌∙◌, true, [], ◌∷◌, arith, filter, All, All-filter,
  All-of, All-zip, Uuid,
}
use financial_os.Base.Int.{ℤ, pos, ◌+ℤ◌, ◌≤ℤ◌, int_laws, sum_ℤ}
use financial_os.Profiles.Membership.{status_eq, active}
use financial_os.Store.{Store, MembershipRow}
use financial_os.Store.Memberships.{in_profile}
use financial_os.Contributions.Cap.{committed_total_bp, committed_total_bp-eq-sum, is_other}
use financial_os.Contributions.Repository.{is_active_of, committed_by_user}
use financial_os.Contributions.Commitment.{
  committed, outside, own_in, at_most_one, sum_ℤ-split, sum_ℤ-same, filter-test, others-sum,
  commitments-sum, IsUniqueMember,
}

-- What a user commits outside a profile.
abbrev pub elsewhere : Uuid → Uuid → Store → ℤ
elsewhere profile user s = committed_total_bp (filter (is_other profile) (committed_by_user user s))

-- The member commits no more than before, or fits under the cap beside the other profiles.
abbrev pub IsAllowed : Uuid → Store → Store → MembershipRow → Type 0
IsAllowed profile s s' r =
    (status_eq r.status active ≡ true)
    → (r.shared_profile_id ≡ profile)
    → (committed s' r ≤ℤ committed s r)
      ⊎ (committed s' r +ℤ elsewhere profile r.user_id s ≤ℤ pos 10000)

abbrev pub IsUntouched : Uuid → Store → Store → MembershipRow → Type 0
IsUntouched profile s s' m = m.shared_profile_id ≢ profile → committed s' m ≡ committed s m

total-eq-sum :
    (user : Uuid) (s : Store)
    → committed_total_bp (committed_by_user user s)
      ≡ sum_ℤ (committed s) (filter (is_active_of user) s.memberships)
total-eq-sum user s = committed_total_bp-eq-sum _ ∙ commitments-sum s _

elsewhere-eq-sum :
    (profile user : Uuid) (s : Store)
    → elsewhere profile user s
      ≡ sum_ℤ (committed s) (filter (outside profile) (filter (is_active_of user) s.memberships))
elsewhere-eq-sum profile user s = committed_total_bp-eq-sum _ ∙ others-sum s profile _

outside_ne :
    (profile : Uuid) (m : MembershipRow) → outside profile m ≡ true → m.shared_profile_id ≢ profile
outside_ne profile m h e = ground arith

own_is :
    (profile user : Uuid) (m : MembershipRow)
    → is_active_of user m ≡ true
    → in_profile profile m ≡ true
    → (status_eq m.status active ≡ true) × (m.user_id ≡ user) × (m.shared_profile_id ≡ profile)
own_is profile user m h k = ground arith

module _ (profile : Uuid) (s s' : Store) (same : s'.memberships ≡ s.memberships)
    (untouched : All (IsUntouched profile s s') s.memberships) where
  -- The total after the change: what is committed in the profile, and elsewhere as before.
  total_after :
      (user : Uuid)
      → committed_total_bp (committed_by_user user s')
        ≡ sum_ℤ (committed s') (own_in profile user s.memberships) +ℤ elsewhere profile user s
  total_after user =
      total-eq-sum user s'
      ∙ ap (λ ms. sum_ℤ (committed s') (filter (is_active_of user) ms)) same
      ∙ sum_ℤ-split (committed s') profile (filter (is_active_of user) s.memberships)
      ∙ ap (λ z. sum_ℤ (committed s') (own_in profile user s.memberships) +ℤ z) rest
    where
      rest :
          sum_ℤ (committed s') (filter (outside profile) (filter (is_active_of user) s.memberships))
          ≡ elsewhere profile user s
      rest =
          sum_ℤ-same (committed s') (committed s) _ (
            All-zip _ _ _ (λ m h same. same (outside_ne profile m h)) _
              (filter-test (outside profile) _)
              (All-filter _ (outside profile) _ (All-filter _ (is_active_of user) _ untouched)))
          ∙ sym (elsewhere-eq-sum profile user s)

total_before :
    (profile user : Uuid) (s : Store)
    → committed_total_bp (committed_by_user user s)
      ≡ sum_ℤ (committed s) (own_in profile user s.memberships) +ℤ elsewhere profile user s
total_before profile user s =
    total_after profile s s refl (All-of _ (λ m ne. refl) s.memberships) user

module _ (profile : Uuid) (s s' : Store) (same : s'.memberships ≡ s.memberships)
    (unique : IsUniqueMember s.memberships)
    (untouched : All (IsUntouched profile s s') s.memberships)
    (allowed : All (IsAllowed profile s s') s.memberships) where
  one_own :
      (user : Uuid) (r : MembershipRow)
      → own_in profile user s.memberships ≡ r ∷ []
      → (committed s' r ≤ℤ committed s r)
        ⊎ (committed s' r +ℤ elsewhere profile user s ≤ℤ pos 10000)
  one_own user r e =
      let (up, up') =
        subst (All (IsAllowed profile s s')) e
          (All-filter _ (in_profile profile) _ (All-filter _ (is_active_of user) _ allowed)) in
      let (mine, mine') =
        subst (All (λ m. is_active_of user m ≡ true)) e
          (All-filter _ (in_profile profile) _ (filter-test (is_active_of user) s.memberships)) in
      let (here, here') =
        subst (All (λ m. in_profile profile m ≡ true)) e
          (filter-test (in_profile profile) (filter (is_active_of user) s.memberships)) in
      let (act, u, p) = own_is profile user r mine here in
      subst
        (λ v.
          (committed s' r ≤ℤ committed s r)
          ⊎ (committed s' r +ℤ elsewhere profile v s ≤ℤ pos 10000))
        u (up act p)

  pub cap_step :
      ((user : Uuid) → committed_total_bp (committed_by_user user s) ≤ℤ pos 10000)
      → (user : Uuid) → committed_total_bp (committed_by_user user s') ≤ℤ pos 10000
  cap_step capped user =
      subst (λ z. z ≤ℤ pos 10000) (sym (total_after profile s s' same untouched user))
        (within (subst (λ z. z ≤ℤ pos 10000) (total_before profile user s) (capped user))
          (at_most_one profile user s.memberships unique))
    where
      within :
          sum_ℤ (committed s) (own_in profile user s.memberships) +ℤ elsewhere profile user s
            ≤ℤ pos 10000
          → (own_in profile user s.memberships ≡ [])
            ⊎ ((r : MembershipRow) × (own_in profile user s.memberships ≡ r ∷ []))
          → sum_ℤ (committed s') (own_in profile user s.memberships) +ℤ elsewhere profile user s
            ≤ℤ pos 10000
      within before (inl none) = let before' = rw none at before in rw none before'
      within before (inr (r, one)) =
          let before' = rw one at before in
          rw one
            (elim (one_own user r one) [ inl less ↦ omega int_laws | inr fits ↦ omega int_laws ])
