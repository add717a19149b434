-- ===== src/Tests/Governance.antt =====
-- A shared profile of four, and the use cases on it.
use financial_os.Base.{
  IsAbsent, leb, ◌&&◌, filter, take, ◌*◌, ◌+◌, ◌≤◌, ◌<◌, ◌≡◌, ◌⊎◌, ◌↔◌, refl, true, false, none,
  some, [], ◌∷◌, arith, Uuid, length,
}
use financial_os.Base.Int.{pos}
use financial_os.Errors.{ok, fail, invariant}
use financial_os.Permissions.{
  MemberRole, owner, admin, contributor, viewer, can, can_iff, required, seniority,
  change_member_role,
}
use financial_os.Profiles.Membership
use financial_os.Profiles.Membership.{
  status_eq, MembershipStatus, invited, active, expired, left, declined, MembershipState,
  MembershipDelta, no_delta, accept, expire, apply_delta, invitation_expiry, is_terminal, Instant,
}
use financial_os.Profiles.Membership.Machine.{
  leave_it, decide, Transition, decide-Transition, accept_or_expire,
}
use financial_os.Profiles.SharedProfile.{active_profile}
use financial_os.Profiles.Invariant.{IsValid}
use financial_os.Profiles.Service.{
  accept_invitation_tx, leave_profile_tx, change_member_role_tx, nominate_owner_tx,
  accept_ownership_tx, archive_profile_tx, invite_member_tx, create_shared_profile_tx,
}
use financial_os.Profiles.Governance.{accept_invitation-Governs, leave_profile-Governs, Moves}
use financial_os.Profiles.Roles.{
  nominate_owner-Governs, change_member_role-Governs, ChangesRole, Nominates,
}
use financial_os.Profiles.Ownership.{HandsOver, accept_ownership-Governs}
use financial_os.Profiles.Lifecycle.{
  IsArchived, IsInvited, archive_profile-Governs, invite_member-Governs,
}
use financial_os.Profiles.Founding.{IsFounded, create_shared_profile-Governs}
use financial_os.Profiles.Expiry.{Swept, run_for_tenant, run_for_tenant-Swept}
use financial_os.Profiles.History.{
  History, begin, next, submit, create_profile, invite, empty_store, History-IsValid,
}
use financial_os.Store.{
  weekly, monthly, with_tenant, profile_archived, member_invited, shared_profile_created, Store,
  MembershipRow, ProfileRow, Principal, invitation_accepted, member_left, member_role_changed,
  owner_nominated, ownership_transferred,
}
use financial_os.Store.Memberships.{
  find_shared_profile, find_by_profile_and_user, to_membership_state,
}
use financial_os.Store.Post.{Post, Recorded}

abbrev member : Uuid → Uuid → MemberRole → MembershipStatus → MembershipRow
member id user role status = record {
  id = id;
  shared_profile_id = 7;
  user_id = user;
  role = role;
  status = status;
  pending_owner_nominee = false;
  invitation_expires_at = 14 * 86_400_000;
  joined_at = none;
  left_at = none;
  declared_income_cents = pos 0;
  version = 0;
}

abbrev alice : MembershipRow
alice = member 1 11 owner active

-- Nominated as the next owner.
abbrev bob : MembershipRow
bob = record (member 2 12 admin active) { pending_owner_nominee = true }

abbrev carol : MembershipRow
carol = member 3 13 contributor active

abbrev dave : MembershipRow
dave = member 4 14 viewer invited

abbrev home : ProfileRow
home = record {
  id = 7;
  base_currency = b'U' ∷ b'S' ∷ b'D' ∷ [];
  status = active_profile;
  period_length = monthly;
  owner_membership_id = some 1;
  archived_at = none;
}

abbrev household : Store
household = record {
  users = 11 ∷ 12 ∷ 13 ∷ 14 ∷ 16 ∷ [];
  profiles = home ∷ [];
  memberships = alice ∷ bob ∷ carol ∷ dave ∷ [];
  plans = [];
  allocations = [];
  periods = [];
  records = [];
  personal_profiles = [];
  accounts = [];
  goals = [];
  debts = [];
  responsibilities = [];
  investments = [];
  budgets = [];
  outbox = [];
  audit = [];
}

abbrev as_user : Uuid → Principal
as_user user = record { tenant_id = some 5; user_id = user }

household-IsValid : IsValid household
household-IsValid = record {
  keys = (
    (omega arith, (omega arith, (omega arith, tt))),
    ((omega arith, (omega arith, tt)), ((omega arith, tt), (tt, tt))),
  );
  sound = (λ _. (refl, refl), (λ h. absurd (cc), (λ h. absurd (cc), (λ h. absurd (cc), tt))));
  single = (refl, tt);
}

can_iff_example :
    (can contributor change_member_role ≡ true)
    ↔ (required change_member_role ≤ seniority contributor)
can_iff_example = can_iff contributor change_member_role

carol_leaves :
    decide (leave_it 9) (to_membership_state carol)
    ≡ ok (record no_delta { status = some left; left_at = some 9 })
unfolding Membership.leave
carol_leaves = refl

decide-Transition_example :
    Transition active left × ((contributor ≡ owner) ↔ (contributor ≡ owner)) × (carol.version ≡ 0)
unfolding apply_delta
decide-Transition_example = decide-Transition (leave_it 9) (to_membership_state carol) carol_leaves

accept_or_expire_example :
    ((99 < 0 + 14 * 86_400_000)
      × ((d : MembershipDelta) × (accept (to_membership_state dave) 99 ≡ ok d)
          × ((apply_delta d (to_membership_state dave)).status ≡ active))
      × (expire (to_membership_state dave) 99 ≡ fail invariant))
    ⊎ ((0 + 14 * 86_400_000 ≤ 99)
        × (accept (to_membership_state dave) 99 ≡ fail invariant)
        × ((d : MembershipDelta) × (expire (to_membership_state dave) 99 ≡ ok d)
            × ((apply_delta d (to_membership_state dave)).status ≡ expired)))
unfolding invitation_expiry
accept_or_expire_example = accept_or_expire (to_membership_state dave) 0 99 refl refl

accept_invitation-Governs_example :
    Post
      (λ row s'.
        (IsValid s' × Recorded invitation_accepted household s')
        × Moves 14 4 invited active household s' row)
      (λ s'. s' ≡ household)
      ⊥
      (accept_invitation_tx (as_user 14) 4 99 household)
accept_invitation-Governs_example =
    accept_invitation-Governs (as_user 14) 4 99 household household-IsValid

leave_profile-Governs_example :
    Post
      (λ row s'.
        (IsValid s' × Recorded member_left household s') × Moves 13 3 active left household s' row)
      (λ s'. s' ≡ household)
      ⊥
      (leave_profile_tx (as_user 13) 3 99 household)
leave_profile-Governs_example = leave_profile-Governs (as_user 13) 3 99 household household-IsValid

nominate_owner-Governs_example :
    Post
      (λ row s'.
        (IsValid s' × Recorded owner_nominated household s') × Nominates 11 7 3 household s' row)
      (λ s'. s' ≡ household)
      ⊥
      (nominate_owner_tx (as_user 11) 7 3 household)
nominate_owner-Governs_example = nominate_owner-Governs (as_user 11) 7 3 household household-IsValid

change_member_role-Governs_example :
    Post
      (λ row s'.
        (IsValid s' × Recorded member_role_changed household s')
        × ChangesRole 3 viewer 0 household s' row)
      (λ s'. s' ≡ household)
      ⊥
      (change_member_role_tx (as_user 11) 3 viewer 0 household)
change_member_role-Governs_example =
    change_member_role-Governs (as_user 11) 3 viewer 0 household household-IsValid

accept_ownership-Governs_example :
    Post
      (λ p s'.
        (IsValid s' × Recorded ownership_transferred household s') × HandsOver 12 7 household s' p)
      (λ s'. s' ≡ household)
      (find_shared_profile 7 household ≡ none)
      (accept_ownership_tx (as_user 12) 7 household)
accept_ownership-Governs_example =
    accept_ownership-Governs (as_user 12) 7 household household-IsValid

archive_profile-Governs_example :
    Post
      (λ p s'. (IsValid s' × Recorded profile_archived household s') × IsArchived 7 99 s' p)
      (λ s'. s' ≡ household)
      ⊥
      (archive_profile_tx (as_user 11) 7 99 household)
archive_profile-Governs_example =
    archive_profile-Governs (as_user 11) 7 99 household household-IsValid

invite_member-Governs_example :
    Post
      (λ m s'.
        (IsValid s' × Recorded member_invited household s')
        × IsInvited 7 16 viewer 6 household s' m)
      (λ s'. s' ≡ household)
      ((IsAbsent (λ u. u) 16 household.users)
        ⊎ ((m : MembershipRow) × (find_by_profile_and_user 7 16 household ≡ some m)
            × (is_terminal m.status ≡ true)))
      (invite_member_tx (as_user 11) 7 16 viewer 99 6 household)
invite_member-Governs_example =
    invite_member-Governs (as_user 11) 7 16 viewer 99 6 household household-IsValid
      (omega arith, (omega arith, (omega arith, (omega arith, tt))))

create_shared_profile-Governs_example :
    Post
      (λ p s'.
        (IsValid s' × Recorded shared_profile_created household s') × IsFounded (as_user 16) 6 s' p)
      (λ _. ⊥)
      (IsAbsent (λ u. u) 16 household.users)
      (create_shared_profile_tx (as_user 16) (b'e' ∷ b'u' ∷ b'r' ∷ []) weekly 99 8 6 household)
create_shared_profile-Governs_example =
    create_shared_profile-Governs (as_user 16) (b'e' ∷ b'u' ∷ b'r' ∷ []) weekly 99 8 6 household
      household-IsValid (omega arith, tt)
      (omega arith, (omega arith, (omega arith, (omega arith, tt))))
      (omega arith, (omega arith, (omega arith, (omega arith, tt))))

abbrev newcomers : Store
newcomers = empty_store (11 ∷ 12 ∷ [])

abbrev founded : Store
founded = submit (as_user 11) (create_profile (b'e' ∷ b'u' ∷ b'r' ∷ []) weekly 0 7 1) newcomers

abbrev asked : Store
asked = submit (as_user 11) (invite 7 12 admin 0 2) founded

founded-asked : History newcomers asked
unfolding with_tenant create_shared_profile_tx
founded-asked =
    next (next begin (as_user 11) (create_profile _ weekly 0 7 1) (tt, tt, tt)) (as_user 11)
      (invite 7 12 admin 0 2) (omega arith, tt)

History-IsValid_example : IsValid asked × (length asked.outbox ≡ length asked.audit)
History-IsValid_example = History-IsValid founded-asked

run_for_tenant-Swept_example :
    Post
      (λ n s'.
        Swept
          (take 500 (
            filter
              (λ m. status_eq m.status invited && leb m.invitation_expires_at 1_300_000_000)
              household.memberships))
          household
          n
          s')
      (λ _. ⊥)
      ⊥
      (run_for_tenant 1_300_000_000 household)
run_for_tenant-Swept_example = run_for_tenant-Swept 1_300_000_000 household household-IsValid
