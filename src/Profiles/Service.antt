-- ===== src/Profiles/Service.antt =====
-- `application/profiles.service.ts`: each use case is one transaction. `now` is the clock's reading
-- and `fresh` the identifiers that the database gives to new rows.
use financial_os.Base.{
  ℕ, Bool, false, not, ◌&&◌, Option, none, some, map, if◌then◌else◌, ◌==◌, Uuid,
}
use financial_os.Base.Int.{pos}
use financial_os.Errors.{Result, ok, fail, invariant, not_found, forbidden}
use financial_os.Money.Currency.{CurrencyCode, to_upper}
use financial_os.Permissions.{
  MemberRole, owner, role_eq, Capability, can, invite_member, change_member_role, nominate_owner,
  archive_profile,
}
use financial_os.Profiles.Membership.{
  MembershipStatus, invited, active, status_eq, is_terminal, Instant, MembershipState,
  MembershipDelta, invitation_expiry,
}
use financial_os.Profiles.Membership
use financial_os.Profiles.SharedProfile.{active_profile, assert_writable}
use financial_os.Profiles.SharedProfile
use financial_os.Store.{
  PeriodLength, MembershipRow, ProfileRow, Principal, Tx, ◌>>=◌, ◌>>◌, lift, read, require, expect,
  emit, log, of_event, EventType, update_with_optimistic_lock, shared_profile_created,
  member_invited, invitation_accepted, invitation_declined, member_left, member_role_changed,
  owner_nominated, ownership_transferred, profile_archived,
}
use financial_os.Store.Memberships.{
  to_membership_state, to_shared_profile_state, find_by_id, find_by_profile_and_user, find_first,
  find_shared_profile, list_by_profile, apply_delta_to, change_role_versioned, create_membership,
  create_shared_profile, set_owner_membership_id, archive_row,
}

-- `requireCapability`: the caller's active membership, if its role allows the action.
abbrev pub checked_member : Option MembershipRow → Capability → Result MembershipRow
checked_member none capability = fail forbidden
checked_member (some m) capability =
    if not (status_eq m.status active)
    then fail forbidden
    else if not (can m.role capability)
    then fail forbidden
    else ok m

unfoldable pub require_capability : Uuid → Uuid → Capability → Tx MembershipRow
require_capability profile user capability = do
  m ← read (find_by_profile_and_user profile user)
  lift (checked_member m capability)

-- The new profile, and the creator's row: the founding OWNER, active at once.
abbrev pub founded_profile : CurrencyCode → PeriodLength → Uuid → ProfileRow
founded_profile base_currency period profile_id = record {
  id = profile_id;
  base_currency = to_upper base_currency;
  status = active_profile;
  period_length = period;
  owner_membership_id = none;
  archived_at = none;
}

abbrev pub founding_owner : Principal → Instant → Uuid → Uuid → MembershipRow
founding_owner principal now profile_id owner_id = record {
  id = owner_id;
  shared_profile_id = profile_id;
  user_id = principal.user_id;
  role = owner;
  status = active;
  pending_owner_nominee = false;
  invitation_expires_at = invitation_expiry now;
  joined_at = some now;
  left_at = none;
  declared_income_cents = pos 0;
  version = 0;
}

unfoldable pub create_shared_profile_tx :
    Principal → CurrencyCode → PeriodLength → Instant → Uuid → Uuid → Tx ProfileRow
create_shared_profile_tx principal base_currency period now profile_id owner_id = do
  create_shared_profile (founded_profile base_currency period profile_id)
  create_membership (founding_owner principal now profile_id owner_id)
  set_owner_membership_id profile_id owner_id
  emit shared_profile_created profile_id (some owner_id)
  log profile_id (some owner_id) (of_event shared_profile_created)
  lift (
      ok (record (founded_profile base_currency period profile_id) {
        owner_membership_id = some owner_id;
      }))

-- `existing && !isTerminal(existing.status)`
abbrev pub blocks_invitation : Option MembershipRow → Bool
blocks_invitation none = false
blocks_invitation (some m) = not (is_terminal m.status)

unfoldable pub invite_member_tx :
    Principal → Uuid → Uuid → MemberRole → Instant → Uuid → Tx MembershipRow
unfolding require_capability
invite_member_tx principal profile_id user role now fresh =
    let row : MembershipRow = record {
      id = fresh;
      shared_profile_id = profile_id;
      user_id = user;
      role = role;
      status = invited;
      pending_owner_nominee = false;
      invitation_expires_at = invitation_expiry now;
      joined_at = none;
      left_at = none;
      declared_income_cents = pos 0;
      version = 0;
    } in
    do
      actor ← require_capability profile_id principal.user_id invite_member
      found ← read (find_shared_profile profile_id)
      profile ← require found not_found
      lift (assert_writable (to_shared_profile_state profile))
      lift (if role_eq role owner then fail invariant else ok tt)
      existing ← read (find_by_profile_and_user profile_id user)
      lift (if blocks_invitation existing then fail invariant else ok tt)
      create_membership row
      emit member_invited fresh (some actor.id)
      log profile_id (some actor.id) (of_event member_invited)
      lift (ok row)

-- The caller's own membership row.
abbrev pub owned_by : Uuid → Option MembershipRow → Result MembershipRow
owned_by user none = fail not_found
owned_by user (some m) = if not (m.user_id == user) then fail not_found else ok m

unfoldable pub transition_own_membership :
    Principal → Uuid → EventType → (MembershipState → Result MembershipDelta) → Tx MembershipRow
transition_own_membership principal id event decide = do
  found ← read (find_by_id id)
  membership ← lift (owned_by principal.user_id found)
  delta ← lift (decide (to_membership_state membership))
  apply_delta_to id delta
  emit event id (some membership.id)
  log membership.shared_profile_id (some membership.id) (of_event event)
  updated ← read (find_by_id id)
  expect updated

unfoldable pub accept_invitation_tx : Principal → Uuid → Instant → Tx MembershipRow
accept_invitation_tx principal id now =
    transition_own_membership principal id invitation_accepted (λ m. Membership.accept m now)

unfoldable pub decline_invitation_tx : Principal → Uuid → Tx MembershipRow
decline_invitation_tx principal id =
    transition_own_membership principal id invitation_declined Membership.decline

unfoldable pub leave_profile_tx : Principal → Uuid → Instant → Tx MembershipRow
leave_profile_tx principal id now =
    transition_own_membership principal id member_left (λ m. Membership.leave m now)

unfoldable pub change_member_role_tx : Principal → Uuid → MemberRole → ℕ → Tx MembershipRow
unfolding require_capability
change_member_role_tx principal id role expected_version = do
  found ← read (find_by_id id)
  target ← require found not_found
  actor ← require_capability target.shared_profile_id principal.user_id change_member_role
  found_profile ← read (find_shared_profile target.shared_profile_id)
  profile ← require found_profile not_found
  lift (assert_writable (to_shared_profile_state profile))
  decision ← lift (Membership.change_role (to_membership_state target) role)
  updated ←
      update_with_optimistic_lock (change_role_versioned id role expected_version)
        (read (find_by_id id) >>= expect)
  emit member_role_changed id (some actor.id)
  log target.shared_profile_id (some actor.id) (of_event member_role_changed)
  lift (ok updated)

-- The nominee's row, if it is of this profile.
abbrev pub within : Uuid → Option MembershipRow → Result MembershipRow
within profile none = fail not_found
within profile (some m) = if not (m.shared_profile_id == profile) then fail not_found else ok m

unfoldable pub nominate_owner_tx : Principal → Uuid → Uuid → Tx MembershipRow
unfolding require_capability
nominate_owner_tx principal profile_id nominee_id = do
  actor ← require_capability profile_id principal.user_id nominate_owner
  found ← read (find_by_id nominee_id)
  nominee ← lift (within profile_id found)
  delta ← lift (Membership.nominate_owner (to_membership_state nominee))
  apply_delta_to nominee.id delta
  emit owner_nominated nominee.id (some actor.id)
  log profile_id (some actor.id) (of_event owner_nominated)
  updated ← read (find_by_id nominee.id)
  expect updated

-- `m.role === 'OWNER' && m.status === 'ACTIVE'`
abbrev pub is_current_owner : MembershipRow → Bool
is_current_owner m = role_eq m.role owner && status_eq m.status active

unfoldable pub accept_ownership_tx : Principal → Uuid → Tx ProfileRow
accept_ownership_tx principal profile_id = do
  found ← read (find_by_profile_and_user profile_id principal.user_id)
  nominee ← require found not_found
  members ← read (list_by_profile profile_id)
  current ← require (find_first is_current_owner members) invariant
  deltas ←
      lift (Membership.accept_ownership (to_membership_state nominee) (to_membership_state current))
  apply_delta_to nominee.id deltas.nominee
  apply_delta_to current.id deltas.outgoing_owner
  set_owner_membership_id profile_id nominee.id
  emit ownership_transferred profile_id (some nominee.id)
  log profile_id (some nominee.id) (of_event ownership_transferred)
  updated ← read (find_shared_profile profile_id)
  expect updated

unfoldable pub archive_profile_tx : Principal → Uuid → Instant → Tx ProfileRow
unfolding require_capability
archive_profile_tx principal profile_id now = do
  actor ← require_capability profile_id principal.user_id archive_profile
  found ← read (find_shared_profile profile_id)
  profile ← require found not_found
  members ← read (list_by_profile profile_id)
  decision ← lift (
      SharedProfile.archive (to_shared_profile_state profile) (to_membership_state actor)
        (map to_membership_state members) now)
  archive_row profile_id decision.archived_at
  emit profile_archived profile_id (some actor.id)
  log profile_id (some actor.id) (of_event profile_archived)
  updated ← read (find_shared_profile profile_id)
  expect updated
