-- ===== src/Profiles/SharedProfile.antt =====
-- `domain/entities/shared-profile.ts` and `personal-profile.ts`: writability, archival and the
-- single owner.
use financial_os.Base.{
  ℕ, ◌≤◌, ◌≡◌, ◌↔◌, Bool, true, false, not, ◌&&◌, Option, List, arith, if◌then◌else◌, ltb, ◌==◌,
  length, filter, Uuid,
}
use financial_os.Base.Int.{pos}
use financial_os.Errors.{Result, ok, fail, fail_with, invariant, archived, forbidden, total}
use financial_os.Permissions.{owner, role_eq}
use financial_os.Profiles.Membership.{active, status_eq, MembershipState, Instant}

pub data ProfileStatus : Type 0 where
  active_profile : ProfileStatus
  archived_profile : ProfileStatus

pub record SharedProfileState : Type 0 where
  pub id : Uuid
  pub status : ProfileStatus
  pub owner_membership_id : Option Uuid

-- `{ status: 'ARCHIVED', archivedAt }`
pub record ArchiveDelta : Type 0 where
  pub archived_at : Instant

unfoldable pub is_writable : ProfileStatus → Bool
is_writable active_profile = true
is_writable archived_profile = false

unfoldable pub assert_writable : SharedProfileState → Result (Unit {0})
unfolding is_writable
assert_writable p = if not (is_writable p.status) then fail archived else ok tt

abbrev pub is_active : MembershipState → Bool
is_active m = status_eq m.status active

unfoldable pub active_member_count : List MembershipState → ℕ
active_member_count members = length (filter is_active members)

unfoldable pub archive :
    SharedProfileState → MembershipState → List MembershipState → Instant → Result ArchiveDelta
unfolding is_writable active_member_count
archive p actor members now =
    if not (is_writable p.status)
    then fail invariant
    else if not (role_eq actor.role owner)
    then fail forbidden
    else if ltb 1 (active_member_count members)
    then fail_with invariant (total (pos (active_member_count members)))
    else ok (record { archived_at = now })

abbrev pub is_active_owner : MembershipState → Bool
is_active_owner m = status_eq m.status active && role_eq m.role owner

abbrev pub owners : List MembershipState → ℕ
owners members = length (filter is_active_owner members)

unfoldable pub assert_single_owner : List MembershipState → Result (Unit {0})
assert_single_owner members =
    if not (owners members == 1) then fail_with invariant (total (pos (owners members))) else ok tt

-- `isVisibleTo` of a personal profile.
pub is_visible_to : Uuid → Uuid → Bool
is_visible_to profile_user requester = profile_user == requester

-- Archival succeeds exactly for the owner of a profile that is not archived and has at most one
-- active member.
pub archive_iff :
    (p : SharedProfileState) (actor : MembershipState) (ms : List MembershipState) (now : Instant)
    → (archive p actor ms now ≡ ok (record { archived_at = now }))
      ↔ ((p.status ≡ active_profile) × (actor.role ≡ owner) × (active_member_count ms ≤ 1))
unfolding archive
archive_iff p actor ms now = ground arith
