-- ===== src/Profiles/Membership.antt =====
-- `domain/entities/membership.ts`: the status machine of a membership and the ownership rules.
-- An instant (`Date`) is its `getTime()`, in milliseconds, from 1970 on.
pub mod Machine
use financial_os.Base.{
  ℕ, ◌+◌, ◌*◌, ◌≤◌, ◌≡◌, Bool, true, false, not, ◌&&◌, ◌||◌, Option, none, some, List, [], ◌∷◌,
  if◌then◌else◌, leb, Uuid,
}
use financial_os.Errors.{Result, ok, err, fail, invariant}
use financial_os.Permissions.{MemberRole, owner, admin, role_eq}

pub data MembershipStatus : Type 0 where
  invited : MembershipStatus
  active : MembershipStatus
  declined : MembershipStatus
  expired : MembershipStatus
  left : MembershipStatus

abbrev pub Instant : Type 0
Instant = ℕ

abbrev pub invitation_ttl_days : ℕ
invitation_ttl_days = 14

abbrev pub invitation_ttl_ms : ℕ
invitation_ttl_ms = invitation_ttl_days * 24 * 60 * 60 * 1000

pub record MembershipState : Type 0 where
  pub id : Uuid
  pub role : MemberRole
  pub status : MembershipStatus
  pub pending_owner_nominee : Bool
  pub invitation_expires_at : Instant
  pub version : ℕ

-- Every field of a delta is optional.
pub record MembershipDelta : Type 0 where
  pub role : Option MemberRole
  pub status : Option MembershipStatus
  pub pending_owner_nominee : Option Bool
  pub joined_at : Option Instant
  pub left_at : Option Instant

abbrev pub no_delta : MembershipDelta
no_delta = record {
  role = none;
  status = none;
  pending_owner_nominee = none;
  joined_at = none;
  left_at = none;
}

abbrev pub status_eq : MembershipStatus → MembershipStatus → Bool
status_eq invited invited = true
status_eq active active = true
status_eq declined declined = true
status_eq expired expired = true
status_eq left left = true
status_eq _ _ = false

unfoldable pub is_terminal : MembershipStatus → Bool
is_terminal invited = false
is_terminal active = false
is_terminal declined = true
is_terminal expired = true
is_terminal left = true

unfoldable pub is_invitation_expired : MembershipState → Instant → Bool
is_invitation_expired m now = status_eq m.status invited && leb m.invitation_expires_at now

unfoldable pub invitation_expiry : Instant → Instant
invitation_expiry invited_at = invited_at + invitation_ttl_ms

unfoldable pub accept : MembershipState → Instant → Result MembershipDelta
unfolding is_invitation_expired
accept m now =
    if not (status_eq m.status invited)
    then fail invariant
    else if is_invitation_expired m now
    then fail invariant
    else ok (record no_delta { status = some active; joined_at = some now })

unfoldable pub decline : MembershipState → Result MembershipDelta
decline m =
    if not (status_eq m.status invited)
    then fail invariant
    else ok (record no_delta { status = some declined })

unfoldable pub expire : MembershipState → Instant → Result MembershipDelta
unfolding is_invitation_expired
expire m now =
    if not (is_invitation_expired m now)
    then fail invariant
    else ok (record no_delta { status = some expired })

unfoldable pub leave : MembershipState → Instant → Result MembershipDelta
leave m now =
    if not (status_eq m.status active)
    then fail invariant
    else if role_eq m.role owner
    then fail invariant
    else ok (record no_delta { status = some left; left_at = some now })

unfoldable pub change_role : MembershipState → MemberRole → Result MembershipDelta
change_role m role =
    if not (status_eq m.status active)
    then fail invariant
    else if role_eq m.role owner
    then fail invariant
    else if role_eq role owner
    then fail invariant
    else ok (record no_delta { role = some role })

unfoldable pub nominate_owner : MembershipState → Result MembershipDelta
nominate_owner nominee =
    if not (status_eq nominee.status active)
    then fail invariant
    else if role_eq nominee.role owner
    then fail invariant
    else ok (record no_delta { pending_owner_nominee = some true })

pub record OwnershipTransferDeltas : Type 0 where
  pub nominee : MembershipDelta
  pub outgoing_owner : MembershipDelta

unfoldable pub accept_ownership : MembershipState → MembershipState → Result OwnershipTransferDeltas
accept_ownership nominee current_owner =
    if not nominee.pending_owner_nominee
    then fail invariant
    else if not (status_eq nominee.status active)
    then fail invariant
    else if not (role_eq current_owner.role owner)
    then fail invariant
    else ok (record {
      nominee = record no_delta { role = some owner; pending_owner_nominee = some false };
      outgoing_owner = record no_delta { role = some admin };
    })

abbrev pub or_else {ℓ} : {A : Type ℓ} → Option A → A → A
or_else none a = a
or_else (some b) a = b

-- `{ ...m, ...delta }`, on the fields of the state.
unfoldable pub apply_delta : MembershipDelta → MembershipState → MembershipState
apply_delta d m = record m {
  role = or_else d.role m.role;
  status = or_else d.status m.status;
  pending_owner_nominee = or_else d.pending_owner_nominee m.pending_owner_nominee;
}
