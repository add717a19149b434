-- ===== src/Profiles/Governance.antt =====
-- The use cases by which members move their own row, `acceptInvitation`, `declineInvitation` and
-- `leaveProfile`: what they ensure of the store.
use financial_os.Base.{◌≡◌, refl, Option, none, some, arith, Uuid}
use financial_os.Errors.{Result, ok}
use financial_os.Profiles.Membership.{
  MembershipStatus, declined, left, active, invited, Instant, MembershipState, MembershipDelta,
  accept, decline, leave,
}
use financial_os.Profiles.Invariant.{
  IsValid, IsSoundOwner, is_owner, counts, row_id, update-IsValid,
}
use financial_os.Profiles.Service.{
  transition_own_membership, accept_invitation_tx, decline_invitation_tx, leave_profile_tx,
  owned_by,
}
use financial_os.Store.{
  Store, MembershipRow, Principal, EventType, invitation_accepted, invitation_declined, member_left,
}
use financial_os.Store.Memberships.{to_membership_state, find_by_id, has_id, apply_to_row}
use financial_os.Store.Tables.{find_first-All, find_first-update_first_self}
use financial_os.Store.Post.{Post, delta-Post, lift-Post, expect-Post, Recorded}

-- What a decision must leave alone for the invariant.
abbrev pub KeepsOwners : (MembershipState → Result MembershipDelta) → Type 0
KeepsOwners decide =
    (r : MembershipRow) (d : MembershipDelta)
    → IsSoundOwner r
    → decide (to_membership_state r) ≡ ok d
    → IsSoundOwner (apply_to_row d r) × (is_owner (apply_to_row d r) ≡ is_owner r)

pub counts_same :
    (r r' : MembershipRow)
    → r'.shared_profile_id ≡ r.shared_profile_id
    → is_owner r' ≡ is_owner r
    → (p : Uuid) → counts p r' ≡ counts p r
counts_same r r' e o p = rw (e, o)

owned_by_lem :
    (user : Uuid) (o : Option MembershipRow) {m : MembershipRow}
    → owned_by user o ≡ ok m
    → (o ≡ some m) × (m.user_id ≡ user)
owned_by_lem user none h = cc
owned_by_lem user (some m) h = ground arith

-- The user's own row, moved from one status to another with its role, and stored.
pub record Moves (user id : Uuid) (from to : MembershipStatus) (s s' : Store) (row : MembershipRow)
    : Type 0 where
  pub stored : find_by_id id s' ≡ some row
  pub moved : row.status ≡ to
  pub own :
      (old : MembershipRow) × (find_by_id id s ≡ some old)
      × (old.user_id ≡ user)
      × (old.status ≡ from)
      × (row.role ≡ old.role)

-- What a decision does to the status and the role.
abbrev Steps :
    (MembershipState → Result MembershipDelta) → MembershipStatus → MembershipStatus → Type 0
Steps decide from to =
    (r : MembershipRow) (d : MembershipDelta)
    → decide (to_membership_state r) ≡ ok d
    → (r.status ≡ from) × ((apply_to_row d r).status ≡ to) × ((apply_to_row d r).role ≡ r.role)

transition-Governs :
    (principal : Principal) (id : Uuid) (event : EventType)
    (decide : MembershipState → Result MembershipDelta) (from to : MembershipStatus) (s : Store)
    → KeepsOwners decide
    → Steps decide from to
    → IsValid s
    → Post
        (λ row s'. (IsValid s' × Recorded event s s') × Moves principal.user_id id from to s s' row)
        (λ s'. s' ≡ s)
        ⊥
        (transition_own_membership principal id event decide s)
unfolding transition_own_membership
transition-Governs principal id event decide from to s keeps steps v =
    lift-Post _ _ _ (owned_by principal.user_id (find_by_id id s)) _ s refl λ m own.
      let (found, whose) = owned_by_lem principal.user_id _ own in
      lift-Post _ _ _ (decide (to_membership_state m)) _ s refl λ d decided.
        let (sound, same) =
          keeps m d (find_first-All IsSoundOwner (has_id id) s.memberships v.sound found) decided in
        let (was, is, role) = steps m d decided in
        let again =
          find_first-update_first_self row_id (apply_to_row d) (λ x. refl) id s.memberships found in
        delta-Post _ _ _ id d _ s found (
          expect-Post _ _ _ _ _ again (
            (
              update-IsValid (apply_to_row d) (λ x. refl) id s v found sound
                  (counts_same m (apply_to_row d m) refl same),
              record { events = (_, refl, refl); entries = (_, refl, refl) },
            ),
            record { stored = again; moved = is; own = (m, found, whose, was, role) },
          ))

accept-Steps : (now : Instant) → Steps (λ m. accept m now) invited active
unfolding accept
accept-Steps now r d h = ground arith

decline-Steps : Steps decline invited declined
unfolding decline
decline-Steps r d h = ground arith

leave-Steps : (now : Instant) → Steps (λ m. leave m now) active left
unfolding leave
leave-Steps now r d h = ground arith

accept-KeepsOwners : (now : Instant) → KeepsOwners (λ m. accept m now)
unfolding accept
accept-KeepsOwners now r d sound h = ground arith

decline-KeepsOwners : KeepsOwners decline
unfolding decline
decline-KeepsOwners r d sound h = ground arith

leave-KeepsOwners : (now : Instant) → KeepsOwners (λ m. leave m now)
unfolding leave
leave-KeepsOwners now r d sound h = ground arith

-- Accepting an invitation from a store in which every profile has exactly one owner, who is
-- active and no nominee: if it commits, the store still is so and has exactly one event and one audit
-- entry more, of this kind, and
-- the caller's own row was INVITED and is stored as ACTIVE with its role; if it returns an error the store is unchanged; and it never throws.
pub accept_invitation-Governs :
    (principal : Principal) (id : Uuid) (now : Instant) (s : Store)
    → IsValid s
    → Post
        (λ row s'.
          (IsValid s' × Recorded invitation_accepted s s')
          × Moves principal.user_id id invited active s s' row)
        (λ s'. s' ≡ s)
        ⊥
        (accept_invitation_tx principal id now s)
unfolding accept_invitation_tx
accept_invitation-Governs principal id now s v =
    transition-Governs principal id _ _ invited active s (accept-KeepsOwners now) (accept-Steps now)
      v

-- Declining an invitation from a store in which every profile has exactly one owner, who is
-- active and no nominee: if it commits, the store still is so and has exactly one event and one audit
-- entry more, of this kind, and
-- the caller's own row was INVITED and is stored as DECLINED with its role; if it returns an error the store is unchanged; and it never throws.
pub decline_invitation-Governs :
    (principal : Principal) (id : Uuid) (s : Store)
    → IsValid s
    → Post
        (λ row s'.
          (IsValid s' × Recorded invitation_declined s s')
          × Moves principal.user_id id invited declined s s' row)
        (λ s'. s' ≡ s)
        ⊥
        (decline_invitation_tx principal id s)
unfolding decline_invitation_tx
decline_invitation-Governs principal id s v =
    transition-Governs principal id _ _ invited declined s decline-KeepsOwners decline-Steps v

-- Leaving a profile from a store in which every profile has exactly one owner, who is
-- active and no nominee: if it commits, the store still is so and has exactly one event and one audit
-- entry more, of this kind, and
-- the caller's own row was ACTIVE and is stored as LEFT with its role; if it returns an error the store is unchanged; and it never throws.
pub leave_profile-Governs :
    (principal : Principal) (id : Uuid) (now : Instant) (s : Store)
    → IsValid s
    → Post
        (λ row s'.
          (IsValid s' × Recorded member_left s s')
          × Moves principal.user_id id active left s s' row)
        (λ s'. s' ≡ s)
        ⊥
        (leave_profile_tx principal id now s)
unfolding leave_profile_tx
leave_profile-Governs principal id now s v =
    transition-Governs principal id _ _ active left s (leave-KeepsOwners now) (leave-Steps now) v
