-- ===== src/Profiles/Roles.antt =====
-- `nominateOwner` and `changeMemberRole`: what they ensure of the store.
use financial_os.Base.{
  ℕ, ◌+◌, ◌≡◌, refl, sym, ap, ◌∙◌, true, false, Option, none, some, arith, ◌==◌, Bool-cases, inl,
  inr, Uuid,
}
use financial_os.Errors.{ok}
use financial_os.Permissions.{nominate_owner, MemberRole, owner, role_eq, Capability, can}
use financial_os.Profiles.Membership.{
  MembershipStatus, declined, left, active, invited, status_eq, Instant, MembershipState,
  MembershipDelta, accept, decline, leave, change_role,
}
use financial_os.Profiles.Membership
use financial_os.Profiles.SharedProfile.{assert_writable}
use financial_os.Profiles.Invariant.{IsValid, IsSoundOwner, is_owner, row_id, update-IsValid}
use financial_os.Profiles.Service.{change_member_role_tx, nominate_owner_tx, within, checked_member}
use financial_os.Store.{
  Store, MembershipRow, Principal, Tx, member_role_changed, owner_nominated, and_then, read, expect,
  ◌>>=◌, update_with_optimistic_lock,
}
use financial_os.Store.Memberships.{
  to_membership_state, to_shared_profile_state, find_shared_profile, change_role_versioned,
  find_by_id, find_by_profile_and_user, has_id, update_first, apply_to_row,
}
use financial_os.Store.Tables.{find_first-All, find_first-key, find_first-update_first_self}
use financial_os.Store.Post.{Post, delta-Post, lift-Post, require-Post, expect-Post, Recorded}
use financial_os.Profiles.Governance.{KeepsOwners, counts_same}

within_lem :
    (profile : Uuid) (o : Option MembershipRow) {m : MembershipRow}
    → within profile o ≡ ok m
    → o ≡ some m
within_lem profile none h = cc
within_lem profile (some m) h = ground arith

nominate-KeepsOwners : KeepsOwners Membership.nominate_owner
unfolding Membership.nominate_owner
nominate-KeepsOwners r d sound h = ground arith

pub checked_member_lem :
    (o : Option MembershipRow) (c : Capability) {m : MembershipRow}
    → checked_member o c ≡ ok m
    → (o ≡ some m) × (m.status ≡ active) × (can m.role c ≡ true)
checked_member_lem none c h = cc
checked_member_lem (some m) c h = ground arith

-- An active owner of the profile has nominated an active member of it who is no owner, and nothing
-- else has changed in the member's row.
pub record Nominates (user profile nominee : Uuid) (s s' : Store) (row : MembershipRow)
    : Type 0 where
  pub stored : find_by_id row.id s' ≡ some row
  pub actor :
      (a : MembershipRow) × (find_by_profile_and_user profile user s ≡ some a)
      × (a.status ≡ active)
      × (can a.role nominate_owner ≡ true)
  pub member :
      (old : MembershipRow) × (find_by_id nominee s ≡ some old)
      × (old.status ≡ active)
      × (is_owner old ≡ false)
      × (row ≡ record old { pending_owner_nominee = true })

nominate_lem :
    (m : MembershipRow) (d : MembershipDelta)
    → Membership.nominate_owner (to_membership_state m) ≡ ok d
    → (m.status ≡ active)
      × (is_owner m ≡ false)
      × (apply_to_row d m ≡ record m { pending_owner_nominee = true })
unfolding Membership.nominate_owner
nominate_lem m d h = ground arith

-- Nominating the next owner from a store in which every profile has exactly one owner, who is
-- active and no nominee: if it commits, the store still is so and has exactly one event and one audit
-- entry more, of this kind, the caller is an active member who may nominate, and the nominee, an
-- active member who is no owner, is stored as nominated and otherwise unchanged; if it returns an
-- error the store is unchanged; and it never throws.
pub nominate_owner-Governs :
    (principal : Principal) (profile nominee : Uuid) (s : Store)
    → IsValid s
    → Post
        (λ row s'.
          (IsValid s' × Recorded owner_nominated s s')
          × Nominates principal.user_id profile nominee s s' row)
        (λ s'. s' ≡ s)
        ⊥
        (nominate_owner_tx principal profile nominee s)
unfolding nominate_owner_tx
nominate_owner-Governs principal profile nominee s v =
    lift-Post _ _ _ (checked_member (find_by_profile_and_user profile principal.user_id s) _) _ s
      refl
      λ actor allowed. lift-Post _ _ _ (within profile (find_by_id nominee s)) _ s refl λ m inside.
        let found = within_lem profile (find_by_id nominee s) inside in
        lift-Post _ _ _ (Membership.nominate_owner (to_membership_state m)) _ s refl λ d decided.
          let (sound, same) =
            nominate-KeepsOwners m d
              (find_first-All IsSoundOwner (has_id nominee) s.memberships v.sound found) decided in
          let own = find_first-key row_id (has_id nominee) s.memberships v.keys found in
          let again =
            find_first-update_first_self row_id (apply_to_row d) (λ x. refl) m.id s.memberships
              own in
          let (there, up, may) = checked_member_lem _ _ allowed in
          let (is_active, plain, changed) = nominate_lem m d decided in
          delta-Post _ _ _ m.id d _ s own (
            expect-Post _ _ _ _ _ again (
              (
                update-IsValid (apply_to_row d) (λ x. refl) m.id s v own sound
                    (counts_same m (apply_to_row d m) refl same),
                record { events = (_, refl, refl); entries = (_, refl, refl) },
              ),
              record {
                stored = again;
                actor = (actor, there, up, may);
                member = (m, found, is_active, plain, changed);
              },
            ))

-- A role under the optimistic lock: the row keeps its place, its version goes up.
abbrev with_role : MemberRole → MembershipRow → MembershipRow
with_role role m = record m { role = role; version = m.version + 1 }

module _ {B : Type 0} (Q : B → Store → Type 0) (E : Store → Type 0) where
  versioned-Post :
      (id : Uuid) (role : MemberRole) (expected : ℕ) (f : MembershipRow → Tx B) (s : Store)
      {r : MembershipRow}
      → find_by_id id s ≡ some r
      → E s
      → (r.version ≡ expected
          → Post Q E ⊥ (
              f (with_role role r) (record s {
                memberships = update_first (has_id id) (with_role role) s.memberships;
              })))
      → Post Q E ⊥ (
          and_then
            (update_with_optimistic_lock
              (change_role_versioned id role expected)
              (read (find_by_id id) >>= expect)
              s)
            f)
  versioned-Post id role expected f s {r} found e k = elim (Bool-cases (r.version == expected)) [
    | inl current ↦
        let again =
          find_first-update_first_self row_id (with_role role) (λ x. refl) id s.memberships found in
        rw (found, change_role_versioned, current) (rw again (k (ground arith)))
    | inr stale ↦ rw (found, change_role_versioned, stale) e
  ]

change_role_lem :
    (r : MembershipRow) (role : MemberRole) (d : MembershipDelta)
    → change_role (to_membership_state r) role ≡ ok d
    → (is_owner r ≡ false) × (role_eq role owner ≡ false)
unfolding change_role
change_role_lem r role d h = ground arith

-- What a committed role change returns: the row of the new role, one version on from the expected.
pub record ChangesRole (id : Uuid) (role : MemberRole) (expected : ℕ) (s s' : Store)
    (row : MembershipRow) : Type 0 where
  pub stored : find_by_id id s' ≡ some row
  pub new_role : row.role ≡ role
  pub bumped : row.version ≡ expected + 1
  pub was_current : (old : MembershipRow) × (find_by_id id s ≡ some old) × (old.version ≡ expected)

-- Changing a role from a store in which every profile has exactly one owner, who is
-- active and no nominee: if it commits, the store still is so and has exactly one event and one audit
-- entry more, of this kind; if it returns an error the store is unchanged, and
-- it never throws. On success the row had the expected version, and the returned row is the stored
-- one with the new role and the next version.
pub change_member_role-Governs :
    (principal : Principal) (id : Uuid) (role : MemberRole) (expected : ℕ) (s : Store)
    → IsValid s
    → Post
        (λ row s'.
          (IsValid s' × Recorded member_role_changed s s') × ChangesRole id role expected s s' row)
        (λ s'. s' ≡ s)
        ⊥
        (change_member_role_tx principal id role expected s)
unfolding change_member_role_tx
change_member_role-Governs principal id role expected s v =
    require-Post _ _ _ (find_by_id id s) _ _ s refl λ target found.
      lift-Post _ _ _
        (checked_member (find_by_profile_and_user target.shared_profile_id principal.user_id s) _) _
        s refl
        λ actor _.
          require-Post _ _ _ (find_shared_profile target.shared_profile_id s) _ _ s refl
            λ profile _.
              lift-Post _ _ _ (assert_writable (to_shared_profile_state profile)) _ s refl λ _ _.
                lift-Post _ _ _ (change_role (to_membership_state target) role) _ s refl
                  λ d decided. versioned-Post _ _ id role expected _ s found refl λ current.
                    let (was, new) = change_role_lem target role d decided in
                    let again =
                      find_first-update_first_self row_id (with_role role) (λ x. refl) id
                        s.memberships found in
                    (
                      (
                        update-IsValid (with_role role) (λ x. refl) id s v found (λ h. absurd (cc))
                            (counts_same target (with_role role target) refl (new ∙ sym was)),
                        record { events = (_, refl, refl); entries = (_, refl, refl) },
                      ),
                      record {
                        stored = again;
                        new_role = refl;
                        bumped = ap (λ n. n + 1) current;
                        was_current = (target, found, current);
                      },
                    )
