-- ===== src/Store/Memberships.antt =====
-- `membership.repository.ts` and `profile.repository.ts`.
use financial_os.Base.{
  ℕ, ◌+◌, Bool, ◌&&◌, Option, none, some, List, [], ◌∷◌, ◌++◌, if◌then◌else◌, ◌==◌, filter, any,
  Uuid,
}
use financial_os.Errors.{ok, constraint}
use financial_os.Permissions.{MemberRole}
use financial_os.Profiles.Membership.{MembershipState, MembershipDelta, Instant, or_else}
use financial_os.Profiles.SharedProfile.{SharedProfileState, archived_profile}
use financial_os.Store.{Store, MembershipRow, ProfileRow, Tx, done, rolled_back, write}

abbrev pub to_membership_state : MembershipRow → MembershipState
to_membership_state r = record {
  id = r.id;
  role = r.role;
  status = r.status;
  pending_owner_nominee = r.pending_owner_nominee;
  invitation_expires_at = r.invitation_expires_at;
  version = r.version;
}

abbrev pub to_shared_profile_state : ProfileRow → SharedProfileState
to_shared_profile_state r = record {
  id = r.id;
  status = r.status;
  owner_membership_id = r.owner_membership_id;
}

-- `findUnique` and `findFirst`: the first row that passes a test.
abbrev pub find_first {ℓ} : {A : Type ℓ} → (A → Bool) → List A → Option A
find_first test [] = none
find_first test (x ∷ xs) = if test x then some x else find_first test xs

abbrev pub has_id : Uuid → MembershipRow → Bool
has_id id r = r.id == id

abbrev pub is_of : Uuid → Uuid → MembershipRow → Bool
is_of profile user r = r.shared_profile_id == profile && r.user_id == user

abbrev pub find_by_id : Uuid → Store → Option MembershipRow
find_by_id id s = find_first (has_id id) s.memberships

abbrev pub find_by_profile_and_user : Uuid → Uuid → Store → Option MembershipRow
find_by_profile_and_user profile user s = find_first (is_of profile user) s.memberships

abbrev pub in_profile : Uuid → MembershipRow → Bool
in_profile profile r = r.shared_profile_id == profile

abbrev pub list_by_profile : Uuid → Store → List MembershipRow
list_by_profile profile s = filter (in_profile profile) s.memberships

abbrev pub find_shared_profile : Uuid → Store → Option ProfileRow
find_shared_profile id s = find_first (λ (p : ProfileRow). p.id == id) s.profiles

-- The row with a key, changed; the key is unique.
abbrev pub update_first {ℓ} : {A : Type ℓ} → (A → Bool) → (A → A) → List A → List A
update_first test f [] = []
update_first test f (x ∷ xs) = if test x then f x ∷ xs else x ∷ update_first test f xs

abbrev pub write_memberships : (List MembershipRow → List MembershipRow) → Tx (Unit {0})
write_memberships f = write (λ s. record s { memberships = f s.memberships })

abbrev pub write_profiles : (List ProfileRow → List ProfileRow) → Tx (Unit {0})
write_profiles f = write (λ s. record s { profiles = f s.profiles })

abbrev pub apply_to_row : MembershipDelta → MembershipRow → MembershipRow
apply_to_row d r = record r {
  role = or_else d.role r.role;
  status = or_else d.status r.status;
  pending_owner_nominee = or_else d.pending_owner_nominee r.pending_owner_nominee;
  joined_at = keep d.joined_at r.joined_at;
  left_at = keep d.left_at r.left_at;
}
  where
    keep : Option Instant → Option Instant → Option Instant
    keep none old = old
    keep (some t) old = some t

-- `update` of a row that is not there throws.
abbrev pub apply_delta_to : Uuid → MembershipDelta → Tx (Unit {0})
apply_delta_to id d s = elim (find_by_id id s) [
  | none ↦ rolled_back constraint
  | some r ↦ write_memberships (update_first (has_id id) (apply_to_row d)) s
]

-- `prismaVersionedUpdate`: the row is changed and its version raised, if the version is the expected
-- one; the number of affected rows comes back.
abbrev pub change_role_versioned : Uuid → MemberRole → ℕ → Tx ℕ
change_role_versioned id role expected s = elim (find_by_id id s) [
  | none ↦ done (ok 0) s
  | some r ↦
      if r.version == expected
      then done (ok 1) (record s {
        memberships =
            update_first (has_id id) (λ m. record m { role = role; version = m.version + 1 })
              s.memberships;
      })
      else done (ok 0) s
]

-- A row of `User`, the target of a foreign key.
abbrev pub is_user : Uuid → Store → Bool
is_user user s = any (λ u. u == user) s.users

-- `create` wants a user and a profile that exist, by the foreign keys, and keeps the pair of profile and
-- user unique; it throws otherwise.
abbrev pub create_membership : MembershipRow → Tx (Unit {0})
create_membership row s =
    if is_user row.user_id s
    then elim (find_shared_profile row.shared_profile_id s) [
      | none ↦ rolled_back constraint
      | some profile ↦ elim (find_by_profile_and_user row.shared_profile_id row.user_id s) [
        | some taken ↦ rolled_back constraint
        | none ↦ write_memberships (λ ms. ms ++ (row ∷ [])) s
      ]
    ]
    else rolled_back constraint

-- A row of `Membership`, the target of a foreign key.
abbrev pub is_membership : Uuid → Store → Bool
is_membership id s = any (has_id id) s.memberships

abbrev pub create_shared_profile : ProfileRow → Tx (Unit {0})
create_shared_profile row = write_profiles (λ ps. ps ++ (row ∷ []))

-- `update` of a profile that is not there throws.
abbrev pub update_profile : Uuid → (ProfileRow → ProfileRow) → Tx (Unit {0})
update_profile id f s = elim (find_shared_profile id s) [
  | none ↦ rolled_back constraint
  | some p ↦ write_profiles (update_first (λ p. p.id == id) f) s
]

abbrev pub set_owner_membership_id : Uuid → Uuid → Tx (Unit {0})
set_owner_membership_id id owner =
    update_profile id (λ p. record p { owner_membership_id = some owner })

abbrev pub archive_row : Uuid → Instant → Tx (Unit {0})
archive_row id at =
    update_profile id (λ p. record p { status = archived_profile; archived_at = some at })
