-- ===== src/Profiles/Lifecycle.antt =====
-- `inviteMember` and `archiveProfile`: what they ensure of the store.
use financial_os.Base.{
  ◌==◌, any, ◌⊎◌, Bool-cases, ◌+◌, ◌≡◌, refl, sym, ap, ◌∙◌, true, false, Option, none, some, List,
  [], ◌∷◌, ◌++◌, map, arith, if◌then◌else◌, All-append, All-map_into, sum_by-append, Option-cases,
  inl, inr, Uuid, IsAbsent,
}
use financial_os.Errors.{ok, fail, invariant}
use financial_os.Permissions.{MemberRole, owner, role_eq}
use financial_os.Profiles.Membership.{is_terminal, Instant, invited}
use financial_os.Profiles.SharedProfile.{archive, assert_writable, ArchiveDelta, archived_profile}
use financial_os.Profiles.Invariant.{IsValid, IsSoundOwner, is_owner, counts, owner_count, row_id}
use financial_os.Profiles.Ownership.{profiles_single}
use financial_os.Profiles.Service.{
  invite_member_tx, archive_profile_tx, checked_member, blocks_invitation,
}
use financial_os.Store.{
  Store, MembershipRow, ProfileRow, Principal, Tx, and_then, member_invited, profile_archived,
}
use financial_os.Store.Memberships.{
  to_membership_state, to_shared_profile_state, find_shared_profile, find_by_id,
  find_by_profile_and_user, has_id, list_by_profile, create_membership, is_user,
}
use financial_os.Store.Inserted.{find_first-absent, find_first-append_new, append-IsDistinct}
use financial_os.Store.Tables.{find_first-update_first_self}
use financial_os.Store.Post.{Post, profile-Post, lift-Post, require-Post, expect-Post, Recorded}

-- A profile's count of owners when a row is inserted.
pub owner_count-insert :
    (profile : Uuid) (ms : List MembershipRow) (m : MembershipRow)
    → owner_count profile (ms ++ (m ∷ [])) ≡ owner_count profile ms + counts profile m
owner_count-insert profile ms m = omega (arith, sum_by-append (counts profile) ms (m ∷ []))

-- What an archival leaves behind.
pub record IsArchived (profile : Uuid) (now : Instant) (s' : Store) (p : ProfileRow) : Type 0 where
  pub stored : find_shared_profile profile s' ≡ some p
  pub closed : p.status ≡ archived_profile
  pub at_now : p.archived_at ≡ some now

archive_lem :
    (s : Store) (profile : Uuid) (now : Instant) (p : ProfileRow) (m : MembershipRow)
    {d : ArchiveDelta}
    → archive
        (to_shared_profile_state p)
        (to_membership_state m)
        (map to_membership_state (list_by_profile profile s))
        now
      ≡ ok d
    → d.archived_at ≡ now
unfolding archive
archive_lem s profile now p m h = ground arith

-- Archiving from a store in which every profile has exactly one owner, who is active and no nominee:
-- if it commits, the store still is so and has exactly one event and one audit entry more, of this
-- kind, and the returned row is the stored one, archived now; if it returns an error the store is
-- unchanged; and it never throws.
pub archive_profile-Governs :
    (principal : Principal) (profile : Uuid) (now : Instant) (s : Store)
    → IsValid s
    → Post
        (λ p s'. (IsValid s' × Recorded profile_archived s s') × IsArchived profile now s' p)
        (λ s'. s' ≡ s)
        ⊥
        (archive_profile_tx principal profile now s)
unfolding archive_profile_tx
archive_profile-Governs principal profile now s v =
    lift-Post _ _ _ (checked_member (find_by_profile_and_user profile principal.user_id s) _) _ s
      refl
      λ actor _. require-Post _ _ _ (find_shared_profile profile s) _ _ s refl λ p found.
        lift-Post _ _ _
          (archive (to_shared_profile_state p) (to_membership_state actor)
            (map to_membership_state (list_by_profile profile s)) now)
          _ s refl
          λ d decided.
            profile-Post _ _ _ profile _ _ s (λ missing. let clash = sym missing ∙ found in cc)
              λ q exists.
                expect-Post _ _ _ _ _
                  (find_first-update_first_self (λ (p : ProfileRow). p.id) _ (λ p. refl) profile
                    s.profiles exists)
                  (
                    (
                      record {
                        keys = v.keys;
                        sound = v.sound;
                        single = profiles_single s.memberships _ _ s.profiles (λ p. refl) v.single;
                      },
                      record { events = (_, refl, refl); entries = (_, refl, refl) },
                    ),
                    record {
                      stored =
                          find_first-update_first_self (λ (p : ProfileRow). p.id) _ (λ p. refl)
                            profile s.profiles exists;
                      closed = refl;
                      at_now = ap some (archive_lem s profile now p actor decided);
                    },
                  )

no_user_lem :
    (user : Uuid) (users : List Uuid)
    → any (λ u. u == user) users ≡ false
    → IsAbsent (λ u. u) user users
no_user_lem user [] h = tt
no_user_lem user (u ∷ us) h = (ground arith, no_user_lem user us (ground arith))

-- A membership row that is inserted, or whose profile and user have one already.
module _ {B : Type 0} (Q : B → Store → Type 0) (E : Store → Type 0) (R : Type 0) where
  pub created-Post :
      (row : MembershipRow) (f : Unit {0} → Tx B) (s : Store)
      → {p : ProfileRow} → find_shared_profile row.shared_profile_id s ≡ some p
      → (IsAbsent (λ u. u) row.user_id s.users → R)
      → ((m : MembershipRow)
          → find_by_profile_and_user row.shared_profile_id row.user_id s ≡ some m
          → R)
      → (find_by_profile_and_user row.shared_profile_id row.user_id s ≡ none
          → Post Q E R (f tt (record s { memberships = s.memberships ++ (row ∷ []) })))
      → Post Q E R (and_then (create_membership row s) f)
  created-Post row f s there unknown taken k = elim (Bool-cases (is_user row.user_id s)) [
    | inl known ↦
        elim (Option-cases (find_by_profile_and_user row.shared_profile_id row.user_id s)) [
          | inl free ↦ rw (known, there, free, create_membership) (k free)
          | inr (m, is) ↦ rw (known, there, is, create_membership) (taken m is)
        ]
    | inr stranger ↦
        rw (stranger, create_membership) (unknown (no_user_lem row.user_id s.users stranger))
  ]

unblocked_lem :
    (o : Option MembershipRow) {m : MembershipRow}
    → (if blocks_invitation o then fail {A = Unit {0}} invariant else ok tt) ≡ ok tt
    → o ≡ some m
    → is_terminal m.status ≡ true
unblocked_lem none h e = cc
unblocked_lem (some x) h e = ground arith

not_owner_lem :
    (role : MemberRole)
    → (if role_eq role owner then fail {A = Unit {0}} invariant else ok tt) ≡ ok tt
    → role_eq role owner ≡ false
not_owner_lem role h = ground arith

-- A row that is no owner's is inserted under a new identifier.
insert-IsValid :
    (s : Store) (m : MembershipRow)
    → IsValid s
    → IsAbsent row_id m.id s.memberships
    → is_owner m ≡ false
    → IsValid (record s { memberships = s.memberships ++ (m ∷ []) })
insert-IsValid s m v fresh plain = record {
  keys = append-IsDistinct row_id s.memberships m v.keys fresh;
  sound =
      All-append IsSoundOwner s.memberships (m ∷ []) v.sound
        ((λ h. let clash = sym h ∙ plain in cc), tt);
  single =
      All-map_into _ _
        (λ (p : ProfileRow) one.
          let none_more : counts p.id m ≡ 0 = ground arith in
          omega (arith, owner_count-insert p.id s.memberships m, one, none_more))
        s.profiles v.single;
}

-- What an invitation leaves behind.
pub record IsInvited (profile user : Uuid) (role : MemberRole) (fresh : Uuid) (s s' : Store)
    (m : MembershipRow) : Type 0 where
  pub stored : find_by_id fresh s' ≡ some m
  pub of_user : (m.shared_profile_id ≡ profile) × (m.user_id ≡ user)
  pub pending : m.status ≡ invited
  pub new_role : m.role ≡ role
  pub no_owner : is_owner m ≡ false

abbrev MissingId : Uuid → MembershipRow → Type 0
MissingId id m = has_id id m ≡ false

-- Inviting under a fresh identifier, from a store in which every profile has exactly one owner, who
-- is active and no nominee: if it commits, the store still is so and has exactly one event and one
-- audit entry more, of this kind, and the new row is stored, INVITED, of the profile and the user and with
-- the role asked for, which is not OWNER; if it returns an error the store is unchanged; and it throws only if there is no such
-- user, or the user has had a membership of this profile that is over.
pub invite_member-Governs :
    (principal : Principal) (profile user : Uuid) (role : MemberRole) (now : Instant) (fresh : Uuid)
    (s : Store)
    → IsValid s
    → IsAbsent row_id fresh s.memberships
    → Post
        (λ m s'.
          (IsValid s' × Recorded member_invited s s') × IsInvited profile user role fresh s s' m)
        (λ s'. s' ≡ s)
        ((IsAbsent (λ u. u) user s.users)
          ⊎ ((m : MembershipRow) × (find_by_profile_and_user profile user s ≡ some m)
              × (is_terminal m.status ≡ true)))
        (invite_member_tx principal profile user role now fresh s)
unfolding invite_member_tx
invite_member-Governs principal profile user role now fresh s v absent =
    lift-Post _ _ _ (checked_member (find_by_profile_and_user profile principal.user_id s) _) _ s
      refl
      λ actor _. require-Post _ _ _ (find_shared_profile profile s) _ _ s refl λ p here.
        lift-Post _ _ _ (assert_writable (to_shared_profile_state p)) _ s refl λ _ _.
          lift-Post _ _ _ (if role_eq role owner then fail invariant else ok tt) _ s refl λ _ plain.
            lift-Post _ _ _
              (if blocks_invitation (find_by_profile_and_user profile user s)
                then fail invariant
                else ok tt)
              _ s refl
              λ _ unblocked.
                created-Post _ _ _ _ _ s here inl
                  (λ m there. inr (m, there, unblocked_lem _ unblocked there))
                  λ free.
                    let new : role_eq role owner ≡ false = not_owner_lem role plain in
                    let unknown =
                      All-map_into _ (MissingId fresh) (λ m ne. let clash = ne in ground arith)
                        s.memberships absent in
                    let gone = find_first-absent (has_id fresh) s.memberships unknown in
                    (
                      (
                        insert-IsValid s _ v absent new,
                        record { events = (_, refl, refl); entries = (_, refl, refl) },
                      ),
                      record {
                        stored =
                            find_first-append_new (has_id fresh) s.memberships _ gone
                              (ground arith);
                        of_user = (refl, refl);
                        pending = refl;
                        new_role = refl;
                        no_owner = new;
                      },
                    )
