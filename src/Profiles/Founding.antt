-- ===== src/Profiles/Founding.antt =====
-- `createSharedProfile`: what it ensures of the store.
use financial_os.Base.{
  ◌≡◌, refl, sym, subst, ◌∙◌, true, none, some, List, [], ◌∷◌, ◌++◌, arith, ◌==◌, All-append,
  All-map_into, All-zip, Uuid, IsAbsent,
}
use financial_os.Money.Currency.{CurrencyCode}
use financial_os.Profiles.Membership.{Instant}
use financial_os.Profiles.Invariant.{
  IsValid, IsGoverned, IsSoundOwner, is_owner, counts, owner_count, row_id,
}
use financial_os.Profiles.Ownership.{profiles_single}
use financial_os.Profiles.Service.{create_shared_profile_tx, founded_profile, founding_owner}
use financial_os.Store.{
  PeriodLength, Store, MembershipRow, ProfileRow, Principal, shared_profile_created,
}
use financial_os.Store.Memberships.{
  find_shared_profile, find_by_id, find_by_profile_and_user, is_of, has_id,
}
use financial_os.Store.Inserted.{find_first-absent, find_first-append_new, append-IsDistinct}
use financial_os.Store.Tables.{find_first-update_first_self}
use financial_os.Store.Post.{Post, profile-Post, Recorded}
use financial_os.Profiles.Lifecycle.{owner_count-insert, created-Post}

-- Where no row of a profile exists, nobody owns it.
no_owner_yet :
    (profile : Uuid) (ms : List MembershipRow)
    → IsAbsent (λ m. m.shared_profile_id) profile ms
    → owner_count profile ms ≡ 0
no_owner_yet profile [] h = refl
no_owner_yet profile (m ∷ ms) (ne, h) = ground (arith, no_owner_yet profile ms h)

-- What the creation of a profile leaves behind.
pub record IsFounded (principal : Principal) (owner_id : Uuid) (s' : Store) (p : ProfileRow)
    : Type 0 where
  pub stored : find_shared_profile p.id s' ≡ some p
  pub owned : p.owner_membership_id ≡ some owner_id
  pub founder :
      (m : MembershipRow) × (find_by_id owner_id s' ≡ some m)
      × (m.user_id ≡ principal.user_id)
      × (m.shared_profile_id ≡ p.id)
      × (is_owner m ≡ true)

-- A profile and its founding owner are inserted under new identifiers.
found-IsGoverned :
    (ps : List ProfileRow) (ms : List MembershipRow) (m : MembershipRow)
    → IsGoverned ps ms
    → IsAbsent row_id m.id ms
    → IsAbsent (λ m. m.shared_profile_id) m.shared_profile_id ms
    → IsAbsent (λ (p : ProfileRow). p.id) m.shared_profile_id ps
    → IsSoundOwner m
    → is_owner m ≡ true
    → (p : ProfileRow) → p.id ≡ m.shared_profile_id
    → IsGoverned (ps ++ (p ∷ [])) (ms ++ (m ∷ []))
found-IsGoverned ps ms m v fresh no_rows new sound owns p same = record {
  keys = append-IsDistinct row_id ms m v.keys fresh;
  sound = All-append IsSoundOwner ms (m ∷ []) v.sound (sound, tt);
  single =
      All-append _ ps (p ∷ [])
        (All-zip _ _ _
          (λ (q : ProfileRow) ne one.
            let other : counts q.id m ≡ 0 = ground arith in
            omega (arith, owner_count-insert q.id ms m, one, other))
          ps new v.single)
        (
          (let mine : counts p.id m ≡ 1 = ground arith in
              let none_yet : owner_count p.id ms ≡ 0 =
                no_owner_yet p.id ms
                  (subst (λ i. IsAbsent (λ m. m.shared_profile_id) i ms) (sym same) no_rows) in
              omega (arith, owner_count-insert p.id ms m, mine, none_yet)),
          tt,
        );
}

-- Creating a profile under fresh identifiers, from a store in which every profile has exactly one
-- owner, who is active and no nominee, never returns an error, and throws only if the caller is no user
-- of the tenant; it commits otherwise: the store still is so, the caller owns the new
-- profile, both rows are stored, and there is exactly one event and one audit entry more, of this
-- kind.
pub create_shared_profile-Governs :
    (principal : Principal) (base : CurrencyCode) (period : PeriodLength) (now : Instant)
    (profile_id owner_id : Uuid) (s : Store)
    → IsValid s
    → IsAbsent (λ (p : ProfileRow). p.id) profile_id s.profiles
    → IsAbsent (λ m. m.shared_profile_id) profile_id s.memberships
    → IsAbsent row_id owner_id s.memberships
    → Post
        (λ p s'.
          (IsValid s' × Recorded shared_profile_created s s') × IsFounded principal owner_id s' p)
        (λ _. ⊥)
        (IsAbsent (λ u. u) principal.user_id s.users)
        (create_shared_profile_tx principal base period now profile_id owner_id s)
unfolding create_shared_profile_tx
create_shared_profile-Governs principal base period now profile_id owner_id s v new no_rows fresh =
    let nobody : find_by_profile_and_user profile_id principal.user_id s ≡ none =
      find_first-absent (is_of profile_id principal.user_id) s.memberships
        (All-map_into _ _ (λ (m : MembershipRow) ne. ground arith) s.memberships no_rows) in
    let unknown_id : find_by_id owner_id s ≡ none =
      find_first-absent (has_id owner_id) s.memberships
        (All-map_into _ _ (λ (m : MembershipRow) ne. ground arith) s.memberships fresh) in
    let no_profile : find_shared_profile profile_id s ≡ none =
      find_first-absent (λ (p : ProfileRow). p.id == profile_id) s.profiles
        (All-map_into _ _ (λ (p : ProfileRow) ne. ground arith) s.profiles new) in
    let p = founded_profile base period profile_id in
    let m = founding_owner principal now profile_id owner_id in
    let stored =
      find_first-append_new (λ (p : ProfileRow). p.id == profile_id) s.profiles p no_profile
        (ground arith) in
    let founded =
      found-IsGoverned s.profiles s.memberships m v fresh no_rows new (λ _. (refl, refl)) refl p
        refl in
    created-Post _ _ _ m _ (record s { profiles = s.profiles ++ (p ∷ []) }) stored
      (λ stranger. stranger)
      (λ m there. let clash : none ≡ some m = sym nobody ∙ there in absurd (cc))
      λ _.
        profile-Post _ _ _ profile_id _ _ _
          (λ missing. let clash : none ≡ some p = sym missing ∙ stored in absurd (cc))
          λ q exists. (
            (
              record {
                keys = founded.keys;
                sound = founded.sound;
                single = profiles_single _ _ _ (s.profiles ++ (p ∷ [])) (λ p. refl) founded.single;
              },
              record { events = (_, refl, refl); entries = (_, refl, refl) },
            ),
            record {
              stored =
                  find_first-update_first_self (λ (p : ProfileRow). p.id) _ (λ p. refl) profile_id
                    (s.profiles ++ (p ∷ [])) stored;
              owned = refl;
              founder = (
                m,
                find_first-append_new (has_id owner_id) s.memberships m unknown_id (ground arith),
                refl,
                refl,
                refl,
              );
            },
          )
