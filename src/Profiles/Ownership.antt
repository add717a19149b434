-- ===== src/Profiles/Ownership.antt =====
-- `acceptOwnership`: what it ensures of the store.
use financial_os.Base.{
  ℕ, ◌≡◌, ◌≢◌, refl, sym, ap, ◌∙◌, Bool, true, false, ◌&&◌, none, some, List, [], ◌∷◌, arith,
  if◌then◌else◌, ◌==◌, All, All-map_into, Bool-cases, inl, inr, Uuid,
}
use financial_os.Errors.{ok}
use financial_os.Profiles.Membership.{active, status_eq, OwnershipTransferDeltas, accept_ownership}
use financial_os.Profiles.Invariant.{
  IsValid, IsGoverned, IsSoundOwner, is_owner, counts, owner_count, row_id,
}
use financial_os.Profiles.Service.{accept_ownership_tx, is_current_owner}
use financial_os.Store.{Store, MembershipRow, ProfileRow, Principal, ownership_transferred}
use financial_os.Store.Memberships.{
  find_by_id, to_membership_state, find_shared_profile, find_first, find_by_profile_and_user,
  has_id, is_of, in_profile, list_by_profile, update_first, apply_to_row,
}
use financial_os.Store.Tables.{
  find_first-All, find_first-key, find_first-test, find_first-filter, find_first-update_first,
  find_first-update_first_self, sum_by-update_first, All-update_first, update_first-IsDistinct,
}
use financial_os.Store.Post.{
  Post, delta-Post, profile-Post, lift-Post, require-Post, expect-Post, Recorded,
}

contradiction : {b : Bool} → b ≡ true → b ≡ false → ⊥
contradiction h k = cc

-- The decision to transfer, and the two rows that it changes.
transfer_lem :
    (n c : MembershipRow) {d : OwnershipTransferDeltas}
    → accept_ownership (to_membership_state n) (to_membership_state c) ≡ ok d
    → (n.pending_owner_nominee ≡ true)
      × (status_eq n.status active ≡ true)
      × (is_owner c ≡ true)
      × (is_owner (apply_to_row d.nominee n) ≡ true)
      × ((apply_to_row d.nominee n).pending_owner_nominee ≡ false)
      × ((apply_to_row d.nominee n).status ≡ n.status)
      × (is_owner (apply_to_row d.outgoing_owner c) ≡ false)
unfolding accept_ownership
transfer_lem n c h = ground arith

-- The owner who is found in a profile is a row of that profile.
current_owner_lem :
    (profile : Uuid) (s : Store) {c : MembershipRow}
    → IsValid s
    → find_first is_current_owner (list_by_profile profile s) ≡ some c
    → (find_first (has_id c.id) s.memberships ≡ some c)
      × (c.shared_profile_id ≡ profile)
      × (is_owner c ≡ true)
current_owner_lem profile s {c} v found =
    let both =
      sym (find_first-filter is_current_owner (in_profile profile) s.memberships) ∙ found in
    let test =
      find_first-test (λ m. in_profile profile m && is_current_owner m) s.memberships both in
    (find_first-key row_id _ s.memberships v.keys both, ground arith, ground arith)

abbrev of_profile : Uuid → Uuid → ℕ
of_profile p q = if q == p then 1 else 0

counts_owner :
    (p : Uuid) (m : MembershipRow)
    → is_owner m ≡ true
    → counts p m ≡ of_profile p m.shared_profile_id
counts_owner p m h = ground arith

counts_other : (p : Uuid) (m : MembershipRow) → is_owner m ≡ false → counts p m ≡ 0
counts_other p m h = ground arith

-- The identifiers of profiles, which an update of a row's other fields keeps.
pub profiles_single :
    (ms : List MembershipRow) (test : ProfileRow → Bool) (f : ProfileRow → ProfileRow)
    (ps : List ProfileRow)
    → ((p : ProfileRow) → (f p).id ≡ p.id)
    → All (λ (p : ProfileRow). owner_count p.id ms ≡ 1) ps
    → All (λ (p : ProfileRow). owner_count p.id ms ≡ 1) (update_first test f ps)
profiles_single ms test f [] keeps h = tt
profiles_single ms test f (p ∷ ps) keeps (h, hs) = elim (Bool-cases (test p)) [
  | inl hit ↦ rw hit (rw (keeps p) h, hs)
  | inr miss ↦ rw miss (h, profiles_single ms test f ps keeps hs)
]

-- Both changes together move the one owner of the profile and keep everything else.
module _ (s : Store) (v : IsValid s) (n c : MembershipRow) {d : OwnershipTransferDeltas}
    (found_n : find_first (has_id n.id) s.memberships ≡ some n)
    (found_c : find_first (has_id c.id) s.memberships ≡ some c)
    (same_profile : n.shared_profile_id ≡ c.shared_profile_id)
    (decided : accept_ownership (to_membership_state n) (to_membership_state c) ≡ ok d) where
  abbrev promoted : List MembershipRow
  promoted = update_first (has_id n.id) (apply_to_row d.nominee) s.memberships

  abbrev transferred : List MembershipRow
  transferred = update_first (has_id c.id) (apply_to_row d.outgoing_owner) promoted

  nominee_is_no_owner : is_owner n ≡ false
  nominee_is_no_owner = elim (Bool-cases (is_owner n)) [
    | inl already ↦
        let sound =
          find_first-All IsSoundOwner (has_id n.id) s.memberships v.sound found_n already in
        let pending = (transfer_lem n c decided).0 in absurd (contradiction pending sound.1)
    | inr not_yet ↦ not_yet
  ]

  apart : c.id ≢ n.id
  apart e =
      let same : some n ≡ some c = sym found_n ∙ rw (← e) found_c in
      let rows : n ≡ c = cc in
      contradiction (rw rows (transfer_lem n c decided).2) nominee_is_no_owner

  still_there : find_first (has_id c.id) promoted ≡ some c
  still_there =
      find_first-update_first row_id (apply_to_row d.nominee) (λ x. refl) n.id c.id s.memberships
        apart
      ∙ found_c

  successor_there :
      (find_first (has_id n.id) transferred ≡ some (apply_to_row d.nominee n))
      × (is_owner (apply_to_row d.nominee n) ≡ true)
      × (n.pending_owner_nominee ≡ true)
  successor_there =
      let (nominated, _, _, new, _, _, _) = transfer_lem n c decided in
      (
        find_first-update_first row_id (apply_to_row d.outgoing_owner) (λ x. refl) c.id n.id
              promoted (λ e. apart (sym e))
            ∙ find_first-update_first_self row_id (apply_to_row d.nominee) (λ x. refl) n.id
                s.memberships found_n,
        new,
        nominated,
      )

  owner_count_same : (p : Uuid) → owner_count p transferred ≡ owner_count p s.memberships
  owner_count_same p =
      let (_, _, was, new, _, _, out) = transfer_lem n c decided in
      let first =
        sum_by-update_first (counts p) (has_id n.id) (apply_to_row d.nominee) s.memberships
          found_n in
      let second =
        sum_by-update_first (counts p) (has_id c.id) (apply_to_row d.outgoing_owner) promoted
          still_there in
      omega (
        arith,
        first,
        second,
        counts_other p n nominee_is_no_owner,
        counts_owner p (apply_to_row d.nominee n) new,
        counts_owner p c was,
        counts_other p (apply_to_row d.outgoing_owner c) out,
        ap (of_profile p) same_profile,
      )

  transferred-IsSound : All IsSoundOwner transferred
  transferred-IsSound =
      let (_, up, was, new, cleared, kept, out) = transfer_lem n c decided in
      let first =
        All-update_first IsSoundOwner (has_id n.id) (apply_to_row d.nominee) s.memberships v.sound
          found_n (λ _. (ap (λ st. status_eq st active) kept ∙ up, cleared)) in
      All-update_first IsSoundOwner (has_id c.id) (apply_to_row d.outgoing_owner) promoted first
        still_there (λ h. absurd (contradiction h out))

  pub transfer-IsValid :
      (profile : Uuid)
      → IsGoverned
          (update_first
            (λ (p : ProfileRow). p.id == profile)
            (λ p. record p { owner_membership_id = some n.id })
            s.profiles)
          transferred
  transfer-IsValid profile = record {
    keys =
        update_first-IsDistinct row_id (apply_to_row d.outgoing_owner) (λ x. refl) (has_id c.id)
          promoted
          (update_first-IsDistinct row_id (apply_to_row d.nominee) (λ x. refl) (has_id n.id)
            s.memberships v.keys);
    sound = transferred-IsSound;
    single =
        profiles_single transferred _ _ s.profiles (λ p. refl)
          (All-map_into _ _ (λ (p : ProfileRow) one. owner_count_same p.id ∙ one) s.profiles
            v.single);
  }

found_in_profile :
    (profile user : Uuid) (s : Store) {n : MembershipRow}
    → find_by_profile_and_user profile user s ≡ some n
    → n.shared_profile_id ≡ profile
found_in_profile profile user s found =
    let test = find_first-test (is_of profile user) s.memberships found in ground arith

-- The caller's nominated row is stored as OWNER, and the profile's row names it.
pub record HandsOver (user profile : Uuid) (s s' : Store) (p : ProfileRow) : Type 0 where
  pub stored : find_shared_profile profile s' ≡ some p
  pub successor :
      (n : MembershipRow) × (new : MembershipRow) × (find_by_profile_and_user profile user s
        ≡ some n)
      × (n.pending_owner_nominee ≡ true)
      × (p.owner_membership_id ≡ some n.id)
      × (find_by_id n.id s' ≡ some new)
      × (is_owner new ≡ true)

-- Accepting ownership, from a store in which every profile has exactly one owner, who is active and
-- no nominee: if it commits, the store still is so and has exactly one event and one audit entry
-- more, of this kind, and the caller, who was nominated, is stored as the owner and named by the
-- returned and stored profile; if it returns an error the store is unchanged; and it throws only if the
-- profile's own row is missing.
pub accept_ownership-Governs :
    (principal : Principal) (profile : Uuid) (s : Store)
    → IsValid s
    → Post
        (λ p s'.
          (IsValid s' × Recorded ownership_transferred s s')
          × HandsOver principal.user_id profile s s' p)
        (λ s'. s' ≡ s)
        (find_shared_profile profile s ≡ none)
        (accept_ownership_tx principal profile s)
unfolding accept_ownership_tx
accept_ownership-Governs principal profile s v =
    require-Post _ _ _ (find_by_profile_and_user profile principal.user_id s) _ _ s refl λ n found.
      require-Post _ _ _ (find_first is_current_owner (list_by_profile profile s)) _ _ s refl
        λ c current.
          lift-Post _ _ _ (accept_ownership (to_membership_state n) (to_membership_state c)) _ s
            refl
            λ d decided.
              let own =
                find_first-key row_id (is_of profile principal.user_id) s.memberships v.keys
                  found in
              let (found_c, in_c, _) = current_owner_lem profile s v current in
              let same = found_in_profile profile principal.user_id s found ∙ sym in_c in
              let (there, new, nominated) = successor_there s v n c own found_c same decided in
              let later = still_there s v n c own found_c same decided in
              delta-Post _ _ _ n.id d.nominee _ s own (
                delta-Post _ _ _ c.id d.outgoing_owner _ _ later (
                  profile-Post _ _ _ profile _ _ _ (λ missing. missing)
                    λ p exists.
                      expect-Post _ _ _ _ _
                        (find_first-update_first_self (λ (p : ProfileRow). p.id) _ (λ p. refl)
                          profile s.profiles exists)
                        (
                          (
                            transfer-IsValid s v n c own found_c same decided profile,
                            record { events = (_, refl, refl); entries = (_, refl, refl) },
                          ),
                          record {
                            stored =
                                find_first-update_first_self (λ (p : ProfileRow). p.id) _
                                  (λ p. refl) profile s.profiles exists;
                            successor =
                                (n, apply_to_row d.nominee n, found, nominated, refl, there, new);
                          },
                        )))
