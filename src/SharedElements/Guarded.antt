-- ===== src/SharedElements/Guarded.antt =====
-- `guard` of the shared elements: who passes it, and that it changes nothing.
use financial_os.Base.{◌≡◌, refl, true, some, Uuid}
use financial_os.Errors.{Result, ok, err}
use financial_os.Permissions.{Capability, can}
use financial_os.Profiles.Membership.{active}
use financial_os.Profiles.SharedProfile.{active_profile}
use financial_os.Profiles.Roles.{checked_member_lem}
use financial_os.Profiles.Service.{checked_member}
use financial_os.Contributions.Service.{open_profile}
use financial_os.Contributions.Recording.{open_profile_lem}
use financial_os.Store.{Store, MembershipRow, ProfileRow, done}
use financial_os.Store.Memberships.{find_shared_profile, find_by_profile_and_user}
use financial_os.Store.Post.{Post, lift-Post}
use financial_os.SharedElements.Service.{guard}

-- The profile is active, and the user an active member of it whose role allows the action.
pub record IsGuarded (profile_id user : Uuid) (capability : Capability) (s : Store)
    (member : MembershipRow) : Type 0 where
  pub profile : ProfileRow
  pub writable : find_shared_profile profile_id s ≡ some profile
  pub is_active : profile.status ≡ active_profile
  pub found : find_by_profile_and_user profile_id user s ≡ some member
  pub active_member : member.status ≡ active
  pub allowed : can member.role capability ≡ true

pub guard-IsGuarded :
    (profile_id user : Uuid) (capability : Capability) (s : Store)
    → Post
        (λ m s'. (s' ≡ s) × IsGuarded profile_id user capability s m)
        (λ s'. s' ≡ s)
        ⊥
        (guard profile_id user capability s)
unfolding guard
guard-IsGuarded profile_id user capability s =
    lift-Post _ _ _ (open_profile (find_shared_profile profile_id s)) _ s refl (λ p is_open.
      passed p (open_profile_lem _ is_open)
        (checked_member (find_by_profile_and_user profile_id user s) capability) refl)
  where
    passed :
        (p : ProfileRow)
        → (find_shared_profile profile_id s ≡ some p) × (p.status ≡ active_profile)
        → (r : Result MembershipRow)
        → checked_member (find_by_profile_and_user profile_id user s) capability ≡ r
        → Post
            (λ m s'. (s' ≡ s) × IsGuarded profile_id user capability s m)
            (λ s'. s' ≡ s)
            ⊥
            (done r s)
    passed p (writable, is_active) (err x) e = refl
    passed p (writable, is_active) (ok m) e =
        let (found, act, may) = checked_member_lem _ _ e in
        (
          refl,
          record {
            profile = p;
            writable = writable;
            is_active = is_active;
            found = found;
            active_member = act;
            allowed = may;
          },
        )
