-- ===== src/Profiles/Invariant.antt =====
-- The invariant of the governance tables: identifiers are keys, an OWNER row is active and not
-- nominated, and every profile has exactly one owner.
use financial_os.Base.{
  ℕ, ◌≡◌, Bool, true, false, ◌&&◌, some, List, arith, if◌then◌else◌, ◌==◌, sum_by, All,
  All-map_into, IsDistinct, Uuid,
}
use financial_os.Permissions.{owner, role_eq}
use financial_os.Profiles.Membership.{active, status_eq}
use financial_os.Store.{Store, MembershipRow, ProfileRow}
use financial_os.Store.Memberships.{find_first, has_id, update_first}
use financial_os.Store.Tables.{sum_by-update_first, All-update_first, update_first-IsDistinct}

abbrev pub row_id : MembershipRow → Uuid
row_id m = m.id

abbrev pub is_owner : MembershipRow → Bool
is_owner m = role_eq m.role owner

-- An owner is an active member and no nominee.
abbrev pub IsSoundOwner : MembershipRow → Type 0
IsSoundOwner m =
    is_owner m ≡ true → (status_eq m.status active ≡ true) × (m.pending_owner_nominee ≡ false)

abbrev pub counts : Uuid → MembershipRow → ℕ
counts profile m = if m.shared_profile_id == profile && is_owner m then 1 else 0

-- The number of a profile's active owners: every OWNER row is active.
abbrev pub owner_count : Uuid → List MembershipRow → ℕ
owner_count profile = sum_by (counts profile)

pub record IsGoverned (profiles : List ProfileRow) (memberships : List MembershipRow) : Type 0 where
  pub keys : IsDistinct row_id memberships
  pub sound : All IsSoundOwner memberships
  pub single : All (λ (p : ProfileRow). owner_count p.id memberships ≡ 1) profiles

abbrev pub IsValid : Store → Type 0
IsValid s = IsGoverned s.profiles s.memberships

-- A change of one row that keeps its identifier, and its profile and role as far as owners go,
-- keeps the invariant.
module _ (f : MembershipRow → MembershipRow)
    (keeps : (m : MembershipRow) → row_id (f m) ≡ row_id m) where
  pub update-IsValid :
      (id : Uuid) (s : Store) {r : MembershipRow}
      → IsValid s
      → find_first (has_id id) s.memberships ≡ some r
      → IsSoundOwner (f r)
      → ((p : Uuid) → counts p (f r) ≡ counts p r)
      → IsValid (record s { memberships = update_first (has_id id) f s.memberships })
  update-IsValid id s v found sound same = record {
    keys = update_first-IsDistinct row_id f keeps (has_id id) s.memberships v.keys;
    sound = All-update_first IsSoundOwner (has_id id) f s.memberships v.sound found sound;
    single =
        All-map_into _ _
          (λ (p : ProfileRow) one. omega (
            arith,
            sum_by-update_first (counts p.id) (has_id id) f s.memberships found,
            same p.id,
            one,
          ))
          s.profiles v.single;
  }
