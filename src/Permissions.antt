-- ===== src/Permissions.antt =====
-- `modules/permissions/capability-matrix.ts`: which role may do what.
use financial_os.Base.{ℕ, ◌≤◌, ◌≡◌, ◌↔◌, refl, Bool, true, false, List, [], ◌∷◌, arith, leb, any}

-- `MemberRole` of the schema.
pub data MemberRole : Type 0 where
  owner : MemberRole
  admin : MemberRole
  contributor : MemberRole
  viewer : MemberRole

pub data Capability : Type 0 where
  view_profile : Capability
  invite_member : Capability
  change_member_role : Capability
  remove_member : Capability
  nominate_owner : Capability
  transfer_ownership : Capability
  archive_profile : Capability
  set_own_income : Capability
  set_own_allocation : Capability
  record_contribution : Capability
  redistribute_percentages : Capability
  manage_shared_elements : Capability
  set_debt_responsibility : Capability

-- `===` on roles.
abbrev pub role_eq : MemberRole → MemberRole → Bool
role_eq owner owner = true
role_eq admin admin = true
role_eq contributor contributor = true
role_eq viewer viewer = true
role_eq _ _ = false

abbrev pub everyone : List MemberRole
everyone = owner ∷ admin ∷ contributor ∷ viewer ∷ []

abbrev pub governors : List MemberRole
governors = owner ∷ admin ∷ []

abbrev pub contributors : List MemberRole
contributors = owner ∷ admin ∷ contributor ∷ []

-- `MATRIX`
unfoldable pub roles_for : Capability → List MemberRole
roles_for view_profile = everyone
roles_for invite_member = governors
roles_for change_member_role = governors
roles_for remove_member = governors
roles_for nominate_owner = owner ∷ []
roles_for transfer_ownership = owner ∷ []
roles_for archive_profile = owner ∷ []
roles_for set_own_income = contributors
roles_for set_own_allocation = contributors
roles_for record_contribution = contributors
roles_for redistribute_percentages = governors
roles_for manage_shared_elements = governors
roles_for set_debt_responsibility = governors

-- `MATRIX[capability].includes(role)`
unfoldable pub can : MemberRole → Capability → Bool
unfolding roles_for
can role capability = any (λ r. role_eq r role) (roles_for capability)

-- The seniority that the matrix documents: OWNER ⊃ ADMIN ⊃ CONTRIBUTOR ⊃ VIEWER.
abbrev pub seniority : MemberRole → ℕ
seniority owner = 3
seniority admin = 2
seniority contributor = 1
seniority viewer = 0

-- The seniority that a capability asks for.
abbrev pub required : Capability → ℕ
required view_profile = 0
required set_own_income = 1
required set_own_allocation = 1
required record_contribution = 1
required nominate_owner = 3
required transfer_ownership = 3
required archive_profile = 3
required c = 2

can_lem : (role : MemberRole) (c : Capability) → can role c ≡ leb (required c) (seniority role)
unfolding can
can_lem owner view_profile = refl
can_lem owner c = refl
can_lem admin view_profile = refl
can_lem admin c = refl
can_lem contributor view_profile = refl
can_lem contributor c = refl
can_lem viewer view_profile = refl
can_lem viewer c = refl

-- The matrix is the seniority order: a role has a capability exactly when it is senior enough, where
-- viewing asks for any role, acting on one's own contributions for CONTRIBUTOR, owner nomination,
-- transfer and archival for OWNER, and all else for ADMIN.
pub can_iff :
    (role : MemberRole) (c : Capability) → (can role c ≡ true) ↔ (required c ≤ seniority role)
can_iff role c = rw (can_lem role c) (ground arith)
