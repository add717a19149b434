-- ===== src/SharedElements/PersonalProfile.antt =====
-- `findOrCreatePersonalProfile`: the store after it.
use financial_os.Base.{
  ◌≡◌, ◌⊎◌, inl, inr, refl, ap, ◌∙◌, none, some, Option-cases, [], ◌∷◌, ◌++◌, Uuid,
}
use financial_os.Store.{Store, PersonalProfileRow}
use financial_os.Store.Post.{Post}
use financial_os.SharedElements.Accounts.{personal_profile_of, find_or_create_personal_profile}

-- The user's personal profile, made now if there was none.
abbrev pub new_personal : Uuid → Uuid → PersonalProfileRow
new_personal user fresh = record { id = fresh; user_id = user }

abbrev pub with_personal : Uuid → Uuid → Store → Store
with_personal user fresh s = record s {
  personal_profiles = s.personal_profiles ++ (new_personal user fresh ∷ []);
}

abbrev pub IsPersonal : Uuid → Uuid → Store → PersonalProfileRow → Store → Type 0
IsPersonal user fresh s owner s' =
    ((personal_profile_of user s ≡ some owner) × (s' ≡ s))
    ⊎ ((personal_profile_of user s ≡ none)
        × (owner ≡ new_personal user fresh)
        × (s' ≡ with_personal user fresh s))

-- Nothing has changed, but for a personal profile that was missing.
abbrev pub IsUnmoved : Uuid → Uuid → Store → Store → Type 0
IsUnmoved user fresh s s' =
    (s' ≡ s) ⊎ ((personal_profile_of user s ≡ none) × (s' ≡ with_personal user fresh s))

pub owner-IsPersonal :
    (E : Store → Type 0) (R : Type 0) (user fresh : Uuid) (s : Store)
    → Post (IsPersonal user fresh s) E R (find_or_create_personal_profile user fresh s)
unfolding find_or_create_personal_profile
owner-IsPersonal E R user fresh s = elim (Option-cases (personal_profile_of user s)) [
  | inl missing ↦ rw missing (inr (missing, refl, refl))
  | inr (owner, found) ↦ rw found (inl (found, refl))
]

pub IsPersonal-IsUnmoved :
    (user fresh : Uuid) (s : Store) (owner : PersonalProfileRow) (s' : Store)
    → IsPersonal user fresh s owner s'
    → IsUnmoved user fresh s s'
IsPersonal-IsUnmoved user fresh s owner s' (inl (found, same)) = inl same
IsPersonal-IsUnmoved user fresh s owner s' (inr (missing, is_new, e)) = inr (missing, e)

-- A reading of the store that personal profiles do not matter to.
pub IsPersonal-reads :
    {A : Type 0} (f : Store → A) (user fresh : Uuid) (s : Store) (owner : PersonalProfileRow)
    (s' : Store)
    → IsPersonal user fresh s owner s'
    → f (with_personal user fresh s) ≡ f s
    → f s' ≡ f s
IsPersonal-reads f user fresh s owner s' (inl (found, same)) e = ap f same
IsPersonal-reads f user fresh s owner s' (inr (missing, is_new, made)) e = ap f made ∙ e
