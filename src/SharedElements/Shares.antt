-- ===== src/SharedElements/Shares.antt =====
-- The stored responsibilities of a debt: what `replaceResponsibilities` makes of them, and the
-- invariant that they add up to 100%.
use financial_os.Base.{
  true, All-filter, All-append, All-map_conv, All-map, append-nil, ◌≡◌, ◌≢◌, ◌⊎◌, inl, inr, refl,
  sym, ap, subst, ◌∙◌, false, not, List, [], ◌∷◌, arith, ◌==◌, ==_iff, ==_refl, map, filter,
  filter-append, any, All, IsDistinct, IsAbsent, Uuid, Bool-cases,
}
use financial_os.Base.Int.{pos, sum_ℤ}
use financial_os.SharedElements.Responsibility.{full_bp, ResponsibilityShare, IsNonneg}
use financial_os.SharedElements.Repository.{
  all_members, is_for_debt, to_share, responsibility_row, replaced, repeats, list_responsibilities,
}
use financial_os.Store.Memberships.{is_membership}
use financial_os.Store.{Store, ResponsibilityRow}

abbrev pub share_id : ResponsibilityShare → Uuid
share_id s = s.membership_id

-- Shares of distinct members, none negative, that add up to exactly 100%.
pub record IsFull (shares : List ResponsibilityShare) : Type 0 where
  pub sum : sum_ℤ (λ s. s.percentage_bp) shares ≡ pos full_bp
  pub nonnegative : All IsNonneg shares
  pub distinct : IsDistinct share_id shares

-- A debt that nobody is responsible for, or one that is shared out in full.
abbrev pub IsSplit : List ResponsibilityShare → Type 0
IsSplit shares = (shares ≡ []) ⊎ IsFull shares

pub IsSplit-nonnegative : (shares : List ResponsibilityShare) → IsSplit shares → All IsNonneg shares
IsSplit-nonnegative shares (inl none) = rw none tt
IsSplit-nonnegative shares (inr full) = full.nonnegative

pub IsSplit-IsDistinct :
    (shares : List ResponsibilityShare) → IsSplit shares → IsDistinct share_id shares
IsSplit-IsDistinct shares (inl none) = rw none tt
IsSplit-IsDistinct shares (inr full) = full.distinct

-- Every debt is split, and whoever is responsible for one is a member, as the foreign key has it.
abbrev pub IsMember : Store → Uuid → Type 0
IsMember s id = is_membership id s ≡ true

abbrev pub IsShared : Store → Type 0
IsShared s =
    ((debt : Uuid) → IsSplit (list_responsibilities debt s))
    × All (λ r. IsMember s r.membership_id) s.responsibilities

-- The members of shares that are known by their identifiers.
pub list-IsMember :
    (debt : Uuid) (s : Store)
    → IsShared s
    → All (λ x. IsMember s x.membership_id) (list_responsibilities debt s)
list-IsMember debt s h =
    All-map (λ x. IsMember s x.membership_id) to_share
      (filter (is_for_debt debt) s.responsibilities)
      (All-filter (λ r. IsMember s r.membership_id) (is_for_debt debt) s.responsibilities h.1)

pub ids-IsMember :
    (s : Store) (out shares : List ResponsibilityShare)
    → map share_id out ≡ map share_id shares
    → All (λ x. IsMember s x.membership_id) shares
    → All (λ x. IsMember s x.membership_id) out
ids-IsMember s out shares same h =
    All-map_conv (IsMember s) share_id out
      (subst (All (IsMember s)) (sym same) (All-map (IsMember s) share_id shares h))

-- They pass the foreign key.
pub all_members_lem :
    (shares : List ResponsibilityShare) (s : Store)
    → All (λ x. IsMember s x.membership_id) shares
    → all_members shares s ≡ true
all_members_lem [] s h = refl
all_members_lem (x ∷ xs) s (h, hs) = rw (h, all_members_lem xs s hs) refl

no_repeat :
    (id : Uuid) (ss : List ResponsibilityShare)
    → IsAbsent share_id id ss
    → any (λ y. y.membership_id == id) ss ≡ false
no_repeat id [] h = refl
no_repeat id (s ∷ ss) (ne, h) = ground (arith, no_repeat id ss h)

-- Distinct members pass the unique key.
pub repeats-IsDistinct :
    (ss : List ResponsibilityShare) → IsDistinct share_id ss → repeats ss ≡ false
repeats-IsDistinct [] d = refl
repeats-IsDistinct (s ∷ ss) (absent, d) =
    rw (no_repeat s.membership_id ss absent, repeats-IsDistinct ss d) refl

own_rows :
    (debt : Uuid) (shares : List ResponsibilityShare)
    → map to_share (filter (is_for_debt debt) (map (responsibility_row debt) shares)) ≡ shares
own_rows debt [] = refl
own_rows debt (s ∷ ss) = rw (==_refl debt) (ap (λ zs. s ∷ zs) (own_rows debt ss))

other_rows :
    (debt other : Uuid) (shares : List ResponsibilityShare)
    → other ≢ debt
    → filter (is_for_debt other) (map (responsibility_row debt) shares) ≡ []
other_rows debt other [] ne = refl
other_rows debt other (s ∷ ss) ne = ground (arith, other_rows debt other ss ne)

deleted_rows :
    (debt : Uuid) (rows : List ResponsibilityRow)
    → filter (is_for_debt debt) (filter (λ r. not (is_for_debt debt r)) rows) ≡ []
deleted_rows debt [] = refl
deleted_rows debt (r ∷ rows) = ground (arith, deleted_rows debt rows)

kept_rows :
    (debt other : Uuid) (rows : List ResponsibilityRow)
    → other ≢ debt
    → filter (is_for_debt other) (filter (λ r. not (is_for_debt debt r)) rows)
      ≡ filter (is_for_debt other) rows
kept_rows debt other [] ne = refl
kept_rows debt other (r ∷ rows) ne = ground (arith, kept_rows debt other rows ne)

-- The debt has the new shares, ...
pub list-replaced :
    (debt : Uuid) (shares : List ResponsibilityShare) (s : Store)
    → list_responsibilities debt
        (record s { responsibilities = replaced debt shares s.responsibilities })
      ≡ shares
list-replaced debt shares s =
    ap (map to_share) (
      filter-append (is_for_debt debt) (filter (λ r. not (is_for_debt debt r)) s.responsibilities)
        (map (responsibility_row debt) shares))
    ∙ rw (deleted_rows debt s.responsibilities) (own_rows debt shares)

-- ... and every other debt the old ones.
pub list-replaced_other :
    (debt other : Uuid) (shares : List ResponsibilityShare) (s : Store)
    → other ≢ debt
    → list_responsibilities other
        (record s { responsibilities = replaced debt shares s.responsibilities })
      ≡ list_responsibilities other s
list-replaced_other debt other shares s ne = ap (map to_share) (
    filter-append (is_for_debt other) (filter (λ r. not (is_for_debt debt r)) s.responsibilities)
      (map (responsibility_row debt) shares)
    ∙ rw (kept_rows debt other s.responsibilities ne, other_rows debt other shares ne)
        (append-nil _))

-- Replacing the shares of a debt by a split keeps every debt split.
pub replaced-IsShared :
    (debt : Uuid) (shares : List ResponsibilityShare) (s : Store)
    → IsShared s
    → IsSplit shares
    → All (λ x. IsMember s x.membership_id) shares
    → IsShared (record s { responsibilities = replaced debt shares s.responsibilities })
replaced-IsShared debt shares s h split known = (
  λ other. elim (Bool-cases (other == debt)) [
    | inl same ↦
        let e : other ≡ debt = (==_iff _ _).0 same in
        rw e (subst IsSplit (sym (list-replaced debt shares s)) split)
    | inr apart ↦
        let ne : other ≢ debt = ground arith in
        subst IsSplit (sym (list-replaced_other debt other shares s ne)) (h.0 other)
  ],
  All-append (λ r. IsMember s r.membership_id)
      (filter (λ r. not (is_for_debt debt r)) s.responsibilities)
      (map (responsibility_row debt) shares)
      (All-filter (λ r. IsMember s r.membership_id) _ s.responsibilities h.1)
      (All-map (λ r. IsMember s r.membership_id) (responsibility_row debt) shares known),
)
