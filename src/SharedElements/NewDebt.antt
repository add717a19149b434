-- ===== src/SharedElements/NewDebt.antt =====
-- `createSharedDebt`: the new debt is shared out by the members' contribution percentages.
use financial_os.Base.{
  any_own, All-map, All-map_conv, filter, Bool, ◌≡◌, inl, inr, refl, sym, ap, subst, ◌∙◌, Option,
  none, some, Option-cases, List, [], ◌∷◌, ◌++◌, arith, if◌then◌else◌, ◌==◌, map, All, All-filter,
  IsDistinct, filter-IsDistinct, map-IsDistinct, Uuid,
}
use financial_os.Base.Int.{ℤ, pos, ◌≤ℤ◌, ltb_ℤ}
use financial_os.Errors.{ok, fail, returned, validation}
use financial_os.Permissions.{manage_shared_elements}
use financial_os.Profiles.Invariant.{row_id}
use financial_os.Contributions.Commitment.{IsNonnegative}
use financial_os.Contributions.Period.{allocations_of}
use financial_os.Contributions.Repository.{current_plan, active_memberships}
use financial_os.Store.{
  and_then, ResponsibilityRow, Tx, Store, MembershipRow, PlanRow, AllocationRow, DebtRow, Principal,
  shared_debt_created,
}
use financial_os.Store.Memberships.{find_first}
use financial_os.Store.Tables.{find_first-All}
use financial_os.Store.Post.{Post, lift-Post, reading-Post}
use financial_os.SharedElements.Responsibility.{ResponsibilityShare, IsNonneg, allocate_bp}
use financial_os.SharedElements.Repository.{replaced, list_responsibilities}
use financial_os.SharedElements.Shares.{
  all_members_lem, IsMember, IsShared, IsSplit, IsSplit-IsDistinct, share_id, repeats-IsDistinct,
  list-replaced, replaced-IsShared,
}
use financial_os.SharedElements.Guarded.{guard-IsGuarded}
use financial_os.SharedElements.Remaining.{allocate_bp-IsFull}
use financial_os.SharedElements.Balancing.{IsManaged, IsAudited}
use financial_os.SharedElements.Service.{
  replace_if_any, weighed, default_responsibilities_for, new_debt, create_shared_debt_tx,
}

allocations_of-IsNonnegative :
    (o : Option PlanRow) (s : Store)
    → All IsNonnegative s.allocations
    → All IsNonnegative (allocations_of o s)
allocations_of-IsNonnegative none s h = tt
allocations_of-IsNonnegative (some plan) s h = All-filter IsNonnegative _ s.allocations h

weighed-IsNonneg :
    (rows : List AllocationRow) (m : MembershipRow)
    → All IsNonnegative rows
    → IsNonneg (weighed rows m)
weighed-IsNonneg rows m h = elim (Option-cases (find_first (λ a. a.membership_id == m.id) rows)) [
  | inl missing ↦ rw missing (omega arith)
  | inr (a, found) ↦ rw found (find_first-All IsNonnegative _ rows h found)
]

all_weighed :
    (rows : List AllocationRow) (ms : List MembershipRow)
    → All IsNonnegative rows
    → All IsNonneg (map (weighed rows) ms)
all_weighed rows [] h = tt
all_weighed rows (m ∷ ms) h = (weighed-IsNonneg rows m h, all_weighed rows ms h)

weighed-ids :
    (rows : List AllocationRow) (ms : List MembershipRow)
    → map share_id (map (weighed rows) ms) ≡ map row_id ms
weighed-ids rows [] = refl
weighed-ids rows (m ∷ ms) = ap (λ is. m.id ∷ is) (weighed-ids rows ms)

-- The default shares are for the members, and are a split.
pub default-IsSplit :
    (ms : List MembershipRow) (rows : List AllocationRow)
    → IsDistinct row_id ms
    → All IsNonnegative rows
    → (out : List ResponsibilityShare) × (default_responsibilities_for ms rows ≡ returned out)
      × (map share_id out ≡ map row_id ms)
      × IsSplit out
unfolding default_responsibilities_for allocate_bp
default-IsSplit [] rows d h = ([], refl, refl, inl refl)
default-IsSplit (m ∷ ms) rows d h =
    let (out, e, ids, full) =
      allocate_bp-IsFull (weighed rows m) (map (weighed rows) ms) (all_weighed rows (m ∷ ms) h)
        (map-IsDistinct share_id (weighed rows) (m ∷ ms) d) in
    (out, e, ids ∙ weighed-ids rows (m ∷ ms), inr full)

-- The shares of a debt without any, stored if there are any.
module _ {B : Type 0} (Q : B → Store → Type 0) (E : Store → Type 0) (R : Type 0) where
  replace-Post :
      (debt : Uuid) (out : List ResponsibilityShare) (f : Unit {0} → Tx B) (s : Store)
      → IsShared s
      → list_responsibilities debt s ≡ []
      → IsSplit out
      → All (λ x. IsMember s x.membership_id) out
      → ((rows : List ResponsibilityRow)
          → list_responsibilities debt (record s { responsibilities = rows }) ≡ out
          → IsShared (record s { responsibilities = rows })
          → Post Q E R (f tt (record s { responsibilities = rows })))
      → Post Q E R (and_then (replace_if_any debt out s) f)
  unfolding replace_if_any
  replace-Post debt [] f s h new split known k = k s.responsibilities new h
  replace-Post debt (x ∷ xs) f s h new split known k =
      let unique = repeats-IsDistinct (x ∷ xs) (IsSplit-IsDistinct (x ∷ xs) split) in
      rw (unique, all_members_lem (x ∷ xs) s known)
        (k (replaced debt (x ∷ xs) s.responsibilities) (list-replaced debt (x ∷ xs) s)
          (replaced-IsShared debt (x ∷ xs) s h split known))

-- The members of the profile are members.
default-IsMember :
    (out : List ResponsibilityShare) (s : Store) (test : MembershipRow → Bool)
    → map share_id out ≡ map row_id (filter test s.memberships)
    → All (λ x. IsMember s x.membership_id) out
default-IsMember out s test ids = All-map_conv (IsMember s) share_id out (
    subst (All (IsMember s)) (sym ids) (
      All-map (IsMember s) row_id (filter test s.memberships)
        (All-filter (λ m. IsMember s m.id) test s.memberships (any_own row_id s.memberships))))

-- What a new debt ensures.
pub record IsCreated (principal : Principal) (profile : Uuid) (balance : ℤ) (fresh : Uuid)
    (s : Store) (debt : DebtRow) (s' : Store) : Type 0 where
  pub managed : IsManaged principal profile s
  pub low : pos 0 ≤ℤ balance
  pub created :
      (debt ≡ record {
        id = fresh;
        shared_profile_id = profile;
        outstanding_balance = balance;
        version = 0;
      })
      × (s'.debts ≡ s.debts ++ (debt ∷ []))
  pub members :
      map share_id (list_responsibilities fresh s') ≡ map row_id (active_memberships profile s)
  pub split : IsSplit (list_responsibilities fresh s')
  pub shared : IsShared s'
  pub recorded : IsAudited shared_debt_created s s'

low_lem :
    (z : ℤ) {u : Unit {0}}
    → (if ltb_ℤ z (pos 0) then fail validation else ok tt) ≡ ok u
    → pos 0 ≤ℤ z
low_lem z h = ground arith

-- `createSharedDebt` never throws and, after an error, has changed nothing. Otherwise the balance is not
-- negative, there is one debt more, every active member of the profile and nobody else is responsible
-- for it with shares that add up to exactly 100% (without members it has none), the shares of the
-- other debts are still in order, and there is one audit entry; for a store whose debts are unshared or
-- shared out in full among memberships that exist, with distinct memberships, percentages of zero or
-- more, and a new identifier.
pub create_shared_debt-IsCreated :
    (principal : Principal) (profile : Uuid) (balance : ℤ) (fresh : Uuid) (s : Store)
    → IsShared s
    → IsDistinct row_id s.memberships
    → All IsNonnegative s.allocations
    → list_responsibilities fresh s ≡ []
    → Post
        (IsCreated principal profile balance fresh s)
        (λ s'. s' ≡ s)
        ⊥
        (create_shared_debt_tx principal profile balance fresh s)
unfolding create_shared_debt_tx
create_shared_debt-IsCreated principal profile balance fresh s h d n new =
    reading-Post _ _ _ _ _ _ s (guard-IsGuarded profile principal.user_id manage_shared_elements s)
      refl
      (λ m guarded.
        lift-Post _ _ _ (if ltb_ℤ balance (pos 0) then fail validation else ok tt) _ s refl
          (λ (u : Unit {0}) low.
            let s1 = record s { debts = s.debts ++ (new_debt profile balance fresh ∷ []) } in
            let shared1 : IsShared s1 = h in
            let (out, e, ids, split) =
              default-IsSplit (active_memberships profile s)
                (allocations_of (current_plan profile s) s1)
                (filter-IsDistinct row_id _ s.memberships d)
                (allocations_of-IsNonnegative (current_plan profile s) s1 n) in
            rw e (
              replace-Post _ _ _ fresh out _ s1 shared1 new split (default-IsMember out s1 _ ids)
                (λ rows stored shared. record {
                  managed = (m, guarded);
                  low = low_lem balance low;
                  created = (refl, refl);
                  members = ap (map share_id) stored ∙ ids;
                  split = subst IsSplit (sym stored) split;
                  shared = shared;
                  recorded = (_, refl, refl, refl);
                }))))
