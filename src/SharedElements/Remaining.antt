-- ===== src/SharedElements/Remaining.antt =====
-- `reassignOnLeave`: the shares of those who stay.
use financial_os.Base.{
  map-IsDistinct, map-IsDistinct_conv, All-map, all, All-map_conv, ◌≡◌, ◌≢◌, inl, inr, refl, sym,
  ap, subst, ◌∙◌, false, List, [], ◌∷◌, arith, map, filter, All, All-filter, IsDistinct, IsAbsent,
  filter-IsDistinct, Uuid, Bool-cases,
}
use financial_os.Base.Int.{pos}
use financial_os.Errors.{returned_injective, >>=-eq-returned, returned}
use financial_os.SharedElements.Responsibility.{
  full_bp, is_zero_weight, allocate_bp_exact, allocate_bp, normalized, equal_weight,
  ResponsibilityShare, stays, IsNonneg, reassign_on_leave,
}
use financial_os.SharedElements.Shares.{
  IsFull, IsSplit, IsSplit-nonnegative, IsSplit-IsDistinct, share_id,
}
use financial_os.SharedElements.Rescaling.{share_of-ids, weight_of-ids}
use financial_os.Money.Allocation.Members.{allocate-ids}
use financial_os.Money.Allocation.{allocate_by_largest_remainder}
use financial_os.SharedElements.Responsible.{stays-IsAbsent}
use financial_os.SharedElements.Reassignment.{shares_has}

equal_weight-ids :
    (os : List ResponsibilityShare)
    → map (λ w. w.membership_id) (map equal_weight os) ≡ map share_id os
equal_weight-ids [] = refl
equal_weight-ids (o ∷ os) = ap (λ is. o.membership_id ∷ is) (equal_weight-ids os)

normalized-ids :
    (os : List ResponsibilityShare) → map (λ w. w.membership_id) (normalized os) ≡ map share_id os
normalized-ids os = elim (Bool-cases (all is_zero_weight os)) [
  | inl zeros ↦ rw zeros (equal_weight-ids os)
  | inr some ↦ rw some (weight_of-ids os)
]

-- A split of 100% among some members is for these members.
pub allocate_bp-IsFull :
    (s : ResponsibilityShare) (ss : List ResponsibilityShare)
    → All IsNonneg (s ∷ ss)
    → IsDistinct share_id (s ∷ ss)
    → (out : List ResponsibilityShare) × (allocate_bp (s ∷ ss) ≡ returned out)
      × (map share_id out ≡ map share_id (s ∷ ss))
      × IsFull out
unfolding allocate_bp
allocate_bp-IsFull s ss h d =
    let (out, e, exact, nonneg) = allocate_bp_exact s ss h d in
    let (rs, alloc, same) =
      >>=-eq-returned (allocate_by_largest_remainder (pos full_bp) (normalized (s ∷ ss))) _ e in
    let ids : map share_id out ≡ map share_id (s ∷ ss) =
      ap (map share_id) (sym (returned_injective same))
      ∙ share_of-ids rs
      ∙ allocate-ids full_bp (normalized (s ∷ ss)) alloc
      ∙ normalized-ids (s ∷ ss) in
    (
      out,
      e,
      ids,
      record {
        sum = exact;
        nonnegative = nonneg;
        distinct =
            map-IsDistinct_conv (λ i. i) share_id out
              (subst (IsDistinct (λ i. i)) (sym ids) (map-IsDistinct (λ i. i) share_id (s ∷ ss) d));
      },
    )

-- The shares without the leaver: a split among those who stay, in their order.
pub reassign-IsSplit :
    (shares : List ResponsibilityShare) (leaving : Uuid)
    → IsSplit shares
    → (out : List ResponsibilityShare) × (reassign_on_leave shares leaving ≡ returned out)
      × (map share_id out ≡ map share_id (filter (stays leaving) shares))
      × IsSplit out
unfolding reassign_on_leave
reassign-IsSplit shares leaving h =
    staying (filter (stays leaving) shares)
      (All-filter IsNonneg (stays leaving) shares (IsSplit-nonnegative shares h))
      (filter-IsDistinct share_id (stays leaving) shares (IsSplit-IsDistinct shares h))
  where
    staying :
        (rest : List ResponsibilityShare)
        → All IsNonneg rest
        → IsDistinct share_id rest
        → (out : List ResponsibilityShare) × (elim rest [
          | [] ↦ returned []
          | s ∷ ss ↦ allocate_bp (s ∷ ss)
        ]
            ≡ returned out)
          × (map share_id out ≡ map share_id rest)
          × IsSplit out
    staying [] n d = ([], refl, refl, inl refl)
    staying (s ∷ ss) n d =
        let (out, e, ids, full) = allocate_bp-IsFull s ss n d in (out, e, ids, inr full)

pub absent_shares :
    (leaving : Uuid) (shares : List ResponsibilityShare)
    → IsAbsent share_id leaving shares
    → shares_has leaving shares ≡ false
absent_shares leaving [] h = refl
absent_shares leaving (s ∷ ss) (ne, h) = ground (arith, absent_shares leaving ss h)

pub all_stay :
    (leaving : Uuid) (shares : List ResponsibilityShare)
    → shares_has leaving shares ≡ false
    → filter (stays leaving) shares ≡ shares
all_stay leaving [] h = refl
all_stay leaving (s ∷ ss) h = ground (arith, all_stay leaving ss)

pub IsAbsent-ids :
    (leaving : Uuid) (out shares : List ResponsibilityShare)
    → map share_id out ≡ map share_id (filter (stays leaving) shares)
    → IsAbsent share_id leaving out
IsAbsent-ids leaving out shares same =
    All-map_conv (λ i. i ≢ leaving) share_id out
      (subst (All (λ i. i ≢ leaving)) (sym same) (
        All-map (λ i. i ≢ leaving) share_id (filter (stays leaving) shares)
          (stays-IsAbsent leaving shares)))
