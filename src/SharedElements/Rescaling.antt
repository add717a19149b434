-- ===== src/SharedElements/Rescaling.antt =====
-- The shares of a debt after one of them is set: the others are rescaled to what is left.
use financial_os.Base.{
  ==_iff, ◌==◌, ℕ, ◌+◌, ◌-◌, ◌≤◌, ◌≡◌, ◌≢◌, ◌⊎◌, inl, inr, refl, sym, ap, subst, ◌∙◌, Bool, true,
  false, List, [], ◌∷◌, arith, map, any, All, IsDistinct, IsAbsent, map-IsDistinct,
  map-IsDistinct_conv, sum_by, Uuid, Bool-cases,
}
use financial_os.Base.Int.{pos, ◌+ℤ◌, ltb_ℤ, sum_ℤ}
use financial_os.Errors.{ok, returned}
use financial_os.Money.Allocation.{AllocationResult, allocate_by_largest_remainder}
use financial_os.Money.Allocation.Total.{has_weight, sum-allocate, allocate_returns}
use financial_os.Money.Allocation.Members.{allocate-ids, allocate-none}
use financial_os.SharedElements.Responsibility.{
  full_bp, ResponsibilityShare, IsNonneg, weight_of, share_of, weights-IsWeight, share_of-IsNonneg,
  sum-share_of, validate_sum_to_100, sum_of_validate, validate_of_sum,
}
use financial_os.SharedElements.Shares.{IsFull, share_id}
use financial_os.SharedElements.Service.{rescaled}

-- Somebody else has a share above 0.
abbrev pub has_share : ResponsibilityShare → Bool
has_share o = ltb_ℤ (pos 0) o.percentage_bp

has_weight-has_share :
    (os : List ResponsibilityShare) → any has_weight (map weight_of os) ≡ any has_share os
has_weight-has_share [] = refl
has_weight-has_share (o ∷ os) = rw (has_weight-has_share os) refl

plus_pos : (a b : ℕ) → pos a +ℤ pos b ≡ pos (a + b)
unfolding ◌+ℤ◌
plus_pos a b = ground arith

pos_injective : {a b : ℕ} → pos a ≡ pos b → a ≡ b
pos_injective h = cc

pub share_of-ids :
    (rs : List AllocationResult) → map share_id (map share_of rs) ≡ map (λ r. r.membership_id) rs
share_of-ids [] = refl
share_of-ids (r ∷ rs) = ap (λ is. r.membership_id ∷ is) (share_of-ids rs)

pub weight_of-ids :
    (os : List ResponsibilityShare)
    → map (λ w. w.membership_id) (map weight_of os) ≡ map share_id os
weight_of-ids [] = refl
weight_of-ids (o ∷ os) = ap (λ is. o.membership_id ∷ is) (weight_of-ids os)

module _ (member : Uuid) (bp : ℕ) (others : List ResponsibilityShare) (most : bp ≤ 10000)
    (nonneg : All IsNonneg others) (distinct : IsDistinct share_id others)
    (absent : IsAbsent share_id member others) where
  -- The others' parts of what is left.
  parts :
      (rs : List AllocationResult) × (allocate_by_largest_remainder
          (pos (full_bp - bp))
          (map weight_of others)
        ≡ returned rs)
  parts = allocate_returns (full_bp - bp) (map weight_of others) (weights-IsWeight others nonneg)

  abbrev set_shares : List ResponsibilityShare
  set_shares = record { membership_id = member; percentage_bp = pos bp } ∷ map share_of parts.0

  sum-set_shares :
      sum_ℤ (λ s. s.percentage_bp) set_shares ≡ pos (bp + sum_by (λ r. r.amount_cents) parts.0)
  sum-set_shares = ap (λ z. pos bp +ℤ z) (sum-share_of parts.0) ∙ plus_pos bp _

  -- With a share above 0 among the others, what is left is given out; without, nothing is.
  parts-sum :
      ((any has_share others ≡ true) × (sum_by (λ r. r.amount_cents) parts.0 ≡ full_bp - bp))
      ⊎ ((any has_share others ≡ false) × (sum_by (λ r. r.amount_cents) parts.0 ≡ 0))
  parts-sum = elim (Bool-cases (any has_share others)) [
    | inl weighty ↦ inl (
      weighty,
      sum-allocate (full_bp - bp) (map weight_of others) parts.1
          (map-IsDistinct (λ w. w.membership_id) weight_of others distinct)
          (has_weight-has_share others ∙ weighty),
    )
    | inr weightless ↦ inr (
      weightless,
      allocate-none (full_bp - bp) (map weight_of others) parts.1
          (has_weight-has_share others ∙ weightless),
    )
  ]

  -- The other members stay, in their order, and nobody is named twice.
  same_members : map share_id (map share_of parts.0) ≡ map share_id others
  same_members =
      share_of-ids parts.0
      ∙ allocate-ids (full_bp - bp) (map weight_of others) parts.1
      ∙ weight_of-ids others

  set_shares-IsDistinct : IsDistinct share_id set_shares
  set_shares-IsDistinct =
      map-IsDistinct_conv (λ i. i) share_id set_shares
        (subst (λ is. IsDistinct (λ i. i) (member ∷ is)) (sym same_members)
          (map-IsDistinct (λ i. i) share_id
            (record { membership_id = member; percentage_bp = pos 0 } ∷ others) (absent, distinct)))

  set_shares-IsFull : validate_sum_to_100 set_shares ≡ ok tt → IsFull set_shares
  set_shares-IsFull h = record {
    sum = sum_of_validate set_shares h;
    nonnegative = (omega arith, share_of-IsNonneg parts.0);
    distinct = set_shares-IsDistinct;
  }

  passes_of :
      (any has_share others ≡ true) × (sum_by (λ r. r.amount_cents) parts.0 ≡ full_bp - bp)
      → validate_sum_to_100 set_shares ≡ ok tt
  passes_of (weighty, exact) =
      let whole : bp + sum_by (λ r. r.amount_cents) parts.0 ≡ full_bp =
        omega (arith, exact, most) in
      validate_of_sum set_shares (sum-set_shares ∙ ap pos whole)

  passes_alone :
      sum_by (λ r. r.amount_cents) parts.0 ≡ 0
      → bp ≡ full_bp
      → validate_sum_to_100 set_shares ≡ ok tt
  passes_alone none all_of =
      let whole : bp + sum_by (λ r. r.amount_cents) parts.0 ≡ full_bp =
        omega (arith, none, all_of) in
      validate_of_sum set_shares (sum-set_shares ∙ ap pos whole)

  refused_of :
      sum_by (λ r. r.amount_cents) parts.0 ≡ 0
      → bp ≢ full_bp
      → validate_sum_to_100 set_shares ≢ ok tt
  refused_of none less h =
      let whole : bp + sum_by (λ r. r.amount_cents) parts.0 ≡ full_bp =
        pos_injective (sym sum-set_shares ∙ sum_of_validate set_shares h) in
      less (omega (arith, none, whole))

  -- One share set and the others rescaled, for distinct members with shares of zero or more: a list
  -- always results, of the member with the share asked for and of the same other members. It passes
  -- the check, and is then a full split, exactly if the share is 100% or somebody else's is above 0.
  pub rescaled_exact :
      (out : List ResponsibilityShare) × (rescaled member bp others
        ≡ returned (record { membership_id = member; percentage_bp = pos bp } ∷ out))
      × (map share_id out ≡ map share_id others)
      × ((((bp ≡ full_bp) ⊎ (any has_share others ≡ true))
            × (validate_sum_to_100 (record { membership_id = member; percentage_bp = pos bp } ∷ out)
                ≡ ok tt)
            × IsFull (record { membership_id = member; percentage_bp = pos bp } ∷ out))
          ⊎ ((bp ≢ full_bp)
              × (any has_share others ≡ false)
              × (validate_sum_to_100
                    (record { membership_id = member; percentage_bp = pos bp } ∷ out)
                  ≢ ok tt)))
  unfolding rescaled
  rescaled_exact = (map share_of parts.0, rw parts.1 refl, same_members, verdict parts-sum)
    where
      passed :
          ((bp ≡ full_bp) ⊎ (any has_share others ≡ true))
          → validate_sum_to_100 set_shares ≡ ok tt
          → ((bp ≡ full_bp) ⊎ (any has_share others ≡ true))
            × (validate_sum_to_100 set_shares ≡ ok tt)
            × IsFull set_shares
      passed why h = (why, h, set_shares-IsFull h)

      verdict :
          ((any has_share others ≡ true) × (sum_by (λ r. r.amount_cents) parts.0 ≡ full_bp - bp))
            ⊎ ((any has_share others ≡ false) × (sum_by (λ r. r.amount_cents) parts.0 ≡ 0))
          → (((bp ≡ full_bp) ⊎ (any has_share others ≡ true))
              × (validate_sum_to_100 set_shares ≡ ok tt)
              × IsFull set_shares)
            ⊎ ((bp ≢ full_bp)
                × (any has_share others ≡ false)
                × (validate_sum_to_100 set_shares ≢ ok tt))
      verdict (inl weighty) = inl (passed (inr weighty.0) (passes_of weighty))
      verdict (inr (weightless, none)) = elim (Bool-cases (bp == full_bp)) [
        | inl all_of ↦
            let e : bp ≡ full_bp = (==_iff _ _).0 all_of in
            inl (passed (inl e) (passes_alone none e))
        | inr less ↦
            let ne : bp ≢ full_bp = ground arith in inr (ne, weightless, refused_of none ne)
      ]
