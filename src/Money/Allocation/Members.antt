-- ===== src/Money/Allocation/Members.antt =====
-- Who gets a part of an allocation, and what is allocated when nobody has a weight.
use financial_os.Base.{
  ℕ, ◌≡◌, refl, sym, ap, subst, ◌∙◌, true, false, List, [], ◌∷◌, map, arith, sum_by, any,
  IsDistinct, map-IsDistinct, map-IsDistinct_conv, Bool-cases, inl, inr, Uuid, ◌==◌,
}
use financial_os.Base.Int.{pos, ltb_ℤ}
use financial_os.Errors.{returned, returned_injective, >>=-eq-returned}
use financial_os.Money.Allocation.{
  AllocationWeight, AllocationResult, Share, provisional_of, total_weight, settle, nothing,
  distribute, allocate_shares, checked_shares, allocate_by_largest_remainder,
}
use financial_os.Money.Allocation.Total.{Checked, checked_shares_lem, has_weight}

settled_ids :
    (bumped : List Uuid) (total weight : ℕ) (ss : List Share)
    → map (λ r. r.membership_id) (map (settle bumped) (map (provisional_of total weight) ss))
      ≡ map (λ s. s.membership_id) ss
settled_ids bumped total weight [] = refl
settled_ids bumped total weight (s ∷ ss) =
    ap (λ ids. s.membership_id ∷ ids) (settled_ids bumped total weight ss)

nothing_ids :
    (ss : List Share) → map (λ r. r.membership_id) (map nothing ss) ≡ map (λ s. s.membership_id) ss
nothing_ids [] = refl
nothing_ids (s ∷ ss) = ap (λ ids. s.membership_id ∷ ids) (nothing_ids ss)

allocate_shares-ids :
    (total : ℕ) (ss : List Share)
    → map (λ r. r.membership_id) (allocate_shares total ss) ≡ map (λ s. s.membership_id) ss
unfolding allocate_shares distribute
allocate_shares-ids total ss = elim (Bool-cases (total_weight ss == 0)) [
  | inl none ↦ rw none (nothing_ids ss)
  | inr positive ↦ rw positive (settled_ids _ total (total_weight ss) ss)
]

Checked-ids :
    (ws : List AllocationWeight) (ss : List Share)
    → Checked ws ss
    → map (λ s. s.membership_id) ss ≡ map (λ w. w.membership_id) ws
Checked-ids [] [] c = refl
Checked-ids [] (s ∷ ss) c = absurd c
Checked-ids (w ∷ ws) [] c = absurd c
Checked-ids (w ∷ ws) (s ∷ ss) ((e, _), c) = rw (e, Checked-ids ws ss c) refl

-- The results are for the members of the weights, in their order.
pub allocate-ids :
    (total : ℕ) (ws : List AllocationWeight) {results : List AllocationResult}
    → allocate_by_largest_remainder (pos total) ws ≡ returned results
    → map (λ r. r.membership_id) results ≡ map (λ w. w.membership_id) ws
unfolding allocate_by_largest_remainder
allocate-ids total ws {results} h =
    let (ss, checked, same) = >>=-eq-returned (checked_shares ws) _ h in
    rw (← returned_injective same)
      (allocate_shares-ids total ss ∙ Checked-ids ws ss (checked_shares_lem ws ss checked))

pub allocate-IsDistinct :
    (total : ℕ) (ws : List AllocationWeight) {results : List AllocationResult}
    → allocate_by_largest_remainder (pos total) ws ≡ returned results
    → IsDistinct (λ w. w.membership_id) ws
    → IsDistinct (λ r. r.membership_id) results
allocate-IsDistinct total ws {results} h d =
    map-IsDistinct_conv (λ i. i) (λ r. r.membership_id) results
      (subst (IsDistinct (λ i. i)) (sym (allocate-ids total ws h))
        (map-IsDistinct (λ i. i) (λ w. w.membership_id) ws d))

Checked-none :
    (ws : List AllocationWeight) (ss : List Share)
    → Checked ws ss
    → any has_weight ws ≡ false
    → total_weight ss ≡ 0
Checked-none [] [] c h = refl
Checked-none [] (s ∷ ss) c h = absurd c
Checked-none (w ∷ ws) [] c h = absurd c
Checked-none (w ∷ ws) (s ∷ ss) ((_, e), c) h = elim (Bool-cases (has_weight w)) [
  | inl above ↦ let refused = rw above at h in absurd (cc)
  | inr none ↦
      let rest : any has_weight ws ≡ false = rw none at h in
      let none' : ltb_ℤ (pos 0) (pos s.weight) ≡ false = rw (e, has_weight) at none in
      omega (arith, not_above s.weight none', Checked-none ws ss c rest)
]
  where
    not_above : (n : ℕ) → ltb_ℤ (pos 0) (pos n) ≡ false → n ≡ 0
    not_above n h = ground arith

sum_nothing : (ss : List Share) → sum_by (λ r. r.amount_cents) (map nothing ss) ≡ 0
sum_nothing [] = refl
sum_nothing (s ∷ ss) = omega (arith, sum_nothing ss)

-- Nothing is allocated, if no weight is above 0.
pub allocate-none :
    (total : ℕ) (ws : List AllocationWeight) {results : List AllocationResult}
    → allocate_by_largest_remainder (pos total) ws ≡ returned results
    → any has_weight ws ≡ false
    → sum_by (λ r. r.amount_cents) results ≡ 0
unfolding allocate_by_largest_remainder allocate_shares
allocate-none total ws {results} h none =
    let (ss, checked, same) = >>=-eq-returned (checked_shares ws) _ h in
    rw (← returned_injective same)
      (no_cents ss (Checked-none ws ss (checked_shares_lem ws ss checked) none))
  where
    no_cents :
        (ss : List Share)
        → total_weight ss ≡ 0
        → sum_by (λ r. r.amount_cents) (allocate_shares total ss) ≡ 0
    no_cents ss h =
        let zeroth : total_weight ss == 0 ≡ true = ground arith in
        rw (allocate_shares, zeroth) (sum_nothing ss)
