-- ===== src/Money/Allocation/QuotaRule.antt =====
-- The quota rule: no member is a whole cent away from the exact proportion.
use financial_os.Base.{
  ℕ, zero, suc, ◌+◌, ◌*◌, ◌≤◌, ◌<◌, ◌≡◌, refl, sym, ◌∙◌, true, List, [], ◌∷◌, map, arith, All,
  All-zip, All-map_conv, IsDistinct, map-IsDistinct, Bool-cases, inl, inr, Uuid, ◌==◌,
}
use financial_os.Money.Allocation.{
  AllocationResult, Share, Provisional, provisional, provisional_of, total_weight, ranking, bump,
  has, settle, bumped_of, distribute, allocate_shares,
}
use financial_os.Money.Allocation.Quota.{
  remainders, residual, residual_lem, provisional_of_lem, remainders_below,
}
use financial_os.Money.Allocation.Ranking.{
  id_of, Outranks, IsRanked, remainder-le, ranking-All, ranking-All_conv, ranking-sum,
  ranking-IsRanked, ranking-IsDistinct,
}
use financial_os.Money.Allocation.Total.{allocate_shares-distribute}
use financial_os.Money.Allocation.Fairness.{has-skip}

-- An entry without a remainder that ranks first leaves nothing to the others.
remainders_zero :
    (p : Provisional) (ps : List Provisional)
    → All (Outranks p) ps
    → p.remainder ≡ 0
    → remainders ps ≡ 0
remainders_zero p [] h e = refl
remainders_zero p (q ∷ qs) (h, hs) e = omega (arith, remainder-le p q h, remainders_zero p qs hs e)

-- While cents are left, the first entry of the ranking has a remainder.
module _ (weight : ℕ) (positive : 0 < weight) where
  abbrev Earned : List Uuid → Provisional → Type 0
  Earned bumped p = has p.membership_id bumped ≡ true → 0 < p.remainder

  Earned-none : (ps : List Provisional) → All (Earned []) ps
  Earned-none [] = tt
  Earned-none (p ∷ ps) = ((λ e. cc), Earned-none ps)

  first_earned :
      (p : Provisional) (ps : List Provisional) (r : ℕ)
      → All (Outranks p) ps
      → suc r * weight ≤ remainders (p ∷ ps)
      → 0 < p.remainder
  first_earned p ps r first enough = elim (Bool-cases (p.remainder == 0)) [
    | inl none_left ↦
        let e : p.remainder ≡ 0 = ground arith in
        absurd (omega (arith, remainders_zero p ps first e))
    | inr some_left ↦ ground arith
  ]

  bump-Earned :
      (ps : List Provisional) (r : ℕ)
      → IsRanked ps
      → IsDistinct id_of ps
      → All (λ p. p.remainder < weight) ps
      → r * weight ≤ remainders ps
      → All (Earned (bump ps r)) ps
  unfolding bump
  bump-Earned [] r ranked distinct below enough = tt
  bump-Earned (p ∷ ps) zero ranked distinct below enough = Earned-none (p ∷ ps)
  bump-Earned (p ∷ ps) (suc r) (first, ranked) (absent, distinct) (b, below) enough = (
    (λ _. first_earned p ps r first enough),
    All-zip _ _ _
        (λ q ne earned e.
          earned (sym (has-skip p.membership_id q.membership_id (bump ps r) ne) ∙ e))
        ps absent (bump-Earned ps r ranked distinct below (omega arith)),
  )

-- Each result belongs to its share and differs from the exact proportion, `total * weight / W`, by
-- less than one cent either way.
abbrev pub IsWithinQuota : ℕ → ℕ → List Share → List AllocationResult → Type 0
IsWithinQuota total weight [] [] = Unit
IsWithinQuota total weight (s ∷ shares) (r ∷ results) =
    ((r.membership_id ≡ s.membership_id)
      × (r.amount_cents * weight < total * s.weight + weight)
      × (total * s.weight < r.amount_cents * weight + weight))
    × IsWithinQuota total weight shares results
IsWithinQuota total weight _ _ = ⊥

within_up :
    (a w n r : ℕ) → a * w + r ≡ n → 0 < r → r < w → ((a + 1) * w < n + w) × (n < (a + 1) * w + w)
within_up a w n r e above below = omega (arith, e)

module _ (total weight : ℕ) (positive : 0 < weight) (bumped : List Uuid) where
  settle_within :
      (s : Share)
      → Earned weight positive bumped (provisional_of total weight s)
      → let r = settle bumped (provisional_of total weight s) in
        (r.membership_id ≡ s.membership_id)
        × (r.amount_cents * weight < total * s.weight + weight)
        × (total * s.weight < r.amount_cents * weight + weight)
  settle_within s earned =
      let p = provisional_of total weight s in
      let (exact, below) = provisional_of_lem total weight s positive in
      elim (Bool-cases (has s.membership_id bumped)) [
        | inl extra ↦
            let (low, high) = within_up p.amount_cents weight _ _ exact (earned extra) below in
            rw extra (refl, low, high)
        | inr plain ↦ rw plain (refl, omega arith, omega arith)
      ]

  settle-IsWithinQuota :
      (shares : List Share)
      → All (λ s. Earned weight positive bumped (provisional_of total weight s)) shares
      → IsWithinQuota total weight shares
          (map (settle bumped) (map (provisional_of total weight) shares))
  settle-IsWithinQuota [] h = tt
  settle-IsWithinQuota (s ∷ shares) (h, hs) = (settle_within s h, settle-IsWithinQuota shares hs)

-- The quota rule: for distinct members, of total weight W above 0, every member's amount is less
-- than one cent away from `total * weight / W`, in the order of the shares. (So no weight, no cents.)
pub allocate_shares-IsWithinQuota :
    (total : ℕ) (shares : List Share)
    → 0 < total_weight shares
    → IsDistinct (λ s. s.membership_id) shares
    → IsWithinQuota total (total_weight shares) shares (allocate_shares total shares)
unfolding distribute
allocate_shares-IsWithinQuota total shares positive distinct =
    let weight = total_weight shares in
    let parts = provisional total shares in
    let ordered = ranking parts in
    let d : IsDistinct id_of parts = map-IsDistinct id_of _ shares distinct in
    let below =
      ranking-All (λ p. p.remainder < weight) parts
        (remainders_below total weight positive shares) in
    let enough = (residual_lem total shares positive).1 in
    let earned =
      bump-Earned weight positive ordered (residual total shares positive) (ranking-IsRanked parts)
        (ranking-IsDistinct parts d) below
        (omega (arith, enough, ranking-sum (λ p. p.remainder) parts)) in
    rw (allocate_shares-distribute total shares positive) (
      settle-IsWithinQuota total weight positive (bumped_of total shares) shares (
        All-map_conv (Earned weight positive (bumped_of total shares)) _ shares
          (ranking-All_conv (Earned weight positive (bumped_of total shares)) parts earned)))
