-- ===== src/Money/Allocation/Total.antt =====
-- The parts of an allocation add up to the total, for distinct members and some positive weight.
use financial_os.Base.{
  ℕ, zero, suc, ◌+◌, ◌≤◌, ◌<◌, ◌≡◌, refl, sym, ap, subst, ◌∙◌, Bool, true, false, List, [], ◌∷◌,
  map, arith, All, sum_by, length, any, All, IsAbsent, IsDistinct, map-IsDistinct, Bool-cases, inl,
  inr, if◌then◌else◌, Uuid, ◌==◌,
}
use financial_os.Base.Int.{pos, negsuc, ltb_ℤ}
use financial_os.Errors.{returned, returned_injective, >>=-eq-returned}
use financial_os.Money.Values.{Number, integer, fractional}
use financial_os.Money.Allocation.{
  AllocationWeight, AllocationResult, Share, Provisional, provisional, total_weight, allocated,
  ranking, bump, has, settle, distribute, allocate_shares, checked_shares, checked_weight,
  allocate_by_largest_remainder,
}
use financial_os.Money.Allocation.Quota.{residual, residual_lem, residual-le-length}
use financial_os.Money.Allocation.Ranking.{id_of, ranking-sum, ranking-length, ranking-IsDistinct}

abbrev one_if : List Uuid → Provisional → ℕ
one_if bumped p = if has p.membership_id bumped then 1 else 0

-- A member that is not in the list does not change who is in the bumped set.
count_skip :
    (k : Uuid) (bumped : List Uuid) (ps : List Provisional)
    → IsAbsent id_of k ps
    → sum_by (one_if (k ∷ bumped)) ps ≡ sum_by (one_if bumped) ps
count_skip k bumped [] h = refl
count_skip k bumped (p ∷ ps) (ne, h) = ground (arith, count_skip k bumped ps h)

count_none : (ps : List Provisional) → sum_by (one_if []) ps ≡ 0
count_none [] = refl
count_none (p ∷ ps) = omega (arith, count_none ps)

-- As many entries are bumped as cents are left, if there are that many entries.
count_bumped :
    (ps : List Provisional) (r : ℕ)
    → IsDistinct id_of ps
    → r ≤ length ps
    → sum_by (one_if (bump ps r)) ps ≡ r
unfolding bump
count_bumped [] zero d h = refl
count_bumped [] (suc r) d h = absurd (omega arith)
count_bumped (p ∷ ps) zero d h = count_none (p ∷ ps)
count_bumped (p ∷ ps) (suc r) (a, d) h =
    ground (arith, count_skip p.membership_id (bump ps r) ps a, count_bumped ps r d)

sum-settle :
    (bumped : List Uuid) (ps : List Provisional)
    → sum_by (λ r. r.amount_cents) (map (settle bumped) ps)
      ≡ allocated ps + sum_by (one_if bumped) ps
sum-settle bumped [] = refl
sum-settle bumped (p ∷ ps) = ground (arith, sum-settle bumped ps)

pub sum-distribute :
    (total : ℕ) (shares : List Share)
    → 0 < total_weight shares
    → IsDistinct (λ s. s.membership_id) shares
    → sum_by (λ r. r.amount_cents) (distribute total shares) ≡ total
unfolding distribute
sum-distribute total shares positive distinct =
    let parts = provisional total shares in
    let r = residual total shares positive in
    let ordered = ranking parts in
    let d : IsDistinct id_of parts = map-IsDistinct id_of _ shares distinct in
    let fits : r ≤ length ordered =
      rw (ranking-length parts) (residual-le-length total shares positive) in
    let count = count_bumped ordered r (ranking-IsDistinct parts d) fits in
    let same = ranking-sum (one_if (bump ordered r)) parts in
    sum-settle (bump ordered r) parts
    ∙ omega (arith, count, same, (residual_lem total shares positive).0)

-- The shares are the weights, in order, as numbers that are not negative.
abbrev pub Checked : List AllocationWeight → List Share → Type 0
Checked [] [] = Unit
Checked (w ∷ ws) (s ∷ ss) =
    ((s.membership_id ≡ w.membership_id) × (w.weight_bp ≡ integer (pos s.weight))) × Checked ws ss
Checked _ _ = ⊥

checked_weight_lem : (n : Number) {w : ℕ} → checked_weight n ≡ returned w → n ≡ integer (pos w)
checked_weight_lem (integer (pos v)) h = ap (λ (k : ℕ). integer (pos k)) (returned_injective h)
checked_weight_lem (integer (negsuc v)) h = cc
checked_weight_lem fractional h = cc

pub checked_shares_lem :
    (ws : List AllocationWeight) (ss : List Share) → checked_shares ws ≡ returned ss → Checked ws ss
unfolding checked_shares
checked_shares_lem [] [] h = tt
checked_shares_lem [] (s ∷ ss) h = cc
checked_shares_lem (w ∷ ws) ss h =
    let (k, weight, h') = >>=-eq-returned (checked_weight w.weight_bp) _ h in
    let (rest, checked, same) = >>=-eq-returned (checked_shares ws) _ h' in
    subst (Checked (w ∷ ws)) (returned_injective same)
      ((refl, checked_weight_lem w.weight_bp weight), checked_shares_lem ws rest checked)

-- The weight is an integer above 0.
abbrev pub has_weight : AllocationWeight → Bool
has_weight w = elim w.weight_bp [ integer n ↦ ltb_ℤ (pos 0) n | fractional ↦ false ]

has_weight_lem : (n : ℕ) → ltb_ℤ (pos 0) (pos n) ≡ true → 0 < n
has_weight_lem n h = ground arith

Checked-positive :
    (ws : List AllocationWeight) (ss : List Share)
    → Checked ws ss
    → any has_weight ws ≡ true
    → 0 < total_weight ss
Checked-positive [] ss c h = cc
Checked-positive (w ∷ ws) [] c h = absurd c
Checked-positive (w ∷ ws) (s ∷ ss) ((_, e), c) h = elim (Bool-cases (has_weight w)) [
  | inl yes_weight ↦
      let above : ltb_ℤ (pos 0) (pos s.weight) ≡ true = rw (e, has_weight) at yes_weight in
      omega (arith, has_weight_lem s.weight above)
  | inr no_weight ↦
      let rest : any has_weight ws ≡ true = rw no_weight at h in
      omega (arith, Checked-positive ws ss c rest)
]

Checked-IsAbsent :
    (k : Uuid) (ws : List AllocationWeight) (ss : List Share)
    → Checked ws ss
    → IsAbsent (λ w. w.membership_id) k ws
    → IsAbsent (λ s. s.membership_id) k ss
Checked-IsAbsent k [] [] c h = tt
Checked-IsAbsent k [] (s ∷ ss) c h = absurd c
Checked-IsAbsent k (w ∷ ws) [] c h = absurd c
Checked-IsAbsent k (w ∷ ws) (s ∷ ss) ((e, _), c) (ne, h) =
    ((λ same. ne (sym e ∙ same)), Checked-IsAbsent k ws ss c h)

Checked-IsDistinct :
    (ws : List AllocationWeight) (ss : List Share)
    → Checked ws ss
    → IsDistinct (λ w. w.membership_id) ws
    → IsDistinct (λ s. s.membership_id) ss
Checked-IsDistinct [] [] c h = tt
Checked-IsDistinct [] (s ∷ ss) c h = absurd c
Checked-IsDistinct (w ∷ ws) [] c h = absurd c
Checked-IsDistinct (w ∷ ws) (s ∷ ss) ((e, _), c) (a, d) =
    (rw e (Checked-IsAbsent w.membership_id ws ss c a), Checked-IsDistinct ws ss c d)

pub allocate_shares-distribute :
    (total : ℕ) (shares : List Share)
    → 0 < total_weight shares
    → allocate_shares total shares ≡ distribute total shares
unfolding allocate_shares
allocate_shares-distribute total shares positive =
    let above : (total_weight shares == 0) ≡ false = ground arith in rw above

-- Exact reconciliation: for distinct members of whom one at least has a positive weight, the
-- allocated amounts add up to the total.
pub sum-allocate :
    (total : ℕ) (ws : List AllocationWeight) {results : List AllocationResult}
    → allocate_by_largest_remainder (pos total) ws ≡ returned results
    → IsDistinct (λ w. w.membership_id) ws
    → any has_weight ws ≡ true
    → sum_by (λ r. r.amount_cents) results ≡ total
unfolding allocate_by_largest_remainder
sum-allocate total ws {results} h distinct some_weight =
    let (shares, checked, same) = >>=-eq-returned (checked_shares ws) _ h in
    let c = checked_shares_lem ws shares checked in
    let positive = Checked-positive ws shares c some_weight in
    rw (← returned_injective same, allocate_shares-distribute total shares positive)
      (sum-distribute total shares positive (Checked-IsDistinct ws shares c distinct))

abbrev pub IsWeight : AllocationWeight → Type 0
IsWeight w = (n : ℕ) × (w.weight_bp ≡ integer (pos n))

pub checked_shares_total :
    (ws : List AllocationWeight)
    → All IsWeight ws
    → (ss : List Share) × (checked_shares ws ≡ returned ss)
unfolding checked_shares
checked_shares_total [] h = ([], refl)
checked_shares_total (w ∷ ws) ((n, e), hs) =
    let (ss, checked) = checked_shares_total ws hs in
    (record { membership_id = w.membership_id; weight = n } ∷ ss, rw (e, checked))

-- A total of zero or more and weights that are integers of zero or more always give a result.
pub allocate_returns :
    (total : ℕ) (ws : List AllocationWeight)
    → All IsWeight ws
    → (results : List AllocationResult) × (allocate_by_largest_remainder (pos total) ws
        ≡ returned results)
unfolding allocate_by_largest_remainder
allocate_returns total ws h =
    let (ss, checked) = checked_shares_total ws h in (allocate_shares total ss, rw checked)
