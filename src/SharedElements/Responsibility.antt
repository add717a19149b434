-- ===== src/SharedElements/Responsibility.antt =====
-- `domain/debt-responsibility.ts`: the members' shares of a debt, in basis points. The stored
-- percentages are integer columns.
use financial_os.Base.{
  ℕ, ◌≡◌, ◌≢◌, ◌⊎◌, refl, sym, ap, ◌∙◌, Bool, true, false, not, List, [], ◌∷◌, map, arith,
  if◌then◌else◌, ◌==◌, all, any, filter, sum_by, All, All-filter, IsDistinct, filter-IsDistinct,
  map-IsDistinct, Uuid, Bool-cases, inl, inr,
}
use financial_os.Base.Int.{
  ℤ, pos, negsuc, ◌+ℤ◌, ◌≤ℤ◌, eqb_ℤ, eqb_ℤ_iff, sum_ℤ, +ℤ_assoc, +ℤ_zero, zero_+ℤ,
}
use financial_os.Errors.{Result, ok, fail_with, invariant, total, Attempt, returned, ◌>>=◌}
use financial_os.Money.Values.{integer}
use financial_os.Money.Allocation.{
  AllocationWeight, AllocationResult, allocate_by_largest_remainder,
}
use financial_os.Money.Allocation.Total.{has_weight, IsWeight, sum-allocate, allocate_returns}

abbrev pub full_bp : ℕ
full_bp = 10000

-- Also a `ContributionWeight`, which has the same two fields.
pub record ResponsibilityShare : Type 0 where
  pub membership_id : Uuid
  pub percentage_bp : ℤ

-- `{ membershipId, weightBp: percentageBp }`
abbrev pub weight_of : ResponsibilityShare → AllocationWeight
weight_of s = record { membership_id = s.membership_id; weight_bp = integer s.percentage_bp }

abbrev pub equal_weight : ResponsibilityShare → AllocationWeight
equal_weight s = record { membership_id = s.membership_id; weight_bp = integer (pos 1) }

abbrev pub is_zero_weight : ResponsibilityShare → Bool
is_zero_weight s = eqb_ℤ s.percentage_bp (pos 0)

-- The weights as they go to the allocator: equal ones, if all are zero.
abbrev pub normalized : List ResponsibilityShare → List AllocationWeight
normalized weights =
    if all is_zero_weight weights then map equal_weight weights else map weight_of weights

abbrev pub share_of : AllocationResult → ResponsibilityShare
share_of r = record { membership_id = r.membership_id; percentage_bp = pos r.amount_cents }

unfoldable pub allocate_bp : List ResponsibilityShare → Attempt (List ResponsibilityShare)
allocate_bp weights = allocate_by_largest_remainder (pos full_bp) (normalized weights) >>= λ rs.
    returned (map share_of rs)

unfoldable pub default_responsibilities :
    List ResponsibilityShare → Attempt (List ResponsibilityShare)
unfolding allocate_bp
default_responsibilities [] = returned []
default_responsibilities (c ∷ cs) = allocate_bp (c ∷ cs)

sum_from : ℤ → List ResponsibilityShare → ℤ
sum_from sum [] = sum
sum_from sum (s ∷ ss) = sum_from (sum +ℤ s.percentage_bp) ss

unfoldable pub validate_sum_to_100 : List ResponsibilityShare → Result (Unit {0})
unfolding sum_from
validate_sum_to_100 shares =
    let sum = sum_from (pos 0) shares in
    if not (eqb_ℤ sum (pos full_bp)) then fail_with invariant (total sum) else ok tt

abbrev pub stays : Uuid → ResponsibilityShare → Bool
stays leaving s = not (s.membership_id == leaving)

unfoldable pub reassign_on_leave :
    List ResponsibilityShare → Uuid → Attempt (List ResponsibilityShare)
unfolding allocate_bp
reassign_on_leave shares leaving =
    let remaining = filter (stays leaving) shares in
    elim remaining [ [] ↦ returned [] | s ∷ ss ↦ allocate_bp (s ∷ ss) ]

sum_from-eq-sum :
    (ss : List ResponsibilityShare) (z : ℤ) → sum_from z ss ≡ z +ℤ sum_ℤ (λ s. s.percentage_bp) ss
unfolding sum_from
sum_from-eq-sum [] z = sym (+ℤ_zero z)
sum_from-eq-sum (s ∷ ss) z = sum_from-eq-sum ss (z +ℤ s.percentage_bp) ∙ +ℤ_assoc z _ _

pub validate_of_sum :
    (ss : List ResponsibilityShare)
    → sum_ℤ (λ s. s.percentage_bp) ss ≡ pos full_bp
    → validate_sum_to_100 ss ≡ ok tt
unfolding validate_sum_to_100
validate_of_sum ss h = rw (sum_from-eq-sum ss (pos 0) ∙ zero_+ℤ _ ∙ h)

pub sum_of_validate :
    (ss : List ResponsibilityShare)
    → validate_sum_to_100 ss ≡ ok tt
    → sum_ℤ (λ s. s.percentage_bp) ss ≡ pos full_bp
unfolding validate_sum_to_100
sum_of_validate ss h = elim (Bool-cases (eqb_ℤ (sum_from (pos 0) ss) (pos full_bp))) [
  | inl same ↦ sym (zero_+ℤ _) ∙ sym (sum_from-eq-sum ss (pos 0)) ∙ (eqb_ℤ_iff _ _).0 same
  | inr other ↦ let refused = rw other at h in absurd (cc)
]

pub sum-share_of :
    (rs : List AllocationResult)
    → sum_ℤ (λ s. s.percentage_bp) (map share_of rs) ≡ pos (sum_by (λ r. r.amount_cents) rs)
unfolding ◌+ℤ◌
sum-share_of [] = refl
sum-share_of (r ∷ rs) = rw (sum-share_of rs) (ground arith)

abbrev pub IsNonneg : ResponsibilityShare → Type 0
IsNonneg s = pos 0 ≤ℤ s.percentage_bp

nonneg-IsWeight : (z : ℤ) → pos 0 ≤ℤ z → (n : ℕ) × (integer z ≡ integer (pos n))
nonneg-IsWeight (pos n) h = (n, refl)
nonneg-IsWeight (negsuc n) h = absurd (omega arith)

pub weights-IsWeight :
    (ss : List ResponsibilityShare) → All IsNonneg ss → All IsWeight (map weight_of ss)
weights-IsWeight [] h = tt
weights-IsWeight (s ∷ ss) (h, hs) = (nonneg-IsWeight s.percentage_bp h, weights-IsWeight ss hs)

equal-IsWeight : (ss : List ResponsibilityShare) → All IsWeight (map equal_weight ss)
equal-IsWeight [] = tt
equal-IsWeight (s ∷ ss) = ((1, refl), equal-IsWeight ss)

pub some_weight :
    (ss : List ResponsibilityShare)
    → All IsNonneg ss
    → all is_zero_weight ss ≡ false
    → any has_weight (map weight_of ss) ≡ true
some_weight [] h e = cc
some_weight (s ∷ ss) (h, hs) e = elim (Bool-cases (is_zero_weight s)) [
  | inl zero_weight ↦
      let rest : all is_zero_weight ss ≡ false = rw zero_weight at e in
      ground (arith, some_weight ss hs rest)
  | inr above ↦ ground arith
]

normalized-IsWeight :
    (ss : List ResponsibilityShare) → All IsNonneg ss → All IsWeight (normalized ss)
normalized-IsWeight ss h = elim (Bool-cases (all is_zero_weight ss)) [
  | inl zeros ↦ rw zeros (equal-IsWeight ss)
  | inr some ↦ rw some (weights-IsWeight ss h)
]

normalized-has_weight :
    (s : ResponsibilityShare) (ss : List ResponsibilityShare)
    → All IsNonneg (s ∷ ss)
    → any has_weight (normalized (s ∷ ss)) ≡ true
normalized-has_weight s ss h = elim (Bool-cases (all is_zero_weight (s ∷ ss))) [
  | inl zeros ↦ rw zeros
  | inr some ↦ rw some (some_weight (s ∷ ss) h some)
]

normalized-IsDistinct :
    (ss : List ResponsibilityShare)
    → IsDistinct (λ s. s.membership_id) ss
    → IsDistinct (λ w. w.membership_id) (normalized ss)
normalized-IsDistinct ss d = elim (Bool-cases (all is_zero_weight ss)) [
  | inl zeros ↦ rw zeros (map-IsDistinct (λ w. w.membership_id) equal_weight ss d)
  | inr some ↦ rw some (map-IsDistinct (λ w. w.membership_id) weight_of ss d)
]

pub share_of-IsNonneg : (rs : List AllocationResult) → All IsNonneg (map share_of rs)
share_of-IsNonneg [] = tt
share_of-IsNonneg (r ∷ rs) = (omega arith, share_of-IsNonneg rs)

-- For distinct members with percentages of zero or more, of whom there is one at least, the split
-- is given and adds up to exactly 10000 points.
pub allocate_bp_exact :
    (s : ResponsibilityShare) (ss : List ResponsibilityShare)
    → All IsNonneg (s ∷ ss)
    → IsDistinct (λ s. s.membership_id) (s ∷ ss)
    → (out : List ResponsibilityShare) × (allocate_bp (s ∷ ss) ≡ returned out)
      × (sum_ℤ (λ s. s.percentage_bp) out ≡ pos full_bp)
      × All IsNonneg out
unfolding allocate_bp
allocate_bp_exact s ss h d =
    let ws = normalized (s ∷ ss) in
    let (rs, e) = allocate_returns full_bp ws (normalized-IsWeight (s ∷ ss) h) in
    let exact =
      sum-allocate full_bp ws e (normalized-IsDistinct (s ∷ ss) d) (normalized-has_weight s ss h) in
    (map share_of rs, rw e, sum-share_of rs ∙ ap pos exact, share_of-IsNonneg rs)

-- Default responsibilities of one or more distinct members with percentages of zero or more sum to
-- exactly 100%, also when all percentages are zero.
pub default_responsibilities_exact :
    (c : ResponsibilityShare) (cs : List ResponsibilityShare)
    → All IsNonneg (c ∷ cs)
    → IsDistinct (λ s. s.membership_id) (c ∷ cs)
    → (out : List ResponsibilityShare) × (default_responsibilities (c ∷ cs) ≡ returned out)
      × (validate_sum_to_100 out ≡ ok tt)
unfolding default_responsibilities
default_responsibilities_exact c cs h d =
    let (out, e, exact, _) = allocate_bp_exact c cs h d in (out, e, validate_of_sum out exact)

abbrev reassigned_to : List ResponsibilityShare → Attempt (List ResponsibilityShare)
reassigned_to remaining = elim remaining [ [] ↦ returned [] | s ∷ ss ↦ allocate_bp (s ∷ ss) ]

reassigned :
    (rest : List ResponsibilityShare)
    → All IsNonneg rest
    → IsDistinct (λ s. s.membership_id) rest
    → ((rest ≡ []) × (reassigned_to rest ≡ returned []))
      ⊎ ((rest ≢ [])
          × ((out : List ResponsibilityShare) × (reassigned_to rest ≡ returned out)
              × (validate_sum_to_100 out ≡ ok tt)
              × All IsNonneg out))
reassigned [] h d = inl (refl, refl)
reassigned (s ∷ ss) h d =
    let (out, e, exact, nonneg) = allocate_bp_exact s ss h d in
    inr ((λ e. cc), (out, e, validate_of_sum out exact, nonneg))

-- When a member leaves, the others take over: for distinct members with percentages of zero or more
-- of whom some other remains, the reassigned shares sum to exactly 100% and are not negative, and
-- if nobody remains there are no shares.
pub reassign_on_leave_exact :
    (shares : List ResponsibilityShare) (leaving : Uuid)
    → All IsNonneg shares
    → IsDistinct (λ s. s.membership_id) shares
    → ((filter (stays leaving) shares ≡ []) × (reassign_on_leave shares leaving ≡ returned []))
      ⊎ ((filter (stays leaving) shares ≢ [])
          × ((out : List ResponsibilityShare) × (reassign_on_leave shares leaving ≡ returned out)
              × (validate_sum_to_100 out ≡ ok tt)
              × All IsNonneg out))
unfolding reassign_on_leave
reassign_on_leave_exact shares leaving h d =
    reassigned (filter (stays leaving) shares) (All-filter IsNonneg (stays leaving) shares h)
      (filter-IsDistinct (λ s. s.membership_id) (stays leaving) shares d)
