-- ===== src/Contributions/Cap.antt =====
-- `cross-profile-cap.ts`: at most 100% of a member's income over all profiles.
use financial_os.Base.{
  ◌≡◌, ◌≢◌, ◌↔◌, refl, inl, inr, sym, ap, subst, ◌∙◌, Bool, true, false, not, ◌||◌, List, [], ◌∷◌,
  arith, if◌then◌else◌, ◌==◌, filter, Uuid, Bool-cases, ltb→lt,
}
use financial_os.Base.Int.{
  ℤ, pos, ◌+ℤ◌, ◌-ℤ◌, ◌≤ℤ◌, ltb_ℤ, int_laws, sum_ℤ, +ℤ_assoc, +ℤ_comm, +ℤ_zero, zero_+ℤ,
}
use financial_os.Errors.{
  Result, DomainError, ok, err, fail, fail_with, validation, cap_exceeded, cap,
}
use financial_os.Money.Values.{Number, integer, fractional}

abbrev pub full_allocation_bp : ℤ
full_allocation_bp = pos 10000

-- A stored percentage is an integer column.
pub record ProfileCommitment : Type 0 where
  pub shared_profile_id : Uuid
  pub percentage_bp : ℤ

unfoldable pub committed_from : ℤ → List ProfileCommitment → ℤ
committed_from sum [] = sum
committed_from sum (c ∷ cs) = committed_from (sum +ℤ c.percentage_bp) cs

unfoldable pub committed_total_bp : List ProfileCommitment → ℤ
unfolding committed_from
committed_total_bp = committed_from (pos 0)

abbrev max_ℤ : ℤ → ℤ → ℤ
max_ℤ a b = if ltb_ℤ a b then b else a

unfoldable pub remaining_bp : List ProfileCommitment → ℤ
remaining_bp commitments = max_ℤ (pos 0) (full_allocation_bp -ℤ committed_total_bp commitments)

abbrev pub is_other : Uuid → ProfileCommitment → Bool
is_other target c = not (c.shared_profile_id == target)

abbrev pub out_of_range : ℤ → Bool
out_of_range bp = ltb_ℤ bp (pos 0) || ltb_ℤ full_allocation_bp bp

unfoldable pub check_allocation_within_cap :
    List ProfileCommitment → Uuid → Number → Result (Unit {0})
check_allocation_within_cap current target fractional = fail validation
check_allocation_within_cap current target (integer new_bp) =
    let others_total = committed_total_bp (filter (is_other target) current) in
    if out_of_range new_bp
    then fail validation
    else if ltb_ℤ full_allocation_bp (others_total +ℤ new_bp)
    then fail_with cap_exceeded
        (cap (max_ℤ (pos 0) (full_allocation_bp -ℤ others_total)) new_bp others_total)
    else ok tt

committed_from-eq-sum :
    (cs : List ProfileCommitment) (s : ℤ)
    → committed_from s cs ≡ s +ℤ sum_ℤ (λ c. c.percentage_bp) cs
unfolding committed_from
committed_from-eq-sum [] s = sym (+ℤ_zero s)
committed_from-eq-sum (c ∷ cs) s = committed_from-eq-sum cs (s +ℤ c.percentage_bp) ∙ +ℤ_assoc s _ _

pub committed_total_bp-eq-sum :
    (cs : List ProfileCommitment) → committed_total_bp cs ≡ sum_ℤ (λ c. c.percentage_bp) cs
unfolding committed_total_bp
committed_total_bp-eq-sum cs = committed_from-eq-sum cs (pos 0) ∙ zero_+ℤ _

-- The decision of the check, for a total `t` elsewhere.
abbrev decide : ℤ → ℤ → DomainError → Result (Unit {0})
decide bp t e =
    if out_of_range bp
    then fail validation
    else if ltb_ℤ full_allocation_bp (t +ℤ bp)
    then err e
    else ok tt

not_above : (z : ℤ) → ltb_ℤ full_allocation_bp z ≡ false → z ≤ℤ pos 10000
not_above z h = ground arith

at_most : (z : ℤ) → z ≤ℤ pos 10000 → ltb_ℤ full_allocation_bp z ≡ false
at_most z h = ground arith

decide_ok :
    (bp t : ℤ) (e : DomainError)
    → decide bp t e ≡ ok tt
    → (pos 0 ≤ℤ bp) × (bp ≤ℤ pos 10000) × (bp +ℤ t ≤ℤ pos 10000)
decide_ok bp t e h =
    let swapped = +ℤ_comm t bp in
    elim (Bool-cases (out_of_range bp)) [
      | inl bad ↦ let refused = rw bad at h in cc
      | inr good ↦ elim (Bool-cases (ltb_ℤ full_allocation_bp (t +ℤ bp))) [
        | inl over ↦ let refused = rw (good, over) at h in cc
        | inr within ↦
            (ground arith, ground arith, subst (λ z. z ≤ℤ pos 10000) swapped (not_above _ within))
      ]
    ]

decide_within :
    (bp t : ℤ) (e : DomainError)
    → (pos 0 ≤ℤ bp) × (bp ≤ℤ pos 10000) × (bp +ℤ t ≤ℤ pos 10000)
    → decide bp t e ≡ ok tt
decide_within bp t e (low, high, fits) =
    let in_range : out_of_range bp ≡ false = ground arith in
    let within : ltb_ℤ full_allocation_bp (t +ℤ bp) ≡ false =
      at_most _ (subst (λ z. z ≤ℤ pos 10000) (+ℤ_comm bp t) fits) in
    rw (in_range, within)

decide_iff :
    (bp t : ℤ) (e : DomainError)
    → (decide bp t e ≡ ok tt) ↔ ((pos 0 ≤ℤ bp) × (bp ≤ℤ pos 10000) × (bp +ℤ t ≤ℤ pos 10000))
decide_iff bp t e = (decide_ok bp t e, decide_within bp t e)

-- What the member commits to all profiles but one.
abbrev pub elsewhere_of : Uuid → List ProfileCommitment → ℤ
elsewhere_of target = sum_ℤ (λ c. if c.shared_profile_id == target then pos 0 else c.percentage_bp)

others-eq-sum :
    (target : Uuid) (cs : List ProfileCommitment)
    → sum_ℤ (λ c. c.percentage_bp) (filter (is_other target) cs) ≡ elsewhere_of target cs
others-eq-sum target [] = refl
others-eq-sum target (c ∷ cs) = elim (Bool-cases (c.shared_profile_id == target)) [
  | inl own ↦ rw own (others-eq-sum target cs ∙ sym (zero_+ℤ _))
  | inr other ↦ rw other (ap (λ z. c.percentage_bp +ℤ z) (others-eq-sum target cs))
]

pub check_beside :
    (current : List ProfileCommitment) (target : Uuid) (bp : ℤ)
    → (check_allocation_within_cap current target (integer bp) ≡ ok tt) ↔ (
        (pos 0 ≤ℤ bp)
        × (bp ≤ℤ pos 10000)
        × (bp +ℤ committed_total_bp (filter (is_other target) current) ≤ℤ pos 10000))
unfolding check_allocation_within_cap
check_beside current target bp =
    decide_iff bp (committed_total_bp (filter (is_other target) current)) _

check_lem :
    (current : List ProfileCommitment) (target : Uuid) (bp : ℤ)
    → (check_allocation_within_cap current target (integer bp) ≡ ok tt)
      ↔ ((pos 0 ≤ℤ bp) × (bp ≤ℤ pos 10000) × (bp +ℤ elsewhere_of target current ≤ℤ pos 10000))
check_lem current target bp =
    subst
      (λ t.
        (check_allocation_within_cap current target (integer bp) ≡ ok tt)
        ↔ ((pos 0 ≤ℤ bp) × (bp ≤ℤ pos 10000) × (bp +ℤ t ≤ℤ pos 10000)))
      (committed_total_bp-eq-sum (filter (is_other target) current) ∙ others-eq-sum target current)
      (check_beside current target bp)

pub no_fraction :
    (current : List ProfileCommitment) (target : Uuid)
    → check_allocation_within_cap current target fractional ≢ ok tt
unfolding check_allocation_within_cap
no_fraction current target h = cc

-- The check accepts a number exactly when it is an integer from 0 to 10000 that, together with what the
-- member commits to all profiles but the target, stays within 10000.
pub check_allocation_iff :
    (current : List ProfileCommitment) (target : Uuid) (bp : Number)
    → (check_allocation_within_cap current target bp ≡ ok tt) ↔ (
        (z : ℤ) × (bp ≡ integer z)
        × (pos 0 ≤ℤ z)
        × (z ≤ℤ pos 10000)
        × (z +ℤ elsewhere_of target current ≤ℤ pos 10000))
check_allocation_iff current target fractional =
    ((λ h. absurd (no_fraction current target h)), (λ (z, e, low, high, fits). cc))
check_allocation_iff current target (integer bp) = (
  (λ h. let (low, high, fits) = (check_lem current target bp).0 h in (bp, refl, low, high, fits)),
  (λ (z, e, low, high, fits).
      let same : z ≡ bp = cc in
      (check_lem current target bp).1 (
        subst
          (λ b. (pos 0 ≤ℤ b) × (b ≤ℤ pos 10000) × (b +ℤ elsewhere_of target current ≤ℤ pos 10000))
          same (low, high, fits))),
)

-- 100% less what is taken elsewhere.
abbrev headroom_of : ℤ → ℤ
headroom_of t = max_ℤ (pos 0) (full_allocation_bp -ℤ t)

decide_cap :
    (bp t : ℤ) {headroom requested elsewhere : ℤ}
    → decide bp t (record { code = cap_exceeded; details = cap (headroom_of t) bp t })
      ≡ fail_with cap_exceeded (cap headroom requested elsewhere)
    → (requested ≡ bp) × (elsewhere ≡ t) × (headroom ≡ headroom_of t)
decide_cap bp t h = elim (Bool-cases (out_of_range bp)) [
  | inl bad ↦ let refused = rw bad at h in cc
  | inr good ↦ elim (Bool-cases (ltb_ℤ full_allocation_bp (t +ℤ bp))) [
    | inl over ↦ let refused = rw (good, over) at h in (cc, cc, cc)
    | inr within ↦ let refused = rw (good, within) at h in cc
  ]
]

headroom_fits :
    (t : ℤ)
    → pos 0 ≤ℤ t
    → t ≤ℤ pos 10000
    → (pos 0 ≤ℤ headroom_of t) × (headroom_of t ≤ℤ pos 10000) × (headroom_of t +ℤ t ≤ℤ pos 10000)
headroom_fits t low high = elim (Bool-cases (ltb_ℤ (pos 0) (full_allocation_bp -ℤ t))) [
  | inl some_left ↦ rw some_left (omega int_laws)
  | inr none_left ↦
      let full : full_allocation_bp -ℤ t ≤ℤ pos 0 = ground arith in rw none_left (omega int_laws)
]

headroom_full :
    (t b : ℤ)
    → pos 0 ≤ℤ t
    → t ≤ℤ pos 10000
    → ltb_ℤ (headroom_of t) b ≡ true
    → b +ℤ t ≤ℤ pos 10000
    → ⊥
headroom_full t b low high above fits =
    elim (Bool-cases (ltb_ℤ (pos 0) (full_allocation_bp -ℤ t))) [
      | inl some_left ↦
          let more : ltb_ℤ (full_allocation_bp -ℤ t) b ≡ true = rw some_left at above in
          absurd (omega (int_laws, ltb→lt _ _ more))
      | inr none_left ↦
          let more : ltb_ℤ (pos 0) b ≡ true = rw none_left at above in
          let full : full_allocation_bp -ℤ t ≤ℤ pos 0 = ground arith in
          absurd (omega (int_laws, ltb→lt _ _ more))
    ]

-- A refusal for the cap names the headroom beside the other profiles: where these take between 0 and
-- 10000 points, setting the allocation to the headroom is accepted, and to any value `b` above it is not.
pub check_allocation_headroom :
    (current : List ProfileCommitment) (target : Uuid) (bp b : ℤ) {headroom requested elsewhere : ℤ}
    → check_allocation_within_cap current target (integer bp)
      ≡ fail_with cap_exceeded (cap headroom requested elsewhere)
    → pos 0 ≤ℤ elsewhere
    → elsewhere ≤ℤ pos 10000
    → ltb_ℤ headroom b ≡ true
    → (requested ≡ bp)
      × (elsewhere ≡ committed_total_bp (filter (is_other target) current))
      × (check_allocation_within_cap current target (integer headroom) ≡ ok tt)
      × (check_allocation_within_cap current target (integer b) ≢ ok tt)
unfolding check_allocation_within_cap
check_allocation_headroom current target bp b h low high above =
    let t = committed_total_bp (filter (is_other target) current) in
    let (same, same', e) = decide_cap bp t h in
    let low' : pos 0 ≤ℤ t = subst (λ z. pos 0 ≤ℤ z) same' low in
    let high' : t ≤ℤ pos 10000 = subst (λ z. z ≤ℤ pos 10000) same' high in
    rw e (
      same,
      same',
      decide_within _ t _ (headroom_fits t low' high'),
      λ accepted.
          headroom_full t b low' high' (subst (λ z. ltb_ℤ z b ≡ true) e above)
            (decide_ok b t _ accepted).2,
    )
