-- ===== src/Contributions/Redistribution.antt =====
-- `redistribution.ts`: versions of a plan, and which sets of percentages are well formed.
use financial_os.Base.{
  sym, subst, All-map_into, ℕ, ◌+◌, ◌≡◌, ◌≢◌, ◌↔◌, refl, Bool, true, false, not, ◌||◌, Option, none,
  some, List, [], ◌∷◌, arith, if◌then◌else◌, ◌==◌, All, IsAbsent, IsDistinct, Uuid, Bool-cases, inl,
  inr,
}
use financial_os.Base.Int.{◌≤ℤ◌, ℤ, pos, ltb_ℤ}
use financial_os.Errors.{Result, ok, fail, validation}
use financial_os.Money.Values.{Number, integer, fractional}

pub record RedistributionAllocation : Type 0 where
  pub membership_id : Uuid
  pub percentage_bp : Number

unfoldable pub next_plan_version : Option ℕ → ℕ
next_plan_version none = 1
next_plan_version (some v) = v + 1

-- `seen.has(id)`
abbrev pub seen_has : Uuid → List Uuid → Bool
seen_has id [] = false
seen_has id (s ∷ seen) = s == id || seen_has id seen

abbrev pub in_range : Number → Bool
in_range fractional = false
in_range (integer bp) = not (ltb_ℤ bp (pos 0) || ltb_ℤ (pos 10000) bp)

-- The loop, over the members seen so far.
unfoldable pub check_allocations : List Uuid → List RedistributionAllocation → Result (Unit {0})
check_allocations seen [] = ok tt
check_allocations seen (a ∷ as') =
    let rest = check_allocations (a.membership_id ∷ seen) as' in
    if seen_has a.membership_id seen
    then fail validation
    else if in_range a.percentage_bp
    then rest
    else fail validation

unfoldable pub validate_redistribution : List RedistributionAllocation → Result (Unit {0})
unfolding check_allocations
validate_redistribution [] = fail validation
validate_redistribution (a ∷ as') = check_allocations [] (a ∷ as')

abbrev pub id_of : RedistributionAllocation → Uuid
id_of a = a.membership_id

abbrev pub IsAccepted : RedistributionAllocation → Type 0
IsAccepted a = in_range a.percentage_bp ≡ true

abbrev IsUnseen : List Uuid → RedistributionAllocation → Type 0
IsUnseen seen a = seen_has a.membership_id seen ≡ false

-- The state of the loop: what is left is distinct, in range, and was not seen before.
abbrev Passes : List Uuid → List RedistributionAllocation → Type 0
Passes seen as' = All (IsUnseen seen) as' × IsDistinct id_of as' × All IsAccepted as'

IsUnseen-split :
    (k : Uuid) (seen : List Uuid) (as' : List RedistributionAllocation)
    → All (IsUnseen (k ∷ seen)) as'
    → IsAbsent id_of k as' × All (IsUnseen seen) as'
IsUnseen-split k seen [] h = (tt, tt)
IsUnseen-split k seen (a ∷ as') (h, hs) =
    let (absent, unseen) = IsUnseen-split k seen as' hs in
    ((ground arith, absent), (ground arith, unseen))

IsUnseen-join :
    (k : Uuid) (seen : List Uuid) (as' : List RedistributionAllocation)
    → IsAbsent id_of k as'
    → All (IsUnseen seen) as'
    → All (IsUnseen (k ∷ seen)) as'
IsUnseen-join k seen [] a h = tt
IsUnseen-join k seen (b ∷ as') (ne, a) (h, hs) = (ground arith, IsUnseen-join k seen as' a hs)

check_sound :
    (seen : List Uuid) (as' : List RedistributionAllocation)
    → check_allocations seen as' ≡ ok tt
    → Passes seen as'
unfolding check_allocations
check_sound seen [] h = (tt, tt, tt)
check_sound seen (a ∷ as') h = elim (Bool-cases (seen_has a.membership_id seen)) [
  | inl again ↦ let refused = rw again at h in cc
  | inr new ↦ elim (Bool-cases (in_range a.percentage_bp)) [
    | inl good ↦
        let (later, distinct, ranges) =
          check_sound (a.membership_id ∷ seen) as' (rw (new, good) at h) in
        let (absent, unseen) = IsUnseen-split a.membership_id seen as' later in
        ((new, unseen), (absent, distinct), (good, ranges))
    | inr bad ↦ let refused = rw (new, bad) at h in cc
  ]
]

check_complete :
    (seen : List Uuid) (as' : List RedistributionAllocation)
    → Passes seen as'
    → check_allocations seen as' ≡ ok tt
unfolding check_allocations
check_complete seen [] h = refl
check_complete seen (a ∷ as') ((new, unseen), (absent, distinct), (good, ranges)) =
    rw (new, good)
      (check_complete (a.membership_id ∷ seen) as'
        (IsUnseen-join a.membership_id seen as' absent unseen, distinct, ranges))

none_seen : (as' : List RedistributionAllocation) → All (IsUnseen []) as'
none_seen [] = tt
none_seen (a ∷ as') = (refl, none_seen as')

-- An integer from 0 to 10000.
abbrev pub IsInRange : RedistributionAllocation → Type 0
IsInRange a = (z : ℤ) × (a.percentage_bp ≡ integer z) × (pos 0 ≤ℤ z) × (z ≤ℤ pos 10000)

in_range_sound :
    (n : Number) → in_range n ≡ true → (z : ℤ) × (n ≡ integer z) × (pos 0 ≤ℤ z) × (z ≤ℤ pos 10000)
in_range_sound fractional h = cc
in_range_sound (integer z) h = (z, refl, ground arith, ground arith)

in_range_complete : (z : ℤ) → pos 0 ≤ℤ z → z ≤ℤ pos 10000 → in_range (integer z) ≡ true
in_range_complete z low high = ground arith

-- A redistribution is accepted exactly when it has an allocation, names no member twice, and every
-- percentage is an integer from 0 to 10000.
pub validate_redistribution_iff :
    (as' : List RedistributionAllocation)
    → (validate_redistribution as' ≡ ok tt)
      ↔ ((as' ≢ []) × IsDistinct id_of as' × All IsInRange as')
unfolding validate_redistribution
validate_redistribution_iff [] = ((λ h. cc), λ h. absurd (h.0 refl))
validate_redistribution_iff (a ∷ as') = (
  (λ h.
      let passes = check_sound [] (a ∷ as') h in
      (
        (λ e. cc),
        passes.1,
        All-map_into _ _ (λ x r. in_range_sound x.percentage_bp r) (a ∷ as') passes.2,
      )),
  λ h. check_complete [] (a ∷ as') (
    none_seen (a ∷ as'),
    h.1,
    All-map_into _ _
        (λ x (z, e, low, high).
          subst (λ n. in_range n ≡ true) (sym e) (in_range_complete z low high))
        (a ∷ as') h.2,
  ),
)
