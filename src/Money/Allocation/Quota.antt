-- ===== src/Money/Allocation/Quota.antt =====
-- The first step of the allocation: floors and remainders, and how many cents are left over.
use financial_os.Base.{
  ℕ, ◌+◌, ◌-◌, ◌*◌, ◌/◌, ◌≤◌, ◌<◌, ◌≡◌, ap, List, [], ◌∷◌, map, arith, sum_by, length, length-map,
  All,
}
use native.Mathlib.Nat.{div-add-mod, mod-lt, le_of_mul-le-mul_right}
use financial_os.Money.Allocation.{
  Share, Provisional, provisional_of, provisional, total_weight, allocated,
}

abbrev pub remainders : List Provisional → ℕ
remainders = sum_by (λ p. p.remainder)

floor_and_remainder : (n w : ℕ) → 0 < w → (n / w * w + (n - n / w * w) ≡ n) × (n - n / w * w < w)
floor_and_remainder n w h = grind (arith, div-add-mod n w, mod-lt n h)

-- `floor_i * W + remainder_i` is the numerator, and the remainder is below `W`.
pub provisional_of_lem :
    (total weight : ℕ) (s : Share)
    → 0 < weight
    → let p = provisional_of total weight s in
      (p.amount_cents * weight + p.remainder ≡ total * s.weight) × (p.remainder < weight)
provisional_of_lem total weight s h = floor_and_remainder (total * s.weight) weight h

module _ (total weight : ℕ) (positive : 0 < weight) where
  abbrev parts : List Share → List Provisional
  parts = map (provisional_of total weight)

  pub allocated-remainders :
      (shares : List Share)
      → allocated (parts shares) * weight + remainders (parts shares) ≡ total * total_weight shares
  allocated-remainders [] = omega arith
  allocated-remainders (s ∷ shares) =
      grind (arith, provisional_of_lem total weight s positive, allocated-remainders shares)

  pub remainders-le : (shares : List Share) → remainders (parts shares) ≤ weight * length shares
  remainders-le [] = omega arith
  remainders-le (s ∷ shares) =
      omega (arith, provisional_of_lem total weight s positive, remainders-le shares)

  pub remainders_below : (shares : List Share) → All (λ p. p.remainder < weight) (parts shares)
  remainders_below [] = tt
  remainders_below (s ∷ shares) =
      ((provisional_of_lem total weight s positive).1, remainders_below shares)

difference_lem : (t a w r : ℕ) → 0 < w → a * w + r ≡ t * w → (a + (t - a) ≡ t) × ((t - a) * w ≡ r)
difference_lem t a w r h e =
    let le : a ≤ t = le_of_mul-le-mul_right {m = a} {n = t} {k = w} (omega arith) h in
    let split : a + (t - a) ≡ t = omega arith in (split, omega (arith, ap (λ (n : ℕ). n * w) split))

quotient_le : (k w r n : ℕ) → 0 < w → k * w ≡ r → r ≤ w * n → k ≤ n
quotient_le k w r n h e le = le_of_mul-le-mul_right {m = k} {n = n} {k = w} (omega arith) h

module _ (total : ℕ) (shares : List Share) (positive : 0 < total_weight shares) where
  -- The cents left over after rounding down.
  abbrev pub residual : ℕ
  residual = total - allocated (provisional total shares)

  -- The floors never exceed the total, and the residual times the total weight is the sum of the
  -- remainders.
  pub residual_lem :
      (allocated (provisional total shares) + residual ≡ total)
      × (residual * total_weight shares ≡ remainders (provisional total shares))
  residual_lem =
      difference_lem total (allocated (provisional total shares)) (total_weight shares) _ positive
        (allocated-remainders total (total_weight shares) positive shares)

  pub residual-le-length : residual ≤ length (provisional total shares)
  residual-le-length = rw (length-map (provisional_of total (total_weight shares)) shares) (
      quotient_le _ (total_weight shares) _ (length shares) positive residual_lem.1
        (remainders-le total (total_weight shares) positive shares))
