-- ===== src/Money/Percentage.antt =====
-- The class `Percentage` of `common/money/percentage.ts`.
use financial_os.Base.{
  ℕ, ◌+◌, ◌*◌, ◌/◌, zero, suc, ◌≤◌, ◌<◌, ◌≡◌, refl, Bool, ◌||◌, arith, if◌then◌else◌, Bool-cases,
  inl, inr, ap, subst,
}
use financial_os.Base.Int.{ℤ, pos, negsuc, ◌+ℤ◌, ◌-ℤ◌, ◌*ℤ◌, ◌≤ℤ◌, ltb_ℤ, div_trunc, pos_part}
use financial_os.Errors.{Attempt, returned, threw, type_error, range_error, returned_injective}
use financial_os.Money.Values.{Number, integer, fractional}

abbrev pub basis_points_scale : ℕ
basis_points_scale = 10000

pub record Percentage : Type 0 where
  pub basis_points : ℤ

abbrev out_of_range : ℤ → Bool
out_of_range bp = ltb_ℤ bp (pos 0) || ltb_ℤ (pos 10000) bp

unfoldable pub from_basis_points : Number → Attempt Percentage
from_basis_points fractional = threw type_error
from_basis_points (integer bp) =
    if out_of_range bp then threw range_error else returned (record { basis_points = bp })

pub zero_percentage : Percentage
zero_percentage = record { basis_points = pos 0 }

unfoldable pub apply_to_cents : Percentage → ℤ → ℤ
apply_to_cents p amount = div_trunc (amount *ℤ p.basis_points) basis_points_scale

pub plus : Percentage → Percentage → Attempt Percentage
unfolding from_basis_points
plus p other = from_basis_points (integer (p.basis_points +ℤ other.basis_points))

-- `fromBasisPoints` gives a percentage exactly for the integers from 0 to 10000.
pub from_basis_points_range :
    (n : Number) {p : Percentage}
    → from_basis_points n ≡ returned p
    → (n ≡ integer p.basis_points) × (pos 0 ≤ℤ p.basis_points) × (p.basis_points ≤ℤ pos 10000)
unfolding from_basis_points
from_basis_points_range fractional h = cc
from_basis_points_range (integer bp) {p} h = elim (Bool-cases (out_of_range bp)) [
  | inl bad ↦ let no_value = rw bad at h in cc
  | inr good ↦
      let e : bp ≡ p.basis_points =
        ap (λ (q : Percentage). q.basis_points) (returned_injective (rw good at h)) in
      rw (← e) (refl, ground arith, ground arith)
]

pub from_basis_points_valid :
    (b : ℕ)
    → b ≤ 10000
    → from_basis_points (integer (pos b)) ≡ returned (record { basis_points = pos b })
unfolding from_basis_points
from_basis_points_valid b h = ground arith

mul-div-le : (a b : ℕ) → b ≤ 10000 → a * b / 10000 ≤ a
mul-div-le a b h = grind arith

nonneg-eq-pos : (z : ℤ) → pos 0 ≤ℤ z → z ≡ pos (pos_part z)
nonneg-eq-pos (pos n) h = refl
nonneg-eq-pos (negsuc n) h = absurd (omega arith)

-- On amounts that are not negative the product is divided and floored.
apply_to_cents-pos :
    (p : Percentage) (a b : ℕ)
    → p.basis_points ≡ pos b
    → apply_to_cents p (pos a) ≡ pos (a * b / 10000)
unfolding apply_to_cents ◌*ℤ◌ div_trunc
apply_to_cents-pos p a b h = rw h (ground arith)

-- On others it is the opposite of that.
apply_to_cents-neg :
    (p : Percentage) (a b : ℕ)
    → p.basis_points ≡ pos b
    → apply_to_cents p (pos 0 -ℤ pos a) ≡ pos 0 -ℤ pos (a * b / 10000)
unfolding apply_to_cents ◌*ℤ◌ ◌-ℤ◌ div_trunc
apply_to_cents-neg p zero b h = rw h (ground arith)
apply_to_cents-neg p (suc a) b h = rw h (ground arith)

-- A percentage of a non-negative amount is the exact product rounded down to a whole cent: it lies
-- between 0 and the amount, and misses the exact value by less than a cent. Of a negative amount it
-- is the opposite of the percentage of the opposite amount, so there it is rounded up.
pub apply_to_cents_rounding :
    (n : Number) {p : Percentage} (a : ℕ)
    → from_basis_points n ≡ returned p
    → (r : ℕ) × (apply_to_cents p (pos a) ≡ pos r)
      × (apply_to_cents p (pos 0 -ℤ pos a) ≡ pos 0 -ℤ pos r)
      × (r ≤ a)
      × (r * 10000 ≤ a * pos_part p.basis_points)
      × (a * pos_part p.basis_points < r * 10000 + 10000)
apply_to_cents_rounding n {p} a h =
    let (_, low, high) = from_basis_points_range n h in
    let b = pos_part p.basis_points in
    let same = nonneg-eq-pos p.basis_points low in
    let in_range : pos b ≤ℤ pos 10000 = subst (λ z. z ≤ℤ pos 10000) same high in
    (
      a * b / 10000,
      apply_to_cents-pos p a b same,
      apply_to_cents-neg p a b same,
      mul-div-le a b (omega arith),
      omega arith,
      omega arith,
    )
