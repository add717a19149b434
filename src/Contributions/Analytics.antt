-- ===== src/Contributions/Analytics.antt =====
-- `analytics/analytics.ts`, with the class of `analytics.service.ts`, whose methods are its
-- functions.
use financial_os.Base.{
  ℕ, ◌+◌, ◌*◌, ◌≤◌, ◌<◌, ◌≡◌, ◌↔◌, ap, true, List, [], ◌∷◌, arith, if◌then◌else◌, Uuid,
}
use financial_os.Base.Int.{ℤ, pos, ◌+ℤ◌, ◌-ℤ◌, ltb_ℤ, eqb_ℤ}
use financial_os.Errors.{Attempt, returned, ◌>>=◌}
use financial_os.Money.Values.{Number, integer}
use financial_os.Money.Percentage.{
  from_basis_points, apply_to_cents, from_basis_points_valid, apply_to_cents_rounding,
}

pub data StandingState : Type 0 where
  on_track : StandingState
  ahead : StandingState
  behind : StandingState

pub record MemberExpectation : Type 0 where
  pub membership_id : Uuid
  pub income_cents : ℤ
  pub percentage_bp : Number

pub record ContributionStanding : Type 0 where
  pub expected_cents : ℤ
  pub actual_cents : ℤ
  pub variance_cents : ℤ
  pub state : StandingState

unfoldable pub expected_contribution_cents : ℤ → Number → Attempt ℤ
expected_contribution_cents income bp = do
  p ← from_basis_points bp
  returned (apply_to_cents p income)

-- The `reduce` goes from the left.
pool_expected_from : ℤ → List MemberExpectation → Attempt ℤ
pool_expected_from sum [] = returned sum
pool_expected_from sum (e ∷ es) =
    expected_contribution_cents e.income_cents e.percentage_bp >>= λ c.
    pool_expected_from (sum +ℤ c) es

pub pool_expected_total_cents : List MemberExpectation → Attempt ℤ
unfolding pool_expected_from
pool_expected_total_cents = pool_expected_from (pos 0)

pool_actual_from : ℤ → List ℤ → ℤ
pool_actual_from sum [] = sum
pool_actual_from sum (a ∷ as') = pool_actual_from (sum +ℤ a) as'

pub pool_actual_total_cents : List ℤ → ℤ
unfolding pool_actual_from
pool_actual_total_cents = pool_actual_from (pos 0)

unfoldable pub compute_standing : ℤ → ℤ → ContributionStanding
compute_standing expected actual =
    let variance = actual -ℤ expected in
    record {
      expected_cents = expected;
      actual_cents = actual;
      variance_cents = variance;
      state =
          if eqb_ℤ variance (pos 0)
          then on_track
          else if ltb_ℤ (pos 0) variance
          then ahead
          else behind;
    }

-- The state of a standing tells the order of what was paid and what was expected, and the variance
-- is their difference.
pub compute_standing_state :
    (expected actual : ℤ)
    → let s = compute_standing expected actual in
      (s.variance_cents +ℤ expected ≡ actual)
      × ((s.state ≡ on_track) ↔ (actual ≡ expected))
      × ((s.state ≡ ahead) ↔ (ltb_ℤ expected actual ≡ true))
      × ((s.state ≡ behind) ↔ (ltb_ℤ actual expected ≡ true))
unfolding compute_standing ◌-ℤ◌ ◌+ℤ◌
compute_standing_state expected actual = ground arith

-- For an income of zero or more and a percentage from 0 to 10000 basis points, a contribution is
-- expected: the exact share rounded down to a whole cent, and never more than the income.
pub expected_contribution_rounding :
    (income bp : ℕ)
    → bp ≤ 10000
    → (c : ℕ) × (expected_contribution_cents (pos income) (integer (pos bp)) ≡ returned (pos c))
      × (c ≤ income)
      × (c * 10000 ≤ income * bp)
      × (income * bp < c * 10000 + 10000)
unfolding expected_contribution_cents
expected_contribution_rounding income bp h =
    let valid = from_basis_points_valid bp h in
    let (c, pays, _, le, low, high) = apply_to_cents_rounding (integer (pos bp)) income valid in
    rw valid (c, ap returned pays, le, low, high)
