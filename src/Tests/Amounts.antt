-- ===== src/Tests/Amounts.antt =====
-- Runs of `Money`, `Percentage`, the balances, the rate limiter and pagination.
use financial_os.Base.{ℕ, some, none, List, ◌/◌, ◌*◌, ◌+◌, ◌≤◌, ◌<◌, ◌≡◌, ◌≢◌, refl, [], ◌∷◌, arith}
use financial_os.Base.Int.{pos, negsuc, ◌+ℤ◌, ◌-ℤ◌, ◌≤ℤ◌, sum_ℤ}
use financial_os.Errors.{returned, ok}
use financial_os.Money.Currency.{
  CurrencyCode, normalize_currency, to_upper, is_alpha3, upper_char, is_upper,
}
use financial_os.Money.Values.{Money, money, of, text, number, integer, to_cents_string}
use financial_os.Money.Values.Laws.{of-to_cents_string}
use financial_os.Money.Percentage.{from_basis_points, apply_to_cents, apply_to_cents_rounding}
use financial_os.Pagination.Walk.{IsKeyed, IsCoding, walk, walk_covers}
use financial_os.RateLimiter.{RateLimitRule, window_of, check, Verdict, check_decides}
use financial_os.SharedElements.Balances.{
  FundGoalResult, achieved, pay_debt, fund_goal, withdraw_for_contribution, PaysOff,
  payments_conserve,
}

abbrev usd : CurrencyCode
usd = b'U' ∷ b'S' ∷ b'D' ∷ []

abbrev usd_lower : CurrencyCode
usd_lower = b'u' ∷ b's' ∷ b'd' ∷ []

abbrev eur : CurrencyCode
eur = b'E' ∷ b'U' ∷ b'R' ∷ []

abbrev ten : Money
ten = money (pos 1000) usd

abbrev owed : Money
owed = money (negsuc 249) usd

-- -2.50 from a number and a lower case code.
owed-of : of (number (integer (negsuc 249))) usd_lower ≡ returned owed
unfolding of normalize_currency to_upper is_alpha3 upper_char is_upper
owed-of = refl

of-to_cents_string_example : of (text (to_cents_string owed)) usd ≡ returned owed
of-to_cents_string_example = of-to_cents_string (number (integer (negsuc 249))) usd_lower owed-of

third : from_basis_points (integer (pos 3333)) ≡ returned (record { basis_points = pos 3333 })
unfolding from_basis_points
third = refl

apply_to_cents_rounding_example :
    (r : ℕ) × (apply_to_cents (record { basis_points = pos 3333 }) (pos 999) ≡ pos r)
    × (apply_to_cents (record { basis_points = pos 3333 }) (pos 0 -ℤ pos 999) ≡ pos 0 -ℤ pos r)
    × (r ≤ 999)
    × (r * 10000 ≤ 999 * 3333)
    × (999 * 3333 < r * 10000 + 10000)
apply_to_cents_rounding_example = apply_to_cents_rounding (integer (pos 3333)) 999 third

two_payments : PaysOff (pos 900) (pos 400 ∷ pos 500 ∷ []) (pos 0)
unfolding pay_debt ◌-ℤ◌
two_payments = (_, refl, (_, refl, refl))

payments_conserve_example :
    (pos 0 +ℤ sum_ℤ (λ a. a) (pos 400 ∷ pos 500 ∷ []) ≡ pos 900) × (pos 0 ≤ℤ pos 0)
payments_conserve_example =
    payments_conserve (pos 900) (pos 400 ∷ pos 500 ∷ []) (pos 0) (omega arith) two_payments

withdrawn : withdraw_for_contribution (pos 900) (pos 400) ≡ ok (pos 500)
unfolding withdraw_for_contribution ◌-ℤ◌
withdrawn = refl

abbrev reached : FundGoalResult
reached = record { new_funded_cents = pos 1000; status = achieved }

funded : fund_goal (pos 600) (pos 1000) (pos 400) ≡ ok reached
unfolding fund_goal ◌+ℤ◌
funded = refl

abbrev per_minute : RateLimitRule
per_minute = record { limit = 30; window_seconds = 60 }

check_decides_example :
    let d = check per_minute 61500 (some 31) in
    (1 ≤ d.retry_after_seconds)
    × (d.retry_after_seconds ≤ 60)
    × (61500 / 1000 + d.retry_after_seconds ≡ (window_of per_minute 61500 + 1) * 60)
    × Verdict per_minute (some 31) d
check_decides_example = check_decides per_minute 61500 (some 31) (omega arith)

-- Identifiers of one letter, and a coding that changes nothing.
abbrev letters : List (List ℕ)
letters = (b'a' ∷ []) ∷ (b'b' ∷ []) ∷ (b'c' ∷ []) ∷ []

letters_differ : (a b : ℕ) → a ≢ b → ◌≢◌ {A = List ℕ} (a ∷ []) (b ∷ [])
letters_differ a b ne e = ne (cc)

letters-IsKeyed : IsKeyed (λ s. s) letters
letters-IsKeyed = (
  λ e. absurd (cc),
  (letters_differ _ _ (omega arith), (letters_differ _ _ (omega arith), tt)),
  (λ e. absurd (cc), (letters_differ _ _ (omega arith), tt), (λ e. absurd (cc), tt, tt)),
)

plain-IsCoding : IsCoding (λ s. s) (λ s. s)
plain-IsCoding = record { back = λ s. refl; cursor = λ s ne. ne }

walk_covers_example :
    walk (λ s. s) (λ s. s) (λ s. s) letters (some (integer (pos 2))) 4 none ≡ letters
walk_covers_example =
    walk_covers (λ s. s) (λ s. s) (λ s. s) plain-IsCoding letters (some (integer (pos 2)))
      letters-IsKeyed
