-- ===== src/RateLimiter.antt =====
-- The fixed-window rate limiter, `check` of `common/throttling/rate-limiter.service.ts`. Redis is a
-- parameter: the counter's value after the increment, or none when it failed or timed out.
use financial_os.Base.{
  ℕ, zero, suc, ◌⊎◌, ◌+◌, ◌-◌, ◌*◌, ◌/◌, ◌≤◌, ◌<◌, ◌≡◌, refl, Bool, true, false, Option, none, some,
  arith, if◌then◌else◌, ltb, min, Bool-cases, inl, inr,
}
use native.Mathlib.Nat.{div-add-mod, mod-lt}

pub record RateLimitRule : Type 0 where
  pub limit : ℕ
  pub window_seconds : ℕ

pub record RateLimitDecision : Type 0 where
  pub allowed : Bool
  pub remaining : ℕ
  pub retry_after_seconds : ℕ

-- The window that an instant in milliseconds falls in, which is part of the counter's key.
unfoldable pub window_of : RateLimitRule → ℕ → ℕ
window_of rule now = now / 1000 / rule.window_seconds

unfoldable pub check : RateLimitRule → ℕ → Option ℕ → RateLimitDecision
unfolding window_of
check rule now count =
    let retry = (window_of rule now + 1) * rule.window_seconds - now / 1000 in
    elim count [
      | some c ↦
          if ltb rule.limit c
          then record { allowed = false; remaining = 0; retry_after_seconds = retry }
          else record { allowed = true; remaining = rule.limit - c; retry_after_seconds = retry }
      | none ↦ record { allowed = true; remaining = rule.limit; retry_after_seconds = retry }
    ]

window_end :
    (n w : ℕ)
    → 0 < w
    → (1 ≤ (n / w + 1) * w - n)
      × ((n / w + 1) * w - n ≤ w)
      × (n + ((n / w + 1) * w - n) ≡ (n / w + 1) * w)
window_end n w h = grind (arith, div-add-mod n w, mod-lt n h)

-- What a count, or its absence, decides.
abbrev pub Verdict : RateLimitRule → Option ℕ → RateLimitDecision → Type 0
Verdict rule none d = (d.allowed ≡ true) × (d.remaining ≡ rule.limit)
Verdict rule (some c) d =
    ((c ≤ rule.limit) × (d.allowed ≡ true) × (d.remaining + c ≡ rule.limit))
    ⊎ ((rule.limit < c) × (d.allowed ≡ false) × (d.remaining ≡ 0))

-- A decision, on every branch: for a window of a second or more, the time to wait is between 1 and
-- the window's length and ends exactly where the next window begins; a counted request is allowed
-- exactly up to the limit, and what remains is then the limit less the count, else 0; an uncounted
-- one is allowed.
pub check_decides :
    (rule : RateLimitRule) (now : ℕ) (count : Option ℕ)
    → 0 < rule.window_seconds
    → let d = check rule now count in
      (1 ≤ d.retry_after_seconds)
      × (d.retry_after_seconds ≤ rule.window_seconds)
      × (now / 1000 + d.retry_after_seconds ≡ (window_of rule now + 1) * rule.window_seconds)
      × Verdict rule count d
unfolding check window_of
check_decides rule now none positive =
    let (low, high, exact) = window_end (now / 1000) rule.window_seconds positive in
    (low, high, exact, (refl, refl))
check_decides rule now (some c) positive =
    let (low, high, exact) = window_end (now / 1000) rule.window_seconds positive in
    elim (Bool-cases (ltb rule.limit c)) [
      | inl over ↦ rw over (low, high, exact, inr (ground arith, refl, refl))
      | inr fits ↦ rw fits (low, high, exact, inl (ground arith, refl, ground arith))
    ]

-- How many of the requests number 1 to n in one window are allowed.
abbrev pub admitted : RateLimitRule → ℕ → ℕ → ℕ
admitted rule now zero = 0
admitted rule now (suc n) =
    let before = admitted rule now n in
    if (check rule now (some (suc n))).allowed then before + 1 else before

-- Of the first n requests in a window, exactly the first `limit` are allowed.
pub admitted-min : (rule : RateLimitRule) (now n : ℕ) → admitted rule now n ≡ min n rule.limit
unfolding check
admitted-min rule now zero = omega arith
admitted-min rule now (suc n) = ground (arith, admitted-min rule now n)
