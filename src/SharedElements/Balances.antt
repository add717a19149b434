-- ===== src/SharedElements/Balances.antt =====
-- The balance rules of `modules/shared-elements/domain` (`goal.ts`, `debt.ts`, `budget.ts`) and of
-- `modules/accounts/domain/account.ts`. Amounts are cents, `bigint`.
use financial_os.Base.{
  ◌≡◌, ◌↔◌, ◌≢◌, refl, ◌⊎◌, sym, ap, subst, ◌∙◌, true, List, [], ◌∷◌, arith, if◌then◌else◌,
  Bool-cases, inl, inr,
}
use financial_os.Base.Int.{ℤ, pos, ◌+ℤ◌, ◌-ℤ◌, ◌≤ℤ◌, ltb_ℤ, leb_ℤ, int_laws, sum_ℤ, +ℤ_zero}
use financial_os.Errors.{
  Result, ok, fail, fail_with, validation, overpayment, amounts, ok_injective,
}

pub data GoalStatus : Type 0 where
  active_goal : GoalStatus
  achieved : GoalStatus
  archived_goal : GoalStatus

pub record FundGoalResult : Type 0 where
  pub new_funded_cents : ℤ
  pub status : GoalStatus

unfoldable pub fund_goal : ℤ → ℤ → ℤ → Result FundGoalResult
fund_goal funded target amount =
    if leb_ℤ amount (pos 0)
    then fail validation
    else ok (record {
      new_funded_cents = funded +ℤ amount;
      status = if leb_ℤ target (funded +ℤ amount) then achieved else active_goal;
    })

pub record PayDebtResult : Type 0 where
  pub new_outstanding_cents : ℤ
  pub paid_cents : ℤ

unfoldable pub pay_debt : ℤ → ℤ → Result PayDebtResult
pay_debt outstanding amount =
    if leb_ℤ amount (pos 0)
    then fail validation
    else if ltb_ℤ outstanding amount
    then fail_with overpayment (amounts amount outstanding)
    else ok (record { new_outstanding_cents = outstanding -ℤ amount; paid_cents = amount })

pub record RecordSpendResult : Type 0 where
  pub new_spent_cents : ℤ
  pub remaining_cents : ℤ

unfoldable pub remaining_cents : ℤ → ℤ → ℤ
remaining_cents limit spent = limit -ℤ spent

unfoldable pub record_spend : ℤ → ℤ → ℤ → Result RecordSpendResult
record_spend limit spent amount =
    if leb_ℤ amount (pos 0)
    then fail validation
    else ok
        (record { new_spent_cents = spent +ℤ amount; remaining_cents = limit -ℤ (spent +ℤ amount) })

unfoldable pub update_investment_value : ℤ → ℤ → Result ℤ
update_investment_value current new = if ltb_ℤ new (pos 0) then fail validation else ok new

unfoldable pub validate_opening_balance : ℤ → Result (Unit {0})
validate_opening_balance balance = if ltb_ℤ balance (pos 0) then fail validation else ok tt

-- The new balance.
unfoldable pub withdraw_for_contribution : ℤ → ℤ → Result ℤ
withdraw_for_contribution balance amount =
    if leb_ℤ amount (pos 0)
    then fail validation
    else if ltb_ℤ balance amount
    then fail_with validation (amounts amount balance)
    else ok (balance -ℤ amount)

-- A payment goes through exactly when it is positive and at most the balance; the balance then falls
-- by exactly the amount paid and does not go below zero.
pub pay_debt_exact :
    (outstanding amount : ℤ)
    → ((r : PayDebtResult) × (pay_debt outstanding amount ≡ ok r)
        × (pos 1 ≤ℤ amount)
        × (amount ≤ℤ outstanding)
        × (r.paid_cents ≡ amount)
        × (r.new_outstanding_cents +ℤ amount ≡ outstanding)
        × (pos 0 ≤ℤ r.new_outstanding_cents))
      ⊎ ((pay_debt outstanding amount ≡ fail validation) × (amount ≤ℤ pos 0))
      ⊎ ((pay_debt outstanding amount ≡ fail_with overpayment (amounts amount outstanding))
          × (pos 1 ≤ℤ amount)
          × (ltb_ℤ outstanding amount ≡ true))
unfolding pay_debt
pay_debt_exact outstanding amount = elim (Bool-cases (leb_ℤ amount (pos 0))) [
  | inl none_paid ↦ inr (inl (rw none_paid, ground arith))
  | inr some_paid ↦ elim (Bool-cases (ltb_ℤ outstanding amount)) [
    | inl over ↦ inr (inr (rw (some_paid, over), ground arith, over))
    | inr covered ↦
        let positive : pos 1 ≤ℤ amount = ground arith in
        let fits : amount ≤ℤ outstanding = ground arith in
        inl (
          record { new_outstanding_cents = outstanding -ℤ amount; paid_cents = amount },
          rw (some_paid, covered),
          positive,
          fits,
          refl,
          omega int_laws,
          omega int_laws,
        )
  ]
]

-- A history of accepted payments, each against the balance that the one before left.
abbrev pub PaysOff : ℤ → List ℤ → ℤ → Type 0
PaysOff start [] end = start ≡ end
PaysOff start (a ∷ as') end =
    (r : PayDebtResult) × (pay_debt start a ≡ ok r) × PaysOff r.new_outstanding_cents as' end

pub pay_debt_step :
    (start a : ℤ) {r : PayDebtResult}
    → pay_debt start a ≡ ok r
    → (r.new_outstanding_cents +ℤ a ≡ start) × (pos 0 ≤ℤ r.new_outstanding_cents) × (pos 1 ≤ℤ a)
pay_debt_step start a {r} h = elim (pay_debt_exact start a) [
  | inl (r', e, positive, _, _, exact, nonneg) ↦
      subst
        (λ (r : PayDebtResult).
          (r.new_outstanding_cents +ℤ a ≡ start)
          × (pos 0 ≤ℤ r.new_outstanding_cents)
          × (pos 1 ≤ℤ a))
        (ok_injective (sym e ∙ h)) (exact, nonneg, positive)
  | inr (inl (e, _)) ↦ cc
  | inr (inr (e, _, _)) ↦ cc
]

regroup : (l a s : ℤ) → l +ℤ (a +ℤ s) ≡ l +ℤ s +ℤ a
regroup l a s = omega int_laws

-- Over any history of accepted payments on a debt that is not negative, what is left and what was
-- paid add up to the opening balance, and what is left is not negative.
pub payments_conserve :
    (start : ℤ) (payments : List ℤ) (left : ℤ)
    → pos 0 ≤ℤ start
    → PaysOff start payments left
    → (left +ℤ sum_ℤ (λ a. a) payments ≡ start) × (pos 0 ≤ℤ left)
payments_conserve start [] left h e = (simp +ℤ_zero (sym e), subst (λ z. pos 0 ≤ℤ z) e h)
payments_conserve start (a ∷ as') left h (r, paid, rest) =
    let (exact, nonneg, positive) = pay_debt_step start a paid in
    let (total, bounded) = payments_conserve r.new_outstanding_cents as' left nonneg rest in
    (regroup left a _ ∙ ap (λ z. z +ℤ a) total ∙ exact, bounded)

-- A contribution moves money: whenever it is accepted, the amount is positive, the account's new
-- balance and the amount add up to the old balance, and the new balance is not negative.
pub withdraw_conserves :
    (balance amount : ℤ) {left : ℤ}
    → withdraw_for_contribution balance amount ≡ ok left
    → (left +ℤ amount ≡ balance) × (pos 1 ≤ℤ amount) × (pos 0 ≤ℤ left)
unfolding withdraw_for_contribution
withdraw_conserves balance amount h = elim (Bool-cases (leb_ℤ amount (pos 0))) [
  | inl none_taken ↦ let refused = rw none_taken at h in cc
  | inr some_taken ↦ elim (Bool-cases (ltb_ℤ balance amount)) [
    | inl over ↦ let refused = rw (some_taken, over) at h in cc
    | inr covered ↦
        let e = ok_injective (rw (some_taken, covered) at h) in
        let fits : amount ≤ℤ balance = ground arith in
        rw (← e) (omega int_laws, ground arith, omega int_laws)
  ]
]

-- Spending adds exactly the amount, which is positive.
pub record_spend_exact :
    (limit spent amount : ℤ) {r : RecordSpendResult}
    → record_spend limit spent amount ≡ ok r
    → (r.new_spent_cents ≡ spent +ℤ amount) × (pos 1 ≤ℤ amount)
unfolding record_spend
record_spend_exact limit spent amount h = elim (Bool-cases (leb_ℤ amount (pos 0))) [
  | inl none_spent ↦ let refused = rw none_spent at h in absurd (cc)
  | inr some_spent ↦ let e = ok_injective (rw some_spent at h) in rw (← e) (refl, ground arith)
]

-- Funding adds exactly the amount, which is positive, and the goal is achieved exactly when the target is reached.
pub fund_goal_exact :
    (funded target amount : ℤ) {r : FundGoalResult}
    → fund_goal funded target amount ≡ ok r
    → (r.new_funded_cents ≡ funded +ℤ amount)
      × ((r.status ≡ achieved) ↔ (target ≤ℤ r.new_funded_cents))
      × (r.status ≢ archived_goal)
      × (pos 1 ≤ℤ amount)
unfolding fund_goal
fund_goal_exact funded target amount h = elim (Bool-cases (leb_ℤ amount (pos 0))) [
  | inl none_paid ↦ let refused = rw none_paid at h in cc
  | inr some_paid ↦
      let e = ok_injective (rw some_paid at h) in
      rw (← e) (refl, ground arith, ground arith, ground arith)
]
