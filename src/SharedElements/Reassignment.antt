-- ===== src/SharedElements/Reassignment.antt =====
-- `application/debt-reassignment.consumer.ts`: `MemberLeft` reassigns the leaver's shares of debts.
use financial_os.Base.{ℕ, ◌+◌, Bool, not, List, [], ◌∷◌, any, ◌==◌, if◌then◌else◌, Uuid}
use financial_os.Errors.{ok}
use financial_os.Store.{DebtRow, Tx, ◌>>=◌, ◌>>◌, lift, attempt, read}
use financial_os.SharedElements.Responsibility.{ResponsibilityShare, reassign_on_leave}
use financial_os.SharedElements.Repository.{
  debts_for_profile, list_responsibilities, replace_responsibilities,
}

-- `shares.some((s) => s.membershipId === leavingMembershipId)`
abbrev pub shares_has : Uuid → List ResponsibilityShare → Bool
shares_has leaving shares = any (λ s. s.membership_id == leaving) shares

-- One debt: 1 if it was changed.
unfoldable pub reassign_debt : Uuid → DebtRow → Tx ℕ
reassign_debt leaving debt = do
  shares ← read (list_responsibilities debt.id)
  if not (shares_has leaving shares)
      then lift (ok 0)
      else attempt (reassign_on_leave shares leaving) >>= λ reassigned.
          replace_responsibilities debt.id reassigned >> lift (ok 1)

unfoldable pub reassign_all : Uuid → List DebtRow → Tx ℕ
reassign_all leaving [] = lift (ok 0)
reassign_all leaving (debt ∷ ds) = do
  changed ← reassign_debt leaving debt
  more ← reassign_all leaving ds
  lift (ok (changed + more))

unfoldable pub reassign_for_left_member : Uuid → Uuid → Tx ℕ
reassign_for_left_member profile leaving s = reassign_all leaving (debts_for_profile profile s) s
