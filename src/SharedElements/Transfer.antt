-- ===== src/SharedElements/Transfer.antt =====
-- An amount moves from an account to the contributions: the sums of both.
use financial_os.Base.{
  ◌≡◌, ◌≢◌, inl, inr, refl, sym, ap, ◌∙◌, Bool, some, List, [], ◌∷◌, ◌++◌, ◌==◌, Uuid, Bool-cases,
}
use financial_os.Base.Int.{
  neg_part, pos_part, ℤ, pos, ◌+ℤ◌, int_laws, sum_ℤ, sum_ℤ-append, +ℤ_assoc,
}
use financial_os.Store.{Store, AccountRow, RecordRow}
use financial_os.Store.Memberships.{find_first, update_first}
use financial_os.Store.Tables.{find_first-update_first}
use financial_os.Store.Table.{find_unique-change}
use financial_os.SharedElements.Accounts.{accounts, find_account, with_balance}

sum_ℤ-update_first :
    {A : Type 0} (g : A → ℤ) (test : A → Bool) (f : A → A) (xs : List A) {r : A}
    → find_first test xs ≡ some r
    → sum_ℤ g (update_first test f xs) +ℤ g r ≡ sum_ℤ g xs +ℤ g (f r)
sum_ℤ-update_first g test f [] h = absurd (cc)
sum_ℤ-update_first g test f (x ∷ xs) {r} h = elim (Bool-cases (test x)) [
  | inl hit ↦
      let same : some x ≡ some r = rw hit at h in
      let e : x ≡ r = cc in rw (hit, e) (swap_last (g (f r)) (sum_ℤ g xs) (g r))
  | inr miss ↦ rw miss (
      +ℤ_assoc (g x) _ _
      ∙ ap (λ z. g x +ℤ z) (sum_ℤ-update_first g test f xs (rw miss at h))
      ∙ sym (+ℤ_assoc (g x) _ _))
]
  where
    swap_last : (a b c : ℤ) → a +ℤ b +ℤ c ≡ c +ℤ b +ℤ a
    swap_last a b c = omega int_laws

-- All the money: in accounts, and in contributions.
abbrev pub total_cents : Store → ℤ
total_cents s = sum_ℤ (λ a. a.balance) s.accounts +ℤ sum_ℤ (λ r. r.amount) s.records

pub total-same :
    {as' bs : List AccountRow} {rs qs : List RecordRow}
    → as' ≡ bs
    → rs ≡ qs
    → sum_ℤ (λ a. a.balance) as' +ℤ sum_ℤ (λ r. r.amount) rs
      ≡ sum_ℤ (λ a. a.balance) bs +ℤ sum_ℤ (λ r. r.amount) qs
total-same h k = rw (h, k) refl

-- The accounts and the contributions once an amount has moved from an account to the pool.
module _ (id : Uuid) (cents left : ℤ) (row : RecordRow) (s : Store) {old : AccountRow}
    (found : find_account id s ≡ some old) (moves : left +ℤ cents ≡ old.balance)
    (same_amount : row.amount ≡ cents) where
  abbrev debited : List AccountRow
  debited = update_first (λ a. a.id == id) (with_balance left) s.accounts

  pub moved-total :
      sum_ℤ (λ a. a.balance) debited +ℤ sum_ℤ (λ r. r.amount) (s.records ++ (row ∷ []))
      ≡ total_cents s
  moved-total =
      let taken =
        sum_ℤ-update_first (λ a. a.balance) (λ a. a.id == id) (with_balance left) s.accounts
          found in
      let added = sum_ℤ-append (λ r. r.amount) s.records (row ∷ []) in
      rw added (
        regroup (sum_ℤ (λ a. a.balance) debited) (sum_ℤ (λ a. a.balance) s.accounts)
          (sum_ℤ (λ r. r.amount) s.records) row.amount old.balance taken
          (ap (λ z. left +ℤ z) same_amount ∙ moves))
    where
      regroup :
          (a b c z o : ℤ) → a +ℤ o ≡ b +ℤ left → left +ℤ z ≡ o → a +ℤ (c +ℤ (z +ℤ pos 0)) ≡ b +ℤ c
      regroup a b c z o h k =
          omega (int_laws, ap pos_part h, ap neg_part h, ap pos_part k, ap neg_part k)

  pub debited-found : find_first (λ a. a.id == id) debited ≡ some (with_balance left old)
  debited-found = find_unique-change accounts id (with_balance left) s (λ y. refl) found

  pub debited-others :
      (other : Uuid) → other ≢ id → find_first (λ a. a.id == other) debited ≡ find_account other s
  debited-others other ne =
      find_first-update_first (λ a. a.id) (with_balance left) (λ y. refl) id other s.accounts ne
