-- ===== src/SharedElements/Contributing.antt =====
-- `contributeFromAccount`: what it ensures of the store.
use financial_os.SharedElements.Transfer.{
  total_cents, total-same, moved-total, debited-found, debited-others,
}
use financial_os.SharedElements.PersonalProfile.{
  owner-IsPersonal, IsPersonal-IsUnmoved, IsPersonal-reads, with_personal, IsPersonal, IsUnmoved,
}
use financial_os.Base.{
  ℕ, ◌≡◌, ◌≢◌, inl, inr, refl, sym, ap, subst, ◌∙◌, true, Option, none, some, List, [], ◌∷◌, ◌++◌,
  arith, ◌==◌, ==_iff, Uuid, Bool-cases,
}
use financial_os.Base.Int.{ℤ, pos, ◌≤ℤ◌, ◌+ℤ◌}
use financial_os.Errors.{ok}
use financial_os.Money.Currency.{to_upper, ensure_profile_currency, str_eq, str_eq_sound}
use financial_os.Profiles.Membership.{Instant}
use financial_os.Profiles.SharedProfile.{active_profile}
use financial_os.Store.{
  Store, ProfileType, personal, shared, ProfileRow, PersonalProfileRow, AccountRow, PeriodRow,
  RecordRow, Principal, contribution_recorded,
}
use financial_os.Store.Memberships.{
  find_first, update_first, find_shared_profile, find_by_profile_and_user,
}
use financial_os.Store.Tables.{find_first-test}
use financial_os.Store.Post.{Post, lift-Post, bind-Post, Recorded}
use financial_os.Store.Table.{update_unique-Post, change}
use financial_os.Contributions.Recording.{
  with_period, IsEnsured, ensure-IsEnsured, IsEnsured-open, open_profile_lem,
}
use financial_os.Contributions.Repository.{find_open_period}
use financial_os.Contributions.Period.{ensure_open_period}
use financial_os.Contributions.Service.{open_profile, new_record}
use financial_os.SharedElements.Balances.{withdraw_for_contribution, withdraw_conserves}
use financial_os.SharedElements.Accounts.{
  is_personal, accounts, find_account, with_balance, find_or_create_personal_profile, own_account,
  is_account_of, contributor, contribute_from_account_tx,
}

-- And likewise for periods.
IsEnsured-reads :
    {A : Type 0} (f : Store → A) (profile : ProfileRow) (now : Instant) (fresh : Uuid) (s : Store)
    (period : PeriodRow) (s' : Store)
    → IsEnsured profile now fresh s period s'
    → f (with_period period s) ≡ f s
    → f s' ≡ f s
IsEnsured-reads f profile now fresh s period s' (inl (found, same)) e = ap f same
IsEnsured-reads f profile now fresh s period s' (inr (missing, is_new, made)) e = ap f made ∙ e

own_account_lem :
    (profile : Uuid) (o : Option AccountRow) {a : AccountRow}
    → own_account profile o ≡ ok a
    → (o ≡ some a) × (is_account_of profile a ≡ true)
unfolding own_account
own_account_lem profile none h = cc
own_account_lem profile (some a) h = ground arith

account_lem :
    (profile : Uuid) (a : AccountRow)
    → is_account_of profile a ≡ true
    → (a.profile_type ≡ personal) × (a.profile_id ≡ profile)
account_lem profile a h = (kind a.profile_type (ground arith), ground arith)
  where
    kind : (t : ProfileType) → is_personal t ≡ true → t ≡ personal
    kind personal e = refl
    kind shared e = cc

IsPersonal-user :
    (user fresh : Uuid) (s : Store) (owner : PersonalProfileRow) (s' : Store)
    → IsPersonal user fresh s owner s'
    → owner.user_id ≡ user
IsPersonal-user user fresh s owner s' (inl (found, same)) =
    (==_iff _ _).0 (find_first-test (λ p. p.user_id == user) s.personal_profiles found)
IsPersonal-user user fresh s owner s' (inr (missing, is_new, e)) = ap (λ p. p.user_id) is_new

currency_lem :
    (base candidate : List ℕ)
    → ensure_profile_currency base candidate ≡ ok tt
    → to_upper base ≡ to_upper candidate
unfolding ensure_profile_currency
currency_lem base candidate h = elim (Bool-cases (str_eq (to_upper base) (to_upper candidate))) [
  | inl same ↦ str_eq_sound _ _ same
  | inr other ↦ let refused = rw other at h in cc
]

-- What a contribution from an account ensures.
pub record IsContributed (user account_id profile_id member : Uuid) (cents : ℤ) (now : Instant)
    (fresh_personal fresh_period : Uuid) (s : Store) (result : AccountRow × RecordRow) (s' : Store)
    : Type 0 where
  pub old : AccountRow
  pub owner : PersonalProfileRow
  pub profile : ProfileRow
  pub period : PeriodRow
  pub between : Store
  pub after : Store
  -- The account is one of the user's own, in the currency of an active profile.
  pub found : find_account account_id s ≡ some old
  pub of_owner : IsPersonal user fresh_personal s owner between
  pub own : (old.profile_type ≡ personal) × (old.profile_id ≡ owner.id) × (owner.user_id ≡ user)
  pub writable :
      (find_shared_profile profile_id s ≡ some profile) × (profile.status ≡ active_profile)
  pub same_currency : to_upper profile.base_currency ≡ to_upper old.currency
  -- The amount leaves the account, which is not overdrawn, and no other one, ...
  pub debit :
      (find_account old.id s' ≡ some result.0)
      × (result.0.balance +ℤ cents ≡ old.balance)
      × (pos 1 ≤ℤ cents)
      × (pos 0 ≤ℤ result.0.balance)
  pub others : (id : Uuid) → id ≢ old.id → find_account id s' ≡ find_account id s
  -- ... and arrives in the pool of the open period, where it is one record more.
  pub ensured :
      IsEnsured profile now fresh_period
        (change accounts old.id (with_balance result.0.balance) between)
        period
        after
  pub is_open : find_open_period profile.id after ≡ some period
  pub row :
      (result.1.shared_profile_id ≡ profile_id)
      × (result.1.period_id ≡ period.id)
      × (result.1.membership_id ≡ member)
      × (result.1.amount ≡ cents)
      × (result.1.source_account_id ≡ some old.id)
  pub records : s'.records ≡ s.records ++ (result.1 ∷ [])
  pub conserved : total_cents s' ≡ total_cents s
  pub recorded : Recorded contribution_recorded after s'

-- From the store after the withdrawal on: the period is there, and the record.
module _ (user account_id profile_id member : Uuid) (cents : ℤ) (now : Instant)
    (fresh_personal fresh_period fresh : Uuid) (s s1 : Store) (owner : PersonalProfileRow)
    (of_owner : IsPersonal user fresh_personal s owner s1) (old : AccountRow)
    (is_own : own_account owner.id (find_account account_id s1) ≡ ok old) where
  same_read :
      {A : Type 0} (f : Store → A) → f (with_personal user fresh_personal s) ≡ f s → f s1 ≡ f s
  same_read f e = IsPersonal-reads f user fresh_personal s owner s1 of_owner e

  account_there : find_account old.id s1 ≡ some old
  account_there =
      let here = (own_account_lem owner.id _ is_own).0 in
      subst (λ i. find_account i s1 ≡ some old)
        (sym ((==_iff _ _).0 (find_first-test _ s1.accounts here))) here

  module _ (p : ProfileRow) (is_open : open_profile (find_shared_profile profile_id s1) ≡ ok p)
      (same : ensure_profile_currency p.base_currency old.currency ≡ ok tt) (left : ℤ)
      (taken : withdraw_for_contribution old.balance cents ≡ ok left) (period : PeriodRow)
      (s3 : Store)
      (ensured : IsEnsured p now fresh_period
        (change accounts old.id (with_balance left) s1)
        period
        s3) where
    abbrev row : RecordRow
    row = new_record profile_id member cents (some old.id) fresh period.id

    moves : left +ℤ cents ≡ old.balance
    moves = (withdraw_conserves old.balance cents taken).0

    same_accounts : s3.accounts ≡ update_first (λ a. a.id == old.id) (with_balance left) s1.accounts
    same_accounts = IsEnsured-reads (λ z. z.accounts) p now fresh_period _ period s3 ensured refl

    same_records : s3.records ≡ s1.records
    same_records = IsEnsured-reads (λ z. z.records) p now fresh_period _ period s3 ensured refl

    account_reloaded : find_account old.id s3 ≡ some (with_balance left old)
    account_reloaded =
        ap (find_first (λ a. a.id == old.id)) same_accounts
        ∙ debited-found old.id cents left row s1 account_there moves refl

    arrived-IsContributed :
        (s' : Store)
        → s'.accounts ≡ s3.accounts
        → s'.records ≡ s3.records ++ (row ∷ [])
        → Recorded contribution_recorded s3 s'
        → IsContributed user account_id profile_id member cents now fresh_personal fresh_period s
            (with_balance left old, row)
            s'
    arrived-IsContributed s' kept added recorded = record {
      old = old;
      owner = owner;
      profile = p;
      period = period;
      between = s1;
      after = s3;
      found =
          sym (same_read (find_account account_id) refl) ∙ (own_account_lem owner.id _ is_own).0;
      of_owner = of_owner;
      own = (
        (account_lem owner.id old (own_account_lem owner.id _ is_own).1).0,
        (account_lem owner.id old (own_account_lem owner.id _ is_own).1).1,
        IsPersonal-user user fresh_personal s owner s1 of_owner,
      );
      writable = (
        sym (same_read (find_shared_profile profile_id) refl) ∙ (open_profile_lem _ is_open).0,
        (open_profile_lem _ is_open).1,
      );
      same_currency = currency_lem _ _ same;
      debit = (
        ap (find_first (λ a. a.id == old.id)) kept ∙ account_reloaded,
        moves,
        (withdraw_conserves old.balance cents taken).1,
        (withdraw_conserves old.balance cents taken).2,
      );
      others = λ id ne.
          ap (find_first (λ a. a.id == id)) (kept ∙ same_accounts)
          ∙ debited-others old.id cents left row s1 account_there moves refl id ne
          ∙ same_read (find_account id) refl;
      ensured = ensured;
      is_open = IsEnsured-open p now fresh_period _ s3 period ensured;
      row = (refl, refl, refl, refl, refl);
      records =
          added ∙ ap (λ rs. rs ++ (row ∷ [])) (same_records ∙ same_read (λ z. z.records) refl);
      conserved =
          total-same (kept ∙ same_accounts) (added ∙ ap (λ rs. rs ++ (row ∷ [])) same_records)
          ∙ moved-total old.id cents left row s1 account_there moves refl
          ∙ same_read total_cents refl;
      recorded = recorded;
    }

-- `contributeFromAccount` never throws. After an error, nothing has changed but that the user's personal
-- profile is there, if it was missing. Otherwise the account is a personal one of that profile, in the
-- currency of an active profile; the amount is positive and has left the account, which is not below
-- zero, and no other account; it is one contribution more, from this account, in the profile's open
-- period; and the sum of all balances and all contributions is the same as before.
pub contribute_from_account-IsContributed :
    (principal : Principal) (account_id profile_id member : Uuid) (cents : ℤ) (now : Instant)
    (fresh_personal fresh_period fresh : Uuid) (s : Store)
    → Post
        (IsContributed principal.user_id account_id profile_id member cents now fresh_personal
          fresh_period s)
        (IsUnmoved principal.user_id fresh_personal s)
        ⊥
        (contribute_from_account_tx principal account_id profile_id member cents now fresh_personal
          fresh_period fresh s)
unfolding contribute_from_account_tx
contribute_from_account-IsContributed principal account_id profile_id member cents now
      fresh_personal fresh_period fresh s =
    let user = principal.user_id in
    bind-Post (IsPersonal user fresh_personal s) _ _ _
      (find_or_create_personal_profile user fresh_personal s) _
      (owner-IsPersonal _ _ user fresh_personal s)
      (λ owner s1 of_owner.
        let unmoved = IsPersonal-IsUnmoved user fresh_personal s owner s1 of_owner in
        lift-Post _ _ _ (own_account owner.id (find_account account_id s1)) _ s1 unmoved
          (λ old is_own.
            let there =
              account_there user account_id profile_id member cents now fresh_personal fresh_period
                fresh s s1 owner of_owner old is_own in
            lift-Post _ _ _ (contributor member (find_by_profile_and_user profile_id user s1)) _ s1
              unmoved
              (λ m is_member.
                lift-Post _ _ _ (open_profile (find_shared_profile profile_id s1)) _ s1 unmoved
                  (λ p is_open.
                    lift-Post _ _ _ (ensure_profile_currency p.base_currency old.currency) _ s1
                      unmoved
                      (λ (u : Unit {0}) same.
                        lift-Post _ _ _ (withdraw_for_contribution old.balance cents) _ s1 unmoved
                          (λ left taken.
                            let s2 = change accounts old.id (with_balance left) s1 in
                            update_unique-Post accounts _ _ _ old.id (with_balance left) _ s1 there
                              (bind-Post (IsEnsured p now fresh_period s2) _ _ _
                                (ensure_open_period p now fresh_period s2) _
                                (ensure-IsEnsured _ _ p now fresh_period s2)
                                (λ period s3 ensured.
                                  rw
                                    (account_reloaded user account_id profile_id member cents now
                                      fresh_personal fresh_period fresh s s1 owner of_owner old
                                      is_own p is_open same left taken period s3 ensured)
                                    (arrived-IsContributed user account_id profile_id member cents
                                      now fresh_personal fresh_period fresh s s1 owner of_owner old
                                      is_own p is_open same left taken period s3 ensured _ refl refl
                                      (record {
                                        events = (_, refl, refl);
                                        entries = (_, refl, refl);
                                      }))))))))))
