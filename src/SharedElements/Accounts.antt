-- ===== src/SharedElements/Accounts.antt =====
-- `modules/accounts`: `application/accounts.service.ts` with `infrastructure/account.repository.ts`,
-- and `findOrCreatePersonalProfile` of `profile.repository.ts`. The type and name of an account are
-- left out.
use financial_os.Base.{
  Bool, true, false, not, ◌||◌, ◌&&◌, refl, Option, none, some, List, [], filter, if◌then◌else◌,
  ◌==◌, Uuid,
}
use financial_os.Base.Int.{ℤ}
use financial_os.Errors.{Result, ok, fail, not_found, forbidden}
use financial_os.Money.Currency.{CurrencyCode, to_upper, ensure_profile_currency}
use financial_os.Permissions.{can, record_contribution}
use financial_os.Profiles.Membership.{Instant, status_eq, active}
use financial_os.Contributions.Service.{open_profile, new_record}
use financial_os.Contributions.Period.{ensure_open_period}
use financial_os.Contributions.Repository.{create_record}
use financial_os.Store.{
  Store, MembershipRow, PersonalProfileRow, AccountRow, ProfileType, personal, shared, RecordRow,
  Principal, Tx, ◌>>=◌, ◌>>◌, lift, read, expect, emit, log, of_event, contribution_recorded,
}
use financial_os.Store.Memberships.{find_shared_profile, find_by_profile_and_user, find_first}
use financial_os.Store.Table.{Table, find_unique, create, update_unique}
use financial_os.SharedElements.Balances.{validate_opening_balance, withdraw_for_contribution}

abbrev pub accounts : Table AccountRow
accounts = record {
  rows = λ s. s.accounts;
  put = λ xs s. record s { accounts = xs };
  key = λ a. a.id;
  put_rows = λ xs s. refl;
}

abbrev pub personal_profiles : Table PersonalProfileRow
personal_profiles = record {
  rows = λ s. s.personal_profiles;
  put = λ xs s. record s { personal_profiles = xs };
  key = λ p. p.id;
  put_rows = λ xs s. refl;
}

abbrev pub find_account : Uuid → Store → Option AccountRow
find_account id s = find_unique accounts id s

abbrev pub is_personal : ProfileType → Bool
is_personal personal = true
is_personal shared = false

abbrev pub is_account_of : Uuid → AccountRow → Bool
is_account_of profile a = is_personal a.profile_type && a.profile_id == profile

-- In the order of creation, which is the table's.
abbrev pub list_by_profile : Uuid → Store → List AccountRow
list_by_profile profile s = filter (is_account_of profile) s.accounts

abbrev pub with_balance : ℤ → AccountRow → AccountRow
with_balance balance a = record a { balance = balance }

abbrev pub set_balance : Uuid → ℤ → Tx (Unit {0})
set_balance id balance = update_unique accounts id (with_balance balance)

abbrev pub personal_profile_of : Uuid → Store → Option PersonalProfileRow
personal_profile_of user s = find_first (λ p. p.user_id == user) s.personal_profiles

unfoldable pub find_or_create_personal_profile : Uuid → Uuid → Tx PersonalProfileRow
find_or_create_personal_profile user fresh = do
  found ← read (personal_profile_of user)
  elim found [
    | some existing ↦ lift (ok existing)
    | none ↦
        create personal_profiles (record { id = fresh; user_id = user })
        >> lift (ok (record { id = fresh; user_id = user }))
  ]

abbrev pub new_account : Uuid → CurrencyCode → ℤ → Uuid → AccountRow
new_account profile currency balance fresh = record {
  id = fresh;
  profile_type = personal;
  profile_id = profile;
  balance = balance;
  currency = to_upper currency;
}

unfoldable pub create_personal_account_tx :
    Principal → CurrencyCode → ℤ → Uuid → Uuid → Tx AccountRow
create_personal_account_tx principal currency balance fresh_profile fresh = do
  lift (validate_opening_balance balance)
  owner ← find_or_create_personal_profile principal.user_id fresh_profile
  create accounts (new_account owner.id currency balance fresh)
  lift (ok (new_account owner.id currency balance fresh))

unfoldable pub list_personal_accounts_tx : Principal → Uuid → Tx (List AccountRow)
list_personal_accounts_tx principal fresh_profile = do
  owner ← find_or_create_personal_profile principal.user_id fresh_profile
  read (list_by_profile owner.id)

-- The accounts of a personal profile, for its user only.
unfoldable pub accounts_for_owned_profile : Principal → Uuid → Store → List AccountRow
accounts_for_owned_profile principal profile s = elim (find_unique personal_profiles profile s) [
  | none ↦ []
  | some p ↦ if not (p.user_id == principal.user_id) then [] else list_by_profile profile s
]

-- The account, if it is one of the caller's own.
unfoldable pub own_account : Uuid → Option AccountRow → Result AccountRow
own_account profile none = fail not_found
own_account profile (some a) = if not (is_account_of profile a) then fail not_found else ok a

-- The caller's own active membership, which may contribute.
unfoldable pub contributor : Uuid → Option MembershipRow → Result MembershipRow
contributor id none = fail forbidden
contributor id (some m) =
    if not (m.id == id) || not (status_eq m.status active)
    then fail forbidden
    else if not (can m.role record_contribution)
    then fail forbidden
    else ok m

unfoldable pub contribute_from_account_tx :
    Principal → Uuid → Uuid → Uuid → ℤ → Instant → Uuid → Uuid → Uuid → Tx (AccountRow × RecordRow)
contribute_from_account_tx principal account_id profile_id id cents now fresh_profile fresh_period
      fresh =
    do
      owner ← find_or_create_personal_profile principal.user_id fresh_profile
      found ← read (find_account account_id)
      account ← lift (own_account owner.id found)
      found_member ← read (find_by_profile_and_user profile_id principal.user_id)
      member ← lift (contributor id found_member)
      found_profile ← read (find_shared_profile profile_id)
      profile ← lift (open_profile found_profile)
      lift (ensure_profile_currency profile.base_currency account.currency)
      new_balance ← lift (withdraw_for_contribution account.balance cents)
      set_balance account.id new_balance
      period ← ensure_open_period profile now fresh_period
      create_record (new_record profile_id id cents (some account.id) fresh period.id)
      emit contribution_recorded fresh (some id)
      log profile_id (some id) (of_event contribution_recorded)
      reloaded_row ← read (find_account account.id)
      reloaded ← expect reloaded_row
      lift (ok (reloaded, new_record profile_id id cents (some account.id) fresh period.id))
