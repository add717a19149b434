-- ===== src/Errors/Types.antt =====
-- `DomainErrorCode`, `DomainError`, `Result` and their monad; thrown exceptions and theirs.
use financial_os.Base.{Bool, true, false, ◌≡◌, refl}
use financial_os.Base.Int.{ℤ}

pub data DomainErrorCode : Type 0 where
  conflict : DomainErrorCode
  forbidden : DomainErrorCode
  not_found : DomainErrorCode
  validation : DomainErrorCode
  invariant : DomainErrorCode
  currency_mismatch : DomainErrorCode
  overpayment : DomainErrorCode
  cap_exceeded : DomainErrorCode
  archived : DomainErrorCode

-- The structured context of an error, where it carries computed amounts.
pub data Details : Type 0 where
  no_details : Details
  -- remainingBp, requestedBp, committedElsewhereBp
  cap : ℤ → ℤ → ℤ → Details
  -- amountCents, outstandingCents (or balanceCents)
  amounts : ℤ → ℤ → Details
  -- a sum of basis points, or a count of owners or members
  total : ℤ → Details

pub record DomainError : Type 0 where
  pub code : DomainErrorCode
  pub details : Details

pub data Result {ℓ} (A : Type ℓ) : Type ℓ where
  ok : A → Result A
  err : DomainError → Result A

abbrev pub fail {ℓ} : {A : Type ℓ} → DomainErrorCode → Result A
fail c = err (record { code = c; details = no_details })

abbrev pub fail_with {ℓ} : {A : Type ℓ} → DomainErrorCode → Details → Result A
fail_with c d = err (record { code = c; details = d })

abbrev pub is_ok {ℓ} : {A : Type ℓ} → Result A → Bool
is_ok (ok a) = true
is_ok (err e) = false

-- What JavaScript throws: the errors that are no part of a `Result`.
pub data Exception : Type 0 where
  type_error : Exception
  range_error : Exception
  invalid_currency : Exception
  mismatch : Exception
  -- a violated constraint of the database, which rolls the transaction back
  constraint : Exception
  -- `withTenant` without a tenant
  no_tenant : Exception
  -- the error of `unwrap`
  domain : DomainError → Exception

pub data Attempt {ℓ} (A : Type ℓ) : Type ℓ where
  returned : A → Attempt A
  threw : Exception → Attempt A

-- `unwrap`: the value, or the error thrown.
unfoldable pub unwrap {ℓ} : {A : Type ℓ} → Result A → Attempt A
unwrap (ok a) = returned a
unwrap (err e) = threw (domain e)

infixl 5 ◌>>=◌
abbrev pub ◌>>=◌ {ℓ κ} : {A : Type ℓ} {B : Type κ} → Attempt A → (A → Attempt B) → Attempt B
returned a >>= f = f a
threw e >>= f = threw e

pub ok_injective {ℓ} : {A : Type ℓ} {a b : A} → ok a ≡ ok b → a ≡ b
ok_injective h = cc

pub returned_injective {ℓ} : {A : Type ℓ} {a b : A} → returned a ≡ returned b → a ≡ b
returned_injective h = cc

pub >>=-eq-returned {ℓ κ} :
    {A : Type ℓ} {B : Type κ} (m : Attempt A) (f : A → Attempt B) {b : B}
    → (m >>= f) ≡ returned b
    → (a : A) × (m ≡ returned a) × (f a ≡ returned b)
>>=-eq-returned (returned a) f h = (a, refl, h)
>>=-eq-returned (threw e) f h = cc
