-- ===== src/Errors/Catalog.antt =====
-- `common/errors/catalog.ts`: the catalog of every error code that a client can receive.
-- The prose columns `when` and `clientAction` are left out.
use financial_os.Base.{
  ℕ, ◌≤◌, ◌<◌, ◌≡◌, refl, Bool, true, false, Option, none, some, List, [], ◌∷◌, arith,
  if◌then◌else◌, ◌==◌,
}
use financial_os.Errors.Types.{
  DomainErrorCode, conflict, forbidden, not_found, validation, invariant, currency_mismatch,
  overpayment, cap_exceeded, archived,
}

pub data TransportErrorCode : Type 0 where
  unauthenticated : TransportErrorCode
  rate_limited : TransportErrorCode
  bad_user_input : TransportErrorCode
  internal_server_error : TransportErrorCode

-- `DomainErrorCode | TransportErrorCode`
pub data ErrorCode : Type 0 where
  domain_code : DomainErrorCode → ErrorCode
  transport_code : TransportErrorCode → ErrorCode

pub record ErrorCatalogEntry : Type 0 where
  pub code : ErrorCode
  pub http_analogue : ℕ
  pub retryable : Bool

abbrev entry : ErrorCode → ℕ → Bool → ErrorCatalogEntry
entry c h r = record { code = c; http_analogue = h; retryable = r }

-- The place of a code in its enumeration, by which `===` on codes is decided.
abbrev domain_ordinal : DomainErrorCode → ℕ
domain_ordinal conflict = 0
domain_ordinal forbidden = 1
domain_ordinal not_found = 2
domain_ordinal validation = 3
domain_ordinal invariant = 4
domain_ordinal currency_mismatch = 5
domain_ordinal overpayment = 6
domain_ordinal cap_exceeded = 7
domain_ordinal archived = 8

abbrev pub ordinal : ErrorCode → ℕ
ordinal (domain_code c) = domain_ordinal c
ordinal (transport_code unauthenticated) = 9
ordinal (transport_code rate_limited) = 10
ordinal (transport_code bad_user_input) = 11
ordinal (transport_code internal_server_error) = 12

abbrev pub error_catalog : List ErrorCatalogEntry
error_catalog =
    entry (domain_code conflict) 409 true
    ∷ entry (domain_code forbidden) 403 false
    ∷ entry (domain_code not_found) 404 false
    ∷ entry (domain_code validation) 422 false
    ∷ entry (domain_code invariant) 422 false
    ∷ entry (domain_code currency_mismatch) 422 false
    ∷ entry (domain_code overpayment) 422 false
    ∷ entry (domain_code cap_exceeded) 422 false
    ∷ entry (domain_code archived) 409 false
    ∷ entry (transport_code unauthenticated) 401 false
    ∷ entry (transport_code rate_limited) 429 true
    ∷ entry (transport_code bad_user_input) 400 false
    ∷ entry (transport_code internal_server_error) 500 true
    ∷ []

-- `ERROR_CATALOG.find((e) => e.code === code)`
find_entry : ErrorCode → List ErrorCatalogEntry → Option ErrorCatalogEntry
find_entry c [] = none
find_entry c (e ∷ es) = if ordinal e.code == ordinal c then some e else find_entry c es

pub catalog_entry : ErrorCode → Option ErrorCatalogEntry
unfolding find_entry
catalog_entry c = find_entry c error_catalog

-- Only a stale version, a rate limit and an unexpected failure are worth an identical retry.
abbrev pub retry_can_succeed : ErrorCode → Bool
retry_can_succeed (domain_code conflict) = true
retry_can_succeed (domain_code c) = false
retry_can_succeed (transport_code rate_limited) = true
retry_can_succeed (transport_code internal_server_error) = true
retry_can_succeed (transport_code c) = false

abbrev pub IsListed : ErrorCode → Type 0
IsListed c =
    (e : ErrorCatalogEntry) × (catalog_entry c ≡ some e)
    × (e.code ≡ c)
    × (e.retryable ≡ retry_can_succeed c)
    × (400 ≤ e.http_analogue)
    × (e.http_analogue < 600)

domain-IsListed : (c : DomainErrorCode) → IsListed (domain_code c)
unfolding catalog_entry
domain-IsListed conflict = (entry _ _ _, refl, refl, refl, omega arith, omega arith)
domain-IsListed c = (entry _ _ _, refl, refl, refl, omega arith, omega arith)

transport-IsListed : (t : TransportErrorCode) → IsListed (transport_code t)
unfolding catalog_entry
transport-IsListed unauthenticated = (entry _ _ _, refl, refl, refl, omega arith, omega arith)
transport-IsListed t = (entry _ _ _, refl, refl, refl, omega arith, omega arith)

-- The catalog is complete: every domain and transport code has an entry of that very code, with an
-- HTTP analogue in the error range, and the entry is marked retryable exactly for a version
-- conflict, a rate limit and an internal failure.
pub catalog_complete : (c : ErrorCode) → IsListed c
catalog_complete (domain_code c) = domain-IsListed c
catalog_complete (transport_code t) = transport-IsListed t
