-- ===== src/Lib.antt =====
-- Financial OS: shared household finances. This library models the API's own logic, under
-- `apps/api/src`: exact money arithmetic, the governance of shared profiles, the rules on
-- contributions, debts and goals, and the transactions that the use cases run in.
--
-- Parts and files (paths are relative to `apps/api/src`):
--   Money            `common/money`: `Money` and `normalizeCurrency` (Currency, Values), `Percentage`,
--                    and `allocateByLargestRemainder` (Allocation, one definition per step of it).
--   Errors           `common/errors`: error codes, `Result`, thrown exceptions and the catalog.
--   Calendar         the UTC calendar of JavaScript's `Date`, with the setters that periods use.
--   Contributions    `modules/contributions`. The domain: Analytics, Windows and Reconciliation (both
--                    of contribution-period.ts), Cap and Redistribution; `contribution.repository.ts`
--                    (Repository); the use cases of period.service.ts (Period) and of
--                    contributions.service.ts (Service). Commitment and CapStep say what the members
--                    commit over all profiles; FirstPlan, Allocating, Redistributing, ForwardOnly,
--                    Redistribute, Recording, RollOver and RollAll relate the use cases to that and
--                    to periods.
--   Permissions      `modules/permissions/capability-matrix.ts`.
--   Profiles         `modules/profiles`: the state machine of memberships (Membership), shared profiles
--                    (SharedProfile), the use cases of profiles.service.ts (Service, a function
--                    `x_tx` for the method `x`) and the expiry job (Expiry). Invariant says what a
--                    sound store is; Governance, Roles, Ownership, Lifecycle, Founding
--                    and History relate the use cases to it.
--   SharedElements   `modules/shared-elements` and `modules/accounts`. The domain: Balances and
--                    Responsibility; `shared-elements.repository.ts` (Repository); the use cases of
--                    shared-elements.service.ts (Service), accounts.service.ts (Accounts) and the
--                    consumer of `MemberLeft` (Reassignment). Shares says what a debt's shares must
--                    be; Guarded, Rescaling, Responsible, Balancing, Remaining, Leaving and NewDebt
--                    relate the use cases to it, and PersonalProfile, Transfer and Contributing
--                    those of accounts to all the money there is.
--   Store            the rows of one tenant and units of work on them: `TenancyService.withTenant`,
--                    `OutboxWriter`, `AuditWriter`, the optimistic lock of
--                    `common/persistence/versioned-repository.ts` and the repositories of profiles.
--                    Table is the interface of a table with identifiers, which each repository
--                    fills, and Commit the lock on its abstract view, a finite map.
--   Events           `modules/events/registry`: the handlers of each type of event and the worker's
--                    `process`; Claims is one delivery, Redelivery delivers an event again and again.
--   RateLimiter      `common/throttling/rate-limiter.service.ts`.
--   Pagination       `common/graphql/pagination.ts`; Walk is a client that asks for page after page.
--   Base             lists, Boolean tests and integers for all of them.
--   Tests            the theorems at concrete inputs.
--
-- How parts interact: a use case reads rows, asks a pure domain function, which returns a delta or an
-- error, writes the delta, and appends an event and an audit entry, all in one unit of work
-- `Store → Outcome A`. An outcome is a result, a value or an error, with the store behind it, or a
-- rollback for an exception. Debt responsibilities and money splits both go through the allocator.
--
-- Modelling choices. A `bigint` is an integer without bounds, as in JavaScript; behind its guards
-- the allocator works on naturals. A `number` that code tests by `Number.isInteger` is an integer
-- or a fractional value. Identifiers are naturals, since code only compares them. A currency code
-- or a decimal string is a list of character codes, and upper case is that of ASCII. Dates are
-- milliseconds since 1970. `Array.prototype.sort` is a stable insertion sort. A `Map` is a list of
-- pairs with distinct keys. `now` and the identifiers of new rows are arguments. Fuel is used by
-- the printer of a number, the number plus one, which is more than it has digits, and by the walk
-- through pages, the number of items plus one, since every page but the last has an item; all
-- other loops go through a list. Base64url coding, Redis and the handlers of events are parameters;
-- Redis answers, and its markers do not expire while an event is delivered. A store
-- holds what row-level security shows to a tenant, and units of work run one after the other.
-- Insertions that would repeat a unique key of `prisma/schema.prisma` (beside `src`) throw: profile
-- and user of a membership, profile and version of a plan, debt and member of a responsibility, and
-- profile, period and category of a budget. So do a membership of a profile or user that does not exist
-- and a debt's share for a membership that does not: the two tables where a client's identifier
-- reaches a foreign key unread. The other foreign keys are of rows that the same unit of work has read or
-- inserted, or of the caller's own user row. Amounts are taken to fit the 64-bit columns they are
-- stored in; the exception that the database throws beyond them is left out. The calendar finds the
-- year of a day on fuel, the number of the day, and the month on fuel 12; each round takes off a
-- whole year or month. What a loop over periods creates has identifiers from a function of the period.
--
-- Not modelled: error messages, event payloads, names of rows, and the before and after values of audit
-- entries; the relay of events to the queue; resolvers, read models, AI coaching, infrastructure, and the
-- mobile client.
pub mod Base
pub mod Errors
pub mod Money
pub mod Calendar
pub mod Events
pub mod Contributions
pub mod Pagination
pub mod Permissions
pub mod Profiles
pub mod RateLimiter
pub mod SharedElements
pub mod Store
pub mod Tests
