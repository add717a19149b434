-- ===== src/SharedElements.antt =====
-- `modules/shared-elements` and `modules/accounts`: goals, debts, their responsibilities, investments,
-- budgets and accounts; the domain rules, the repository, the use cases and the consumer of
-- `MemberLeft`.
pub mod Balances
pub mod Responsibility
pub mod Repository
pub mod Shares
pub mod Service
pub mod Guarded
pub mod Rescaling
pub mod Responsible
pub mod Balancing
pub mod Remaining
pub mod Leaving
pub mod NewDebt
pub mod Reassignment
pub mod Accounts
pub mod PersonalProfile
pub mod Transfer
pub mod Contributing
