-- ===== src/Tests.antt =====
-- The theorems at concrete inputs: amounts and shares, memberships, and whole use cases on a store.
mod Amounts
mod Sharing
mod Governance
mod Ledger
mod Periods
mod Elements
mod Events
