-- ===== src/Contributions.antt =====
-- `modules/contributions`: the domain rules, the repository, and the use cases on periods and
-- contributions.
pub mod Analytics
pub mod Reconciliation
pub mod Cap
pub mod Redistribution
pub mod Repository
pub mod Windows
pub mod Commitment
pub mod CapStep
pub mod Period
pub mod Service
pub mod FirstPlan
pub mod Allocating
pub mod Redistributing
pub mod ForwardOnly
pub mod Redistribute
pub mod Recording
pub mod RollOver
pub mod RollAll
