-- ===== src/Profiles.antt =====
-- `modules/profiles`: memberships and shared profiles. The domain's transition functions are in
-- `Membership` and `SharedProfile`, the use cases of `profiles.service.ts` in `Service`, and the
-- job that expires invitations in `Expiry`.
pub mod Membership
pub mod SharedProfile
pub mod Service
pub mod Invariant
pub mod Governance
pub mod Roles
pub mod Ownership
pub mod Lifecycle
pub mod Founding
pub mod History
pub mod Expiry
