-- ===== src/Store.antt =====
-- The database rows of one tenant, and the transactions on them: `tenancy.service.ts`,
-- `outbox.writer.ts`, `audit.writer.ts`, `versioned-repository.ts` and the repositories of
-- `modules/profiles/infrastructure`. Row-level security is the database's: the store is what a
-- tenant sees. Payloads of events and audit entries are left out.
mod Rows
mod Transaction
pub mod Memberships
pub mod Tables
pub mod Table
pub mod Commit
pub mod Inserted
pub mod Post
pub use Rows.*
unfoldable pub use Transaction.*
