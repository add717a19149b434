-- ===== src/Errors.antt =====
-- `common/errors`: the domain error taxonomy of `domain-error.ts`, the `Result` of `result.ts`,
-- the catalog of `catalog.ts` (child `Catalog`), and the exceptions that the code throws.
-- An error keeps its code and the numbers of its details; messages and the details that only
-- repeat an argument are left out.
pub mod Catalog
mod Types
pub use Types.*
