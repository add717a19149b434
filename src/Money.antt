-- ===== src/Money.antt =====
-- `common/money`: the Money value object (`money.ts`) and the basis points of `percentage.ts`.
-- A `number` is an integer or has a fraction (NaN and the infinities count as fractional: all that
-- the code asks of a `number` first is `Number.isInteger`).
pub mod Currency
pub mod Values
pub mod Percentage
pub mod Allocation
