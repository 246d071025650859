-- ===== src/Base/Effect.antt =====
-- Effects. A transaction that throws is rolled back, so its error carries no state; a call that
-- makes several transactions keeps the effect of those that committed before it throws.
mod Defs
pub mod Transaction
pub mod Async
pub use Defs.*
