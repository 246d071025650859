-- ===== src/Base.antt =====
-- Names that every module shares.
mod Logic
pub mod Int
pub mod Effect
pub mod Table
pub mod Text
pub mod Decimal
pub mod Calendar
pub mod Iso
pub use Logic.*
