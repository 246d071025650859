-- ===== src/Credit/Proofs/Preserve.antt =====
-- Every operation of the repository of kokoro-credit keeps the database well formed.
pub mod Writes
pub mod Ledger
pub mod Holds
pub mod Settle
pub mod Accounts
