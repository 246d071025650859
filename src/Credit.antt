-- ===== src/Credit.antt =====
-- kokoro-credit: accounts with three buckets of credit, holds, the ledger and pricing.
pub mod Types
pub mod Amount
pub mod Buckets
pub mod Boundary
pub mod Store
pub mod Repository
pub mod Service
pub mod Checker
pub mod Machine
pub mod Mutation
pub mod Proofs
pub mod Tests
