-- ===== src/Credit/Repository.antt =====
-- kokoro-credit/src/infrastructure/prisma/prisma-credit-repository.ts.
pub mod Rows
pub mod Mutations
pub mod Holds
pub mod Accounts
pub mod Pricing
pub mod Rules
